-- ===== src/Prelude/Bytes.antt =====
-- Bytes and little-endian words: `to_le_bytes` and `from_le_bytes` of the unsigned types.
use openforge_aio.Prelude.Lists.{length, All}
use Prim.Native.Nat.{ℕ, zero, suc, ◌+◌, ◌*◌, ◌/◌, ◌%◌, ◌^◌, ◌<◌}
use mathlib.Core.Path.{◌≡◌, refl, ap, ap₂, ◌∙◌}
use mathlib.Core.List.{List, [], ◌∷◌}
use native.Mathlib.Omega.{arith}

abbrev pub IsByte : ℕ → Type 0
IsByte b = b < 256

-- The `w` lowest bytes of `v`, lowest first.
abbrev pub to_le : ℕ → ℕ → List ℕ
to_le zero v = []
to_le (suc w) v = (v % 256) ∷ to_le w (v / 256)

abbrev pub from_le : List ℕ → ℕ
from_le [] = 0
from_le (b ∷ bs) = b + 256 * from_le bs

pub length-to_le : (w v : ℕ) → length (to_le w v) ≡ w
length-to_le zero v = refl
length-to_le (suc w) v = ap suc (length-to_le w (v / 256))

pub to_le-IsByte : (w v : ℕ) → All IsByte (to_le w v)
to_le-IsByte zero v = tt
to_le-IsByte (suc w) v = (omega arith, to_le-IsByte w (v / 256))

pub from_le-to_le : (w v : ℕ) → v < 256 ^ w → from_le (to_le w v) ≡ v
from_le-to_le zero v h = omega arith
from_le-to_le (suc w) v h = omega (arith, from_le-to_le w (v / 256) (omega arith))

low_byte : (b r : ℕ) → b < 256 → (b + 256 * r) % 256 ≡ b
low_byte b r h = omega arith

high_bytes : (b r : ℕ) → b < 256 → (b + 256 * r) / 256 ≡ r
high_bytes b r h = omega arith

pub to_le-from_le : (bs : List ℕ) → All IsByte bs → to_le (length bs) (from_le bs) ≡ bs
to_le-from_le [] h = refl
to_le-from_le (b ∷ bs) h =
    ap₂ ◌∷◌ (low_byte b (from_le bs) h.0)
      (ap (to_le (length bs)) (high_bytes b (from_le bs) h.0) ∙ to_le-from_le bs h.1)

pow_step : (n b r : ℕ) → b < 256 → r < 256 ^ n → b + 256 * r < 256 ^ suc n
pow_step n b r h k = omega arith

pub from_le_lt : (bs : List ℕ) → All IsByte bs → from_le bs < 256 ^ length bs
from_le_lt [] h = omega arith
from_le_lt (b ∷ bs) h = pow_step (length bs) b (from_le bs) h.0 (from_le_lt bs h.1)

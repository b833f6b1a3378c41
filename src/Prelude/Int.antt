-- ===== src/Prelude/Int.antt =====
-- Signed integers, and the two's complement reading of a word.
use openforge_aio.Prelude.Tests.{ltb, if◌then◌else◌, Bool-cases}
use Prim.Native.Nat.{ℕ, suc, ◌-◌, ◌*◌, ◌<◌}
use mathlib.Core.Path.{◌≡◌}
use mathlib.Core.Logic.{inl, inr}
use mathlib.Core.Bool.{Bool, true, false}
use native.Mathlib.Omega.{arith}

-- `negsuc n` is -(n + 1).
pub data ℤ : Type 0 where
  pos : ℕ → ℤ
  negsuc : ℕ → ℤ

abbrev pub is_neg : ℤ → Bool
is_neg (pos n) = false
is_neg (negsuc n) = true

abbrev pub zlt : ℤ → ℤ → Bool
zlt (pos m) (pos n) = ltb m n
zlt (pos m) (negsuc n) = false
zlt (negsuc m) (pos n) = true
zlt (negsuc m) (negsuc n) = ltb n m

-- `unsigned_abs`
abbrev pub unsigned_abs : ℤ → ℕ
unsigned_abs (pos n) = n
unsigned_abs (negsuc n) = suc n

-- The signed number of a word of modulus `2 * half`.
abbrev pub to_signed : ℕ → ℕ → ℤ
to_signed half n = if ltb n half then pos n else negsuc (2 * half - n - 1)

-- The word of a signed number.
abbrev pub of_signed : ℕ → ℤ → ℕ
of_signed half (pos n) = n
of_signed half (negsuc n) = 2 * half - suc n

-- The range of the signed type.
abbrev pub InSigned : ℕ → ℤ → Type 0
InSigned half (pos n) = n < half
InSigned half (negsuc n) = n < half

pub to_signed-of_signed :
    (half : ℕ) (z : ℤ) → InSigned half z → to_signed half (of_signed half z) ≡ z
to_signed-of_signed half (pos n) h = ground arith
to_signed-of_signed half (negsuc n) h = ground arith

pub of_signed-lt : (half : ℕ) (z : ℤ) → InSigned half z → of_signed half z < 2 * half
of_signed-lt half (pos n) h = omega arith
of_signed-lt half (negsuc n) h = omega arith

pub of_signed-to_signed : (half n : ℕ) → n < 2 * half → of_signed half (to_signed half n) ≡ n
of_signed-to_signed half n h = ground arith

pub to_signed-InSigned : (half n : ℕ) → n < 2 * half → InSigned half (to_signed half n)
to_signed-InSigned half n h = elim (Bool-cases (ltb n half)) [
  | inl low ↦ rw low (ground arith)
  | inr high ↦ rw high (ground arith)
]

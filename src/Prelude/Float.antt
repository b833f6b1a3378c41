-- ===== src/Prelude/Float.antt =====
-- `f32` as its bit pattern: the order and the finiteness of IEEE 754.
use openforge_aio.Prelude.Tests.{ltb, leb, if◌then◌else◌}
use Prim.Native.Nat.{ℕ, ◌+◌, ◌%◌}
use mathlib.Core.Bool.{Bool, true, false, ◌||◌, ◌&&◌}

abbrev pub f32_magnitude : ℕ → ℕ
f32_magnitude v = v % 0x8000_0000

abbrev pub f32_is_neg : ℕ → Bool
f32_is_neg v = leb 0x8000_0000 v

-- `f32::is_finite`
unfoldable pub f32_is_finite : ℕ → Bool
f32_is_finite v = ltb (f32_magnitude v) 0x7f80_0000

-- `f32::is_nan`
unfoldable pub f32_is_nan : ℕ → Bool
f32_is_nan v = ltb 0x7f80_0000 (f32_magnitude v)

-- `a <= b`, which is false if one of them is not a number; the zeros are equal.
unfoldable pub f32_le : ℕ → ℕ → Bool
unfolding f32_is_nan
f32_le a b =
    if f32_is_nan a || f32_is_nan b
    then false
    else if f32_is_neg a
    then (if f32_is_neg b then leb (f32_magnitude b) (f32_magnitude a) else true)
    else if f32_is_neg b
    then leb (f32_magnitude a + f32_magnitude b) 0
    else leb (f32_magnitude a) (f32_magnitude b)

abbrev pub f64_magnitude : ℕ → ℕ
f64_magnitude v = v % 0x8000_0000_0000_0000

-- `f64::is_finite`
unfoldable pub f64_is_finite : ℕ → Bool
f64_is_finite v = ltb (f64_magnitude v) 0x7ff0_0000_0000_0000

-- `v > 0.0`: the sign is positive, and the magnitude neither zero nor that of a NaN.
unfoldable pub f64_is_positive : ℕ → Bool
f64_is_positive v = ltb 0 v && leb v 0x7ff0_0000_0000_0000

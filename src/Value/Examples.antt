-- ===== src/Value/Examples.antt =====
-- Runs of crates/runtime/src/value.rs on the inputs of its tests, and the theorems at them.
use openforge_aio.Prelude.{◌^◌, ◌-◌, ◌<◌, ◌≡◌, ◌⊎◌, refl, false, [], ◌∷◌, ◌++◌, take, arith}
use openforge_aio.Prelude.Result.{ok, err}
use openforge_aio.Prelude.Int.{negsuc, to_signed, of_signed}
use openforge_aio.Prelude.Text.{codes, is_whitespace, to_digit, trim, from_str_radix, without_char}
use openforge_aio.Value.{ValueKind, size, Value, kind, to_le_bytes, kind_mismatch, from_le_bytes}
use openforge_aio.Value.HexBits.{signed, unsigned, quoted, exceeds_width, reinterp, as_i32, as_u32}
use openforge_aio.Value.HexBits.Width.{
  FitsWidth, Refused, map_ok, as_i32-as_u32, as_u32-signed, as_i32-signed,
}
use openforge_aio.Value.HexBits.Decimal.{spelling, reinterp-quoted}
use openforge_aio.Value.Bytes.{Decoded, from_le_bytes-to_le_bytes, from_le_bytes_lem}

dead_beef : as_i32 (quoted (codes "0xDEADBEEF")) ≡ ok (negsuc 559_038_736)
unfolding as_i32 trim is_whitespace from_str_radix to_digit without_char
dead_beef = refl

minus_one : as_u32 (quoted (codes " -0x1 ")) ≡ ok 0xffff_ffff
unfolding as_u32 trim is_whitespace from_str_radix to_digit without_char
minus_one = refl

lowest : as_i32 (quoted (codes "-0x8000_0000")) ≡ ok (negsuc (2 ^ 31 - 1))
unfolding as_i32 trim is_whitespace from_str_radix to_digit without_char
lowest = refl

too_wide :
    as_i32 (quoted (codes "0x1FFFFFFFF"))
    ≡ err (exceeds_width (codes "0x1FFFFFFFF") 0x1_ffff_ffff 32 false)
unfolding as_i32 trim is_whitespace from_str_radix to_digit without_char
too_wide = refl

-- A sign behind the radix prefix is taken too.
sign_behind_prefix : as_u32 (quoted (codes "0x+5")) ≡ ok 5
unfolding as_u32 trim is_whitespace from_str_radix to_digit without_char
sign_behind_prefix = refl

as_i32-as_u32_example :
    as_i32 (quoted (codes "-0x1")) ≡ map_ok (to_signed (2 ^ 31)) (as_u32 (quoted (codes "-0x1")))
as_i32-as_u32_example = as_i32-as_u32 (quoted (codes "-0x1"))

as_u32-signed_example :
    (FitsWidth (2 ^ 31) (negsuc 4)
      × (as_u32 (signed (negsuc 4)) ≡ ok (of_signed (2 ^ 31) (negsuc 4))))
    ⊎ ((¬ FitsWidth (2 ^ 31) (negsuc 4)) × Refused (as_u32 (signed (negsuc 4))))
as_u32-signed_example = as_u32-signed (negsuc 4)

as_i32-signed_example : as_i32 (signed (negsuc 16)) ≡ ok (negsuc 16)
as_i32-signed_example = as_i32-signed (negsuc 16) (omega arith)

reinterp-quoted_example :
    reinterp (quoted (spelling (unsigned 70000))) 16 (λ u. u)
    ≡ reinterp (unsigned 70000) 16 (λ u. u)
reinterp-quoted_example = reinterp-quoted (unsigned 70000) 16 (λ u. u) (omega arith)

le_bytes : to_le_bytes (Value.i16 (negsuc 1)) ≡ 0xfe ∷ 0xff ∷ []
unfolding to_le_bytes
le_bytes = refl

from_le_bytes-to_le_bytes_example :
    from_le_bytes (kind (Value.i32 (negsuc 4))) (to_le_bytes (Value.i32 (negsuc 4)) ++ 9 ∷ [])
    ≡ ok (Value.i32 (negsuc 4))
from_le_bytes-to_le_bytes_example =
    from_le_bytes-to_le_bytes (Value.i32 (negsuc 4)) (9 ∷ []) (omega arith)

from_le_bytes_lem_example :
    ((2 < size ValueKind.u16)
      × (from_le_bytes ValueKind.u16 (1 ∷ 2 ∷ []) ≡ err (kind_mismatch ValueKind.u16 2)))
    ⊎ ((v : Value) × (from_le_bytes ValueKind.u16 (1 ∷ 2 ∷ []) ≡ ok v)
        × Decoded ValueKind.u16 (take (size ValueKind.u16) (1 ∷ 2 ∷ [])) v)
from_le_bytes_lem_example = from_le_bytes_lem ValueKind.u16 (1 ∷ 2 ∷ []) (omega arith)

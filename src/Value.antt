-- ===== src/Value.antt =====
-- crates/runtime/src/value.rs: typed values and their bytes. A float is its bit pattern, which is
-- what `to_le_bytes` and `from_le_bytes` of f32 and f64 move.
pub mod HexBits
pub mod Bytes
mod Examples
use openforge_aio.Prelude.{
  ℕ, ◌^◌, ◌<◌, Bool, true, false, not, Option, none, some, List, [], ◌∷◌, length, take, ltb, ◌==◌,
  if◌then◌else◌,
}
use openforge_aio.Prelude.Run.{Run, done, panic}
use openforge_aio.Prelude.Result.{Result, ok, err}
use openforge_aio.Prelude.Int.{ℤ, to_signed, of_signed, InSigned}
use openforge_aio.Prelude.Bytes.{to_le, from_le}

pub data ValueKind : Type 0 where
  bool u8 u16 u32 u64 i8 i16 i32 i64 f32 f64 : ValueKind

unfoldable pub size : ValueKind → ℕ
size ValueKind.bool = 1
size ValueKind.u8 = 1
size ValueKind.u16 = 2
size ValueKind.u32 = 4
size ValueKind.u64 = 8
size ValueKind.i8 = 1
size ValueKind.i16 = 2
size ValueKind.i32 = 4
size ValueKind.i64 = 8
size ValueKind.f32 = 4
size ValueKind.f64 = 8

pub data Value : Type 0 where
  bool : Bool → Value
  u8 u16 u32 u64 : ℕ → Value
  i8 i16 i32 i64 : ℤ → Value
  f32 f64 : ℕ → Value

unfoldable pub kind : Value → ValueKind
kind (Value.bool b) = ValueKind.bool
kind (Value.u8 v) = ValueKind.u8
kind (Value.u16 v) = ValueKind.u16
kind (Value.u32 v) = ValueKind.u32
kind (Value.u64 v) = ValueKind.u64
kind (Value.i8 v) = ValueKind.i8
kind (Value.i16 v) = ValueKind.i16
kind (Value.i32 v) = ValueKind.i32
kind (Value.i64 v) = ValueKind.i64
kind (Value.f32 v) = ValueKind.f32
kind (Value.f64 v) = ValueKind.f64

unfoldable pub to_le_bytes : Value → List ℕ
to_le_bytes (Value.bool b) = (if b then 1 else 0) ∷ []
to_le_bytes (Value.u8 v) = to_le 1 v
to_le_bytes (Value.u16 v) = to_le 2 v
to_le_bytes (Value.u32 v) = to_le 4 v
to_le_bytes (Value.u64 v) = to_le 8 v
to_le_bytes (Value.i8 v) = to_le 1 (of_signed (2 ^ 7) v)
to_le_bytes (Value.i16 v) = to_le 2 (of_signed (2 ^ 15) v)
to_le_bytes (Value.i32 v) = to_le 4 (of_signed (2 ^ 31) v)
to_le_bytes (Value.i64 v) = to_le 8 (of_signed (2 ^ 63) v)
to_le_bytes (Value.f32 v) = to_le 4 v
to_le_bytes (Value.f64 v) = to_le 8 v

-- `RuntimeError::KindMismatch`, with what its two texts are formatted from.
pub data ValueError : Type 0 where
  kind_mismatch : ValueKind → ℕ → ValueError

-- The bytes `[buf[0], .., buf[size - 1]]` that the arms of the `match` pick out.
unfoldable pub decode : ValueKind → List ℕ → Value
decode ValueKind.bool bs = Value.bool (not (from_le bs == 0))
decode ValueKind.u8 bs = Value.u8 (from_le bs)
decode ValueKind.u16 bs = Value.u16 (from_le bs)
decode ValueKind.u32 bs = Value.u32 (from_le bs)
decode ValueKind.u64 bs = Value.u64 (from_le bs)
decode ValueKind.i8 bs = Value.i8 (to_signed (2 ^ 7) (from_le bs))
decode ValueKind.i16 bs = Value.i16 (to_signed (2 ^ 15) (from_le bs))
decode ValueKind.i32 bs = Value.i32 (to_signed (2 ^ 31) (from_le bs))
decode ValueKind.i64 bs = Value.i64 (to_signed (2 ^ 63) (from_le bs))
decode ValueKind.f32 bs = Value.f32 (from_le bs)
decode ValueKind.f64 bs = Value.f64 (from_le bs)

unfoldable pub from_le_bytes : ValueKind → List ℕ → Result ValueError Value
unfolding size decode
from_le_bytes k buf =
    if ltb (length buf) (size k)
    then err (kind_mismatch k (length buf))
    else ok (decode k (take (size k) buf))

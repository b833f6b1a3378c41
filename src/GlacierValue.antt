-- ===== src/GlacierValue.antt =====
-- crates/glacier-protocol/src/lib.rs: the typed values of the protocol and their bytes. A float is
-- its bit pattern.
pub mod Width
mod Examples
use openforge_aio.Prelude.{ℕ, ◌^◌, ◌%◌, Bool, List, [], ◌∷◌, length, if◌then◌else◌}
use openforge_aio.Prelude.Int.{ℤ, of_signed}
use openforge_aio.Prelude.Bytes.{to_le}

pub data ValueKind : Type 0 where
  i8 i16 i32 i64 u8 u16 u32 u64 f32 f64 bool : ValueKind
  bytes : ℕ → ValueKind

unfoldable pub size : ValueKind → ℕ
size ValueKind.i8 = 1
size ValueKind.u8 = 1
size ValueKind.bool = 1
size ValueKind.i16 = 2
size ValueKind.u16 = 2
size ValueKind.i32 = 4
size ValueKind.u32 = 4
size ValueKind.f32 = 4
size ValueKind.i64 = 8
size ValueKind.u64 = 8
size ValueKind.f64 = 8
size (ValueKind.bytes n) = n

pub data GlacierValue : Type 0 where
  i8 i16 i32 i64 : ℤ → GlacierValue
  u8 u16 u32 u64 f32 f64 : ℕ → GlacierValue
  bool : Bool → GlacierValue
  bytes : List ℕ → GlacierValue

unfoldable pub kind : GlacierValue → ValueKind
kind (GlacierValue.i8 v) = ValueKind.i8
kind (GlacierValue.i16 v) = ValueKind.i16
kind (GlacierValue.i32 v) = ValueKind.i32
kind (GlacierValue.i64 v) = ValueKind.i64
kind (GlacierValue.u8 v) = ValueKind.u8
kind (GlacierValue.u16 v) = ValueKind.u16
kind (GlacierValue.u32 v) = ValueKind.u32
kind (GlacierValue.u64 v) = ValueKind.u64
kind (GlacierValue.f32 v) = ValueKind.f32
kind (GlacierValue.f64 v) = ValueKind.f64
kind (GlacierValue.bool v) = ValueKind.bool
kind (GlacierValue.bytes v) = ValueKind.bytes (length v % 2 ^ 32)

unfoldable pub to_le_bytes : GlacierValue → List ℕ
to_le_bytes (GlacierValue.i8 v) = to_le 1 (of_signed (2 ^ 7) v)
to_le_bytes (GlacierValue.i16 v) = to_le 2 (of_signed (2 ^ 15) v)
to_le_bytes (GlacierValue.i32 v) = to_le 4 (of_signed (2 ^ 31) v)
to_le_bytes (GlacierValue.i64 v) = to_le 8 (of_signed (2 ^ 63) v)
to_le_bytes (GlacierValue.u8 v) = to_le 1 v
to_le_bytes (GlacierValue.u16 v) = to_le 2 v
to_le_bytes (GlacierValue.u32 v) = to_le 4 v
to_le_bytes (GlacierValue.u64 v) = to_le 8 v
to_le_bytes (GlacierValue.f32 v) = to_le 4 v
to_le_bytes (GlacierValue.f64 v) = to_le 8 v
to_le_bytes (GlacierValue.bool v) = (if v then 1 else 0) ∷ []
to_le_bytes (GlacierValue.bytes v) = v

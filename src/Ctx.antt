-- ===== src/Ctx.antt =====
-- crates/core/src/ctx.rs and error.rs: the trait by which everything else reaches a process, with
-- the default bodies of `patch_code` and `restore_code`. The methods without a body are the fields
-- of `Ctx`, a parameter of all that uses them. The text of a `Custom` message is `Custom`.
pub mod Resolve
pub mod Patch
pub mod Flat
pub mod Local
pub mod Examples
use openforge_aio.Prelude.{ℕ, ◌≡◌, Bool, true, false, not, List, [], length, ◌==◌}
use openforge_aio.Prelude.Result.{Result, ok, err, fail_if, ◌>>=◌, ◌>>◌}
use openforge_aio.Prelude.Text.{text_eq}
use openforge_aio.Memory.{ReadError}
use openforge_aio.Memory.Bytes.{overwrite, slice, inside}

pub data Custom : Type 0 where
  replacement_empty : Custom
  length_mismatch : ℕ → ℕ → Custom
  bytes_differ : ℕ → List ℕ → List ℕ → Custom
  operand_size : ℕ → Custom
  -- `LocalCtx`
  local_read local_write : ℕ → ReadError → Custom
  -- What the process or its agent reports.
  other : ℕ → Custom

pub data Error : Type 0 where
  read_failed write_failed : ℕ → ℕ → Error
  bad_pattern custom : Custom → Error

pub record Ctx : Type 1 where
  -- The process, with all that a write can change.
  pub Proc : Type 0
  -- The buffer as `read_bytes` leaves it.
  pub read_bytes : Proc → ℕ → ℕ → Result Error (List ℕ)
  pub write_bytes : Proc → ℕ → List ℕ → Result Error (Unit {0}) × Proc
  -- The byte at an address.
  pub view : Proc → ℕ → ℕ

-- A read fills the whole buffer from memory, and a write stores its bytes and nothing else.
pub record CtxLaws (ctx : Ctx) : Type 0 where
  pub read_lem :
      (p : ctx.Proc) (addr len : ℕ) (bs : List ℕ)
      → ctx.read_bytes p addr len ≡ ok bs
      → bs ≡ slice (ctx.view p) addr len
  pub write_lem :
      (p : ctx.Proc) (addr : ℕ) (bs : List ℕ)
      → (ctx.write_bytes p addr bs).0 ≡ ok tt
      → (x : ℕ) → ctx.view (ctx.write_bytes p addr bs).1 x ≡ overwrite (ctx.view p) addr bs x

-- A write, whether it succeeds or fails, changes no byte outside its range.
abbrev pub Frame : Ctx → Type 0
Frame ctx =
    (p : ctx.Proc) (addr : ℕ) (bs : List ℕ) (x : ℕ)
    → inside addr (length bs) x ≡ false
    → ctx.view (ctx.write_bytes p addr bs).1 x ≡ ctx.view p x

pub data FieldKind : Type 0 where
  i8 i16 i32 i64 u8 u16 u32 u64 f32 f64 bool : FieldKind
  bytes : ℕ → FieldKind

abbrev pub size : FieldKind → ℕ
size FieldKind.i8 = 1
size FieldKind.u8 = 1
size FieldKind.bool = 1
size FieldKind.i16 = 2
size FieldKind.u16 = 2
size FieldKind.i32 = 4
size FieldKind.u32 = 4
size FieldKind.f32 = 4
size FieldKind.i64 = 8
size FieldKind.u64 = 8
size FieldKind.f64 = 8
size (FieldKind.bytes n) = n

module _ (ctx : Ctx) where
  -- What `patch_code` checks before it writes: the bytes that stand there.
  unfoldable pub verified : ctx.Proc → ℕ → List ℕ → List ℕ → Result Error (List ℕ)
  verified p addr original replacement = do
    fail_if (length replacement == 0) (custom replacement_empty)
    fail_if (not (length original == length replacement))
        (custom (length_mismatch (length original) (length replacement)))
    current ← ctx.read_bytes p addr (length replacement)
    fail_if (not (text_eq current original)) (custom (bytes_differ addr original current))
    ok current

  abbrev pub wrote : List ℕ → Result Error (Unit {0}) → Result Error (List ℕ)
  wrote current (ok u) = ok current
  wrote current (err e) = err e

  abbrev pub store :
      ctx.Proc → ℕ → List ℕ → Result Error (List ℕ) → Result Error (List ℕ) × ctx.Proc
  store p addr replacement (err e) = (err e, p)
  store p addr replacement (ok current) =
      let (answer, p') = ctx.write_bytes p addr replacement in (wrote current answer, p')

  unfoldable pub patch_code : ctx.Proc → ℕ → List ℕ → List ℕ → Result Error (List ℕ) × ctx.Proc
  patch_code p addr original replacement =
      store p addr replacement (verified p addr original replacement)

  unfoldable pub restore_code : ctx.Proc → ℕ → List ℕ → Result Error (Unit {0}) × ctx.Proc
  restore_code p addr original = ctx.write_bytes p addr original

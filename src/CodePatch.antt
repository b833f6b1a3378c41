-- ===== src/CodePatch.antt =====
-- crates/glacier-007-dll/src/code_patch.rs: code patches in the game's `.text`, with a registry of
-- the bytes to put back when the client leaves.
pub mod Apply
pub mod Detach
pub mod Stacked
mod Examples
use openforge_aio.Prelude.{
  ℕ, ◌+◌, ◌≡◌, Bool, true, false, Option, none, some, List, [], ◌∷◌, length, ◌==◌, if◌then◌else◌,
}
use openforge_aio.Prelude.Result.{Result, ok, err, ◌>>=◌, ◌>>◌, fail_if, map_err}
use openforge_aio.Prelude.Dict.{Dict, insert, remove, nat_eq}
use openforge_aio.Prelude.Text.{text_eq}
use openforge_aio.Memory.{Os, ReadError, failed, read_bytes, write_bytes}

pub data PatchError : Type 0 where
  empty_replacement : PatchError
  length_mismatch : ℕ → ℕ → PatchError
  read_failed : ReadError → PatchError
  original_mismatch : List ℕ → List ℕ → PatchError
  write_failed : ReadError → PatchError

-- `Response::WriteOk`, or `Response::Error` with what its text is formatted from.
pub data Response : Type 0 where
  write_ok : Response
  code_patch_error : ℕ → PatchError → Response
  restore_patch_error : ℕ → ReadError → Response

abbrev pub page_execute_readwrite : ℕ
page_execute_readwrite = 0x40

module _ (os : Os) where
  abbrev pub flushed :
      ℕ → ℕ → Result ReadError (Unit {0}) → os.Mem → Result ReadError (Unit {0}) × os.Mem
  flushed addr len (err e) m = (err e, m)
  flushed addr len (ok u) m = (ok u, os.flush m addr len)

  abbrev pub unprotected : ℕ → List ℕ → Option ℕ → os.Mem → Result ReadError (Unit {0}) × os.Mem
  unprotected addr bytes none m = (err failed, m)
  unprotected addr bytes (some old) m =
      let (written, m') = write_bytes os m addr bytes in
      let (_, m'') = os.protect m' addr (length bytes) old in
      flushed addr (length bytes) written m''

  unfoldable pub write_bytes_at : os.Mem → ℕ → List ℕ → Result ReadError (Unit {0}) × os.Mem
  write_bytes_at m addr bytes =
      if length bytes == 0
      then (ok tt, m)
      else (let (old, m') = os.protect m addr (length bytes) page_execute_readwrite in
          unprotected addr bytes old m')

  -- The checks of `apply`, in the order of the source.
  unfoldable pub verify : os.Mem → ℕ → List ℕ → List ℕ → Result PatchError (Unit {0})
  verify m addr original replacement = do
    fail_if (length replacement == 0) empty_replacement
    fail_if (if length original == length replacement then false else true)
        (length_mismatch (length original) (length replacement))
    actual ← map_err (read_bytes os m addr (length replacement)) read_failed
    fail_if (if text_eq actual original then false else true) (original_mismatch original actual)

  abbrev pub applied :
      os.Mem → ℕ → List ℕ → Result PatchError (Unit {0}) → Result PatchError (Unit {0}) × os.Mem
  applied m addr replacement (err e) = (err e, m)
  applied m addr replacement (ok u) =
      let (written, m') = write_bytes_at m addr replacement in (map_err written write_failed, m')

  unfoldable pub apply : os.Mem → ℕ → List ℕ → List ℕ → Result PatchError (Unit {0}) × os.Mem
  unfolding verify
  apply m addr original replacement =
      applied m addr replacement (verify m addr original replacement)

  -- The address space, and `PATCHES`, empty until its first use.
  pub record Patcher : Type 0 where
    pub mem : os.Mem
    pub patches : Dict ℕ (List ℕ)

  abbrev pub registered :
      Patcher → ℕ → List ℕ → Result PatchError (Unit {0}) → os.Mem → Response × Patcher
  registered s addr original (err e) m = (code_patch_error addr e, record s { mem = m })
  registered s addr original (ok u) m =
      (write_ok, record { mem = m; patches = insert addr original s.patches })

  unfoldable pub code_patch : Patcher → ℕ → List ℕ → List ℕ → Response × Patcher
  code_patch s addr original patched =
      let (result, m) = apply s.mem addr original patched in registered s addr original result m

  abbrev pub unregistered : Patcher → ℕ → Result ReadError (Unit {0}) → os.Mem → Response × Patcher
  unregistered s addr (err e) m = (restore_patch_error addr e, record s { mem = m })
  unregistered s addr (ok u) m = (write_ok, record { mem = m; patches = remove addr s.patches })

  unfoldable pub restore_patch : Patcher → ℕ → List ℕ → Response × Patcher
  restore_patch s addr original =
      let (result, m) = write_bytes_at s.mem addr original in unregistered s addr result m

  -- The loop over the drained entries; the result of each write is dropped.
  unfoldable pub restore_each : os.Mem → List (ℕ × List ℕ) → os.Mem
  restore_each m [] = m
  restore_each m ((addr, original) ∷ rest) = restore_each (write_bytes_at m addr original).1 rest

  -- `drained` is the order in which the map's `drain` yields its entries.
  unfoldable pub restore_all : Patcher → List (ℕ × List ℕ) → Patcher
  unfolding restore_each
  restore_all s drained = record { mem = restore_each s.mem drained; patches = [] }

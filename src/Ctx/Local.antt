-- ===== src/Ctx/Local.antt =====
-- The trait `Ctx` in the game's own process, by crates/glacier-007-dll/src/local_ctx.rs: each access
-- is one of the calls of local_reader.rs, so the laws follow from those of `Os`.
use openforge_aio.Prelude.{◌≡◌, sym, ◌∙◌, inl, inr}
use openforge_aio.Prelude.Result.{Result, ok, err, Result-cases}
use openforge_aio.Memory.{Os, OsLaws, ReadError}
use openforge_aio.Memory
use openforge_aio.Memory.Bytes.{overwrite_outside}
use openforge_aio.Memory.Laws.{read_bytes-slice, write_bytes_lem}
use openforge_aio.Ctx.{Ctx, CtxLaws, Frame, Error, Custom, custom, local_read, local_write}

-- `map_err`
abbrev pub reported : {A : Type 0} → (ReadError → Custom) → Result ReadError A → Result Error A
reported message (ok a) = ok a
reported message (err e) = err (custom (message e))

abbrev pub local : Os → Ctx
local os = record {
  Proc = os.Mem;
  read_bytes = λ m addr n. reported (local_read addr) (Memory.read_bytes os m addr n);
  write_bytes = λ m addr bs. (
    reported (local_write addr) (Memory.write_bytes os m addr bs).0,
    (Memory.write_bytes os m addr bs).1,
  );
  view = os.view;
}

pub local-CtxLaws : (os : Os) → OsLaws os → CtxLaws (local os)
local-CtxLaws os laws = record {
  read_lem = λ m addr n bs h. elim (Result-cases (Memory.read_bytes os m addr n)) [
    | inl (bytes, read) ↦
        let same : bytes ≡ bs = cc (rw read at h) in
        sym same ∙ (read_bytes-slice os laws m addr n bytes read).0
    | inr (e, unread) ↦ absurd (cc (rw unread at h))
  ];
  write_lem = λ m addr bs h x. elim (write_bytes_lem os laws m addr bs) [
    | inl (wrote, bytes) ↦ bytes x
    | inr (e, failed, untouched) ↦ absurd (cc (rw failed at h))
  ];
}

pub local-Frame : (os : Os) → OsLaws os → Frame (local os)
local-Frame os laws m addr bs x out = elim (write_bytes_lem os laws m addr bs) [
  | inl (wrote, bytes) ↦ bytes x ∙ overwrite_outside (os.view m) addr bs x out
  | inr (e, failed, untouched) ↦ untouched x
]

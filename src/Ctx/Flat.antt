-- ===== src/Ctx/Flat.antt =====
-- A process whose bytes from `lo` up to `hi` can be read and written: it shows that the laws of
-- `Ctx` can hold, and serves the concrete runs.
use openforge_aio.Prelude.{
  ℕ, ◌+◌, refl, Bool, ◌&&◌, length, leb, if◌then◌else◌, arith, Bool-cases, inl, inr,
}
use openforge_aio.Prelude.Result.{ok, err}
use openforge_aio.Memory.Bytes.{overwrite, slice}
use openforge_aio.Ctx.{Ctx, CtxLaws, read_failed, write_failed}

abbrev mapped : ℕ → ℕ → ℕ → ℕ → Bool
mapped lo hi addr n = leb lo addr && leb (addr + n) hi

abbrev pub flat : ℕ → ℕ → Ctx
flat lo hi = record {
  Proc = ℕ → ℕ;
  read_bytes =
      λ p addr n. if mapped lo hi addr n then ok (slice p addr n) else err (read_failed addr n);
  write_bytes = λ p addr bs.
      if mapped lo hi addr (length bs)
      then (ok tt, overwrite p addr bs)
      else (err (write_failed addr (length bs)), p);
  view = λ p. p;
}

pub flat-CtxLaws : (lo hi : ℕ) → CtxLaws (flat lo hi)
flat-CtxLaws lo hi = record {
  read_lem = λ p addr n bs h. elim (Bool-cases (mapped lo hi addr n)) [
    | inl room ↦ ground (arith, room)
    | inr none_there ↦ ground (arith, none_there)
  ];
  write_lem = λ p addr bs h x. elim (Bool-cases (mapped lo hi addr (length bs))) [
    | inl room ↦ rw room refl
    | inr none_there ↦ ground (arith, none_there)
  ];
}

-- ===== src/Ctx/Patch.antt =====
-- What the default `patch_code` and `restore_code` of crates/core/src/ctx.rs do to the bytes.
use openforge_aio.Prelude.{ℕ, ◌≡◌, refl, sym, ap, ◌∙◌, List, length, arith, if-lem, inl, inr}
use openforge_aio.Prelude.Result.{ok, Result-cases}
use openforge_aio.Prelude.Dict.{text_eq_iff}
use openforge_aio.Memory.Bytes.{overwrite, slice, overwrite-slice, inside, overwrite_outside}
use openforge_aio.Ctx.{Ctx, CtxLaws, verified, wrote, patch_code, restore_code}

module _ (ctx : Ctx) (laws : CtxLaws ctx) where
  pub verified_lem :
      (p : ctx.Proc) (addr : ℕ) (original replacement bs : List ℕ)
      → verified ctx p addr original replacement ≡ ok bs
      → (bs ≡ original)
        × (length original ≡ length replacement)
        × (original ≡ slice (ctx.view p) addr (length replacement))
  unfolding verified
  verified_lem p addr original replacement bs h =
      elim (Result-cases (ctx.read_bytes p addr (length replacement))) [
        | inr (e, failed) ↦ ground (arith, failed)
        | inl (current, read) ↦
            let same : current ≡ original = ground (arith, read, text_eq_iff current original) in
            let got : bs ≡ original = ground (arith, read, text_eq_iff current original) in
            (
              got,
              ground (arith, read),
              sym same ∙ laws.read_lem p addr (length replacement) current read,
            )
      ]

  put_back :
      (p p' : ctx.Proc) (addr : ℕ) (original replacement : List ℕ)
      → length original ≡ length replacement
      → original ≡ slice (ctx.view p) addr (length replacement)
      → ((x : ℕ) → ctx.view p' x ≡ overwrite (ctx.view p) addr replacement x)
      → (x : ℕ) → overwrite (ctx.view p') addr original x ≡ ctx.view p x
  put_back p p' addr original replacement same stood stored x =
      ap (λ bs. overwrite (ctx.view p') addr bs x) stood
      ∙ overwrite-slice (ctx.view p) (ctx.view p') addr (length replacement) x
      ∙ if-lem (λ b. b ≡ ctx.view p x) (inside addr (length replacement) x) (ctx.view p x)
          (ctx.view p' x) (λ within. refl)
          (λ beyond. stored x ∙ overwrite_outside (ctx.view p) addr replacement x beyond)

  -- When a patch succeeds it answers the original bytes, the memory differs from before by the
  -- replacement alone, and a restore of the answer that succeeds brings back every byte.
  pub restore_code-patch_code :
      (p : ctx.Proc) (addr : ℕ) (original replacement bs : List ℕ)
      → (patch_code ctx p addr original replacement).0 ≡ ok bs
      → let p' = (patch_code ctx p addr original replacement).1 in
        (bs ≡ original)
        × ((x : ℕ) → ctx.view p' x ≡ overwrite (ctx.view p) addr replacement x)
        × ((restore_code ctx p' addr bs).0 ≡ ok tt
            → (x : ℕ) → ctx.view (restore_code ctx p' addr bs).1 x ≡ ctx.view p x)
  unfolding patch_code restore_code
  restore_code-patch_code p addr original replacement bs h =
      elim (Result-cases (verified ctx p addr original replacement)) [
        | inr (e, failed) ↦ ground (arith, failed)
        | inl (current, checked) ↦
            let p' = (ctx.write_bytes p addr replacement).1 in
            let answer = (ctx.write_bytes p addr replacement).0 in
            let reply : wrote ctx current answer ≡ ok bs = rw checked at h in
            elim (Result-cases answer) [
              | inr (e, refused) ↦ ground (arith, refused, reply)
              | inl (u, written) ↦
                  let (same, long, stood) =
                    verified_lem p addr original replacement current checked in
                  let got : bs ≡ original = ground (arith, written, reply, same) in
                  let stored = laws.write_lem p addr replacement written in
                  rw checked (
                    got,
                    stored,
                    λ restored x.
                        laws.write_lem p' addr bs restored x
                        ∙ ap (λ cs. overwrite (ctx.view p') addr cs x) got
                        ∙ put_back p p' addr original replacement long stood stored x,
                  )
            ]
      ]

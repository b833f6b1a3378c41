-- ===== src/Ctx/Examples.antt =====
-- Runs of crates/core/src/ctx.rs and resolve.rs in a flat process.
use openforge_aio.Prelude.{ℕ, ◌≡◌, refl, List, [], ◌∷◌, inr, arith}
use openforge_aio.Prelude.Run.{done, panic}
use openforge_aio.Prelude.Result.{ok, err}
use openforge_aio.Prelude.Int.{negsuc}
use openforge_aio.Memory.Bytes.{overwrite, slice}
use openforge_aio.Ctx.{
  Ctx, bad_pattern, operand_size, custom, bytes_differ, verified, patch_code, restore_code,
}
use openforge_aio.Ctx.Flat.{flat, flat-CtxLaws}
use openforge_aio.Ctx.Resolve.{rip_relative, wrapping_add, apply, apply-to_le, apply_bad-width}
use openforge_aio.Ctx.Patch.{restore_code-patch_code}

abbrev ctx : Ctx
ctx = flat 0x10000 0x20000

abbrev zeros : ctx.Proc
zeros = λ x. 0

-- `jmp` back by 6: the operand at 0x10001 holds -6.
abbrev code : ctx.Proc
code = overwrite zeros 0x10000 (0xe9 ∷ 0xfa ∷ 0xff ∷ 0xff ∷ 0xff ∷ [])

apply-to_le_example :
    apply ctx (rip_relative 1 4) code 0x10000 ≡ done (ok (wrapping_add 0x10005 (negsuc 5)))
unfolding overwrite slice
apply-to_le_example =
    apply-to_le ctx code 0x10000 1 4 (negsuc 5) (inr (inr refl)) (omega arith) refl

lands_before : apply ctx (rip_relative 1 4) code 0x10000 ≡ done (ok 0xffff)
unfolding apply overwrite slice
lands_before = refl

apply_bad-width_example :
    apply ctx (rip_relative 1 3) code 0x10000 ≡ done (err (bad_pattern (operand_size 3)))
unfolding overwrite slice
apply_bad-width_example =
    apply_bad-width ctx code 0x10000 1 3 (0xfa ∷ 0xff ∷ 0xff ∷ []) (λ w. ground arith) refl

wide_panics : apply ctx (rip_relative 1 9) code 0x10000 ≡ panic
unfolding apply
wide_panics = refl

restore_code-patch_code_example :
    let p' = (patch_code ctx code 0x10000 (0xe9 ∷ []) (0xc3 ∷ [])).1 in
    (◌≡◌ {A = List ℕ} (0xe9 ∷ []) (0xe9 ∷ []))
    × ((x : ℕ) → p' x ≡ overwrite code 0x10000 (0xc3 ∷ []) x)
    × ((restore_code ctx p' 0x10000 (0xe9 ∷ [])).0 ≡ ok tt
        → (x : ℕ) → (restore_code ctx p' 0x10000 (0xe9 ∷ [])).1 x ≡ code x)
unfolding patch_code verified overwrite slice
restore_code-patch_code_example =
    restore_code-patch_code ctx (flat-CtxLaws 0x10000 0x20000) code 0x10000 (0xe9 ∷ []) (0xc3 ∷ [])
      (0xe9 ∷ []) refl

differs_unwritten :
    patch_code ctx code 0x10000 (0xc3 ∷ []) (0xe9 ∷ [])
    ≡ (err (custom (bytes_differ 0x10000 (0xc3 ∷ []) (0xe9 ∷ []))), code)
unfolding patch_code verified overwrite slice
differs_unwritten = refl

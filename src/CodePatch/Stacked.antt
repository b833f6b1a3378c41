-- ===== src/CodePatch/Stacked.antt =====
-- Two patches of one address in crates/glacier-007-dll/src/code_patch.rs: the second registration
-- replaces the bytes that the first one had put aside.
use openforge_aio.Prelude.{ℕ, ◌≡◌, ◌≢◌, sym, ap, ◌∙◌, subst, List, inl, inr, In, In-head}
use openforge_aio.Prelude.Dict.{insert, remove, nat_eq}
use openforge_aio.Memory.{Os, OsLaws}
use openforge_aio.Memory.Bytes.{slice}
use openforge_aio.CodePatch.{write_ok, Patcher, code_patch}
use openforge_aio.CodePatch.Apply.{code_patch_lem}
use openforge_aio.CodePatch.Detach.{Tracks}

insert-In-head :
    (addr : ℕ) (bytes : List ℕ) (d : List (ℕ × List ℕ)) → In (addr, bytes) (insert addr bytes d)
unfolding insert
insert-In-head addr bytes d = In-head (addr, bytes) (remove addr d)

module _ (os : Os) (laws : OsLaws os) where
  -- Where a second request patches the bytes of a first and both report success, the registry does not have
  -- the bytes from before the first, unless that one changed nothing.
  pub code_patch-stacked :
      (s : Patcher os) (addr : ℕ) (original first second : List ℕ)
      → (code_patch os s addr original first).0 ≡ write_ok
      → (code_patch os (code_patch os s addr original first).1 addr first second).0 ≡ write_ok
      → original ≢ first
      → ¬ Tracks
          (os.view s.mem)
          (os.view (code_patch os (code_patch os s addr original first).1 addr first second).1.mem)
          (code_patch os (code_patch os s addr original first).1 addr first second).1.patches
  code_patch-stacked s addr original first second done_first done_second differ t =
      elim (code_patch_lem os laws s addr original first) [
        | inr (e, refused, kept, entries) ↦ cc
        | inl (done, same, filled, lengths, stored, entries) ↦
            elim (code_patch_lem os laws (code_patch os s addr original first).1 addr first
              second) [
                | inr (e, refused, kept, entries') ↦ cc
                | inl (done', same', filled', lengths', stored', entries') ↦
                    let at =
                      subst (In (addr, first)) (sym entries') (
                        insert-In-head addr first
                          (code_patch os s addr original first).1.patches) in
                    differ (
                      same
                      ∙ ap (slice (os.view s.mem) addr) (sym lengths)
                      ∙ sym (t.originals addr first at))
              ]
      ]

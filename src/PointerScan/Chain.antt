-- ===== src/PointerScan/Chain.antt =====
-- The replay of a pointer chain, `walk_chain` of crates/discover/src/pointer_scan.rs.
use openforge_aio.Prelude.{
  ℕ, ◌≡◌, refl, Bool, true, false, List, [], ◌∷◌, ◌++◌, Option-cases, inl, inr,
}
use openforge_aio.Prelude.Maybe.{◌>>=◌}
use openforge_aio.Prelude.Int.{ℤ}
use openforge_aio.Memory.{Os}
use openforge_aio.PointerScan.{read_pointer, walk_chain}
use openforge_aio.Ctx.Resolve.{wrapping_add}

-- A chain in two parts is the first part, and where that is alive the second from its end.
pub walk_chain-append :
    (os : Os) (m : os.Mem) (hops more : List (Bool × ℤ)) (current : ℕ)
    → walk_chain os m current (hops ++ more)
      ≡ (do mid ← walk_chain os m current hops; walk_chain os m mid more)
unfolding walk_chain
walk_chain-append os m [] more current = refl
walk_chain-append os m ((false, offset) ∷ hops) more current =
    walk_chain-append os m hops more (wrapping_add current offset)
walk_chain-append os m ((true, offset) ∷ hops) more current =
    elim (Option-cases (read_pointer os m current)) [
      | inl dead ↦ rw dead refl
      | inr (v, alive) ↦ rw alive (walk_chain-append os m hops more (wrapping_add v offset))
    ]

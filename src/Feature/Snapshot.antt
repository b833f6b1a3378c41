-- ===== src/Feature/Snapshot.antt =====
-- The snapshot of a feature and its restore, with the companions that a reflection feature also
-- writes, in crates/runtime/src/feature.rs.
use openforge_aio.Prelude.{
  ℕ, ◌+◌, ◌*◌, min, Bool, true, false, none, List, [], ◌∷◌, ◌++◌, length, take, drop, ◌==◌,
  if◌then◌else◌,
}
use openforge_aio.Prelude.Result.{Result, ok, err, ◌>>=◌}
use openforge_aio.Ctx.{Ctx, Error}
use openforge_aio.Signature.{
  WriteSpec, engine_action, freeze_for_matching, play_anim_montage_for_matching,
}
use openforge_aio.Feature.Matching.{Feature, restore_matching}

abbrev pub is_engine_action : WriteSpec → Bool
is_engine_action (engine_action a o) = true
is_engine_action w = false

module _ (ctx : Ctx) where
  -- The bytes of each address, `size` each, in a row.
  unfoldable pub read_each : ctx.Proc → ℕ → List ℕ → Result Error (List ℕ)
  read_each p size [] = ok []
  read_each p size (addr ∷ addrs) = do
    bytes ← ctx.read_bytes p addr size
    rest ← read_each p size addrs
    ok (bytes ++ rest)

  unfoldable pub snapshot : ctx.Proc → WriteSpec → ℕ → ℕ → List ℕ → Result Error (List ℕ)
  unfolding read_each
  snapshot p write size addr companions =
      if is_engine_action write then ok [] else read_each p size (addr ∷ companions)

  abbrev pub then_write :
      Result Error (Unit {0}) × ctx.Proc
      → (ctx.Proc → Result Error (Unit {0}) × ctx.Proc)
      → Result Error (Unit {0}) × ctx.Proc
  then_write (ok u, p) go = go p
  then_write (err e, p) go = (err e, p)

  -- Each address gets its part of the bytes.
  unfoldable pub write_each : ctx.Proc → ℕ → List ℕ → List ℕ → Result Error (Unit {0}) × ctx.Proc
  write_each p size [] bytes = (ok tt, p)
  write_each p size (addr ∷ addrs) bytes =
      then_write (ctx.write_bytes p addr (take size bytes))
        (λ q. write_each q size addrs (drop size bytes))

  -- The end of `restore`: a snapshot of another length restores the first address alone.
  unfoldable pub restore_bytes :
      ctx.Proc → ℕ → ℕ → List ℕ → List ℕ → Result Error (Unit {0}) × ctx.Proc
  unfolding write_each
  restore_bytes p size addr companions bytes =
      if length bytes == size * (1 + length companions)
      then write_each p size (addr ∷ companions) bytes
      else ctx.write_bytes p addr (take (min (length bytes) size) bytes)

  abbrev pub from_snapshot :
      Feature ctx → ℕ → ℕ → List ℕ → List ℕ → Result Error (Unit {0}) × Feature ctx
  from_snapshot s size addr companions bytes =
      let (answer, p) = restore_bytes s.proc size addr companions bytes in
      (answer, record s { proc = p })

  -- The montages are only forgotten, and a freeze of all matching objects gives back its originals
  -- in place of the snapshot.
  unfoldable pub restore :
      Feature ctx → WriteSpec → ℕ → ℕ → List ℕ → List ℕ → Result Error (Unit {0}) × Feature ctx
  unfolding restore_bytes restore_matching
  restore s (play_anim_montage_for_matching w) size addr companions bytes =
      (ok tt, record s { montage_cache = none; montage_tick = 0 })
  restore s (freeze_for_matching w) size addr companions bytes = (ok tt, restore_matching ctx s)
  restore s _ size addr companions bytes = from_snapshot s size addr companions bytes

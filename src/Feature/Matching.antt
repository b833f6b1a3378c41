-- ===== src/Feature/Matching.antt =====
-- `write_freeze_for_matching` of crates/runtime/src/feature.rs, one tick over the objects that the
-- process reports, and the restore that drains the originals. The reflection of the game is a
-- parameter: the objects of a tick, and the offset of a property in a class.
use openforge_aio.Prelude.{
  ℕ, Bool, true, false, not, ◌&&◌, ◌||◌, Option, none, some, List, [], ◌∷◌, ◌++◌, map, length, ◌==◌,
  if◌then◌else◌,
}
use openforge_aio.Prelude.Result.{Result, ok, err}
use openforge_aio.Prelude.Text.{Text}
use openforge_aio.Prelude.Int.{ℤ, pos}
use openforge_aio.Prelude.Dict.{Dict, lookup, insert, nat_eq}
use openforge_aio.Ctx.{Ctx, Error}
use openforge_aio.Ctx.Resolve.{wrapping_add}
use openforge_aio.Manifest.{is_empty, to_ascii_lowercase}

pub record FoundObject : Type 0 where
  pub obj_addr : ℕ
  pub class_addr : ℕ
  pub fqn : Text

abbrev pub starts : Text → Text → Bool
starts [] s = true
starts (c ∷ t) [] = false
starts (c ∷ t) (d ∷ s) = (c == d) && starts t s

-- `haystack.contains(needle)`
abbrev pub contains : Text → Text → Bool
contains [] needle = is_empty needle
contains (c ∷ s) needle = starts needle (c ∷ s) || contains s needle

abbrev pub lower : Text → Text
lower s = map to_ascii_lowercase s

abbrev pub all_in : Text → List Text → Bool
all_in fqn [] = true
all_in fqn (n ∷ ns) = contains fqn (lower n) && all_in fqn ns

abbrev pub any_in : Text → List Text → Bool
any_in fqn [] = false
any_in fqn (n ∷ ns) = contains fqn (lower n) || any_in fqn ns

-- The filters on the object's name.
unfoldable pub selected : List Text → List Text → FoundObject → Bool
selected include exclude m =
    not (not (is_empty include) && not (all_in (lower m.fqn) include))
    && not (any_in (lower m.fqn) exclude)

-- What a tick reports: an error of the reflection, or a property that is not there.
pub data MatchError : Type 0 where
  reflection_failed property_missing : MatchError

module _ (ctx : Ctx) where
  pub record Feature : Type 0 where
    pub proc : ctx.Proc
    pub freeze_originals : Dict ℕ (List ℕ)
    -- The montages that were resolved, and the count of the ticks that rotate them.
    pub montage_cache : Option (List ℕ)
    pub montage_tick : ℕ

  abbrev pub captured : ℕ → Result Error (List ℕ) → Dict ℕ (List ℕ) → Dict ℕ (List ℕ)
  captured addr (ok buf) originals = insert addr buf originals
  captured addr (err e) originals = originals

  -- The bytes that stand at an address that is not in the map yet.
  abbrev pub capture : ctx.Proc → ℕ → ℕ → Option (List ℕ) → Dict ℕ (List ℕ) → Dict ℕ (List ℕ)
  capture p addr n none originals = captured addr (ctx.read_bytes p addr n) originals
  capture p addr n (some bytes) originals = originals

  -- One address: the original is kept, and the payload is written; a write that fails is skipped.
  unfoldable pub stamp : List ℕ → ℕ → Feature → Feature
  stamp payload addr s = record s {
    proc = (ctx.write_bytes s.proc addr payload).1;
    freeze_originals =
        capture s.proc addr (length payload) (lookup addr s.freeze_originals) s.freeze_originals;
  }

  unfoldable pub stamp_all : List ℕ → List ℕ → Feature → Feature
  unfolding stamp
  stamp_all payload [] s = s
  stamp_all payload (addr ∷ addrs) s = stamp_all payload addrs (stamp payload addr s)

  abbrev pub addresses : ℕ → List ℤ → List ℕ
  addresses base [] = []
  addresses base (off ∷ offs) = wrapping_add base off ∷ addresses base offs

  abbrev pub resolved : Result MatchError (Option ℕ) → Result MatchError ℕ
  resolved (ok (some offset)) = ok offset
  resolved (ok none) = err property_missing
  resolved (err e) = err e

  -- The offset of the property in the class; the last class and its offset are remembered.
  abbrev pub offset_in :
      (ℕ → Text → Result MatchError (Option ℕ)) → ℕ → Text → ℕ → ℕ → Result MatchError ℕ
  offset_in resolve class_addr prop last_class last_offset =
      if class_addr == last_class && not (last_class == 0)
      then ok last_offset
      else resolved (resolve class_addr prop)

  -- The addresses that a tick stamps, in their order, up to an error of the reflection.
  abbrev pub behind : List ℕ → Option MatchError × List ℕ → Option MatchError × List ℕ
  behind addrs (stop, rest) = (stop, addrs ++ rest)

  module _ (resolve : ℕ → Text → Result MatchError (Option ℕ)) (include exclude : List Text)
      (field_offsets : List ℤ) where
    abbrev pub at_property :
        FoundObject
        → Result MatchError ℕ
        → (ℕ → Option MatchError × List ℕ)
        → Option MatchError × List ℕ
    at_property m (err e) go = (some e, [])
    at_property m (ok offset) go = behind (wrapping_add m.obj_addr (pos offset) ∷ []) (go offset)

    unfoldable pub targets : Option Text → ℕ → ℕ → List FoundObject → Option MatchError × List ℕ
    unfolding selected
    targets prop last_class last_offset [] = (none, [])
    targets none last_class last_offset (m ∷ ms) =
        let rest = targets none last_class last_offset ms in
        if selected include exclude m
        then behind (addresses m.obj_addr field_offsets) rest
        else rest
    targets (some prop) last_class last_offset (m ∷ ms) =
        let skipped = targets (some prop) last_class last_offset ms in
        if selected include exclude m
        then at_property m (offset_in resolve m.class_addr prop last_class last_offset)
            (λ offset. targets (some prop) m.class_addr offset ms)
        else skipped

    -- One tick over the objects that match the class: each target is stamped, and an error ends
    -- the tick behind those that come before it.
    unfoldable pub write_freeze_for_matching :
        List ℕ
        → Option Text
        → Result MatchError (List FoundObject)
        → Feature
        → Option MatchError × Feature
    unfolding targets stamp_all
    write_freeze_for_matching payload prop (err e) s = (some e, s)
    write_freeze_for_matching payload prop (ok matches) s =
        let (stop, addrs) = targets prop 0 0 matches in (stop, stamp_all payload addrs s)

  -- The originals go back, each write that fails skipped.
  unfoldable pub write_originals : List (ℕ × List ℕ) → ctx.Proc → ctx.Proc
  write_originals [] p = p
  write_originals ((addr, bytes) ∷ rest) p = write_originals rest (ctx.write_bytes p addr bytes).1

  unfoldable pub restore_matching : Feature → Feature
  unfolding write_originals
  restore_matching s = record s {
    proc = write_originals s.freeze_originals s.proc;
    freeze_originals = [];
  }

-- ===== src/FreezeLoop.antt =====
-- crates/app/src-tauri/src/freeze.rs: the events of a freeze task and of a read probe of the desktop
-- application, tick by tick. The write or the read of the feature is its result.
pub mod Edges
pub mod Examples
use openforge_aio.Prelude.{
  ℕ, Bool, true, false, not, Option, none, some, List, [], ◌∷◌, ◌++◌, max, if◌then◌else◌,
}
use openforge_aio.Prelude.Result.{Result, ok, err}
use openforge_aio.Prelude.Text.{Text, codes}

module _ (Value Error : Type 0) where
  pub data Event : Type 0 where
    -- FeatureChangedEvent
    feature_changed : Value → Event
    -- FeatureFreezeStateEvent: state, hint
    feature_freeze_state : Text → Option Text → Event

abbrev pub is_ok : {E A : Type 0} → Result E A → Bool
is_ok (ok a) = true
is_ok (err e) = false

-- `last_healthy != Some(healthy_now)`
abbrev pub changed : Option Bool → Bool → Bool
changed none now = true
changed (some true) now = not now
changed (some false) now = now

unfoldable pub interval_of : ℕ → ℕ
interval_of interval_ms = max interval_ms 50

module _ {Value Error : Type 0} where
  abbrev pub freeze_state : Bool → Event Value Error
  freeze_state true = feature_freeze_state (codes "active") none
  freeze_state false =
      feature_freeze_state (codes "waiting") (some (codes "Waiting for the level to load…"))

  abbrev pub probe_state : Bool → Event Value Error
  probe_state true = feature_freeze_state (codes "active") none
  probe_state false = feature_freeze_state (codes "waiting") (
      some (codes "Currently unreachable — try entering a level or switching back to a character."))

  abbrev pub written : Value → Result Error (Unit {0}) → List (Event Value Error)
  written desired (ok u) = feature_changed desired ∷ []
  written desired (err e) = []

  abbrev pub value_read : Result Error Value → List (Event Value Error)
  value_read (ok v) = feature_changed v ∷ []
  value_read (err e) = []

  -- The event of a change of the health.
  abbrev pub edge : (Bool → Event Value Error) → Option Bool → Bool → List (Event Value Error)
  edge state last now = if changed last now then state now ∷ [] else []

  -- One round of the loop of `spawn_freeze_task`: the events, and the health.
  unfoldable pub freeze_tick :
      Value → Option Bool → Result Error (Unit {0}) → List (Event Value Error) × Option Bool
  freeze_tick desired last result =
      (written desired result ++ edge freeze_state last (is_ok result), some (is_ok result))

  unfoldable pub probe_once : Option Bool → Result Error Value → List (Event Value Error) × Bool
  probe_once last result = (value_read result ++ edge probe_state last (is_ok result), is_ok result)

  -- The loop over the results of the writes.
  unfoldable pub freeze_task :
      Value → Option Bool → List (Result Error (Unit {0})) → List (Event Value Error)
  unfolding freeze_tick
  freeze_task desired last [] = []
  freeze_task desired last (result ∷ results) =
      let (events, last') = freeze_tick desired last result in
      events ++ freeze_task desired last' results

  -- The loop over the results of the reads.
  unfoldable pub read_probe_task :
      Option Bool → List (Result Error Value) → List (Event Value Error)
  unfolding probe_once
  read_probe_task last [] = []
  read_probe_task last (result ∷ results) =
      let (events, healthy) = probe_once last result in
      events ++ read_probe_task (some healthy) results

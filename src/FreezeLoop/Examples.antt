-- ===== src/FreezeLoop/Examples.antt =====
-- Runs of crates/app/src-tauri/src/freeze.rs, with numbers as values.
use openforge_aio.Prelude.{ℕ, ◌≡◌, refl, true, false, none, some, List, [], ◌∷◌}
use openforge_aio.Prelude.Result.{Result, ok, err}
use openforge_aio.FreezeLoop.{feature_changed, freeze_state, freeze_tick, freeze_task, interval_of}
use openforge_aio.FreezeLoop.Edges.{shown, states, Alternates, freeze_task-shown}

-- The value that is frozen.
abbrev desired : ℕ
desired = 7

abbrev results : List (Result ℕ (Unit {0}))
results = err 5 ∷ err 5 ∷ ok tt ∷ ok tt ∷ []

freeze_task-shown_example :
    (shown none (freeze_task desired none results) ≡ some true)
    × Alternates none (states (freeze_task desired none results))
freeze_task-shown_example = freeze_task-shown desired results

two_edges :
    freeze_task desired none results
    ≡ freeze_state false
      ∷ feature_changed desired
      ∷ freeze_state true
      ∷ feature_changed desired
      ∷ []
unfolding freeze_task freeze_tick
two_edges = refl

not_too_fast : interval_of 10 ≡ 50
unfolding interval_of
not_too_fast = refl

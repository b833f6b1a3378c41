-- ===== src/FreezeLoop/Edges.antt =====
-- The state events of crates/app/src-tauri/src/freeze.rs: exactly the changes of the health.
use openforge_aio.Prelude.{
  ◌≡◌, refl, sym, subst, ap, ◌∙◌, Bool, true, false, Option, none, some, List, [], ◌∷◌, ◌++◌, map,
  if◌then◌else◌, Bool-cases, inl, inr,
}
use openforge_aio.Prelude.Result.{Result, ok, err}
use openforge_aio.Prelude.Text.{codes, text_eq}
use openforge_aio.FreezeLoop.{
  Event, feature_changed, feature_freeze_state, is_ok, changed, freeze_tick, probe_once,
  freeze_task, read_probe_task,
}

-- Each change of a health that was `last` before.
abbrev pub changes : Option Bool → List Bool → List Bool
changes last [] = []
changes last (now ∷ rest) =
    if changed last now then now ∷ changes (some now) rest else changes (some now) rest

-- The last of the healths, or the one before them.
abbrev pub last_of : Option Bool → List Bool → Option Bool
last_of last [] = last
last_of last (b ∷ bs) = last_of (some b) bs

-- Each differs from the one before it.
abbrev pub Alternates : Option Bool → List Bool → Type 0
Alternates last [] = Unit
Alternates last (b ∷ bs) = (changed last b ≡ true) × Alternates (some b) bs

unchanged : (last : Option Bool) (b : Bool) → changed last b ≡ false → last ≡ some b
unchanged none b h = cc h
unchanged (some true) true h = refl
unchanged (some true) false h = cc h
unchanged (some false) true h = cc h
unchanged (some false) false h = refl

last_of-changes :
    (last : Option Bool) (hs : List Bool) → last_of last (changes last hs) ≡ last_of last hs
last_of-changes last [] = refl
last_of-changes last (b ∷ bs) = elim (Bool-cases (changed last b)) [
  | inl on ↦ rw on (last_of-changes (some b) bs)
  | inr off ↦ let same = unchanged last b off in rw (off, same) (last_of-changes (some b) bs)
]

changes-Alternates : (last : Option Bool) (hs : List Bool) → Alternates last (changes last hs)
changes-Alternates last [] = tt
changes-Alternates last (b ∷ bs) = elim (Bool-cases (changed last b)) [
  | inl on ↦ rw on (on, changes-Alternates (some b) bs)
  | inr off ↦
      let same = unchanged last b off in
      rw off (
        subst (λ l. Alternates l (changes (some b) bs)) (sym same) (changes-Alternates (some b) bs))
]

module _ {Value Error : Type 0} where
  -- What the state events say, in their order.
  abbrev pub states : List (Event Value Error) → List Bool
  states [] = []
  states (feature_changed v ∷ events) = states events
  states (feature_freeze_state state hint ∷ events) = text_eq state (codes "active") ∷ states events

  -- What the user interface holds after the events.
  abbrev pub shown : Option Bool → List (Event Value Error) → Option Bool
  shown last [] = last
  shown last (feature_changed v ∷ events) = shown last events
  shown last (feature_freeze_state state hint ∷ events) =
      shown (some (text_eq state (codes "active"))) events

  states-append : (a b : List (Event Value Error)) → states (a ++ b) ≡ states a ++ states b
  states-append [] b = refl
  states-append (feature_changed v ∷ a) b = states-append a b
  states-append (feature_freeze_state state hint ∷ a) b =
      ap (λ xs. text_eq state (codes "active") ∷ xs) (states-append a b)

  shown-states :
      (last : Option Bool) (events : List (Event Value Error))
      → shown last events ≡ last_of last (states events)
  shown-states last [] = refl
  shown-states last (feature_changed v ∷ events) = shown-states last events
  shown-states last (feature_freeze_state state hint ∷ events) =
      shown-states (some (text_eq state (codes "active"))) events

  freeze_tick-states :
      (desired : Value) (last : Option Bool) (result : Result Error (Unit {0})) (rest : List Bool)
      → states (freeze_tick desired last result).0 ++ rest
        ≡ (if changed last (is_ok result) then is_ok result ∷ rest else rest)
  unfolding freeze_tick
  freeze_tick-states desired none (ok u) rest = refl
  freeze_tick-states desired none (err e) rest = refl
  freeze_tick-states desired (some true) (ok u) rest = refl
  freeze_tick-states desired (some true) (err e) rest = refl
  freeze_tick-states desired (some false) (ok u) rest = refl
  freeze_tick-states desired (some false) (err e) rest = refl

  probe_once-states :
      (last : Option Bool) (result : Result Error Value) (rest : List Bool)
      → states (probe_once last result).0 ++ rest
        ≡ (if changed last (is_ok result) then is_ok result ∷ rest else rest)
  unfolding probe_once
  probe_once-states none (ok u) rest = refl
  probe_once-states none (err e) rest = refl
  probe_once-states (some true) (ok u) rest = refl
  probe_once-states (some true) (err e) rest = refl
  probe_once-states (some false) (ok u) rest = refl
  probe_once-states (some false) (err e) rest = refl

  freeze_task-states :
      (desired : Value) (last : Option Bool) (results : List (Result Error (Unit {0})))
      → states (freeze_task desired last results) ≡ changes last (map is_ok results)
  unfolding freeze_task
  freeze_task-states desired last [] = refl
  freeze_task-states desired last (result ∷ results) =
      states-append (freeze_tick desired last result).0
        (freeze_task desired (some (is_ok result)) results)
      ∙ ap (λ rest. states (freeze_tick desired last result).0 ++ rest)
          (freeze_task-states desired (some (is_ok result)) results)
      ∙ freeze_tick-states desired last result (changes (some (is_ok result)) (map is_ok results))

  read_probe_task-states :
      (last : Option Bool) (results : List (Result Error Value))
      → states (read_probe_task last results) ≡ changes last (map is_ok results)
  unfolding read_probe_task
  read_probe_task-states last [] = refl
  read_probe_task-states last (result ∷ results) =
      states-append (probe_once last result).0 (read_probe_task (some (is_ok result)) results)
      ∙ ap (λ rest. states (probe_once last result).0 ++ rest)
          (read_probe_task-states (some (is_ok result)) results)
      ∙ probe_once-states last result (changes (some (is_ok result)) (map is_ok results))

  -- After any ticks of a freeze task the state that its events leave shown is whether the last write
  -- succeeded, and no two state events in a row say the same.
  pub freeze_task-shown :
      (desired : Value) (results : List (Result Error (Unit {0})))
      → (shown none (freeze_task desired none results) ≡ last_of none (map is_ok results))
        × Alternates none (states (freeze_task desired none results))
  freeze_task-shown desired results =
      let e = freeze_task-states desired none results in
      (
        shown-states none (freeze_task desired none results)
            ∙ ap (last_of none) e
            ∙ last_of-changes none (map is_ok results),
        subst (Alternates none) (sym e) (changes-Alternates none (map is_ok results)),
      )

  -- After any rounds of a read probe, which starts from a health that is shown or from none, the
  -- state that is shown is whether the last read succeeded, and the first state event differs from
  -- what was shown, and each later one from the one before.
  pub read_probe_task-shown :
      (last : Option Bool) (results : List (Result Error Value))
      → (shown last (read_probe_task last results) ≡ last_of last (map is_ok results))
        × Alternates last (states (read_probe_task last results))
  read_probe_task-shown last results =
      let e = read_probe_task-states last results in
      (
        shown-states last (read_probe_task last results)
            ∙ ap (last_of last) e
            ∙ last_of-changes last (map is_ok results),
        subst (Alternates last) (sym e) (changes-Alternates last (map is_ok results)),
      )

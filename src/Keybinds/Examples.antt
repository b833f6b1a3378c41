-- ===== src/Keybinds/Examples.antt =====
-- Runs of crates/app/src-tauri/src/keybinds.rs, and its theorems at a small store.
use openforge_aio.Prelude.{◌≡◌, ◌≢◌, refl, none, some, [], ◌∷◌}
use openforge_aio.Prelude.Text.{Text, codes}
use openforge_aio.Prelude.Dict.{lookup, insert, remove, text_key}
use openforge_aio.Keybinds.{
  KeybindStore, lookup_feature, lookup_chord, set, clear, rebuild_by_chord,
}
use openforge_aio.Keybinds.Agree.{Agree, set-Agree, clear-Agree}
use openforge_aio.Keybinds.Load.{IsBound, rebuild_lem, clear-shared}

abbrev empty : KeybindStore
empty = record { bindings = []; by_chord = [] }

abbrev batman : Text
batman = codes "batman-lod"

abbrev god : Text
god = codes "god_mode"

abbrev fly : Text
fly = codes "fly"

abbrev key : Text
key = codes "F5"

empty-Agree : Agree empty
unfolding lookup_feature lookup_chord lookup
empty-Agree g f c = (λ h. cc h, λ h. cc h)

abbrev one : KeybindStore
one = (set empty batman god key).1

set-Agree_example : Agree one
set-Agree_example = set-Agree empty batman god key empty-Agree

clear-Agree_example : Agree (clear one batman god).1
clear-Agree_example = clear-Agree one batman god set-Agree_example

moved : lookup_feature (set one batman fly key).1 batman god ≡ none
unfolding lookup_feature set lookup insert remove
moved = refl

taken : (set one batman fly key).0 ≡ none
unfolding set lookup insert remove
taken = refl

-- A file that binds one chord to two features.
abbrev shared : KeybindStore
shared = rebuild_by_chord ((batman, (god, key) ∷ (fly, key) ∷ []) ∷ [])

shared-god : lookup_feature shared batman god ≡ some key
unfolding lookup_feature lookup rebuild_by_chord
shared-god = refl

shared-fly : lookup_feature shared batman fly ≡ some key
unfolding lookup_feature lookup rebuild_by_chord
shared-fly = refl

clear-shared_example :
    (lookup_feature (clear shared batman god).1 batman fly ≡ some key)
    × (lookup_chord (clear shared batman god).1 key ≡ none)
clear-shared_example = clear-shared shared batman god batman fly key shared-god shared-fly refl

rebuild_lem_example :
    ((g f : Text)
      → lookup_chord shared key ≡ some (g, f)
      → IsBound g f key ((batman, (god, key) ∷ (fly, key) ∷ []) ∷ []))
    × ((g f : Text)
        → IsBound g f key ((batman, (god, key) ∷ (fly, key) ∷ []) ∷ [])
        → lookup_chord shared key ≢ none)
rebuild_lem_example = rebuild_lem ((batman, (god, key) ∷ (fly, key) ∷ []) ∷ []) key

-- ===== src/Keybinds.antt =====
-- `KeybindStore` of crates/app/src-tauri/src/keybinds.rs: hotkey chords by game and feature, and
-- the reverse index by chord.
pub mod Laws
pub mod Agree
pub mod Load
mod Examples
use openforge_aio.Prelude.{ℕ, Bool, true, false, Option, none, some, List, [], ◌∷◌, if◌then◌else◌}
use openforge_aio.Prelude.Text.{Text}
use openforge_aio.Prelude.Dict.{Dict, lookup, insert, remove, text_key}

pub record KeybindStore : Type 0 where
  pub bindings : Dict Text (Dict Text Text)
  pub by_chord : Dict Text (Text × Text)

abbrev pub bind {ℓ} : {A B : Type ℓ} → Option A → (A → Option B) → Option B
bind none f = none
bind (some a) f = f a

abbrev pub feature_in : Text → Text → Dict Text (Dict Text Text) → Option Text
feature_in game feature b = bind (lookup game b) (λ fmap. lookup feature fmap)

unfoldable pub lookup_feature : KeybindStore → Text → Text → Option Text
lookup_feature s game feature = feature_in game feature s.bindings

unfoldable pub lookup_chord : KeybindStore → Text → Option (Text × Text)
lookup_chord s chord = lookup chord s.by_chord

-- `if let Some(fmap) = self.bindings.get_mut(game) { fmap.remove(feature) }`
abbrev pub without_feature_of :
    Text → Text → Dict Text (Dict Text Text) → Option (Dict Text Text) → Dict Text (Dict Text Text)
without_feature_of game feature b none = b
without_feature_of game feature b (some fmap) = insert game (remove feature fmap) b

unfoldable pub without_feature :
    Text → Text → Dict Text (Dict Text Text) → Dict Text (Dict Text Text)
without_feature game feature b = without_feature_of game feature b (lookup game b)

-- `self.bindings.entry(game).or_default()`
abbrev pub or_default : Option (Dict Text Text) → Dict Text Text
or_default none = []
or_default (some fmap) = fmap

unfoldable pub with_feature :
    Text → Text → Text → Dict Text (Dict Text Text) → Dict Text (Dict Text Text)
with_feature game feature chord b =
    insert game (insert feature chord (or_default (lookup game b))) b

-- The holder of the chord loses it, in both indices.
abbrev pub displaced : KeybindStore → Text → Option (Text × Text) → KeybindStore
displaced s chord none = s
displaced s chord (some (old_game, old_feat)) = record {
  bindings = without_feature old_game old_feat s.bindings;
  by_chord = remove chord s.by_chord;
}

abbrev pub without_chord : Option Text → Dict Text (Text × Text) → Dict Text (Text × Text)
without_chord none d = d
without_chord (some p) d = remove p d

unfoldable pub set : KeybindStore → Text → Text → Text → Option Text × KeybindStore
unfolding without_feature with_feature
set s game feature chord =
    let s' = displaced s chord (lookup chord s.by_chord) in
    let prev_chord = lookup feature (or_default (lookup game s'.bindings)) in
    (
      prev_chord,
      record {
        bindings = with_feature game feature chord s'.bindings;
        by_chord = insert chord (game, feature) (without_chord prev_chord s'.by_chord);
      },
    )

unfoldable pub clear : KeybindStore → Text → Text → Option Text × KeybindStore
unfolding without_feature
clear s game feature =
    let prev = feature_in game feature s.bindings in
    (
      prev,
      record {
        bindings = without_feature game feature s.bindings;
        by_chord = without_chord prev s.by_chord;
      },
    )

-- `rebuild_by_chord`: the loops over the games and over the features of one.
unfoldable pub index_features :
    Text → Dict Text Text → Dict Text (Text × Text) → Dict Text (Text × Text)
index_features game [] d = d
index_features game ((feature, chord) ∷ fmap) d =
    index_features game fmap (insert chord (game, feature) d)

unfoldable pub index_games :
    Dict Text (Dict Text Text) → Dict Text (Text × Text) → Dict Text (Text × Text)
unfolding index_features
index_games [] d = d
index_games ((game, fmap) ∷ b) d = index_games b (index_features game fmap d)

unfoldable pub rebuild_by_chord : Dict Text (Dict Text Text) → KeybindStore
unfolding index_games
rebuild_by_chord b = record { bindings = b; by_chord = index_games b [] }

-- ===== src/Keybinds/Load.antt =====
-- The index that `load` rebuilds in crates/app/src-tauri/src/keybinds.rs, and a store in which two
-- features share a chord, as a file may say.
use openforge_aio.Prelude.{
  ◌≡◌, ◌≢◌, subst, false, Option, none, some, [], ◌∷◌, arith, Bool-cases, inl, inr, ◌⊎◌, In,
  In-tail, In-cases, not-In-nil,
}
use openforge_aio.Prelude.Text.{Text, text_eq}
use openforge_aio.Prelude.Dict.{Dict, lookup, insert, text_key, text_eq_iff, lookup-insert}
use openforge_aio.Keybinds.{
  KeybindStore, lookup_feature, lookup_chord, clear, index_features, index_games, rebuild_by_chord,
}
use openforge_aio.Keybinds.Laws.{
  same_feature, holds_iff, lookup-nil, lookup_feature-clear, lookup_chord-clear,
}

-- The file binds the feature to the chord.
abbrev pub IsBound : Text → Text → Text → Dict Text (Dict Text Text) → Type 0
IsBound g f c b = (fmap : Dict Text Text) × In (g, fmap) b × In (f, c) fmap

index_features_sound :
    (game : Text) (fmap : Dict Text Text) (d : Dict Text (Text × Text)) (c g f : Text)
    → lookup c (index_features game fmap d) ≡ some (g, f)
    → ((game ≡ g) × In (f, c) fmap) ⊎ (lookup c d ≡ some (g, f))
unfolding index_features
index_features_sound game [] d c g f h = inr h
index_features_sound game ((feature, chord) ∷ fmap) d c g f h =
    elim (index_features_sound game fmap (insert chord (game, feature) d) c g f h) [
      | inl (same, at) ↦ inl (same, In-tail (feature, chord) fmap at)
      | inr there ↦ elim (Bool-cases (text_eq chord c)) [
        | inr other ↦
            inr (ground (arith, lookup-insert {V = Text × Text} chord c (game, feature) d, other))
        | inl same ↦
            let e = (text_eq_iff chord c).0 same in
            let held : ◌≡◌ {A = Option (Text × Text)} (some (game, feature)) (some (g, f)) =
              ground (arith, lookup-insert {V = Text × Text} chord c (game, feature) d, same) in
            inl (cc held, (0, cc (held, e)))
      ]
    ]

index_games_sound :
    (b : Dict Text (Dict Text Text)) (d : Dict Text (Text × Text)) (c g f : Text)
    → lookup c (index_games b d) ≡ some (g, f)
    → IsBound g f c b ⊎ (lookup c d ≡ some (g, f))
unfolding index_games
index_games_sound [] d c g f h = inr h
index_games_sound ((game, fmap) ∷ b) d c g f h =
    elim (index_games_sound b (index_features game fmap d) c g f h) [
      | inl (m, at, bound) ↦ inl (m, In-tail (game, fmap) b at, bound)
      | inr there ↦ elim (index_features_sound game fmap d c g f there) [
        | inl (same, bound) ↦ inl (fmap, (0, cc same), bound)
        | inr older ↦ inr older
      ]
    ]

-- Once a chord is indexed it stays so.
index_features_keeps :
    (game : Text) (fmap : Dict Text Text) (d : Dict Text (Text × Text)) (c : Text)
    → lookup c d ≢ none
    → lookup c (index_features game fmap d) ≢ none
unfolding index_features
index_features_keeps game [] d c h = h
index_features_keeps game ((feature, chord) ∷ fmap) d c h =
    index_features_keeps game fmap (insert chord (game, feature) d) c
      (λ gone. ground (arith, lookup-insert {V = Text × Text} chord c (game, feature) d, h))

index_features_complete :
    (game : Text) (fmap : Dict Text Text) (d : Dict Text (Text × Text)) (f c : Text)
    → In (f, c) fmap
    → lookup c (index_features game fmap d) ≢ none
unfolding index_features
index_features_complete game [] d f c at = absurd (not-In-nil at)
index_features_complete game ((feature, chord) ∷ fmap) d f c at =
    elim (In-cases (feature, chord) fmap at) [
      | inr later ↦ index_features_complete game fmap (insert chord (game, feature) d) f c later
      | inl e ↦
          let same : chord ≡ c = cc e in
          let found = (text_eq_iff chord c).1 same in
          index_features_keeps game fmap (insert chord (game, feature) d) c (λ gone.
            ground (arith, lookup-insert {V = Text × Text} chord c (game, feature) d, found))
    ]

index_games_keeps :
    (b : Dict Text (Dict Text Text)) (d : Dict Text (Text × Text)) (c : Text)
    → lookup c d ≢ none
    → lookup c (index_games b d) ≢ none
unfolding index_games
index_games_keeps [] d c h = h
index_games_keeps ((game, fmap) ∷ b) d c h =
    index_games_keeps b (index_features game fmap d) c (index_features_keeps game fmap d c h)

index_games_complete :
    (b : Dict Text (Dict Text Text)) (d : Dict Text (Text × Text)) (g f c : Text)
    → IsBound g f c b
    → lookup c (index_games b d) ≢ none
unfolding index_games
index_games_complete [] d g f c (fmap, at, bound) = absurd (not-In-nil at)
index_games_complete ((game, fmap) ∷ b) d g f c (m, at, bound) = elim (In-cases (game, fmap) b at) [
  | inr later ↦ index_games_complete b (index_features game fmap d) g f c (m, later, bound)
  | inl e ↦
      index_games_keeps b (index_features game fmap d) c
        (index_features_complete game fmap d f c (subst (In (f, c)) (cc e) bound))
]

-- After a load every chord that the file binds leads to a feature that the file binds to it, and
-- no other chord leads anywhere.
pub rebuild_lem :
    (b : Dict Text (Dict Text Text)) (c : Text)
    → ((g f : Text) → lookup_chord (rebuild_by_chord b) c ≡ some (g, f) → IsBound g f c b)
      × ((g f : Text) → IsBound g f c b → lookup_chord (rebuild_by_chord b) c ≢ none)
unfolding rebuild_by_chord lookup_chord
rebuild_lem b c = (
  λ g f h. elim (index_games_sound b [] c g f h) [
    | inl bound ↦ bound
    | inr empty ↦ cc (empty, lookup-nil {V = Text × Text} c)
  ],
  λ g f bound. index_games_complete b [] g f c bound,
)

-- Where two features hold one chord, clearing one of them leaves the other bound to the chord,
-- but the chord leads nowhere.
pub clear-shared :
    (s : KeybindStore) (g f g' f' c : Text)
    → lookup_feature s g f ≡ some c
    → lookup_feature s g' f' ≡ some c
    → same_feature g f g' f' ≡ false
    → (lookup_feature (clear s g f).1 g' f' ≡ some c) × (lookup_chord (clear s g f).1 c ≡ none)
clear-shared s g f g' f' c held held' other =
    let feature_law = lookup_feature-clear s g f g' f' in
    let chord_law = lookup_chord-clear s g f c in
    let found = (holds_iff (lookup_feature s g f) c).1 held in (ground arith, ground arith)

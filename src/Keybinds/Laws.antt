-- ===== src/Keybinds/Laws.antt =====
-- The two indices of crates/app/src-tauri/src/keybinds.rs after each operation.
use openforge_aio.Prelude.{
  ◌≡◌, ◌↔◌, refl, ap, sym, ◌∙◌, Bool, true, false, ◌&&◌, Option, none, some, [], if◌then◌else◌,
  arith, Option-cases, Bool-cases, inl, inr,
}
use openforge_aio.Prelude.Text.{Text, text_eq}
use openforge_aio.Prelude.Dict.{
  Dict, lookup, insert, remove, text_key, text_eq_iff, lookup-insert, lookup-remove,
}
use openforge_aio.Keybinds.{
  KeybindStore, bind, feature_in, lookup_feature, lookup_chord, without_feature, with_feature,
  or_default, displaced, without_chord, set, clear,
}

-- The test that two features are one.
abbrev pub same_feature : Text → Text → Text → Text → Bool
same_feature game feature game' feature' = text_eq game game' && text_eq feature feature'

pub lookup-nil : {V : Type 0} (k : Text) → lookup {V = V} k [] ≡ none
unfolding lookup
lookup-nil k = refl

with_default :
    (f c f' : Text) (o : Option (Dict Text Text))
    → (if text_eq f f' then some c else lookup f' (or_default o))
      ≡ (if text_eq f f' then some c else bind o (λ fmap. lookup f' fmap))
with_default f c f' none = rw (lookup-nil {V = Text} f') refl
with_default f c f' (some fmap) = refl

pub feature_in-with_feature :
    (g f c : Text) (b : Dict Text (Dict Text Text)) (g' f' : Text)
    → feature_in g' f' (with_feature g f c b)
      ≡ (if same_feature g f g' f' then some c else feature_in g' f' b)
unfolding with_feature
feature_in-with_feature g f c b g' f' = elim (Bool-cases (text_eq g g')) [
  | inr other ↦ rw (lookup-insert g g' (insert f c (or_default (lookup g b))) b, other) refl
  | inl same ↦
      let e = (text_eq_iff g g').0 same in
      rw
        (
          lookup-insert g g' (insert f c (or_default (lookup g b))) b,
          same,
          lookup-insert f f' c (or_default (lookup g b)),
        )
        (rw e (with_default f c f' (lookup g' b)))
]

without_absent :
    (g f g' f' : Text) (b : Dict Text (Dict Text Text))
    → lookup g b ≡ none
    → feature_in g' f' b ≡ (if same_feature g f g' f' then none else feature_in g' f' b)
without_absent g f g' f' b absent = elim (Bool-cases (text_eq g g')) [
  | inr other ↦ rw other refl
  | inl same ↦
      let gone : lookup g' b ≡ none =
        ap (λ k. lookup k b) (sym ((text_eq_iff g g').0 same)) ∙ absent in
      rw (same, gone) (ground arith)
]

pub feature_in-without_feature :
    (g f : Text) (b : Dict Text (Dict Text Text)) (g' f' : Text)
    → feature_in g' f' (without_feature g f b)
      ≡ (if same_feature g f g' f' then none else feature_in g' f' b)
unfolding without_feature
feature_in-without_feature g f b g' f' = elim (Option-cases (lookup g b)) [
  | inl absent ↦ rw absent (without_absent g f g' f' b absent)
  | inr (fmap, present) ↦ elim (Bool-cases (text_eq g g')) [
    | inr other ↦ rw present (rw (lookup-insert g g' (remove f fmap) b, other) refl)
    | inl same ↦
        let there : lookup g' b ≡ some fmap =
          ap (λ k. lookup k b) (sym ((text_eq_iff g g').0 same)) ∙ present in
        rw present
          (rw (lookup-insert g g' (remove f fmap) b, same, there) (lookup-remove f f' fmap))
  ]
]

feature_in-or_default :
    (f : Text) (o : Option (Dict Text Text))
    → lookup f (or_default o) ≡ bind o (λ fmap. lookup f fmap)
feature_in-or_default f none = lookup-nil f
feature_in-or_default f (some fmap) = refl

-- The chord that a feature held is `c`.
abbrev pub holds : Option Text → Text → Bool
holds none c = false
holds (some p) c = text_eq p c

-- The feature that held a chord is that of `game` and `feature`.
abbrev pub is_holder : Option (Text × Text) → Text → Text → Bool
is_holder none game feature = false
is_holder (some (g, f)) game feature = same_feature g f game feature

pub same_feature_iff : (g f g' f' : Text) → (same_feature g f g' f' ≡ true) ↔ ((g ≡ g') × (f ≡ f'))
same_feature_iff g f g' f' = (
  λ h. ((text_eq_iff g g').0 (ground arith), (text_eq_iff f f').0 (ground arith)),
  λ e. rw ((text_eq_iff g g').1 e.0, (text_eq_iff f f').1 e.1) refl,
)

pub holds_iff : (o : Option Text) (c : Text) → (holds o c ≡ true) ↔ (o ≡ some c)
holds_iff none c = (λ h. cc h, λ e. cc e)
holds_iff (some p) c = (λ h. ap some ((text_eq_iff p c).0 h), λ e. (text_eq_iff p c).1 (cc e))

pub is_holder_iff :
    (o : Option (Text × Text)) (g f : Text) → (is_holder o g f ≡ true) ↔ (o ≡ some (g, f))
is_holder_iff none g f = (λ h. cc h, λ e. cc e)
is_holder_iff (some (g', f')) g f = (
  λ h. let (same_g, same_f) = (same_feature_iff g' f' g f).0 h in cc,
  λ e. (same_feature_iff g' f' g f).1 (cc e, cc e),
)

lookup-without_chord :
    (o : Option Text) (d : Dict Text (Text × Text)) (c : Text)
    → lookup c (without_chord o d) ≡ (if holds o c then none else lookup c d)
lookup-without_chord none d c = refl
lookup-without_chord (some p) d c = lookup-remove p c d

displaced-feature :
    (s : KeybindStore) (chord : Text) (o : Option (Text × Text)) (g f : Text)
    → feature_in g f (displaced s chord o).bindings
      ≡ (if is_holder o g f then none else feature_in g f s.bindings)
displaced-feature s chord none g f = refl
displaced-feature s chord (some (g', f')) g f = feature_in-without_feature g' f' s.bindings g f

displaced-chord :
    (s : KeybindStore) (chord c : Text)
    → text_eq chord c ≡ false
    → lookup c (displaced s chord (lookup chord s.by_chord)).by_chord ≡ lookup c s.by_chord
displaced-chord s chord c other = elim (Option-cases (lookup chord s.by_chord)) [
  | inl free ↦ rw free refl
  | inr (holder, held) ↦ rw held (rw (lookup-remove chord c s.by_chord, other) refl)
]

-- What `set` returns: the chord that the feature had, none if it was the new one already.
pub prev-set :
    (s : KeybindStore) (g f c : Text)
    → (set s g f c).0 ≡ (if is_holder (lookup_chord s c) g f then none else lookup_feature s g f)
unfolding set lookup_feature lookup_chord
prev-set s g f c =
    feature_in-or_default f (lookup g (displaced s c (lookup c s.by_chord)).bindings)
    ∙ displaced-feature s c (lookup c s.by_chord) g f

pub lookup_feature-set :
    (s : KeybindStore) (g f c g' f' : Text)
    → lookup_feature (set s g f c).1 g' f' ≡ (
        if same_feature g f g' f'
        then some c
        else if is_holder (lookup_chord s c) g' f'
        then none
        else lookup_feature s g' f')
unfolding set lookup_feature lookup_chord
lookup_feature-set s g f c g' f' =
    feature_in-with_feature g f c (displaced s c (lookup c s.by_chord)).bindings g' f'
    ∙ ap (λ o. if same_feature g f g' f' then some c else o)
        (displaced-feature s c (lookup c s.by_chord) g' f')

pub lookup_chord-set :
    (s : KeybindStore) (g f c c' : Text)
    → lookup_chord (set s g f c).1 c' ≡ (
        if text_eq c c'
        then some (g, f)
        else if holds (set s g f c).0 c'
        then none
        else lookup_chord s c')
unfolding set lookup_chord
lookup_chord-set s g f c c' =
    let s' = displaced s c (lookup c s.by_chord) in
    let prev = lookup f (or_default (lookup g s'.bindings)) in
    elim (Bool-cases (text_eq c c')) [
      | inl same ↦
          rw (lookup-insert {V = Text × Text} c c' (g, f) (without_chord prev s'.by_chord), same)
            refl
      | inr other ↦
          rw (lookup-insert {V = Text × Text} c c' (g, f) (without_chord prev s'.by_chord), other)
            (lookup-without_chord prev s'.by_chord c'
              ∙ ap (λ o. if holds prev c' then none else o) (displaced-chord s c c' other))
    ]

pub lookup_feature-clear :
    (s : KeybindStore) (g f g' f' : Text)
    → lookup_feature (clear s g f).1 g' f'
      ≡ (if same_feature g f g' f' then none else lookup_feature s g' f')
unfolding clear lookup_feature
lookup_feature-clear s g f g' f' = feature_in-without_feature g f s.bindings g' f'

pub lookup_chord-clear :
    (s : KeybindStore) (g f c : Text)
    → lookup_chord (clear s g f).1 c
      ≡ (if holds (lookup_feature s g f) c then none else lookup_chord s c)
unfolding clear lookup_chord lookup_feature
lookup_chord-clear s g f c = lookup-without_chord (feature_in g f s.bindings) s.by_chord c

-- ===== src/Registry/Laws.antt =====
-- What the lookups of crates/runtime/src/registry.rs find in a registry that was collected.
use openforge_aio.Prelude.{
  ◌≡◌, refl, sym, ap, subst, ◌∙◌, false, Option, none, some, List, [], ◌∷◌, ◌++◌, append-nil,
  append_assoc, if◌then◌else◌, arith, Bool-cases, inl, inr, All, if-lem,
}
use openforge_aio.Prelude.Text.{Text, text_eq, or_else}
use openforge_aio.Prelude.Dict.{Dict, lookup, insert, text_key, text_eq_iff, lookup-insert}
use openforge_aio.Registry.{
  Feature, Game, CustomFeatureEntry, collect_games, own_features, buckets, bucket, add_custom,
  seen_in, keep_first, keep_first_each, collect_internal, features_for, find_feature, feature,
}

-- The last submission of the game.
abbrev pub last_game : Text → List Game → Option Game
last_game id [] = none
last_game id (g ∷ gs) = or_else (last_game id gs) (if text_eq g.id id then some g else none)

-- The features that others submitted for the game.
abbrev pub customs_for : Text → List CustomFeatureEntry → List Feature
customs_for id [] = []
customs_for id (e ∷ es) =
    if text_eq e.game_id id then e.feature ∷ customs_for id es else customs_for id es

abbrev pub own : Option Game → List Feature
own none = []
own (some g) = own_features g

-- All that is submitted for the game: its own features, and then what others add.
abbrev pub submitted : List Game → List CustomFeatureEntry → Text → List Feature
submitted entries customs id = own (last_game id entries) ++ customs_for id customs

or_else-none : (o : Option Game) → or_else o none ≡ o
or_else-none none = refl
or_else-none (some g) = refl

collect_games_lem :
    (gs : List Game) (d : Dict Text Game) (id : Text)
    → lookup id (collect_games gs d) ≡ or_else (last_game id gs) (lookup id d)
unfolding collect_games
collect_games_lem [] d id = refl
collect_games_lem (g ∷ gs) d id =
    collect_games_lem gs (insert g.id g d) id ∙ ground (arith, lookup-insert {V = Game} g.id id g d)

found : (gs : List Game) (id : Text) → lookup {V = Game} id (collect_games gs []) ≡ last_game id gs
found gs id = collect_games_lem gs [] id ∙ (unfold lookup in or_else-none (last_game id gs))

buckets_lem : (d : Dict Text Game) (id : Text) → bucket (lookup id (buckets d)) ≡ own (lookup id d)
unfolding buckets lookup
buckets_lem [] id = refl
buckets_lem ((j, g) ∷ d) id = ground (arith, buckets_lem d id)

add_custom_lem :
    (es : List CustomFeatureEntry) (d : Dict Text (List Feature)) (id : Text)
    → bucket (lookup id (add_custom es d)) ≡ bucket (lookup id d) ++ customs_for id es
unfolding add_custom
add_custom_lem [] d id = sym (append-nil (bucket (lookup id d)))
add_custom_lem (e ∷ es) d id =
    let fs = bucket (lookup e.game_id d) ++ e.feature ∷ [] in
    let law = lookup-insert {V = List Feature} e.game_id id fs d in
    add_custom_lem es (insert e.game_id fs d) id ∙ (elim (Bool-cases (text_eq e.game_id id)) [
      | inr other ↦ rw (law, other) refl
      | inl it ↦
          let same : e.game_id ≡ id = (text_eq_iff e.game_id id).0 it in
          rw (law, it, same)
            (append_assoc (bucket (lookup id d)) (e.feature ∷ []) (customs_for id es))
    ])

keep_first_each_lem :
    (d : Dict Text (List Feature)) (id : Text)
    → bucket (lookup id (keep_first_each d)) ≡ keep_first [] (bucket (lookup id d))
unfolding keep_first_each lookup
keep_first_each_lem [] id = unfold keep_first in refl
keep_first_each_lem ((j, fs) ∷ d) id = ground (arith, keep_first_each_lem d id)

-- The features of a game are what was submitted for it, without the later ones of an id.
pub features_for-collect_internal :
    (entries : List Game) (customs : List CustomFeatureEntry) (id : Text)
    → features_for (collect_internal entries customs) id
      ≡ keep_first [] (submitted entries customs id)
unfolding features_for collect_internal
features_for-collect_internal entries customs id =
    keep_first_each_lem (add_custom customs (buckets (collect_games entries []))) id
    ∙ ap (keep_first []) (
        add_custom_lem customs (buckets (collect_games entries [])) id
        ∙ ap (λ fs. fs ++ customs_for id customs)
            (buckets_lem (collect_games entries []) id ∙ ap own (found entries id)))

find_feature-keep_first :
    (seen : List Text) (fs : List Feature) (id : Text)
    → seen_in id seen ≡ false
    → find_feature id (keep_first seen fs) ≡ find_feature id fs
unfolding find_feature keep_first
find_feature-keep_first seen [] id fresh = refl
find_feature-keep_first seen (f ∷ fs) id fresh = elim (Bool-cases (seen_in f.id seen)) [
  | inl again ↦
      let other : text_eq f.id id ≡ false = ground (arith, text_eq_iff f.id id, again, fresh) in
      rw (again, other) (find_feature-keep_first seen fs id fresh)
  | inr new ↦ elim (Bool-cases (text_eq f.id id)) [
    | inl it ↦ rw (new, it) refl
    | inr other ↦ rw (new, other) (find_feature-keep_first (f.id ∷ seen) fs id (rw other fresh))
  ]
]

-- A feature is found exactly as the first of the submissions for its game that have its id.
pub feature-collect_internal :
    (entries : List Game) (customs : List CustomFeatureEntry) (id feature_id : Text)
    → feature (collect_internal entries customs) id feature_id
      ≡ find_feature feature_id (submitted entries customs id)
unfolding feature
feature-collect_internal entries customs id feature_id =
    ap (find_feature feature_id) (features_for-collect_internal entries customs id)
    ∙ find_feature-keep_first [] (submitted entries customs id) feature_id refl

-- No two features have the same id.
abbrev pub Distinct : List Feature → Type 0
Distinct [] = Unit
Distinct (f ∷ fs) = All (λ g. text_eq f.id g.id ≡ false) fs × Distinct fs

unseen :
    (f g : Feature) (seen : List Text)
    → seen_in g.id (f.id ∷ seen) ≡ false
    → text_eq f.id g.id ≡ false
unseen f g seen h = ground arith

All-map :
    (P Q : Feature → Type 0)
    → ((f : Feature) → P f → Q f)
    → (fs : List Feature) → All P fs
    → All Q fs
All-map P Q f [] h = tt
All-map P Q f (x ∷ xs) h = (f x h.0, All-map P Q f xs h.1)

keep_first-fresh :
    (seen : List Text) (fs : List Feature)
    → All (λ g. seen_in g.id seen ≡ false) (keep_first seen fs)
unfolding keep_first
keep_first-fresh seen [] = tt
keep_first-fresh seen (f ∷ fs) =
    if-lem (All (λ g. seen_in g.id seen ≡ false)) (seen_in f.id seen) (keep_first seen fs)
      (f ∷ keep_first (f.id ∷ seen) fs) (λ again. keep_first-fresh seen fs)
      (λ new. (
        new,
        All-map (λ g. seen_in g.id (f.id ∷ seen) ≡ false) (λ g. seen_in g.id seen ≡ false)
            (λ g h. ground arith) (keep_first (f.id ∷ seen) fs) (keep_first-fresh (f.id ∷ seen) fs),
      ))

keep_first-Distinct : (seen : List Text) (fs : List Feature) → Distinct (keep_first seen fs)
unfolding keep_first
keep_first-Distinct seen [] = tt
keep_first-Distinct seen (f ∷ fs) =
    if-lem Distinct (seen_in f.id seen) (keep_first seen fs) (f ∷ keep_first (f.id ∷ seen) fs)
      (λ again. keep_first-Distinct seen fs)
      (λ new. (
        All-map (λ g. seen_in g.id (f.id ∷ seen) ≡ false) (λ g. text_eq f.id g.id ≡ false)
            (λ g h. unseen f g seen h) (keep_first (f.id ∷ seen) fs)
            (keep_first-fresh (f.id ∷ seen) fs),
        keep_first-Distinct (f.id ∷ seen) fs,
      ))

-- The features of a game have different ids.
pub features_for-Distinct :
    (entries : List Game) (customs : List CustomFeatureEntry) (id : Text)
    → Distinct (features_for (collect_internal entries customs) id)
features_for-Distinct entries customs id =
    subst Distinct (sym (features_for-collect_internal entries customs id))
      (keep_first-Distinct [] (submitted entries customs id))

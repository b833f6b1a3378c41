-- ===== src/Registry.antt =====
-- crates/runtime/src/registry.rs: the registry of games and features that `collect_internal`
-- builds from what the game crates submit. `inventory` is the lists of submissions, in their order;
-- a game and a feature are their ids and what the registry asks of them.
pub mod Laws
pub mod Order
pub mod Examples
use openforge_aio.Prelude.{
  ℕ, zero, suc, ◌+◌, ◌≡◌, Bool, true, false, not, ◌&&◌, ◌||◌, Option, none, some, List, [], ◌∷◌,
  ◌++◌, map, ltb, leb, ◌==◌, if◌then◌else◌,
}
use openforge_aio.Prelude.Int.{ℤ, pos, zlt}
use openforge_aio.Prelude.Text.{Text, text_eq, codes}
use openforge_aio.Prelude.Dict.{Dict, lookup, insert, text_key}

pub record Feature : Type 0 where
  pub id : Text
  -- Which submission it is.
  pub origin : ℕ

-- The text of a declarative feature parses to a feature, or it is skipped.
pub record Game : Type 0 where
  pub id : Text
  pub display_name : Text
  pub sort_order : ℤ
  pub declarative_features : List (Option Feature)
  pub custom_features : List Feature

pub record CustomFeatureEntry : Type 0 where
  pub game_id : Text
  pub feature : Feature

pub record Registry : Type 0 where
  pub games : Dict Text Game
  pub sorted_game_ids : List Text
  pub features : Dict Text (List Feature)

-- A game that is submitted again under the same id replaces the earlier one.
unfoldable pub collect_games : List Game → Dict Text Game → Dict Text Game
collect_games [] d = d
collect_games (g ∷ gs) d = collect_games gs (insert g.id g d)

abbrev pub parsed : List (Option Feature) → List Feature
parsed [] = []
parsed (none ∷ fs) = parsed fs
parsed (some f ∷ fs) = f ∷ parsed fs

-- The features that the game brings itself.
unfoldable pub own_features : Game → List Feature
own_features g = parsed g.declarative_features ++ g.custom_features

-- The loop over the map of games: one bucket per game.
unfoldable pub buckets : Dict Text Game → Dict Text (List Feature)
unfolding own_features
buckets [] = []
buckets ((id, g) ∷ games) = (id, own_features g) ∷ buckets games

abbrev pub bucket : Option (List Feature) → List Feature
bucket none = []
bucket (some fs) = fs

-- `features.entry(game_id).or_default().push(feature)`
unfoldable pub add_custom :
    List CustomFeatureEntry → Dict Text (List Feature) → Dict Text (List Feature)
add_custom [] d = d
add_custom (e ∷ es) d =
    add_custom es (insert e.game_id (bucket (lookup e.game_id d) ++ e.feature ∷ []) d)

-- The loop over a list with the ids seen so far.
abbrev pub seen_in : Text → List Text → Bool
seen_in id [] = false
seen_in id (s ∷ seen) = text_eq s id || seen_in id seen

unfoldable pub keep_first : List Text → List Feature → List Feature
keep_first seen [] = []
keep_first seen (f ∷ fs) =
    let skipped = keep_first seen fs in
    let kept = keep_first (f.id ∷ seen) fs in if seen_in f.id seen then skipped else f ∷ kept

unfoldable pub keep_first_each : Dict Text (List Feature) → Dict Text (List Feature)
unfolding keep_first
keep_first_each [] = []
keep_first_each ((id, fs) ∷ d) = (id, keep_first [] fs) ∷ keep_first_each d

-- The order of `str`, code point by code point, which is that of its bytes.
abbrev pub text_le : Text → Text → Bool
text_le [] t = true
text_le (c ∷ s) [] = false
text_le (c ∷ s) (d ∷ t) = ltb c d || (c == d && text_le s t)

-- The order of the pair of the sort order and the name.
unfoldable pub key_le : ℤ × Text → ℤ × Text → Bool
key_le a b = zlt a.0 b.0 || (not (zlt b.0 a.0) && text_le a.1 b.1)

abbrev pub game_key : Option Game → ℤ × Text
game_key none = (pos 0, [])
game_key (some g) = (g.sort_order, g.display_name)

-- `sort_by_key`, a stable sort: an id goes before the first whose key is greater.
unfoldable pub insert_sorted : (Text → ℤ × Text) → Text → List Text → List Text
insert_sorted key id [] = id ∷ []
insert_sorted key id (x ∷ xs) =
    let behind = insert_sorted key id xs in
    if key_le (key id) (key x) then id ∷ x ∷ xs else x ∷ behind

unfoldable pub sort_by_key : (Text → ℤ × Text) → List Text → List Text
unfolding insert_sorted
sort_by_key key [] = []
sort_by_key key (x ∷ xs) = insert_sorted key x (sort_by_key key xs)

unfoldable pub keys : Dict Text Game → List Text
keys [] = []
keys ((id, g) ∷ d) = id ∷ keys d

unfoldable pub collect_internal : List Game → List CustomFeatureEntry → Registry
unfolding collect_games buckets add_custom keep_first_each sort_by_key keys
collect_internal entries customs =
    let games = collect_games entries [] in
    record {
      games = games;
      sorted_game_ids = sort_by_key (λ id. game_key (lookup id games)) (keys games);
      features = keep_first_each (add_custom customs (buckets games));
    }

unfoldable pub game : Registry → Text → Option Game
game r id = lookup id r.games

unfoldable pub features_for : Registry → Text → List Feature
features_for r game_id = bucket (lookup game_id r.features)

unfoldable pub find_feature : Text → List Feature → Option Feature
find_feature feature_id [] = none
find_feature feature_id (f ∷ fs) =
    let later = find_feature feature_id fs in if text_eq f.id feature_id then some f else later

unfoldable pub feature : Registry → Text → Text → Option Feature
unfolding features_for find_feature
feature r game_id feature_id = find_feature feature_id (features_for r game_id)

-- ===== src/Registry/Examples.antt =====
-- Runs of crates/runtime/src/registry.rs.
use openforge_aio.Prelude.{◌≡◌, refl, none, some, List, [], ◌∷◌}
use openforge_aio.Prelude.Int.{pos, negsuc}
use openforge_aio.Prelude.Text.{Text, codes}
use openforge_aio.Prelude.Dict.{lookup, insert, remove}
use openforge_aio.Registry.{
  Feature, Game, CustomFeatureEntry, Registry, collect_games, own_features, buckets, add_custom,
  keep_first, keep_first_each, key_le, insert_sorted, sort_by_key, keys, collect_internal, game,
  features_for, find_feature, feature,
}
use openforge_aio.Registry.Laws.{
  submitted, Distinct, feature-collect_internal, features_for-Distinct,
}
use openforge_aio.Registry.Order.{count, present, Ascends, sorted_game_ids_lem}

abbrev health : Feature
health = record { id = codes "health"; origin = 0 }

abbrev chips : Feature
chips = record { id = codes "chips"; origin = 1 }

abbrev other_health : Feature
other_health = record { id = codes "health"; origin = 2 }

abbrev batman : Game
batman = record {
  id = codes "batman";
  display_name = codes "Batman";
  sort_order = pos 1000;
  declarative_features = some health ∷ none ∷ [];
  custom_features = [];
}

abbrev casino : Game
casino = record {
  id = codes "casino";
  display_name = codes "A Casino";
  sort_order = negsuc 4;
  declarative_features = [];
  custom_features = chips ∷ [];
}

abbrev entries : List Game
entries = batman ∷ casino ∷ []

abbrev customs : List CustomFeatureEntry
customs = record { game_id = codes "batman"; feature = other_health } ∷ []

abbrev registry : Registry
registry = collect_internal entries customs

feature-collect_internal_example :
    feature registry (codes "batman") (codes "health")
    ≡ find_feature (codes "health") (submitted entries customs (codes "batman"))
feature-collect_internal_example =
    feature-collect_internal entries customs (codes "batman") (codes "health")

features_for-Distinct_example : Distinct (features_for registry (codes "batman"))
features_for-Distinct_example = features_for-Distinct entries customs (codes "batman")

sorted_game_ids_lem_example :
    ((id : Text) → count id registry.sorted_game_ids ≡ present (game registry id))
    × Ascends registry registry.sorted_game_ids
sorted_game_ids_lem_example = sorted_game_ids_lem entries customs

keeps_first : feature registry (codes "batman") (codes "health") ≡ some health
unfolding feature features_for find_feature collect_internal collect_games buckets own_features
    add_custom keep_first_each keep_first lookup insert remove
keeps_first = refl

lowest_order_first : registry.sorted_game_ids ≡ codes "casino" ∷ codes "batman" ∷ []
unfolding collect_internal collect_games sort_by_key insert_sorted key_le keys lookup insert remove
lowest_order_first = refl

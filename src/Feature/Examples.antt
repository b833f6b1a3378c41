-- ===== src/Feature/Examples.antt =====
-- Runs of crates/runtime/src/feature.rs in a flat process.
use openforge_aio.Prelude.{
  ℕ, ◌-◌, ◌*◌, ◌/◌, ◌≡◌, ◌≢◌, refl, false, leb, ltb, none, some, List, [], ◌∷◌, arith, inl, inr,
  ◌⊎◌, if◌then◌else◌,
}
use openforge_aio.Prelude.Int.{pos, negsuc, unsigned_abs}
use openforge_aio.Prelude.Result.{ok, err}
use openforge_aio.Prelude.Text.{codes}
use openforge_aio.Prelude.Dict.{lookup, insert, remove}
use openforge_aio.Memory
use openforge_aio.Memory.{looks_readable}
use openforge_aio.Memory.Bytes.{slice}
use openforge_aio.Memory.Flat.{flat-OsLaws}
use openforge_aio.Memory.Flat
use openforge_aio.Ctx.Local.{local, local-CtxLaws, local-Frame}
use openforge_aio.Value.{ValueKind, size, from_le_bytes, decode}
use openforge_aio.Scan.{Double}
use openforge_aio.Ctx.{Ctx}
use openforge_aio.Ctx.Flat.{flat, flat-CtxLaws}
use openforge_aio.Signature.{
  FreezeMatchSpec, PlayMontageSpec, freeze_for_matching, play_anim_montage_for_matching, one_shot,
  WriteSpec, HeapScanSpec, all_validators,
}
use openforge_aio.Feature.Strategy.{
  WriteStrategyKind, freeze_value, freeze_copy_offset, write_strategy, freeze_value-write_strategy,
}
use openforge_aio.Feature.Snapshot.{read_each, snapshot, write_each, restore_bytes, restore}
use openforge_aio.Feature.Restored.{covered, restore-snapshot}
use openforge_aio.Feature.Matching.{
  Feature, FoundObject, MatchError, selected, targets, stamp, stamp_all,
}
use openforge_aio.Feature.Stamped.{Apart, restore-stamp_all}
use openforge_aio.Feature.HeapScan.{
  Floats, validator_passes, all_pass, survivors, band_contains, as_f64, resolve_via_heap_scan,
}
use openforge_aio.Feature.Unique.{Verdict, resolve_via_heap_scan-Verdict}

abbrev ctx : Ctx
ctx = flat 0x10000 0x20000

-- Each byte is the low byte of its address.
abbrev process : ctx.Proc
process x = x - x / 256 * 256

abbrev zeros : ctx.Proc
zeros = λ x. 0

abbrev two : List ℕ
two = 0x10010 ∷ []

abbrev fresh : ctx.Proc → Feature ctx
fresh p = record { proc = p; freeze_originals = []; montage_cache = some []; montage_tick = 3 }

restore-snapshot_example :
    ctx.view
      (restore ctx (fresh zeros) one_shot 2 0x10000 two (0 ∷ 1 ∷ 16 ∷ 17 ∷ [])).1.proc
      0x10011
    ≡ (if covered 2 (0x10000 ∷ two) 0x10011
        then ctx.view process 0x10011
        else ctx.view zeros 0x10011)
unfolding snapshot read_each slice restore restore_bytes write_each
restore-snapshot_example =
    restore-snapshot ctx (flat-CtxLaws 0x10000 0x20000) process (fresh zeros) one_shot 2 0x10000 two
      (0 ∷ 1 ∷ 16 ∷ 17 ∷ []) refl refl refl 0x10011

-- The fields of two objects, the second of which is not mapped.
abbrev Target : ℕ → Type 0
Target a = (a ≡ 0x10000) ⊎ (a ≡ 0x20010)

targets-Apart : Apart 2 Target
targets-Apart a b x (inl e) (inl f) differ within = absurd (differ (omega (arith, e, f)))
targets-Apart a b x (inl e) (inr f) differ within = ground (arith, e, f, within)
targets-Apart a b x (inr e) (inl f) differ within = ground (arith, e, f, within)
targets-Apart a b x (inr e) (inr f) differ within = absurd (differ (omega (arith, e, f)))

-- Two ticks over both objects.
abbrev stamped : List ℕ
stamped = 0x10000 ∷ 0x20010 ∷ 0x10000 ∷ 0x20010 ∷ []

-- The game's own process.
abbrev own : Ctx
own = local (Memory.Flat.flat 0x10000 0x20000)

abbrev before : Feature own
before = record { proc = process; freeze_originals = []; montage_cache = none; montage_tick = 0 }

abbrev goons : FreezeMatchSpec
goons = record {
  class_path = codes "/Game/Goon";
  class_name_substrings = [];
  field_offsets = pos 0 ∷ [];
  field_property = none;
  value = none;
  value_bytes = some (codes "0707");
  interval_ms = 100;
  max_results = 64;
  include_fqn_contains = [];
  exclude_fqn_contains = [];
}

abbrev montage : PlayMontageSpec
montage = record {
  class_path = codes "/Game/Goon";
  class_name_substrings = [];
  montage_names = [];
  interval_ms = 100;
  max_results = 64;
  max_distance_u = 0;
  include_fqn_contains = [];
  exclude_fqn_contains = [];
  play_rate = 1;
  player_state_class = [];
  player_pawn_property = [];
}

restore-stamp_all_example :
    let t = stamp_all own (7 ∷ 7 ∷ []) stamped before in
    let (answer, restored) = restore own t (freeze_for_matching goons) 1 0 [] [] in
    (answer ≡ ok tt)
    × (restored.freeze_originals ≡ [])
    × (own.view restored.proc 0x10001 ≡ own.view process 0x10001)
unfolding stamp_all stamp lookup insert remove slice Memory.read_bytes Memory.write_bytes
    looks_readable
restore-stamp_all_example =
    restore-stamp_all own
      (local-CtxLaws (Memory.Flat.flat 0x10000 0x20000) (flat-OsLaws 0x10000 0x20000))
      (local-Frame (Memory.Flat.flat 0x10000 0x20000) (flat-OsLaws 0x10000 0x20000)) before
      (7 ∷ 7 ∷ []) Target targets-Apart stamped goons 1 0 [] [] refl
      (inl refl, (inr refl, (inl refl, (inr refl, tt)))) 0x10001 refl refl

forgets_the_montages :
    (restore ctx (fresh zeros) (play_anim_montage_for_matching montage) 1 0 [] []).1.montage_tick
    ≡ 0
unfolding restore
forgets_the_montages = refl

abbrev boss : FoundObject
boss = record { obj_addr = 0x10000; class_addr = 5; fqn = codes "Game.Boss" }

abbrev friend : FoundObject
friend = record { obj_addr = 0x10800; class_addr = 5; fqn = codes "Game.Friend" }

stamps_the_selected :
    targets ctx
      (λ c prop. err MatchError.property_missing)
      []
      (codes "FRIEND" ∷ [])
      (pos 16 ∷ [])
      none
      0
      0
      (boss ∷ friend ∷ [])
    ≡ (none, 0x10010 ∷ [])
unfolding targets selected
stamps_the_selected = refl

-- Whole numbers in the place of `f64`.
abbrev whole : Double
whole = record {
  F64 = ℕ;
  sub = λ a b. a - b;
  abs = λ a. a;
  gt = λ a b. ltb b a;
  ge = λ a b. leb b a;
}

abbrev floats : Floats whole
floats = record { is_nan = λ a. false; of_int = unsigned_abs; of_f32 = λ v. v; of_f64 = λ v. v }

abbrev chips : HeapScanSpec
chips = record {
  value_type = ValueKind.i64;
  value = pos 9999999;
  field_offset = negsuc 7;
  alignment = 8;
  validator = some (record {
    field_type = ValueKind.u8;
    relative_offset = pos 1;
    min = some 0x11;
    max = some 0x20;
  });
  validators = [];
}

resolve_via_heap_scan-Verdict_example :
    Verdict whole floats ctx
      (flat-CtxLaws 0x10000 0x20000)
      process
      chips
      (0x10008 ∷ 0x10018 ∷ [])
      (resolve_via_heap_scan whole floats ctx process chips (ok (0x10008 ∷ 0x10018 ∷ [])))
resolve_via_heap_scan-Verdict_example =
    resolve_via_heap_scan-Verdict whole floats ctx (flat-CtxLaws 0x10000 0x20000) process chips
      0x10008 (0x10018 ∷ []) refl

-- Of the candidates 0x10000 and 0x10010 the second has 0x11 behind it.
binds_the_second :
    resolve_via_heap_scan whole floats ctx process chips (ok (0x10008 ∷ 0x10018 ∷ [])) ≡ ok 0x10010
unfolding resolve_via_heap_scan survivors all_pass all_validators validator_passes from_le_bytes
    as_f64 band_contains size decode slice
binds_the_second = refl

freeze_value-write_strategy_example :
    (freeze_value (WriteSpec.freeze 100 (some 5) none) ≢ none
      → write_strategy (WriteSpec.freeze 100 (some 5) none) ≡ WriteStrategyKind.freeze)
    × (freeze_copy_offset (WriteSpec.freeze 100 (some 5) none) ≢ none
        → write_strategy (WriteSpec.freeze 100 (some 5) none) ≡ WriteStrategyKind.freeze)
freeze_value-write_strategy_example =
    freeze_value-write_strategy (WriteSpec.freeze 100 (some 5) none)

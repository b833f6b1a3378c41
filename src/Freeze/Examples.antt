-- ===== src/Freeze/Examples.antt =====
-- Runs of crates/glacier-007-dll/src/freeze.rs in a flat address space, and its theorems there.
use openforge_aio.Prelude.{◌≡◌, refl, true, none, [], ◌∷◌, arith}
use openforge_aio.Prelude.Int.{pos}
use openforge_aio.Prelude.Float.{f32_is_finite, f32_is_nan, f32_le}
use openforge_aio.Memory.{Os, looks_readable, read_bytes, write_bytes}
use openforge_aio.Memory.Bytes.{overwrite, slice}
use openforge_aio.Memory.Flat.{flat, flat-OsLaws}
use openforge_aio.GlacierValue.{GlacierValue, ValueKind, size, to_le_bytes}
use openforge_aio.Freeze.{
  FreezeSlot, Freezes, Response, freeze_started, freeze_stats, unknown_handle, start_freeze,
  stop_freeze, stats_of, query_stats, plausible, stamp, tick,
}
use openforge_aio.Freeze.Guard.{stamped_bytes, Guarded, stamp_lem, tick-outside}
use openforge_aio.Freeze.Registry.{
  IsRegistry, start_freeze-IsRegistry, stop_freeze-IsRegistry, tick-IsRegistry, stop_freeze-tick,
  query_stats-start_freeze,
}

abbrev os : Os
os = flat 0x10000 0x20000

abbrev nothing : Freezes
nothing = record { slots = []; next_handle = 1 }

-- 100.0 in [0.0, 1000.0], at the box's field 8.
abbrev started : Response × Freezes
started =
    start_freeze nothing 0x12000 (pos 8) none (GlacierValue.f32 0x42c80000) ValueKind.f32 0
      0x447a0000

abbrev reg : Freezes
reg = started.1

abbrev zeros : os.Mem
zeros = λ x. 0

-- Every field reads as a float that is not finite.
abbrev ones : os.Mem
ones = λ x. 0xff

abbrev slot : FreezeSlot
slot = record {
  handle = 1;
  box_va = 0x12000;
  write_offset = pos 8;
  source_offset = none;
  value_bytes = 0 ∷ 0 ∷ 0xc8 ∷ 0x42 ∷ [];
  width = 4;
  guard_min = 0;
  guard_max = 0x447a0000;
  writes = 0;
  skipped = 0;
  ticks = 0;
  active = true;
}

stamp_lem_example : Guarded os (flat-OsLaws 0x10000 0x20000) zeros slot (stamp os zeros slot)
stamp_lem_example = stamp_lem os (flat-OsLaws 0x10000 0x20000) zeros slot

tick-outside_example :
    os.view (tick os zeros (record { slots = slot ∷ []; next_handle = 2 })).1 0x12000 ≡ 0
unfolding stamped_bytes
tick-outside_example =
    tick-outside os (flat-OsLaws 0x10000 0x20000) zeros
      (record { slots = slot ∷ []; next_handle = 2 }) 0x12000 (λ on. refl, tt)

start_freeze-IsRegistry_example : IsRegistry reg
start_freeze-IsRegistry_example =
    start_freeze-IsRegistry nothing 0x12000 (pos 8) none (GlacierValue.f32 0x42c80000) ValueKind.f32
      0 0x447a0000 tt (omega arith)

stop_freeze-IsRegistry_example : IsRegistry (stop_freeze reg 1).1
stop_freeze-IsRegistry_example = stop_freeze-IsRegistry reg 1 start_freeze-IsRegistry_example

tick-IsRegistry_example : IsRegistry (tick os zeros reg).0
tick-IsRegistry_example = tick-IsRegistry os zeros reg start_freeze-IsRegistry_example

stop_freeze-tick_example : query_stats (tick os zeros (stop_freeze reg 1).1).0 1 ≡ unknown_handle 1
stop_freeze-tick_example = stop_freeze-tick os zeros reg 1

query_stats-start_freeze_example :
    (started.0 ≡ freeze_started 1) × (query_stats reg 1 ≡ freeze_stats 0 0 0)
unfolding size
query_stats-start_freeze_example =
    query_stats-start_freeze nothing 0x12000 (pos 8) none (GlacierValue.f32 0x42c80000)
      ValueKind.f32 0 0x447a0000 tt (omega arith) (omega arith)

writes_once : query_stats (tick os zeros reg).0 1 ≡ freeze_stats 1 0 1
unfolding query_stats stats_of tick stamp start_freeze size to_le_bytes plausible f32_is_finite
    f32_is_nan f32_le read_bytes write_bytes looks_readable slice overwrite
writes_once = refl

skips_garbage : query_stats (tick os ones reg).0 1 ≡ freeze_stats 0 1 1
unfolding query_stats stats_of tick stamp start_freeze size to_le_bytes plausible f32_is_finite
    f32_is_nan f32_le read_bytes write_bytes looks_readable slice overwrite
skips_garbage = refl

-- ===== src/Freeze.antt =====
-- crates/glacier-007-dll/src/freeze.rs: the registry of guarded freezes and a pass of the thread
-- that stamps them. A pass is one step: the requests that the worker serves come between passes.
pub mod Guard
pub mod Registry
mod Examples
use openforge_aio.Prelude.{
  ℕ, ◌+◌, ◌^◌, ◌%◌, ◌≡◌, Bool, true, false, not, ◌&&◌, ◌||◌, Option, none, some, List, [], ◌∷◌,
  ◌++◌, length, ltb, leb, ◌==◌, if◌then◌else◌,
}
use openforge_aio.Prelude.Result.{Result, ok, err}
use openforge_aio.Prelude.Int.{ℤ, of_signed}
use openforge_aio.Prelude.Bytes.{from_le}
use openforge_aio.Prelude.Float.{f32_is_finite, f32_le}
use openforge_aio.Memory.{Os, ReadError, read_bytes, write_bytes}
use openforge_aio.GlacierValue.{GlacierValue, ValueKind, size, to_le_bytes}

pub record FreezeSlot : Type 0 where
  pub handle : ℕ
  pub box_va : ℕ
  pub write_offset : ℤ
  pub source_offset : Option ℤ
  pub value_bytes : List ℕ
  pub width : ℕ
  pub guard_min : ℕ
  pub guard_max : ℕ
  pub writes : ℕ
  pub skipped : ℕ
  pub ticks : ℕ
  pub active : Bool

-- `FREEZE` and `NEXT_HANDLE`.
pub record Freezes : Type 0 where
  pub slots : List FreezeSlot
  pub next_handle : ℕ

pub data Response : Type 0 where
  freeze_started : ℕ → Response
  freeze_stopped : Response
  freeze_stats : ℕ → ℕ → ℕ → Response
  unsupported_width : ℕ → Response
  unknown_handle : ℕ → Response

unfoldable pub start_freeze :
    Freezes → ℕ → ℤ → Option ℤ → GlacierValue → ValueKind → ℕ → ℕ → Response × Freezes
start_freeze reg box_va write_offset source_offset value value_kind guard_min guard_max =
    let width = size value_kind in
    let slot : FreezeSlot = record {
      handle = reg.next_handle;
      box_va = box_va;
      write_offset = write_offset;
      source_offset = source_offset;
      value_bytes = to_le_bytes value;
      width = width;
      guard_min = guard_min;
      guard_max = guard_max;
      writes = 0;
      skipped = 0;
      ticks = 0;
      active = true;
    } in
    if width == 0 || ltb 8 width then (unsupported_width width, reg) else (
      freeze_started reg.next_handle,
      record { slots = reg.slots ++ slot ∷ []; next_handle = (reg.next_handle + 1) % 2 ^ 32 },
    )

abbrev pub deactivated : ℕ → FreezeSlot → FreezeSlot
deactivated handle s = if s.handle == handle then record s { active = false } else s

abbrev pub stop_each : ℕ → List FreezeSlot → List FreezeSlot
stop_each handle [] = []
stop_each handle (s ∷ ss) = deactivated handle s ∷ stop_each handle ss

unfoldable pub stop_freeze : Freezes → ℕ → Response × Freezes
stop_freeze reg handle = (freeze_stopped, record reg { slots = stop_each handle reg.slots })

unfoldable pub stats_of : List FreezeSlot → ℕ → Response
stats_of [] handle = unknown_handle handle
stats_of (s ∷ ss) handle =
    let rest = stats_of ss handle in
    if s.handle == handle then freeze_stats s.writes s.skipped s.ticks else rest

unfoldable pub query_stats : Freezes → ℕ → Response
unfolding stats_of
query_stats reg handle = stats_of reg.slots handle

-- `fetch_add(1)` of an AtomicU64.
abbrev pub counted : ℕ → ℕ
counted n = (n + 1) % 2 ^ 64

-- `box_va.wrapping_add(offset as u64) as usize`
abbrev pub address : ℕ → ℤ → ℕ
address box_va offset = (box_va + of_signed (2 ^ 63) offset) % 2 ^ 64

unfoldable pub plausible : FreezeSlot → List ℕ → Bool
plausible s cur =
    let v = from_le cur in f32_is_finite v && (f32_le s.guard_min v && f32_le v s.guard_max)

abbrev pub retain_active : List FreezeSlot → List FreezeSlot
retain_active [] = []
retain_active (s ∷ ss) = let rest = retain_active ss in if s.active then s ∷ rest else rest

module _ (os : Os) where
  abbrev pub source_bytes : os.Mem → FreezeSlot → Option ℤ → Result ReadError (List ℕ)
  source_bytes m s none = ok s.value_bytes
  source_bytes m s (some off) = read_bytes os m (address s.box_va off) s.width

  abbrev pub is_ok : Result ReadError (Unit {0}) → Bool
  is_ok (ok u) = true
  is_ok (err e) = false

  abbrev pub stored : os.Mem → ℕ → Result ReadError (List ℕ) → Bool × os.Mem
  stored m target (err e) = (false, m)
  stored m target (ok bytes) =
      let (written, m') = write_bytes os m target bytes in (is_ok written, m')

  abbrev pub checked : os.Mem → FreezeSlot → ℕ → Result ReadError (List ℕ) → Bool × os.Mem
  checked m s target (err e) = (false, m)
  checked m s target (ok cur) =
      if plausible s cur then stored m target (source_bytes m s s.source_offset) else (false, m)

  -- The memory operations of a slot in one pass, and whether it wrote.
  unfoldable pub stamp : os.Mem → FreezeSlot → Bool × os.Mem
  stamp m s =
      let target = address s.box_va s.write_offset in checked m s target (read_bytes os m target 4)

  abbrev pub tallied : FreezeSlot → Bool → FreezeSlot
  tallied s true = record s { ticks = counted s.ticks; writes = counted s.writes }
  tallied s false = record s { ticks = counted s.ticks; skipped = counted s.skipped }

  unfoldable pub tick_each : os.Mem → List FreezeSlot → List FreezeSlot × os.Mem
  unfolding stamp
  tick_each m [] = ([], m)
  tick_each m (s ∷ ss) =
      let (wrote, m') = stamp m s in
      let (ss', m'') = tick_each m' ss in (tallied s wrote ∷ ss', m'')

  unfoldable pub tick : os.Mem → Freezes → Freezes × os.Mem
  unfolding tick_each
  tick m reg =
      let (slots, m') = tick_each m (retain_active reg.slots) in (record reg { slots = slots }, m')

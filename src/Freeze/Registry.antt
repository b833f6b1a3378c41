-- ===== src/Freeze/Registry.antt =====
-- The registry of crates/glacier-007-dll/src/freeze.rs: its invariant, and what the requests see.
use openforge_aio.Prelude.{
  ℕ, ◌+◌, ◌≤◌, ◌<◌, ◌≡◌, ◌≢◌, refl, ◌∙◌, Bool, true, false, Option, List, [], ◌∷◌, ◌++◌, arith,
  Bool-cases, if-lem, inl, inr, ◌^◌, ◌%◌, All, All-append, ◌||◌, ◌==◌, ltb,
}
use openforge_aio.Prelude.Int.{ℤ}
use openforge_aio.Memory.{Os}
use openforge_aio.GlacierValue.{GlacierValue, ValueKind, size}
use openforge_aio.Freeze.{
  FreezeSlot, Freezes, freeze_started, freeze_stats, unknown_handle, start_freeze, stop_each,
  stop_freeze, stats_of, query_stats, retain_active, stamp, tallied, tick_each, tick,
}

pub retain_active-All :
    (P : FreezeSlot → Type 0) (ss : List FreezeSlot)
    → All (λ s. s.active ≡ true → P s) ss
    → All P (retain_active ss)
retain_active-All P [] h = tt
retain_active-All P (s ∷ ss) h =
    if-lem (All P) s.active (s ∷ retain_active ss) (retain_active ss)
      (λ on. (h.0 on, retain_active-All P ss h.1)) (λ off. retain_active-All P ss h.1)

All-map :
    {P Q : FreezeSlot → Type 0}
    → ((s : FreezeSlot) → P s → Q s)
    → (ss : List FreezeSlot) → All P ss
    → All Q ss
All-map f [] h = tt
All-map f (s ∷ ss) h = (f s h.0, All-map f ss h.1)

-- A width that fits the scratch buffer, a handle that was given out, and counters that add up.
abbrev pub IsSlot : ℕ → FreezeSlot → Type 0
IsSlot next s =
    (0 < s.width) × (s.width ≤ 8) × (s.handle < next) × (s.ticks ≡ (s.writes + s.skipped) % 2 ^ 64)

abbrev pub IsRegistry : Freezes → Type 0
IsRegistry reg = All (IsSlot reg.next_handle) reg.slots

IsSlot-later : (next : ℕ) (ss : List FreezeSlot) → All (IsSlot next) ss → All (IsSlot (next + 1)) ss
IsSlot-later next [] h = tt
IsSlot-later next (s ∷ ss) h =
    ((h.0.0, h.0.1, omega (arith, h.0.2), h.0.3), IsSlot-later next ss h.1)

-- As long as the handles have not wrapped around, a start keeps a well-formed registry well
-- formed, whatever the width.
pub start_freeze-IsRegistry :
    (reg : Freezes) (box_va : ℕ) (write_offset : ℤ) (source_offset : Option ℤ)
    (value : GlacierValue) (value_kind : ValueKind) (guard_min guard_max : ℕ)
    → IsRegistry reg
    → reg.next_handle + 1 < 2 ^ 32
    → IsRegistry
        (start_freeze reg box_va write_offset source_offset value value_kind guard_min guard_max).1
unfolding start_freeze
start_freeze-IsRegistry reg box_va write_offset source_offset value value_kind guard_min guard_max h
      room =
    let width : ℕ = size value_kind in
    elim (Bool-cases (width == 0 || ltb 8 width)) [
      | inl refused ↦ rw refused h
      | inr fine ↦
          let e : (reg.next_handle + 1) % 2 ^ 32 ≡ reg.next_handle + 1 = omega arith in
          rw (fine, e)
            (All-append (IsSlot (reg.next_handle + 1)) reg.slots _
              (IsSlot-later reg.next_handle reg.slots h)
              ((ground arith, ground arith, omega arith, omega arith), tt))
    ]

stop_each-IsSlot :
    (next handle : ℕ) (ss : List FreezeSlot)
    → All (IsSlot next) ss
    → All (IsSlot next) (stop_each handle ss)
stop_each-IsSlot next handle [] h = tt
stop_each-IsSlot next handle (s ∷ ss) h = (
  if-lem (IsSlot next) (s.handle == handle) (record s { active = false }) s (λ it. h.0)
      (λ other. h.0),
  stop_each-IsSlot next handle ss h.1,
)

-- A stop keeps a well-formed registry well formed.
pub stop_freeze-IsRegistry :
    (reg : Freezes) (handle : ℕ) → IsRegistry reg → IsRegistry (stop_freeze reg handle).1
unfolding stop_freeze
stop_freeze-IsRegistry reg handle h = stop_each-IsSlot reg.next_handle handle reg.slots h

tallied-IsSlot :
    (os : Os) (next : ℕ) (s : FreezeSlot) (wrote : Bool)
    → IsSlot next s
    → IsSlot next (tallied os s wrote)
tallied-IsSlot os next s true h = (h.0, h.1, h.2, omega (arith, h.3))
tallied-IsSlot os next s false h = (h.0, h.1, h.2, omega (arith, h.3))

tick_each-IsSlot :
    (os : Os) (next : ℕ) (m : os.Mem) (ss : List FreezeSlot)
    → All (IsSlot next) ss
    → All (IsSlot next) (tick_each os m ss).0
unfolding tick_each
tick_each-IsSlot os next m [] h = tt
tick_each-IsSlot os next m (s ∷ ss) h = (
  tallied-IsSlot os next s (stamp os m s).0 h.0,
  tick_each-IsSlot os next (stamp os m s).1 ss h.1,
)

-- A pass keeps a well-formed registry well formed: every tick of a slot is counted as a write
-- or as a skip.
pub tick-IsRegistry :
    (os : Os) (m : os.Mem) (reg : Freezes) → IsRegistry reg → IsRegistry (tick os m reg).0
unfolding tick
tick-IsRegistry os m reg h =
    tick_each-IsSlot os reg.next_handle m (retain_active reg.slots)
      (retain_active-All (IsSlot reg.next_handle) reg.slots (All-map (λ s it on. it) reg.slots h))

tallied-handle : (os : Os) (s : FreezeSlot) (wrote : Bool) → (tallied os s wrote).handle ≡ s.handle
tallied-handle os s true = refl
tallied-handle os s false = refl

stats_of-tick_each :
    (os : Os) (m : os.Mem) (ss : List FreezeSlot) (handle : ℕ)
    → All (λ s. s.handle ≢ handle) ss
    → stats_of (tick_each os m ss).0 handle ≡ unknown_handle handle
unfolding tick_each stats_of
stats_of-tick_each os m [] handle away = refl
stats_of-tick_each os m (s ∷ ss) handle away =
    let e = tallied-handle os s (stamp os m s).0 in
    let rest = stats_of-tick_each os (stamp os m s).1 ss handle away.1 in
    let other : (tallied os s (stamp os m s).0).handle == handle ≡ false =
      ground (arith, e, away.0) in
    rw other rest

stopped-away :
    (handle : ℕ) (ss : List FreezeSlot)
    → All (λ s. s.active ≡ true → s.handle ≢ handle) (stop_each handle ss)
stopped-away handle [] = tt
stopped-away handle (s ∷ ss) = (
  if-lem (λ t. t.active ≡ true → t.handle ≢ handle) (s.handle == handle)
      (record s { active = false }) s (λ it on. cc on) (λ other on. ground (arith, other)),
  stopped-away handle ss,
)

-- Once a freeze is stopped and a pass is made, its handle is unknown.
pub stop_freeze-tick :
    (os : Os) (m : os.Mem) (reg : Freezes) (handle : ℕ)
    → query_stats (tick os m (stop_freeze reg handle).1).0 handle ≡ unknown_handle handle
unfolding stop_freeze query_stats tick
stop_freeze-tick os m reg handle =
    stats_of-tick_each os m (retain_active (stop_each handle reg.slots)) handle (
      retain_active-All (λ s. s.handle ≢ handle) (stop_each handle reg.slots)
        (stopped-away handle reg.slots))

stats_of-append :
    (next handle : ℕ) (ss ts : List FreezeSlot)
    → All (IsSlot next) ss
    → next ≤ handle
    → stats_of (ss ++ ts) handle ≡ stats_of ts handle
unfolding stats_of
stats_of-append next handle [] ts h fresh = refl
stats_of-append next handle (s ∷ ss) ts h fresh =
    let old = h.0.2 in
    let other : s.handle == handle ≡ false = ground arith in
    rw other (stats_of-append next handle ss ts h.1 fresh)

-- In a well-formed registry a start with a kind of 1 to 8 bytes answers the next handle, and a
-- query of it finds the counters at zero.
pub query_stats-start_freeze :
    (reg : Freezes) (box_va : ℕ) (write_offset : ℤ) (source_offset : Option ℤ)
    (value : GlacierValue) (value_kind : ValueKind) (guard_min guard_max : ℕ)
    → IsRegistry reg
    → 0 < size value_kind
    → size value_kind ≤ 8
    → let (answer, reg') =
        start_freeze reg box_va write_offset source_offset value value_kind guard_min guard_max in
      (answer ≡ freeze_started reg.next_handle)
      × (query_stats reg' reg.next_handle ≡ freeze_stats 0 0 0)
unfolding start_freeze query_stats
query_stats-start_freeze reg box_va write_offset source_offset value value_kind guard_min guard_max
      h some_width small =
    let fine : (size value_kind == 0 || ltb 8 (size value_kind)) ≡ false = ground arith in
    let same : (reg.next_handle == reg.next_handle) ≡ true = ground arith in
    rw fine (
      refl,
      stats_of-append reg.next_handle reg.next_handle reg.slots _ h (omega arith) ∙ rw same refl,
    )

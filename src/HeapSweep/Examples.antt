-- ===== src/HeapSweep/Examples.antt =====
-- Runs of the heap scan of crates/glacier-007-dll/src/scan.rs in a flat address space.
use openforge_aio.Prelude.{
  ℕ, ◌≡◌, refl, Option, none, some, List, [], ◌∷◌, arith, In, ltb, if◌then◌else◌,
}
use openforge_aio.Prelude.Bytes.{to_le}
use openforge_aio.Memory.{Os, looks_readable, read_bytes}
use openforge_aio.Memory.Bytes.{overwrite, slice}
use openforge_aio.Memory.Flat.{flat, flat-OsLaws}
use openforge_aio.PointerScan.Pages.{Mbi}
use openforge_aio.HeapSweep.{
  equal, search_from, search_span, each_part, scan_range, is_writable, range_of, next_addr,
  granularity, max_iters, heap_for_u64,
}
use openforge_aio.HeapSweep.Sort.{insert, sort, dedup_after, dedup, Ascending}
use openforge_aio.HeapSweep.Walk.{Visits, HitOf, ReadableIn, heap_for_u64_lem}

-- The first page of the range, of 16 bytes here, is not mapped.
abbrev os : Os
os = flat 0x10010 0x20000

abbrev needle : List ℕ
needle = to_le 8 0x1234

-- The needle stands at 0x10018 and 0x1002C.
abbrev process : os.Mem
process = overwrite (overwrite (λ x. 0) 0x10018 needle) 0x1002c needle

-- The first window cannot be read, and its second page gives the hit none the less.
recovers_the_page : scan_range os process needle 8 32 16 0x10000 64 ≡ some (48, 0x10018 ∷ [])
unfolding scan_range each_part search_span search_from equal read_bytes looks_readable overwrite
    slice
recovers_the_page = refl

-- With an alignment of 4 the needle at 0x1002C is found in one window of 64 bytes, and missed where
-- a boundary of two windows of 16 bytes cuts it.
finds_within : scan_range os process needle 4 64 16 0x10010 48 ≡ some (48, 0x10018 ∷ 0x1002c ∷ [])
unfolding scan_range each_part search_span search_from equal read_bytes looks_readable overwrite
    slice
finds_within = refl

misses_across : scan_range os process needle 4 16 16 0x10010 48 ≡ some (48, 0x10018 ∷ [])
unfolding scan_range each_part search_span search_from equal read_bytes looks_readable overwrite
    slice
misses_across = refl

tidies : dedup (sort (3 ∷ 1 ∷ 3 ∷ 2 ∷ 1 ∷ [])) ≡ 1 ∷ 2 ∷ 3 ∷ []
unfolding dedup dedup_after sort insert
tidies = refl

-- A writable region, and a region that is said to be free and can be read.
abbrev region : ℕ → ℕ → Mbi
region state protect = record {
  base_address = 0x18000;
  region_size = 0x4000;
  state = state;
  protect = protect;
}

takes_writable :
    range_of os process (λ a. none) 0x10000 (some (region 0x1000 4)) ≡ some (0x18000, 0x4000)
unfolding range_of is_writable
takes_writable = refl

skips_guard : range_of os process (λ a. none) 0x10000 (some (region 0x1000 0x104)) ≡ none
unfolding range_of is_writable
skips_guard = refl

goes_on : next_addr os process (λ a. none) 0x10000 (some (region 0x1000 4)) ≡ 0x1c000
unfolding next_addr
goes_on = refl

abbrev query : ℕ → Option Mbi
query addr = if ltb addr 0x1c000 then some (region 0x1000 4) else none

heap_for_u64_lem_example :
    (out : List ℕ) × (heap_for_u64 os process query 0x1234 8 ≡ some out)
    × Ascending out
    × ((v : ℕ)
        → (In v out
            → (range : ℕ × ℕ) × Visits os process query max_iters granularity range
              × HitOf os
                  (flat-OsLaws 0x10010 0x20000)
                  process
                  query
                  (to_le 8 0x1234)
                  8
                  (omega arith)
                  (1, omega arith)
                  (512, omega arith)
                  range
                  v)
          × ((range : ℕ × ℕ)
              → Visits os process query max_iters granularity range
              → ReadableIn os
                  (flat-OsLaws 0x10010 0x20000)
                  process
                  query
                  (to_le 8 0x1234)
                  8
                  (omega arith)
                  (1, omega arith)
                  (512, omega arith)
                  range
                  v
              → HitOf os
                  (flat-OsLaws 0x10010 0x20000)
                  process
                  query
                  (to_le 8 0x1234)
                  8
                  (omega arith)
                  (1, omega arith)
                  (512, omega arith)
                  range
                  v
              → In v out))
heap_for_u64_lem_example =
    heap_for_u64_lem os (flat-OsLaws 0x10010 0x20000) process query 0x1234 8 (omega arith)
      (1, omega arith) (512, omega arith)

-- ===== src/RegionSweep/Examples.antt =====
-- Runs of the heap scan of crates/batman-lod-dll/src/ops/heap_scan.rs in a flat address space.
use openforge_aio.Prelude.{ℕ, ◌≡◌, refl, some, List, [], ◌∷◌, arith, In}
use openforge_aio.Prelude.Bytes.{to_le}
use openforge_aio.Memory.{Os, looks_readable, read_bytes}
use openforge_aio.Memory.Bytes.{overwrite, slice}
use openforge_aio.Memory.Flat.{flat, flat-OsLaws}
use openforge_aio.Scan.{MemoryRegion}
use openforge_aio.HeapSweep.{equal, search_from, search_span}
use openforge_aio.HeapSweep.Sort.{insert, sort, dedup_after, dedup, Ascending}
use openforge_aio.RegionSweep.{
  search_aligned, search_chunk, advance, scan_region, scan_regions, scan,
}
use openforge_aio.RegionSweep.Found.{Stands, FitsFrom, scan-Stands}

abbrev os : Os
os = flat 0x10000 0x20000

-- The needle stands at 0x10008 and 0x10020.
abbrev process : os.Mem
process = overwrite (overwrite (λ x. 0) 0x10008 (to_le 8 0x1234)) 0x10020 (to_le 8 0x1234)

abbrev region : MemoryRegion
region = record { base = 0x10000; size = 48 }

scan-Stands_example :
    (out : List ℕ) × (scan os process 64 (region ∷ []) 0x1234 8 ≡ some out)
    × Ascending out
    × ((v : ℕ)
        → (In v out
            → (r : MemoryRegion) × In r (region ∷ [])
              × Stands os
                  (flat-OsLaws 0x10000 0x20000)
                  process
                  (to_le 8 0x1234)
                  64
                  (omega arith)
                  r
                  v)
          × ((r : MemoryRegion)
              → In r (region ∷ [])
              → FitsFrom os
                  (flat-OsLaws 0x10000 0x20000)
                  process
                  (to_le 8 0x1234)
                  64
                  (omega arith)
                  r
                  0
                  v
              → Stands os
                  (flat-OsLaws 0x10000 0x20000)
                  process
                  (to_le 8 0x1234)
                  64
                  (omega arith)
                  r
                  v
              → In v out))
scan-Stands_example =
    scan-Stands os (flat-OsLaws 0x10000 0x20000) process 64 (omega arith) (region ∷ []) 0x1234

finds_both : scan os process 64 (region ∷ []) 0x1234 8 ≡ some (0x10008 ∷ 0x10020 ∷ [])
unfolding scan scan_regions scan_region advance search_chunk search_span search_from equal
    read_bytes looks_readable overwrite slice sort insert dedup dedup_after
finds_both = refl

-- Where the region is longer than the buffer, the second chunk starts 7 bytes early and its steps
-- of 8 pass by the aligned address.
misses_in_second_chunk : scan os process 32 (region ∷ []) 0x1234 8 ≡ some (0x10008 ∷ [])
unfolding scan scan_regions scan_region advance search_chunk search_span search_from equal
    read_bytes looks_readable overwrite slice sort insert dedup dedup_after
misses_in_second_chunk = refl

misses_with_four : scan os process 32 (region ∷ []) 0x1234 4 ≡ some (0x10008 ∷ [])
unfolding scan scan_regions scan_region advance search_chunk search_aligned equal read_bytes
    looks_readable overwrite slice sort insert dedup dedup_after
misses_with_four = refl

-- ===== src/RegionSweep.antt =====
-- The heap scan of crates/batman-lod-dll/src/ops/heap_scan.rs: the regions that `enumerate_rw_regions`
-- answers are read in chunks as long as the scratch buffer, `win` bytes.
pub mod Found
pub mod Examples
use openforge_aio.Prelude.{
  ℕ, zero, suc, ◌+◌, ◌-◌, ◌*◌, ◌%◌, Bool, true, false, ◌&&◌, Option, none, some, List, [], ◌∷◌,
  ◌++◌, length, take, drop, leb, ltb, ◌==◌, if◌then◌else◌, min, max,
}
use openforge_aio.Prelude.Maybe.{◌>>=◌}
use openforge_aio.Prelude.Result.{Result, ok, err}
use openforge_aio.Prelude.Bytes.{to_le}
use openforge_aio.Memory.{Os, ReadError, read_bytes}
use openforge_aio.Scan.{MemoryRegion}
use openforge_aio.HeapSweep.{equal, search_span}
use openforge_aio.HeapSweep.Sort.{sort, dedup}

-- The loop for an alignment other than 8, which tests each address; `none` when the fuel is spent.
unfoldable pub search_aligned : ℕ → ℕ → List ℕ → List ℕ → ℕ → ℕ → Option (List ℕ)
search_aligned zero abs slice needle align i = none
search_aligned (suc fuel) abs slice needle align i =
    if leb (i + 8) (length slice)
    then (do
      rest ← search_aligned fuel abs slice needle align (i + align)
      some (
          if ((abs + i) % align == 0) && equal (take 8 (drop i slice)) needle
          then (abs + i) ∷ rest
          else rest))
    else some []

unfoldable pub search_chunk : ℕ → List ℕ → List ℕ → ℕ → Option (List ℕ)
unfolding search_aligned
search_chunk abs slice needle align =
    if align == 8
    then search_span abs slice needle 8
    else search_aligned (suc (length slice)) abs slice needle align 0

-- The chunks overlap by 7 bytes, but for the last one.
unfoldable pub advance : ℕ → ℕ → ℕ
advance chunk left = if ltb chunk left then chunk - 7 else chunk

module _ (os : Os) (m : os.Mem) (needle : List ℕ) (align win : ℕ) where
  -- A chunk that cannot be read ends the region.
  abbrev pub chunk_then : ℕ → Result ReadError (List ℕ) → Option (List ℕ) → Option (List ℕ)
  chunk_then abs (err e) later = some []
  chunk_then abs (ok slice) later = do
    hits ← search_chunk abs slice needle align
    rest ← later
    some (hits ++ rest)

  -- The loop over the chunks of a region; `none` when the fuel is spent.
  unfoldable pub scan_region : ℕ → MemoryRegion → ℕ → Option (List ℕ)
  unfolding search_chunk advance
  scan_region zero region offset = none
  scan_region (suc fuel) region offset =
      let chunk = min (region.size - offset) win in
      let later = scan_region fuel region (offset + advance chunk (region.size - offset)) in
      if ltb offset region.size
      then chunk_then (region.base + offset) (read_bytes os m (region.base + offset) chunk) later
      else some []

  unfoldable pub scan_regions : List MemoryRegion → Option (List ℕ)
  unfolding scan_region
  scan_regions [] = some []
  scan_regions (region ∷ regions) = do
    hits ← scan_region (suc region.size) region 0
    rest ← scan_regions regions
    some (hits ++ rest)

module _ (os : Os) (m : os.Mem) (win : ℕ) where
  abbrev pub tidy : Option (List ℕ) → Option (List ℕ)
  tidy found = do hits ← found; some (dedup (sort hits))

  unfoldable pub scan : List MemoryRegion → ℕ → ℕ → Option (List ℕ)
  unfolding scan_regions sort dedup
  scan regions needle alignment =
      tidy (scan_regions os m (to_le 8 needle) (max alignment 1) win regions)

-- ===== src/PointerScan.antt =====
-- crates/discover/src/pointer_scan.rs and pages.rs: the writable pages of a process, the aligned
-- words in them that point into a window, and the replay of a chain of pointers. The Win32 calls
-- are `Os` for ReadProcessMemory and `query` for VirtualQueryEx. Regions end below 2^64, so the
-- addresses within one do not wrap around.
pub mod Pages
pub mod Chunk
pub mod Found
pub mod Chain
pub mod Examples
use openforge_aio.Prelude.{
  ℕ, zero, suc, ◌+◌, ◌-◌, ◌*◌, ◌%◌, ◌^◌, Bool, true, false, ◌&&◌, Option, none, some, List, [], ◌∷◌,
  ◌++◌, length, take, drop, leb, ltb, ◌==◌, if◌then◌else◌, min, max,
}
use openforge_aio.Prelude.Maybe.{◌>>=◌}
use openforge_aio.Prelude.Bytes.{from_le}
use openforge_aio.Prelude.Int.{ℤ}
use openforge_aio.Memory.{Os}
use openforge_aio.Scan.{MemoryRegion}
use openforge_aio.Ctx.Resolve.{wrapping_add}

pub record PointerCandidate : Type 0 where
  pub source_addr : ℕ
  pub value : ℕ
  pub trailing_offset : ℕ

-- `usize::next_multiple_of`
unfoldable pub next_multiple_of : ℕ → ℕ → ℕ
next_multiple_of n k = if n % k == 0 then n else n + (k - n % k)

module _ (alignment lower upper : ℕ) where
  -- The candidate that the word at the offset `i` of a chunk makes.
  abbrev pub candidate : ℕ → ℕ → ℕ → PointerCandidate
  candidate chunk_base i v = record {
    source_addr = chunk_base + i;
    value = v;
    trailing_offset = upper - v;
  }

  -- The loop over the offsets of a chunk, from `i` on; `none` when the fuel is spent.
  unfoldable pub scan_words : ℕ → List ℕ → ℕ → ℕ → Option (List PointerCandidate)
  scan_words zero chunk chunk_base i = none
  scan_words (suc fuel) chunk chunk_base i =
      if leb (i + 8) (length chunk)
      then (do
        rest ← scan_words fuel chunk chunk_base (i + alignment)
        let v = from_le (take 8 (drop i chunk))
        some (if leb lower v && leb v upper then candidate chunk_base i v ∷ rest else rest))
      else some []

  unfoldable pub scan_chunk_for_pointers : List ℕ → ℕ → Option (List PointerCandidate)
  unfolding scan_words
  scan_chunk_for_pointers chunk chunk_base =
      if ltb (length chunk) 8
      then some []
      else scan_words (suc (length chunk)) chunk chunk_base
          (next_multiple_of chunk_base alignment - chunk_base)

module _ (os : Os) (m : os.Mem) where
  abbrev pub nonempty : Option (List ℕ) → Option (List ℕ)
  nonempty none = none
  nonempty (some bs) = if length bs == 0 then none else some bs

  unfoldable pub read_chunk : ℕ → ℕ → Option (List ℕ)
  read_chunk addr len = nonempty (os.read m addr len)

  abbrev pub word : List ℕ → Option ℕ
  word bs = if ltb (length bs) 8 then none else some (from_le bs)

  unfoldable pub read_pointer : ℕ → Option ℕ
  unfolding read_chunk
  read_pointer addr = do bs ← read_chunk addr 8; word bs

  unfoldable pub walk_chain : ℕ → List (Bool × ℤ) → Option ℕ
  unfolding read_pointer
  walk_chain current [] = some current
  walk_chain current ((true, offset) ∷ hops) = do
    v ← read_pointer current
    walk_chain (wrapping_add v offset) hops
  walk_chain current ((false, offset) ∷ hops) = walk_chain (wrapping_add current offset) hops

  module _ (alignment lower upper chunk_bytes : ℕ) where
    abbrev pub step : ℕ → ℕ
    step read_n = max (read_n - 7) alignment

    -- One chunk, and what is made of the rest by the step to the next.
    abbrev pub chunk_then :
        ℕ → Option (List ℕ) → (ℕ → Option (List PointerCandidate)) → Option (List PointerCandidate)
    chunk_then chunk_base none go = some []
    chunk_then chunk_base (some chunk) go = if ltb (length chunk) 8 then some [] else (do
      here ← scan_chunk_for_pointers alignment lower upper chunk chunk_base
      rest ← go (step (length chunk))
      some (here ++ rest))

    -- The loop over the chunks of a region, from the offset on; `none` when the fuel is spent.
    unfoldable pub scan_chunks : ℕ → MemoryRegion → ℕ → Option (List PointerCandidate)
    scan_chunks zero region offset_in_region = none
    scan_chunks (suc fuel) region offset_in_region =
        if ltb offset_in_region region.size
        then chunk_then (region.base + offset_in_region)
            (read_chunk (region.base + offset_in_region)
              (min chunk_bytes (region.size - offset_in_region)))
            (λ step. scan_chunks fuel region (offset_in_region + step))
        else some []

    unfoldable pub scan_regions : List MemoryRegion → Option (List PointerCandidate)
    unfolding scan_chunks
    scan_regions [] = some []
    scan_regions (region ∷ regions) = do
      here ← scan_chunks (suc region.size) region 0
      rest ← scan_regions regions
      some (here ++ rest)

  unfoldable pub scan_for_pointers_to :
      List MemoryRegion → ℕ → ℕ → ℕ → ℕ → Option (List PointerCandidate)
  unfolding scan_regions
  scan_for_pointers_to regions target max_offset alignment chunk_bytes =
      scan_regions (max alignment 1) (target - max_offset) target
        (if chunk_bytes == 0 then 256 * 1024 else chunk_bytes) regions

-- ===== src/PointerScan/Examples.antt =====
-- Runs of crates/discover/src/pointer_scan.rs in a flat address space.
use openforge_aio.Prelude.{
  ℕ, ◌≡◌, refl, true, false, Bool, none, some, List, [], ◌∷◌, ◌++◌, arith, Option, ltb,
  if◌then◌else◌,
}
use openforge_aio.Prelude.Maybe.{◌>>=◌}
use openforge_aio.Prelude.Int.{ℤ, pos, negsuc}
use openforge_aio.Memory.{Os}
use openforge_aio.Memory.Bytes.{overwrite, slice}
use openforge_aio.Memory.Flat.{flat, flat-OsLaws}
use openforge_aio.Scan.{MemoryRegion}
use openforge_aio.PointerScan.{
  PointerCandidate, next_multiple_of, scan_words, scan_chunk_for_pointers, read_chunk, read_pointer,
  walk_chain, scan_chunks, scan_regions, scan_for_pointers_to,
}
use openforge_aio.PointerScan.Pages.{
  Mbi, is_haystack, enumerate_from, enumerate_rw, enumerate_rw_fuel,
}
use openforge_aio.PointerScan.Found.{Covered, scan_for_pointers_to_lem}
use openforge_aio.PointerScan.Chain.{walk_chain-append}

abbrev os : Os
os = flat 0x10000 0x20000

-- At 0x10010 a pointer to 0x12340.
abbrev process : os.Mem
process = overwrite (λ x. 0) 0x10010 (0x40 ∷ 0x23 ∷ 0x01 ∷ [])

abbrev page : MemoryRegion
page = record { base = 0x10000; size = 32 }

scan_for_pointers_to_lem_example :
    (out : List PointerCandidate) × (scan_for_pointers_to os process (page ∷ []) 0x12348 16 8 16
      ≡ some out)
    × Covered os
        (flat-OsLaws 0x10000 0x20000)
        process
        8
        0x12338
        0x12348
        16
        (omega arith)
        (omega arith)
        (page ∷ [])
        out
scan_for_pointers_to_lem_example =
    scan_for_pointers_to_lem os (flat-OsLaws 0x10000 0x20000) process (page ∷ []) 0x12348 16 8 16
      (omega arith) (omega arith)

-- The chunks of 16 bytes step by 9, and the word that straddles the first two is found.
finds_it :
    scan_for_pointers_to os process (page ∷ []) 0x12348 16 8 16
    ≡ some (record { source_addr = 0x10010; value = 0x12340; trailing_offset = 8 } ∷ [])
unfolding scan_for_pointers_to scan_regions scan_chunks scan_chunk_for_pointers scan_words
    read_chunk next_multiple_of overwrite slice
finds_it = refl

abbrev hops : List (Bool × ℤ)
hops = (true, pos 8) ∷ []

abbrev back : List (Bool × ℤ)
back = (false, negsuc 0) ∷ []

walk_chain-append_example :
    walk_chain os process 0x10010 (hops ++ back)
    ≡ (do mid ← walk_chain os process 0x10010 hops; walk_chain os process mid back)
walk_chain-append_example = walk_chain-append os process hops back 0x10010

walks : walk_chain os process 0x10010 (hops ++ back) ≡ some 0x12347
unfolding walk_chain read_pointer read_chunk overwrite slice
walks = refl

dead_end : walk_chain os process 0x50000 hops ≡ none
unfolding walk_chain read_pointer read_chunk overwrite slice
dead_end = refl

abbrev one_page : ℕ → Option Mbi
one_page addr =
    if ltb addr 0x1000
    then some (record { base_address = 0; region_size = 0x1000; state = 0x1000; protect = 4 })
    else none

enumerate_rw_fuel_example : ¬ (enumerate_rw one_page ≡ none)
enumerate_rw_fuel_example = enumerate_rw_fuel one_page

finds_page : enumerate_rw one_page ≡ some (record { base = 0; size = 0x1000 } ∷ [])
unfolding enumerate_rw enumerate_from is_haystack
finds_page = refl

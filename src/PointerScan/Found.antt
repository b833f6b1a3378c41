-- ===== src/PointerScan/Found.antt =====
-- What `scan_for_pointers_to` of crates/discover/src/pointer_scan.rs finds in a process.
use openforge_aio.Prelude.{
  ℕ, zero, suc, ◌+◌, ◌-◌, ◌≤◌, ◌<◌, ◌≡◌, refl, sym, ap, ap₂, ◌∙◌, subst, false, some, List, [], ◌∷◌,
  ◌++◌, length, take, drop, leb, ltb, ◌==◌, min, max, arith, Bool-cases, Option-cases, inl, inr, In,
  In-cases, In-append_left, In-append_right, In-append_cases, not-In-nil,
}
use openforge_aio.Prelude.Bytes.{from_le}
use openforge_aio.Memory.{Os, OsLaws}
use openforge_aio.Memory.Bytes.{slice, length-slice}
use openforge_aio.Scan.{MemoryRegion}
use openforge_aio.PointerScan.{
  PointerCandidate, read_chunk, step, scan_chunks, scan_regions, scan_for_pointers_to,
}
use openforge_aio.PointerScan.Chunk.{IsMultiple, WordAt, scan_chunk_lem}

drop-slice : (f : ℕ → ℕ) (addr j n : ℕ) → drop j (slice f addr n) ≡ slice f (addr + j) (n - j)
unfolding slice
drop-slice f addr zero n =
    let shift : addr ≡ addr + 0 = omega arith in
    let left : n ≡ n - 0 = omega arith in ap₂ (slice f) shift left
drop-slice f addr (suc j) zero =
    let left : 0 ≡ 0 - suc j = omega arith in ap (slice f (addr + suc j)) left
drop-slice f addr (suc j) (suc n) =
    let shift : addr + 1 + j ≡ addr + suc j = omega arith in
    let left : n - j ≡ suc n - suc j = omega arith in
    drop-slice f (addr + 1) j n ∙ ap₂ (slice f) shift left

take-slice : (f : ℕ → ℕ) (addr k n : ℕ) → k ≤ n → take k (slice f addr n) ≡ slice f addr k
unfolding slice
take-slice f addr zero n h = refl
take-slice f addr (suc k) zero h = absurd (omega (arith, h))
take-slice f addr (suc k) (suc n) h =
    ap (λ bs. f addr ∷ bs) (take-slice f (addr + 1) k n (omega arith))

pub word-slice :
    (f : ℕ → ℕ) (addr j n : ℕ) → j + 8 ≤ n → take 8 (drop j (slice f addr n)) ≡ slice f (addr + j) 8
word-slice f addr j n h =
    ap (take 8) (drop-slice f addr j n) ∙ take-slice f (addr + j) 8 (n - j) (omega arith)

read_chunk_read :
    (os : Os) (m : os.Mem) (addr len : ℕ) (bs : List ℕ)
    → read_chunk os m addr len ≡ some bs
    → os.read m addr len ≡ some bs
unfolding read_chunk
read_chunk_read os m addr len bs h = elim (Option-cases (os.read m addr len)) [
  | inl gone ↦ ground (arith, gone)
  | inr (cs, got) ↦ ground (arith, got)
]

read_chunk-some :
    (os : Os) (m : os.Mem) (addr len : ℕ) (bs : List ℕ)
    → os.read m addr len ≡ some bs
    → 0 < length bs
    → read_chunk os m addr len ≡ some bs
unfolding read_chunk
read_chunk-some os m addr len bs h some_bytes = ground arith

module _ (os : Os) (laws : OsLaws os) (m : os.Mem) (alignment lower upper chunk_bytes : ℕ)
    (positive : 0 < alignment) where
  -- An aligned word of the process whose value lies in the window.
  abbrev pub IsPointer : PointerCandidate → Type 0
  IsPointer c =
      IsMultiple alignment c.source_addr
      × (c.value ≡ from_le (slice (os.view m) c.source_addr 8))
      × (lower ≤ c.value)
      × (c.value ≤ upper)
      × (c.trailing_offset ≡ upper - c.value)

  -- Every part of the region can be read.
  abbrev pub Readable : MemoryRegion → Type 0
  Readable region =
      (offset len : ℕ)
      → offset + len ≤ region.size
      → os.read m (region.base + offset) len ≡ some (slice (os.view m) (region.base + offset) len)

  word_sound :
      (chunk : List ℕ) (chunk_base : ℕ) (c : PointerCandidate)
      → chunk ≡ slice (os.view m) chunk_base (length chunk)
      → WordAt alignment lower upper positive chunk chunk_base 0 c
      → IsPointer c
  word_sound chunk chunk_base c copied (j, low, high, al, w, e) =
      let same : from_le (take 8 (drop j chunk)) ≡ from_le (slice (os.view m) (chunk_base + j) 8) =
        ap (λ bs. from_le (take 8 (drop j bs))) copied
        ∙ ap from_le (word-slice (os.view m) chunk_base j (length chunk) high) in
      subst IsPointer e (al, same, ground (arith, w), ground (arith, w), refl)

  word_complete :
      (chunk : List ℕ) (chunk_base j : ℕ) (c : PointerCandidate)
      → chunk ≡ slice (os.view m) chunk_base (length chunk)
      → j + 8 ≤ length chunk
      → c.source_addr ≡ chunk_base + j
      → IsPointer c
      → WordAt alignment lower upper positive chunk chunk_base 0 c
  word_complete chunk chunk_base j c copied high at (al, v, low, up, t) =
      let same : from_le (take 8 (drop j chunk)) ≡ c.value =
        ap (λ bs. from_le (take 8 (drop j bs))) copied
        ∙ ap from_le (word-slice (os.view m) chunk_base j (length chunk) high)
        ∙ ap (λ a. from_le (slice (os.view m) a 8)) (sym at)
        ∙ sym v in
      (
        j,
        omega arith,
        high,
        subst (IsMultiple alignment) at al,
        ground (arith, same, low, up),
        ap₂ (λ a w. record { source_addr = a; value = w; trailing_offset = upper - w }) (sym at)
              same
            ∙ ap (λ o. record { source_addr = c.source_addr; value = c.value; trailing_offset = o })
                (sym t),
      )

  module _ (room : alignment + 7 ≤ chunk_bytes) where
    -- Complete from the offset on where the region is readable, and sound in any case.
    abbrev Covers : MemoryRegion → ℕ → List PointerCandidate → Type 0
    Covers region offset out =
        (c : PointerCandidate)
        → (In c out → IsPointer c)
          × (Readable region
              → IsPointer c
              → region.base + offset ≤ c.source_addr
              → c.source_addr + 8 ≤ region.base + region.size
              → In c out)

    scan_chunks_lem :
        (fuel : ℕ) (region : MemoryRegion) (offset : ℕ)
        → 0 < fuel
        → region.size < fuel + offset
        → (out : List PointerCandidate) × (scan_chunks os m alignment lower upper chunk_bytes fuel
              region offset
            ≡ some out)
          × Covers region offset out
    unfolding scan_chunks
    scan_chunks_lem zero region offset some_fuel enough = absurd (omega (arith, some_fuel))
    scan_chunks_lem (suc fuel) region offset some_fuel enough =
        let chunk_base = region.base + offset in
        let want = min chunk_bytes (region.size - offset) in
        elim (Bool-cases (ltb offset region.size)) [
          | inr end ↦ (
            [],
            rw end refl,
            λ c. (
              λ m. absurd (not-In-nil m),
              λ r p low high. absurd (ground (arith, end, low, high)),
            ),
          )
          | inl more ↦
              let readable_chunk : Readable region
                  → read_chunk os m chunk_base want ≡ some (slice (os.view m) chunk_base want) =
                λ r.
                  read_chunk-some os m chunk_base want (slice (os.view m) chunk_base want)
                    (r offset want (ground (arith, more)))
                    (ground (arith, length-slice (os.view m) chunk_base want, more, room)) in
              elim (Option-cases (read_chunk os m chunk_base want)) [
                | inl gone ↦ (
                  [],
                  rw (more, gone) refl,
                  λ c. (λ at. absurd (not-In-nil at), λ r p low high. cc (gone, readable_chunk r)),
                )
                | inr (chunk, got) ↦
                    let copied : chunk ≡ slice (os.view m) chunk_base (length chunk) =
                      laws.read_lem m chunk_base want chunk
                        (read_chunk_read os m chunk_base want chunk got) in
                    let full : Readable region → length chunk ≡ want = λ r.
                      let same : chunk ≡ slice (os.view m) chunk_base want =
                        cc (got, readable_chunk r) in
                      ap length same ∙ length-slice (os.view m) chunk_base want in
                    elim (Bool-cases (ltb (length chunk) 8)) [
                      | inl short ↦ (
                        [],
                        rw (more, got, short) refl,
                        λ c. (
                          λ at. absurd (not-In-nil at),
                          λ r p low high. absurd (ground (arith, short, full r, room, low, high)),
                        ),
                      )
                      | inr long ↦
                          let step = step os m alignment lower upper chunk_bytes (length chunk) in
                          let (here, scanned, found) =
                            scan_chunk_lem alignment lower upper positive chunk chunk_base in
                          let (rest, ran, covers) =
                            scan_chunks_lem fuel region (offset + step) (ground (arith, more))
                              (omega arith) in
                          (
                            here ++ rest,
                            rw (more, got, long, scanned, ran) refl,
                            λ c. (
                              λ at. elim (In-append_cases here rest at) [
                                | inl early ↦
                                    word_sound chunk chunk_base c copied ((found c).0 early)
                                | inr late ↦ (covers c).0 late
                              ],
                              λ r p low high.
                                  elim (Bool-cases
                                    (leb (c.source_addr + 8) (chunk_base + length chunk))) [
                                      | inl early ↦ In-append_left here rest (
                                          (found c).1 (
                                            word_complete chunk chunk_base
                                              (c.source_addr - chunk_base) c copied
                                              (ground (arith, early)) (omega arith) p))
                                      | inr late ↦ In-append_right here rest (
                                          (covers c).1 r p
                                            (ground (arith, late, full r, low, high, room)) high)
                                    ],
                            ),
                          )
                    ]
              ]
        ]

    -- A candidate of the regions.
    abbrev pub Covered : List MemoryRegion → List PointerCandidate → Type 0
    Covered regions out =
        (c : PointerCandidate)
        → (In c out → IsPointer c)
          × ((region : MemoryRegion)
              → In region regions
              → Readable region
              → IsPointer c
              → region.base ≤ c.source_addr
              → c.source_addr + 8 ≤ region.base + region.size
              → In c out)

    scan_regions_lem :
        (regions : List MemoryRegion)
        → (out : List PointerCandidate) × (scan_regions os m alignment lower upper chunk_bytes
              regions
            ≡ some out)
          × Covered regions out
    unfolding scan_regions
    scan_regions_lem [] = (
      [],
      refl,
      λ c. (λ at. absurd (not-In-nil at), λ region at r p low high. absurd (not-In-nil at)),
    )
    scan_regions_lem (region ∷ regions) =
        let (here, scanned, covers) =
          scan_chunks_lem (suc region.size) region 0 (omega arith) (omega arith) in
        let (rest, ran, others) = scan_regions_lem regions in
        (
          here ++ rest,
          rw (scanned, ran) refl,
          λ c. (
            λ at. elim (In-append_cases here rest at) [
              | inl early ↦ (covers c).0 early
              | inr late ↦ (others c).0 late
            ],
            λ q at r p low high. elim (In-cases region regions at) [
              | inl e ↦ In-append_left here rest (
                  (covers c).1 (subst Readable (sym e) r) p (omega (arith, low, ap (λ x. x.base) e))
                    (subst (λ x. c.source_addr + 8 ≤ x.base + x.size) (sym e) high))
              | inr later ↦ In-append_right here rest ((others c).1 q later r p low high)
            ],
          ),
        )

-- A scan for pointers ends. With chunks of at least 7 bytes more than the alignment, which is
-- not 0, whatever it reports is an aligned word in the window, with its distance from the target,
-- and in every region that can be read throughout it misses none.
pub scan_for_pointers_to_lem :
    (os : Os) (laws : OsLaws os) (m : os.Mem) (regions : List MemoryRegion)
    (target max_offset alignment chunk_bytes : ℕ) (positive : 0 < alignment)
    → (room : alignment + 7 ≤ chunk_bytes)
    → (out : List PointerCandidate) × (scan_for_pointers_to os m regions target max_offset alignment
          chunk_bytes
        ≡ some out)
      × Covered os laws m alignment
          (target - max_offset)
          target
          chunk_bytes
          positive
          room
          regions
          out
unfolding scan_for_pointers_to
scan_for_pointers_to_lem os laws m regions target max_offset alignment chunk_bytes positive room =
    let some_bytes : chunk_bytes == 0 ≡ false = ground (arith, room) in
    let aligned : max alignment 1 ≡ alignment = omega (arith, positive) in
    rw (some_bytes, aligned)
      (scan_regions_lem os laws m alignment (target - max_offset) target chunk_bytes positive room
        regions)

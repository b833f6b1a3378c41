-- ===== src/RegionSweep/Found.antt =====
-- What the heap scan of crates/batman-lod-dll/src/ops/heap_scan.rs finds with the alignment 8.
use openforge_aio.Prelude.{
  ℕ, zero, suc, ◌+◌, ◌-◌, ◌≤◌, ◌<◌, ◌≡◌, refl, sym, ap, subst, some, List, [], ◌∷◌, ◌++◌, ltb, min,
  arith, Bool-cases, inl, inr, In, In-head, In-tail, In-cases, In-append_left, In-append_right,
  In-append_cases, not-In-nil,
}
use openforge_aio.Prelude.Result.{ok, Result-cases}
use openforge_aio.Prelude.Bytes.{to_le}
use openforge_aio.Memory.{Os, OsLaws, read_bytes}
use openforge_aio.Memory.Bytes.{slice}
use openforge_aio.Scan.{MemoryRegion}
use openforge_aio.PointerScan.Chunk.{IsMultiple}
use openforge_aio.HeapSweep.Range.{span_hits}
use openforge_aio.HeapSweep.Sort.{sort, dedup, Ascending, dedup-sort}
use openforge_aio.RegionSweep.{advance, search_chunk, scan_region, scan_regions, tidy, scan}

advance-positive : (chunk left : ℕ) → 7 < chunk → 0 < advance chunk left
unfolding advance
advance-positive chunk left h = ground arith

advance_last : (left win : ℕ) → 0 < left → 7 < win → 0 < advance (min left win) left
unfolding advance
advance_last left win h w = ground arith

module _ (os : Os) (laws : OsLaws os) (m : os.Mem) (needle : List ℕ) (win : ℕ)
    (room : 7 < win) where
  -- The needle stands at the address, in the region.
  abbrev pub Stands : MemoryRegion → ℕ → Type 0
  Stands region v =
      (region.base ≤ v) × (v + 8 ≤ region.base + region.size) × (slice (os.view m) v 8 ≡ needle)

  -- The rest of the region from the offset on fits the buffer and can be read, and the address lies
  -- in it, a multiple of 8 from there.
  abbrev pub FitsFrom : MemoryRegion → ℕ → ℕ → Type 0
  FitsFrom region offset v =
      (region.size ≤ offset + win)
      × (region.base + offset ≤ v)
      × IsMultiple 8 (v - (region.base + offset))
      × (bytes : List ℕ) × (read_bytes os m (region.base + offset) (region.size - offset)
          ≡ ok bytes)

  abbrev Covers : MemoryRegion → ℕ → List ℕ → Type 0
  Covers region offset out =
      (v : ℕ)
      → (In v out → Stands region v) × (FitsFrom region offset v → Stands region v → In v out)

  scan_region_lem :
      (fuel : ℕ) (region : MemoryRegion) (offset : ℕ)
      → 0 < fuel
      → region.size < fuel + offset
      → (out : List ℕ) × (scan_region os m needle 8 win fuel region offset ≡ some out)
        × Covers region offset out
  unfolding scan_region
  scan_region_lem zero region offset some_fuel enough = absurd (omega (arith, some_fuel))
  scan_region_lem (suc fuel) region offset some_fuel enough =
      let abs = region.base + offset in
      let chunk = min (region.size - offset) win in
      elim (Bool-cases (ltb offset region.size)) [
        | inr end ↦ (
          [],
          rw end refl,
          λ v. (
            λ h. absurd (not-In-nil h),
            λ (fits, low, al, bytes, r) (under, high, b). absurd (ground (arith, end, low, high)),
          ),
        )
        | inl more ↦ elim (Result-cases (read_bytes os m abs chunk)) [
          | inr (e, unread) ↦ (
            [],
            rw (more, unread) refl,
            λ v. (
              λ h. absurd (not-In-nil h),
              λ (fits, low, al, bytes, r) s.
                  let whole : chunk ≡ region.size - offset = omega (arith, fits) in
                  let same = ap (read_bytes os m abs) whole in absurd (cc (same, r, unread)),
            ),
          )
          | inl (bytes, read) ↦
              let (hits, ran, found) =
                span_hits os laws m needle 8 8 8 (omega arith) (1, omega arith) (omega arith)
                  (1, omega arith) (omega arith) (1, omega arith) abs chunk bytes read in
              let on = advance_last (region.size - offset) win (ground (arith, more)) room in
              let (rest, went, others) =
                scan_region_lem fuel region (offset + advance chunk (region.size - offset))
                  (ground (arith, more)) (omega (arith, on, enough)) in
              (
                hits ++ rest,
                rw (more, read, went) (unfold search_chunk in rw ran refl),
                λ v. (
                  λ h. elim (In-append_cases hits rest h) [
                    | inl early ↦
                        let (j, high, al, e, b) = (found v).0 early in
                        (omega (arith, e), omega (arith, e, high), b)
                    | inr late ↦ (others v).0 late
                  ],
                  λ (fits, low, al, bs, r) (under, high, b). In-append_left hits rest (
                      (found v).1
                        (v - abs, omega (arith, low, high, fits), al, omega (arith, low), b)),
                ),
              )
        ]
      ]

  scan_regions_lem :
      (regions : List MemoryRegion)
      → (out : List ℕ) × (scan_regions os m needle 8 win regions ≡ some out)
        × ((v : ℕ)
            → (In v out → (region : MemoryRegion) × In region regions × Stands region v)
              × ((region : MemoryRegion)
                  → In region regions
                  → FitsFrom region 0 v
                  → Stands region v
                  → In v out))
  unfolding scan_regions
  scan_regions_lem [] =
      ([], refl, λ v. (λ h. absurd (not-In-nil h), λ region at f s. absurd (not-In-nil at)))
  scan_regions_lem (region ∷ regions) =
      let (hits, ran, found) =
        scan_region_lem (suc region.size) region 0 (omega arith) (omega arith) in
      let (rest, went, others) = scan_regions_lem regions in
      (
        hits ++ rest,
        rw (ran, went) refl,
        λ v. (
          λ h. elim (In-append_cases hits rest h) [
            | inl early ↦ (region, In-head region regions, (found v).0 early)
            | inr late ↦
                let (other, there, s) = (others v).0 late in
                (other, In-tail region regions there, s)
          ],
          λ other at f s. elim (In-cases region regions at) [
            | inl e ↦ In-append_left hits rest (
                (found v).1 (subst (λ r. FitsFrom r 0 v) (sym e) f)
                  (subst (λ r. Stands r v) (sym e) s))
            | inr later ↦ In-append_right hits rest ((others v).1 other later f s)
          ],
        ),
      )

-- With the alignment 8 and a buffer of more than 7 bytes the heap scan ends. Its hits ascend without
-- repetition, each is an address of a region where the needle stands, and of every region that fits
-- the buffer and can be read it misses none of those that are a multiple of 8 from its base.
pub scan-Stands :
    (os : Os) (laws : OsLaws os) (m : os.Mem) (win : ℕ) (room : 7 < win)
    (regions : List MemoryRegion) (needle : ℕ)
    → (out : List ℕ) × (scan os m win regions needle 8 ≡ some out)
      × Ascending out
      × ((v : ℕ)
          → (In v out
              → (region : MemoryRegion) × In region regions
                × Stands os laws m (to_le 8 needle) win room region v)
            × ((region : MemoryRegion)
                → In region regions
                → FitsFrom os laws m (to_le 8 needle) win room region 0 v
                → Stands os laws m (to_le 8 needle) win room region v
                → In v out))
unfolding scan
scan-Stands os laws m win room regions needle =
    let (hits, ran, found) = scan_regions_lem os laws m (to_le 8 needle) win room regions in
    let (up, kept) = dedup-sort hits in
    (
      dedup (sort hits),
      ap (λ found. tidy os m win found) ran,
      up,
      λ v. (
        λ h. (found v).0 ((kept v).0 h),
        λ region at f s. (kept v).1 ((found v).1 region at f s),
      ),
    )

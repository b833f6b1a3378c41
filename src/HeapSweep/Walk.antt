-- ===== src/HeapSweep/Walk.antt =====
-- What `heap_for_u64` of crates/glacier-007-dll/src/scan.rs finds in a process.
use openforge_aio.Prelude.{
  ℕ, zero, suc, ◌<◌, ◌≡◌, refl, ap, ◌∙◌, subst, true, Option, none, some, List, [], ◌++◌, ltb, max,
  arith, Bool-cases, Option-cases, inl, inr, In, In-append_left, In-append_right, In-append_cases,
  not-In-nil,
}
use openforge_aio.Prelude.Bytes.{to_le}
use openforge_aio.Memory.{Os, OsLaws}
use openforge_aio.PointerScan.Chunk.{IsMultiple}
use openforge_aio.PointerScan.Pages.{Mbi}
use openforge_aio.HeapSweep.{
  win_bytes, page_bytes, user_max, granularity, max_iters, range_of, next_addr, range_hits, sweep,
  tidy, heap_for_u64,
}
use openforge_aio.HeapSweep.Sort.{sort, dedup, Ascending, dedup-sort}
use openforge_aio.HeapSweep.Range.{IsHit, Readable, scan_range_lem}

-- Within so many rounds from the address on, the loop comes to the range.
pub data Visits (os : Os) (m : os.Mem) (query : ℕ → Option Mbi) : ℕ → ℕ → ℕ × ℕ → Type 0 where
  here :
      (iters addr : ℕ) (range : ℕ × ℕ)
      → addr < user_max
      → range_of os m query addr (query addr) ≡ some range
      → Visits os m query (suc iters) addr range
  later :
      (iters addr : ℕ) (range : ℕ × ℕ)
      → addr < user_max
      → Visits os m query iters (next_addr os m query addr (query addr)) range
      → Visits os m query (suc iters) addr range

module _ (os : Os) (laws : OsLaws os) (m : os.Mem) (query : ℕ → Option Mbi) (needle : List ℕ)
    (align : ℕ) (positive : 0 < align) (words : IsMultiple 8 align)
    (pages : IsMultiple align page_bytes) where
  -- The needle stands at an aligned address of a range that the loop comes to.
  abbrev pub HitOf : ℕ × ℕ → ℕ → Type 0
  HitOf range v =
      IsHit os laws m needle align win_bytes page_bytes positive words (omega arith) pages
        (omega arith) (1024, omega arith) range.0 range.1 v

  abbrev pub ReadableIn : ℕ × ℕ → ℕ → Type 0
  ReadableIn range v =
      Readable os laws m needle align win_bytes page_bytes positive words (omega arith) pages
        (omega arith) (1024, omega arith) range.0 range.1 v

  range_hits_lem :
      (range : ℕ × ℕ)
      → (out : List ℕ) × (range_hits os m query needle align (some range) ≡ some out)
        × ((v : ℕ) → (In v out → HitOf range v) × (ReadableIn range v → HitOf range v → In v out))
  range_hits_lem (base, len) =
      let (s, ran, found) =
        scan_range_lem os laws m needle align win_bytes page_bytes positive words (omega arith)
          pages (omega arith) (1024, omega arith) base len in
      (s.1, rw ran refl, found)

  sweep_step :
      (iters addr : ℕ) (hits rest : List ℕ)
      → addr < user_max
      → range_hits os m query needle align (range_of os m query addr (query addr)) ≡ some hits
      → sweep os m query needle align iters (next_addr os m query addr (query addr)) ≡ some rest
      → sweep os m query needle align (suc iters) addr ≡ some (hits ++ rest)
  unfolding sweep
  sweep_step iters addr hits rest low now after =
      let on : ltb addr user_max ≡ true = ground (arith, low) in rw (on, now, after) refl

  sweep_sound :
      (iters addr : ℕ)
      → (out : List ℕ) × (sweep os m query needle align iters addr ≡ some out)
        × ((v : ℕ)
            → In v out
            → (range : ℕ × ℕ) × Visits os m query iters addr range × HitOf range v)
  unfolding sweep
  sweep_sound zero addr = ([], refl, λ v h. absurd (not-In-nil h))
  sweep_sound (suc iters) addr = elim (Bool-cases (ltb addr user_max)) [
    | inr end ↦ ([], rw end refl, λ v h. absurd (not-In-nil h))
    | inl on ↦
        let low : addr < user_max = ground (arith, on) in
        let (rest, ran, found) = sweep_sound iters (next_addr os m query addr (query addr)) in
        elim (Option-cases (range_of os m query addr (query addr))) [
          | inl skip ↦ (
            rest,
            sweep_step iters addr [] rest low (rw skip refl) ran,
            λ v h.
                let (range, there, hit) = found v h in
                (range, later iters addr range low there, hit),
          )
          | inr (range, at) ↦
              let (hits, got, all) = range_hits_lem range in
              (
                hits ++ rest,
                sweep_step iters addr hits rest low (rw at got) ran,
                λ v h. elim (In-append_cases hits rest h) [
                  | inl early ↦ (range, here iters addr range low at, (all v).0 early)
                  | inr late ↦
                      let (other, there, hit) = found v late in
                      (other, later iters addr other low there, hit)
                ],
              )
        ]
  ]

  range_hits_total :
      (range : Option (ℕ × ℕ))
      → (hits : List ℕ) × (range_hits os m query needle align range ≡ some hits)
  range_hits_total none = ([], refl)
  range_hits_total (some range) = let (hits, got, all) = range_hits_lem range in (hits, got)

  sweep_complete :
      {iters addr : ℕ} {range : ℕ × ℕ}
      → Visits os m query iters addr range
      → (v : ℕ) (out : List ℕ) → sweep os m query needle align iters addr ≡ some out
      → ReadableIn range v
      → HitOf range v
      → In v out
  sweep_complete (here iters addr range low at) v out ran can hit =
      let (hits, got, all) = range_hits_lem range in
      let (rest, went, found) = sweep_sound iters (next_addr os m query addr (query addr)) in
      let whole = sweep_step iters addr hits rest low (rw at got) went in
      let same : hits ++ rest ≡ out = cc (whole, ran) in
      subst (In v) same (In-append_left hits rest ((all v).1 can hit))
  sweep_complete (later iters addr range low there) v out ran can hit =
      let (hits, got) = range_hits_total (range_of os m query addr (query addr)) in
      let (rest, went, found) = sweep_sound iters (next_addr os m query addr (query addr)) in
      let whole = sweep_step iters addr hits rest low got went in
      let same : hits ++ rest ≡ out = cc (whole, ran) in
      subst (In v) same (In-append_right hits rest (sweep_complete there v rest went can hit))

-- The heap scan ends. With an alignment that is a multiple of 8 and divides the page size, its
-- hits ascend without repetition; each is an aligned address, of a range that the walk of at most
-- 50,000,000 rounds comes to, where the needle stands; and each such address in a page that can be
-- read is among them.
pub heap_for_u64_lem :
    (os : Os) (laws : OsLaws os) (m : os.Mem) (query : ℕ → Option Mbi) (needle alignment : ℕ)
    (positive : 0 < alignment) (words : IsMultiple 8 alignment)
    (pages : IsMultiple alignment page_bytes)
    → (out : List ℕ) × (heap_for_u64 os m query needle alignment ≡ some out)
      × Ascending out
      × ((v : ℕ)
          → (In v out
              → (range : ℕ × ℕ) × Visits os m query max_iters granularity range
                × HitOf os laws m query (to_le 8 needle) alignment positive words pages range v)
            × ((range : ℕ × ℕ)
                → Visits os m query max_iters granularity range
                → ReadableIn os laws m query (to_le 8 needle) alignment positive words pages range v
                → HitOf os laws m query (to_le 8 needle) alignment positive words pages range v
                → In v out))
unfolding heap_for_u64
heap_for_u64_lem os laws m query needle alignment positive words pages =
    let aligned : max alignment 1 ≡ alignment = omega (arith, positive) in
    let bytes = to_le 8 needle in
    let (hits, ran, found) =
      sweep_sound os laws m query bytes alignment positive words pages max_iters granularity in
    let (up, kept) = dedup-sort hits in
    (
      dedup (sort hits),
      ap (λ hits. tidy os m query hits)
          (ap (λ a. sweep os m query bytes a max_iters granularity) aligned ∙ ran),
      up,
      λ v. (
        λ h. found v ((kept v).0 h),
        λ range there can hit. (kept v).1 (
            sweep_complete os laws m query bytes alignment positive words pages there v hits ran can
              hit),
      ),
    )

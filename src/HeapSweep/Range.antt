-- ===== src/HeapSweep/Range.antt =====
-- What `scan_range` of crates/glacier-007-dll/src/scan.rs finds in a range some of whose pages
-- cannot be read.
use openforge_aio.Prelude.{
  ℕ, suc, ◌+◌, ◌-◌, ◌≤◌, ◌<◌, ◌≡◌, refl, sym, ap, ap₂, ◌∙◌, some, List, [], take, drop, min, arith,
  inl, inr, ◌↔◌, In, not-In-nil,
}
use openforge_aio.Prelude.Result.{ok, Result-cases}
use openforge_aio.Memory.{Os, OsLaws, read_bytes}
use openforge_aio.Memory.Bytes.{slice}
use openforge_aio.Memory.Laws.{read_bytes-slice}
use openforge_aio.PointerScan.Chunk.{IsMultiple, IsMultiple-gap}
use openforge_aio.PointerScan.Found.{word-slice}
use openforge_aio.HeapSweep.{search_span, Swept, each_part, scan_page, scan_window, scan_range}
use openforge_aio.HeapSweep.Multiple.{IsMultiple-add, IsMultiple-trans, IsMultiple-sub, part_of}
use openforge_aio.HeapSweep.Span.{search_span_lem, each_part_lem}

module _ (os : Os) (laws : OsLaws os) (m : os.Mem) (needle : List ℕ) (align win page : ℕ)
    (positive : 0 < align) (words : IsMultiple 8 align) (some_page : 0 < page)
    (pages : IsMultiple align page) (some_win : 0 < win) (wins : IsMultiple page win) where
  -- The needle stands at the aligned offset `v - abs` of the `n` bytes from `abs` on.
  abbrev pub IsHit : ℕ → ℕ → ℕ → Type 0
  IsHit abs n v =
      (j : ℕ) × (j + 8 ≤ n) × IsMultiple align j × (abs + j ≡ v) × (slice (os.view m) v 8 ≡ needle)

  -- The page of the address, as the pages are laid from `abs` on, can be read.
  abbrev pub Readable : ℕ → ℕ → ℕ → Type 0
  Readable abs n v =
      (p : ℕ) × IsMultiple page p
      × (abs + p ≤ v)
      × (v < abs + p + page)
      × (bytes : List ℕ) × (read_bytes os m (abs + p) (min (n - p) page) ≡ ok bytes)

  -- Hits only, and all of them where `needed` holds.
  abbrev pub Covers : (ℕ → Type 0) → (ℕ → Type 0) → List ℕ → Type 0
  Covers needed hit out = (v : ℕ) → (In v out → hit v) × (needed v → hit v → In v out)

  join_part :
      (w abs n p v : ℕ)
      → IsMultiple align p
      → p ≤ n
      → IsHit (abs + p) (min (n - p) w) v
      → IsHit abs n v
  join_part w abs n p v at low (j, high, al, e, b) =
      (p + j, omega (arith, high, low), IsMultiple-add align p j at al, omega (arith, e), b)

  split_part :
      (w abs n p v : ℕ)
      → IsMultiple align w
      → IsMultiple align p
      → abs + p ≤ v
      → v < abs + p + w
      → IsHit abs n v
      → IsHit (abs + p) (min (n - p) w) v
  split_part w abs n p v al_w at low high (j, room, al, e, b) =
      let rest = IsMultiple-sub align p j at al in
      let gap =
        IsMultiple-gap 8 (j - p) w (IsMultiple-trans 8 align (j - p) words rest)
          (IsMultiple-trans 8 align w words al_w) (omega (arith, high, e, low)) in
      (j - p, omega (arith, gap, room, e, low), rest, omega (arith, e, low), b)

  pub span_hits :
      (abs n : ℕ) (bytes : List ℕ)
      → read_bytes os m abs n ≡ ok bytes
      → (out : List ℕ) × (search_span abs bytes needle align ≡ some out)
        × ((v : ℕ) → In v out ↔ IsHit abs n v)
  span_hits abs n bytes read =
      let (copied, long) = read_bytes-slice os laws m abs n bytes read in
      let (out, ran, found) = search_span_lem abs bytes needle align positive in
      let same : (j : ℕ) → j + 8 ≤ n → take 8 (drop j bytes) ≡ slice (os.view m) (abs + j) 8 =
        λ j high. ap (λ bs. take 8 (drop j bs)) copied ∙ word-slice (os.view m) abs j n high in
      (
        out,
        ran,
        λ v. (
          λ h.
              let (j, low, high, al, w, e) = (found v).0 h in
              let high : j + 8 ≤ n = omega (arith, high, long) in
              (j, high, al, e, ap (λ a. slice (os.view m) a 8) (sym e) ∙ sym (same j high) ∙ w),
          λ (j, high, al, e, b). (found v).1 (
            j,
            omega arith,
            omega (arith, high, long),
            al,
            same j high ∙ ap (λ a. slice (os.view m) a 8) e ∙ b,
            e,
          ),
        ),
      )

  scan_page_lem :
      (abs p pn : ℕ)
      → (s : Swept) × (scan_page os m needle align win page abs p pn ≡ some s)
        × Covers
            (λ v. (bytes : List ℕ) × (read_bytes os m (abs + p) pn ≡ ok bytes))
            (λ v. IsHit (abs + p) pn v)
            s.1
  scan_page_lem abs p pn = elim (Result-cases (read_bytes os m (abs + p) pn)) [
    | inl (bytes, read) ↦
        let (out, ran, found) = span_hits (abs + p) pn bytes read in
        ((pn, out), rw (read, ran) refl, λ v. ((found v).0, λ r. (found v).1))
    | inr (e, unread) ↦
        ((0, []), rw unread refl, λ v. (λ h. absurd (not-In-nil h), λ (bytes, r) h. cc (r, unread)))
  ]

  page_loop_lem :
      (abs want : ℕ)
      → (s : Swept) × (each_part page (scan_page os m needle align win page abs) (suc want) want 0
          ≡ some s)
        × Covers (λ v. Readable abs want v) (λ v. IsHit abs want v) s.1
  page_loop_lem abs want =
      let (s, ran, found) =
        each_part_lem page some_page (scan_page os m needle align win page abs)
          (λ p pn. ((scan_page_lem abs p pn).0, (scan_page_lem abs p pn).1)) want in
      (
        s,
        ran,
        λ v. (
          λ h.
              let (p, low, high, at, here) = (found v).0 h in
              join_part page abs want p v (IsMultiple-trans align page p pages at)
                (omega (arith, high)) (((scan_page_lem abs p (min (want - p) page)).2 v).0 here),
          λ (p, at, low, high, bytes, read) hit.
              let (j, room, al, e, b) = hit in
              (found v).1 (
                p,
                omega arith,
                omega (arith, room, e, low),
                at,
                ((scan_page_lem abs p (min (want - p) page)).2 v).1 (bytes, read)
                    (split_part page abs want p v pages (IsMultiple-trans align page p pages at) low
                      high hit),
              ),
        ),
      )

  scan_window_lem :
      (base off want : ℕ)
      → (s : Swept) × (scan_window os m needle align win page base off want ≡ some s)
        × Covers (λ v. Readable (base + off) want v) (λ v. IsHit (base + off) want v) s.1
  scan_window_lem base off want = elim (Result-cases (read_bytes os m (base + off) want)) [
    | inl (bytes, read) ↦
        let (out, ran, found) = span_hits (base + off) want bytes read in
        ((want, out), rw (read, ran) refl, λ v. ((found v).0, λ r. (found v).1))
    | inr (e, unread) ↦
        let (s, ran, found) = page_loop_lem (base + off) want in (s, rw unread ran, found)
  ]

  -- A page of the range is a page of the window that it lies in.
  window_page :
      (base len o v p : ℕ)
      → IsMultiple page o
      → IsMultiple win o
      → o ≤ p
      → p < o + win
      → IsMultiple page p
      → base + p ≤ v
      → v < base + p + page
      → (bytes : List ℕ) → read_bytes os m (base + p) (min (len - p) page) ≡ ok bytes
      → Readable (base + o) (min (len - o) win) v
  window_page base len o v p paged at low high paged_p under over bytes read =
      let rest = IsMultiple-sub page o p paged paged_p in
      let gap = IsMultiple-gap page (p - o) win rest wins (omega (arith, high, low)) in
      let addr : base + p ≡ base + o + (p - o) = omega (arith, low) in
      let size : min (len - p) page ≡ min (min (len - o) win - (p - o)) page =
        omega (arith, gap, low) in
      (
        p - o,
        rest,
        omega (arith, under, low),
        omega (arith, over, low),
        bytes,
        sym (ap₂ (read_bytes os m) addr size) ∙ read,
      )

  range-Covers :
      (base len : ℕ)
      → (s : Swept) × (scan_range os m needle align win page base len ≡ some s)
        × Covers (λ v. Readable base len v) (λ v. IsHit base len v) s.1
  unfolding scan_range
  range-Covers base len =
      let (s, ran, found) =
        each_part_lem win some_win (scan_window os m needle align win page base)
          (λ off want. ((scan_window_lem base off want).0, (scan_window_lem base off want).1))
          len in
      let whole = IsMultiple-trans align page win pages wins in
      (
        s,
        ran,
        λ v. (
          λ h.
              let (o, low, high, at, here) = (found v).0 h in
              join_part win base len o v (IsMultiple-trans align win o whole at)
                (omega (arith, high)) (((scan_window_lem base o (min (len - o) win)).2 v).0 here),
          λ (p, at_p, under, over, bytes, read) hit.
              let (j, room, al, e, b) = hit in
              let (o, at, low, high) = part_of win p some_win in
              let paged = IsMultiple-trans page win o wins at in
              let rest = IsMultiple-sub page o p paged at_p in
              let gap = IsMultiple-gap page (p - o) win rest wins (omega (arith, high, low)) in
              (found v).1 (
                o,
                omega arith,
                omega (arith, room, e, under, low),
                at,
                ((scan_window_lem base o (min (len - o) win)).2 v).1
                    (window_page base len o v p paged at low high at_p under over bytes read)
                    (split_part win base len o v whole (IsMultiple-trans align win o whole at)
                      (omega (arith, under, low)) (omega (arith, over, gap, low)) hit),
              ),
        ),
      )

-- The scan of a range ends. With an alignment that is a multiple of 8, and scratch buffers whose
-- lengths are multiples of it and of each other, every hit is an aligned address of the range where
-- the needle stands, and every such address whose page can be read is hit, whichever other pages
-- of its window cannot.
pub scan_range_lem :
    (os : Os) (laws : OsLaws os) (m : os.Mem) (needle : List ℕ) (align win page : ℕ)
    (positive : 0 < align) (words : IsMultiple 8 align) (some_page : 0 < page)
    (pages : IsMultiple align page) (some_win : 0 < win) (wins : IsMultiple page win) (base len : ℕ)
    → (s : Swept) × (scan_range os m needle align win page base len ≡ some s)
      × ((v : ℕ)
          → (In v s.1
              → IsHit os laws m needle align win page positive words some_page pages some_win wins
                  base len v)
            × (Readable os laws m needle align win page positive words some_page pages some_win wins
                  base len v
                → IsHit os laws m needle align win page positive words some_page pages some_win wins
                    base len v
                → In v s.1))
scan_range_lem = range-Covers

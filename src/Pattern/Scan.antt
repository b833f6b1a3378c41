-- ===== src/Pattern/Scan.antt =====
-- `scan` and `scan_all` of crates/core/src/pattern.rs against the matches of Spec.
use openforge_aio.Prelude.{
  ℕ, zero, suc, ◌+◌, ◌-◌, ◌≤◌, ◌<◌, ◌≡◌, refl, ap, false, Option, none, some, List, [], ◌∷◌, length,
  get_elem?, get_elem?_lt, lt_of_get_elem?, ltb, ◌==◌, ltb→lt, Ascending, All, In-if, In-if_later,
  In-if_here, not-In-nil, if◌then◌else◌, arith, Bool-cases, inl, inr, ◌↔◌, In,
}
use openforge_aio.Prelude.Run.{done}
use openforge_aio.Pattern.{
  Pattern, matches_from, matches_at, anchor_byte, push_hit, scan_loop, scan, scan_all_loop,
  scan_all,
}
use openforge_aio.Pattern.Spec.{
  MatchesAt, WellFormed, FirstMatch, fits, fits-MatchesAt, MatchesAt-fits,
}

-- Where the pattern lies inside the haystack, the comparison does not panic.
matches_from-fits :
    (haystack : List ℕ) (pos : ℕ) (bs : List (Option ℕ))
    → pos + length bs ≤ length haystack
    → matches_from haystack pos bs ≡ done (fits bs haystack pos)
unfolding matches_from fits
matches_from-fits haystack pos [] h = refl
matches_from-fits haystack pos (none ∷ bs) h = matches_from-fits haystack (pos + 1) bs (omega arith)
matches_from-fits haystack pos (some b ∷ bs) h =
    let (x, here) = get_elem?_lt haystack pos (omega arith) in
    rw here (ground (arith, matches_from-fits haystack (pos + 1) bs (omega arith)))

-- The first and all positions of `rounds` positions from `i` on at which the pattern fits.
first_fit : List (Option ℕ) → List ℕ → ℕ → ℕ → Option ℕ
first_fit bs haystack zero i = none
first_fit bs haystack (suc rounds) i =
    if fits bs haystack i then some i else first_fit bs haystack rounds (i + 1)

all_fits : List (Option ℕ) → List ℕ → ℕ → ℕ → List ℕ
all_fits bs haystack zero i = []
all_fits bs haystack (suc rounds) i =
    let rest = all_fits bs haystack rounds (i + 1) in if fits bs haystack i then i ∷ rest else rest

module _ (p : Pattern) (a : ℕ) (at_anchor : get_elem? p.bytes p.anchor ≡ some (some a))
    (haystack : List ℕ) where
  -- Where the byte at the anchor differs, the whole pattern does not fit.
  anchor_filter :
      (i x : ℕ)
      → get_elem? haystack (i + p.anchor) ≡ some x
      → (x == a) ≡ false
      → fits p.bytes haystack i ≡ false
  anchor_filter i x here differs = elim (Bool-cases (fits p.bytes haystack i)) [
    | inl fit ↦ ground (arith, fits-MatchesAt p.bytes haystack i fit p.anchor a at_anchor)
    | inr miss ↦ miss
  ]

  scan_loop_step :
      (rounds i : ℕ)
      → i + length p.bytes ≤ length haystack
      → scan_loop p a haystack (suc rounds) i
        ≡ (if fits p.bytes haystack i then done (some i) else scan_loop p a haystack rounds (i + 1))
  unfolding scan_loop matches_at
  scan_loop_step rounds i h =
      let inside = lt_of_get_elem? p.bytes p.anchor (some a) at_anchor in
      let (x, here) = get_elem?_lt haystack (i + p.anchor) (omega arith) in
      ground (arith, here, matches_from-fits haystack i p.bytes h, anchor_filter i x here)

  scan_all_loop_step :
      (rounds i : ℕ)
      → i + length p.bytes ≤ length haystack
      → scan_all_loop p a haystack (suc rounds) i ≡ (
          if fits p.bytes haystack i
          then push_hit i (scan_all_loop p a haystack rounds (i + 1))
          else scan_all_loop p a haystack rounds (i + 1))
  unfolding scan_all_loop matches_at
  scan_all_loop_step rounds i h =
      let inside = lt_of_get_elem? p.bytes p.anchor (some a) at_anchor in
      let (x, here) = get_elem?_lt haystack (i + p.anchor) (omega arith) in
      ground (arith, here, matches_from-fits haystack i p.bytes h, anchor_filter i x here)

  scan_loop-first_fit :
      (rounds i : ℕ)
      → i + rounds + length p.bytes ≤ length haystack + 1
      → scan_loop p a haystack rounds i ≡ done (first_fit p.bytes haystack rounds i)
  unfolding first_fit
  scan_loop-first_fit zero i h = unfold scan_loop in refl
  scan_loop-first_fit (suc rounds) i h = ground (
    arith,
    scan_loop_step rounds i (omega arith),
    scan_loop-first_fit rounds (i + 1) (omega arith),
  )

  scan_all_loop-all_fits :
      (rounds i : ℕ)
      → i + rounds + length p.bytes ≤ length haystack + 1
      → scan_all_loop p a haystack rounds i ≡ done (all_fits p.bytes haystack rounds i)
  unfolding all_fits
  scan_all_loop-all_fits zero i h = unfold scan_all_loop in refl
  scan_all_loop-all_fits (suc rounds) i h = ground (
    arith,
    scan_all_loop_step rounds i (omega arith),
    scan_all_loop-all_fits rounds (i + 1) (omega arith),
  )

-- One more position at which the pattern does not fit.
extend :
    (bs : List (Option ℕ)) (haystack : List ℕ) (i : ℕ)
    → fits bs haystack i ≡ false
    → ((j : ℕ) → j < i → ¬ MatchesAt bs haystack j)
    → (j : ℕ) → j < i + 1
    → ¬ MatchesAt bs haystack j
extend bs haystack i miss before j below hit = elim (Bool-cases (ltb j i)) [
  | inl lower ↦ before j (ltb→lt j i lower) hit
  | inr last ↦
      let same : j ≡ i = ground arith in
      cc (MatchesAt-fits bs haystack j hit, miss, ap (fits bs haystack) same)
]

first_fit-FirstMatch :
    (bs : List (Option ℕ)) (haystack : List ℕ) (rounds i : ℕ)
    → i + rounds + length bs ≡ length haystack + 1
    → ((j : ℕ) → j < i → ¬ MatchesAt bs haystack j)
    → FirstMatch bs haystack (first_fit bs haystack rounds i)
unfolding first_fit
first_fit-FirstMatch bs haystack zero i h before = λ j inside. before j (omega arith)
first_fit-FirstMatch bs haystack (suc rounds) i h before = elim (Bool-cases (fits bs haystack i)) [
  | inl fit ↦ rw fit (omega arith, fits-MatchesAt bs haystack i fit, before)
  | inr miss ↦ rw miss (
      first_fit-FirstMatch bs haystack rounds (i + 1) (omega arith)
        (extend bs haystack i miss before))
]

-- On a well-formed pattern `scan` returns, without a panic, the first match if there is one.
pub scan_lem :
    (p : Pattern) (haystack : List ℕ)
    → WellFormed p
    → (r : Option ℕ) × (scan p haystack ≡ done r) × FirstMatch p.bytes haystack r
unfolding scan anchor_byte
scan_lem p haystack (a, at_anchor) = elim (Bool-cases (ltb (length haystack) (length p.bytes))) [
  | inl short ↦ (none, ground (arith, at_anchor, short), λ j inside hit. absurd (ground arith))
  | inr room ↦
      let rounds = length haystack - length p.bytes + 1 in
      (
        first_fit p.bytes haystack rounds 0,
        ground (
          arith,
          at_anchor,
          room,
          scan_loop-first_fit p a at_anchor haystack rounds 0 (ground arith),
        ),
        first_fit-FirstMatch p.bytes haystack rounds 0 (ground arith) (λ j below. elim below [ ]),
      )
]

all_fits_sound :
    (bs : List (Option ℕ)) (haystack : List ℕ) (rounds i j : ℕ)
    → In j (all_fits bs haystack rounds i)
    → (i ≤ j) × (j < i + rounds) × MatchesAt bs haystack j
unfolding all_fits
all_fits_sound bs haystack zero i j m = absurd (not-In-nil m)
all_fits_sound bs haystack (suc rounds) i j m =
    elim (In-if (fits bs haystack i) i (all_fits bs haystack rounds (i + 1)) m) [
      | inl (fit, e) ↦ (omega arith, omega arith, rw (← e) (fits-MatchesAt bs haystack i fit))
      | inr later ↦
          let (low, high, hit) = all_fits_sound bs haystack rounds (i + 1) j later in
          (omega arith, omega arith, hit)
    ]

all_fits_complete :
    (bs : List (Option ℕ)) (haystack : List ℕ) (rounds i j : ℕ)
    → i ≤ j
    → j < i + rounds
    → MatchesAt bs haystack j
    → In j (all_fits bs haystack rounds i)
unfolding all_fits
all_fits_complete bs haystack zero i j low high hit = absurd (omega arith)
all_fits_complete bs haystack (suc rounds) i j low high hit = elim (Bool-cases (ltb i j)) [
  | inl later ↦
      In-if_later (fits bs haystack i) i (all_fits bs haystack rounds (i + 1))
        (all_fits_complete bs haystack rounds (i + 1) j (ground arith) (omega arith) hit)
  | inr last ↦
      let same : i ≡ j = ground arith in
      In-if_here (fits bs haystack i) i (all_fits bs haystack rounds (i + 1))
        (rw same (MatchesAt-fits bs haystack j hit)) same
]

all_fits_above :
    (bs : List (Option ℕ)) (haystack : List ℕ) (rounds i k : ℕ)
    → k < i
    → All (λ y. k < y) (all_fits bs haystack rounds i)
unfolding all_fits
all_fits_above bs haystack zero i k h = tt
all_fits_above bs haystack (suc rounds) i k h = elim (Bool-cases (fits bs haystack i)) [
  | inl fit ↦ rw fit (h, all_fits_above bs haystack rounds (i + 1) k (omega arith))
  | inr miss ↦ rw miss (all_fits_above bs haystack rounds (i + 1) k (omega arith))
]

all_fits-Ascending :
    (bs : List (Option ℕ)) (haystack : List ℕ) (rounds i : ℕ)
    → Ascending (all_fits bs haystack rounds i)
unfolding all_fits
all_fits-Ascending bs haystack zero i = tt
all_fits-Ascending bs haystack (suc rounds) i = elim (Bool-cases (fits bs haystack i)) [
  | inl fit ↦ rw fit (
    all_fits_above bs haystack rounds (i + 1) i (omega arith),
    all_fits-Ascending bs haystack rounds (i + 1),
  )
  | inr miss ↦ rw miss (all_fits-Ascending bs haystack rounds (i + 1))
]

-- On a well-formed pattern `scan_all` returns, without a panic, every match in ascending order.
pub scan_all_lem :
    (p : Pattern) (haystack : List ℕ)
    → WellFormed p
    → (out : List ℕ) × (scan_all p haystack ≡ done out)
      × Ascending out
      × ((j : ℕ)
          → In j out ↔ ((j + length p.bytes ≤ length haystack) × MatchesAt p.bytes haystack j))
unfolding scan_all anchor_byte
scan_all_lem p haystack (a, at_anchor) =
    elim (Bool-cases (ltb (length haystack) (length p.bytes))) [
      | inl short ↦ (
        [],
        ground (arith, at_anchor, short),
        tt,
        λ j. (λ m. absurd (not-In-nil m), λ hit. absurd (ground arith)),
      )
      | inr room ↦
          let rounds = length haystack - length p.bytes + 1 in
          (
            all_fits p.bytes haystack rounds 0,
            ground (
              arith,
              at_anchor,
              room,
              scan_all_loop-all_fits p a at_anchor haystack rounds 0 (ground arith),
            ),
            all_fits-Ascending p.bytes haystack rounds 0,
            λ j. (
              λ m.
                  let (low, high, hit) = all_fits_sound p.bytes haystack rounds 0 j m in
                  (ground arith, hit),
              λ hit.
                  all_fits_complete p.bytes haystack rounds 0 j (omega arith) (ground arith) hit.1,
            ),
          )
    ]

-- ===== src/HeapSweep/Span.antt =====
-- The two loops of the heap scan in crates/glacier-007-dll/src/scan.rs: the search of a span that
-- was read, and the walk over the parts of a range.
use openforge_aio.Prelude.{
  ℕ, zero, suc, ◌+◌, ◌-◌, ◌≤◌, ◌<◌, ◌≡◌, refl, ap, ap₂, ◌∙◌, subst, true, Option, some, List, [],
  ◌∷◌, ◌++◌, length, take, drop, leb, ltb, if◌then◌else◌, min, arith, Bool-cases, inl, inr, ◌↔◌, In,
  In-if, In-if_later, In-if_here, In-append_left, In-append_right, In-append_cases, not-In-nil,
}
use openforge_aio.PointerScan.Chunk.{IsMultiple, IsMultiple-gap, IsMultiple-next}
use openforge_aio.HeapSweep.{equal, search_from, search_span, Swept, each_part}

pub equal_iff : (xs ys : List ℕ) → equal xs ys ≡ true ↔ (xs ≡ ys)
unfolding equal
equal_iff [] [] = (λ h. refl, λ h. refl)
equal_iff [] (y ∷ ys) = (λ h. absurd (ground arith), λ h. absurd (ground arith))
equal_iff (x ∷ xs) [] = (λ h. absurd (ground arith), λ h. absurd (ground arith))
equal_iff (x ∷ xs) (y ∷ ys) =
    let tails = equal_iff xs ys in
    (
      λ h.
          let head : x ≡ y = ground (arith, h) in
          let tail : equal xs ys ≡ true = ground (arith, h) in ap₂ ◌∷◌ head (tails.0 tail),
      λ h.
          let head : x ≡ y = cc h in
          let tail : xs ≡ ys = cc h in let rest = tails.1 tail in ground (arith, head, rest),
    )

module _ (abs : ℕ) (bytes needle : List ℕ) (align : ℕ) (positive : 0 < align) where
  -- The span holds the needle at an aligned offset from `i` on, whose address is `v`.
  abbrev pub HoldsAt : ℕ → ℕ → Type 0
  HoldsAt i v =
      (j : ℕ) × (i ≤ j)
      × (j + 8 ≤ length bytes)
      × IsMultiple align j
      × (take 8 (drop j bytes) ≡ needle)
      × (abs + j ≡ v)

  search_from_lem :
      (fuel i : ℕ)
      → 0 < fuel
      → length bytes < fuel + i
      → IsMultiple align i
      → (out : List ℕ) × (search_from fuel abs bytes needle align i ≡ some out)
        × ((v : ℕ) → In v out ↔ HoldsAt i v)
  unfolding search_from
  search_from_lem zero i some_fuel enough at = absurd (omega (arith, some_fuel))
  search_from_lem (suc fuel) i some_fuel enough at =
      elim (Bool-cases (leb (i + 8) (length bytes))) [
        | inr end ↦ (
          [],
          rw end refl,
          λ v. (
            λ m. absurd (not-In-nil m),
            λ (j, low, high, al, w, e). absurd (ground (arith, end, low, high)),
          ),
        )
        | inl more ↦
            let (rest, ran, found) =
              search_from_lem fuel (i + align) (ground (arith, more)) (omega arith)
                (IsMultiple-next align i at) in
            let test = equal (take 8 (drop i bytes)) needle in
            let decided = equal_iff (take 8 (drop i bytes)) needle in
            (
              (if test then (abs + i) ∷ rest else rest),
              rw (more, ran) refl,
              λ v. (
                λ m. elim (In-if test (abs + i) rest m) [
                  | inl (on, e) ↦ (i, omega arith, ground (arith, more), at, decided.0 on, e)
                  | inr later ↦
                      let (j, low, high, al, w, e) = (found v).0 later in
                      (j, omega (arith, low), high, al, w, e)
                ],
                λ (j, low, high, al, w, e). elim (Bool-cases (ltb i j)) [
                  | inl later ↦
                      let gap = IsMultiple-gap align i j at al (ground (arith, later)) in
                      In-if_later test (abs + i) rest
                        ((found v).1 (j, omega (arith, gap), high, al, w, e))
                  | inr first ↦
                      let same : i ≡ j = ground (arith, first, low) in
                      In-if_here test (abs + i) rest
                        (decided.1 (ap (λ k. take 8 (drop k bytes)) same ∙ w))
                        (ap (λ k. abs + k) same ∙ e)
                ],
              ),
            )
      ]

  -- A span gives exactly its aligned occurrences.
  pub search_span_lem :
      (out : List ℕ) × (search_span abs bytes needle align ≡ some out)
      × ((v : ℕ) → In v out ↔ HoldsAt 0 v)
  unfolding search_span
  search_span_lem =
      search_from_lem (suc (length bytes)) 0 (omega arith) (omega arith) (0, omega arith)

module _ (width : ℕ) (positive : 0 < width) (body : ℕ → ℕ → Option Swept)
    (total : (off want : ℕ) → (s : Swept) × (body off want ≡ some s)) (len : ℕ) where
  -- A part from `off` on gives the hit.
  abbrev pub FromPart : ℕ → ℕ → Type 0
  FromPart off v =
      (p : ℕ) × (off ≤ p)
      × (p < len)
      × IsMultiple width p
      × In v (total p (min (len - p) width)).0.1

  each_part_from :
      (fuel off : ℕ)
      → 0 < fuel
      → len < fuel + off
      → (off < len → IsMultiple width off)
      → (s : Swept) × (each_part width body fuel len off ≡ some s)
        × ((v : ℕ) → In v s.1 ↔ FromPart off v)
  unfolding each_part
  each_part_from zero off some_fuel enough at = absurd (omega (arith, some_fuel))
  each_part_from (suc fuel) off some_fuel enough at = elim (Bool-cases (ltb off len)) [
    | inr end ↦ (
      (0, []),
      rw end refl,
      λ v. (
        λ m. absurd (not-In-nil m),
        λ (p, low, high, al, h). absurd (ground (arith, end, low, high)),
      ),
    )
    | inl more ↦
        let want = min (len - off) width in
        let (here, ran) = total off want in
        let aligned = at (ground (arith, more)) in
        let (rest, went, found) =
          each_part_from fuel (off + want) (ground (arith, more)) (ground (arith, more, positive))
            (λ on. let (q, e) = IsMultiple-next width off aligned in (q, omega (arith, e, on))) in
        (
          (here.0 + rest.0, here.1 ++ rest.1),
          rw (more, ran, went) refl,
          λ v. (
            λ m. elim (In-append_cases here.1 rest.1 m) [
              | inl early ↦ (off, omega arith, ground (arith, more), aligned, early)
              | inr late ↦
                  let (p, low, high, al, h) = (found v).0 late in
                  (p, omega (arith, low), high, al, h)
            ],
            λ (p, low, high, al, h). elim (Bool-cases (ltb off p)) [
              | inl later ↦
                  let gap = IsMultiple-gap width off p aligned al (ground (arith, later)) in
                  In-append_right here.1 rest.1 ((found v).1 (p, omega (arith, gap), high, al, h))
              | inr first ↦
                  let same : p ≡ off = ground (arith, first, low) in
                  In-append_left here.1 rest.1
                    (subst (λ q. In v (total q (min (len - q) width)).0.1) same h)
            ],
          ),
        )
  ]

  -- A walk over a range gives exactly what its parts give.
  pub each_part_lem :
      (s : Swept) × (each_part width body (suc len) len 0 ≡ some s)
      × ((v : ℕ) → In v s.1 ↔ FromPart 0 v)
  each_part_lem = each_part_from (suc len) 0 (omega arith) (omega arith) (λ h. (0, omega arith))

-- ===== src/HeapSweep/Sort.antt =====
-- `hits.sort_unstable()` and `hits.dedup()` of `heap_for_u64` in crates/glacier-007-dll/src/scan.rs.
use openforge_aio.Prelude.{
  ℕ, ◌≤◌, ◌<◌, ◌≡◌, subst, List, [], ◌∷◌, leb, ◌==◌, if◌then◌else◌, arith, Bool-cases, inl, inr,
  ◌↔◌, In, In-head, In-tail, In-cases,
}

unfoldable pub insert : ℕ → List ℕ → List ℕ
insert a [] = a ∷ []
insert a (x ∷ xs) = if leb a x then a ∷ x ∷ xs else x ∷ insert a xs

unfoldable pub sort : List ℕ → List ℕ
unfolding insert
sort [] = []
sort (x ∷ xs) = insert x (sort xs)

-- What `dedup` keeps behind an element that it kept.
unfoldable pub dedup_after : ℕ → List ℕ → List ℕ
dedup_after last [] = []
dedup_after last (x ∷ xs) = if x == last then dedup_after last xs else x ∷ dedup_after x xs

unfoldable pub dedup : List ℕ → List ℕ
unfolding dedup_after
dedup [] = []
dedup (x ∷ xs) = x ∷ dedup_after x xs

-- Ascending from a bound on, with and without repetitions.
abbrev pub From : ℕ → List ℕ → Type 0
From low [] = Unit
From low (x ∷ xs) = (low ≤ x) × From x xs

abbrev pub Above : ℕ → List ℕ → Type 0
Above low [] = Unit
Above low (x ∷ xs) = (low < x) × Above x xs

abbrev pub Ascending : List ℕ → Type 0
Ascending [] = Unit
Ascending (x ∷ xs) = Above x xs

insert-From : (low a : ℕ) (xs : List ℕ) → low ≤ a → From low xs → From low (insert a xs)
unfolding insert
insert-From low a [] h f = (h, tt)
insert-From low a (x ∷ xs) h (f, fs) = elim (Bool-cases (leb a x)) [
  | inl on ↦ rw on (h, (ground (arith, on), fs))
  | inr off ↦ rw off (f, insert-From x a xs (ground (arith, off)) fs)
]

sort-From : (xs : List ℕ) → From 0 (sort xs)
unfolding sort
sort-From [] = tt
sort-From (x ∷ xs) = insert-From 0 x (sort xs) (omega arith) (sort-From xs)

insert-In : (a : ℕ) (xs : List ℕ) (v : ℕ) → In v (insert a xs) ↔ In v (a ∷ xs)
unfolding insert
insert-In a [] v = (λ h. h, λ h. h)
insert-In a (x ∷ xs) v = elim (Bool-cases (leb a x)) [
  | inl on ↦ rw on (λ h. h, λ h. h)
  | inr off ↦
      let rest = insert-In a xs v in
      rw off (
        λ h. elim (In-cases x (insert a xs) h) [
          | inl e ↦ In-tail a (x ∷ xs) (subst (λ u. In u (x ∷ xs)) e (In-head x xs))
          | inr later ↦ elim (In-cases a xs (rest.0 later)) [
            | inl e ↦ subst (λ u. In u (a ∷ x ∷ xs)) e (In-head a (x ∷ xs))
            | inr there ↦ In-tail a (x ∷ xs) (In-tail x xs there)
          ]
        ],
        λ h. elim (In-cases a (x ∷ xs) h) [
          | inl e ↦ In-tail x (insert a xs) (rest.1 (subst (λ u. In u (a ∷ xs)) e (In-head a xs)))
          | inr later ↦ elim (In-cases x xs later) [
            | inl e ↦ subst (λ u. In u (x ∷ insert a xs)) e (In-head x (insert a xs))
            | inr there ↦ In-tail x (insert a xs) (rest.1 (In-tail a xs there))
          ]
        ],
      )
]

sort-In : (xs : List ℕ) (v : ℕ) → In v (sort xs) ↔ In v xs
unfolding sort
sort-In [] v = (λ h. h, λ h. h)
sort-In (x ∷ xs) v =
    let here = insert-In x (sort xs) v in
    let rest = sort-In xs v in
    (
      λ h. elim (In-cases x (sort xs) (here.0 h)) [
        | inl e ↦ subst (λ u. In u (x ∷ xs)) e (In-head x xs)
        | inr later ↦ In-tail x xs (rest.0 later)
      ],
      λ h. here.1 (elim (In-cases x xs h) [
        | inl e ↦ subst (λ u. In u (x ∷ sort xs)) e (In-head x (sort xs))
        | inr later ↦ In-tail x (sort xs) (rest.1 later)
      ]),
    )

dedup_after-Above : (last : ℕ) (xs : List ℕ) → From last xs → Above last (dedup_after last xs)
unfolding dedup_after
dedup_after-Above last [] f = tt
dedup_after-Above last (x ∷ xs) (f, fs) = elim (Bool-cases (x == last)) [
  | inl same ↦
      let same_as : x ≡ last = ground (arith, same) in
      rw same (dedup_after-Above last xs (subst (λ b. From b xs) same_as fs))
  | inr new ↦ rw new (ground (arith, new, f), dedup_after-Above x xs fs)
]

dedup_after-In :
    (last : ℕ) (xs : List ℕ) (v : ℕ) → In v (last ∷ dedup_after last xs) ↔ In v (last ∷ xs)
unfolding dedup_after
dedup_after-In last [] v = (λ h. h, λ h. h)
dedup_after-In last (x ∷ xs) v = elim (Bool-cases (x == last)) [
  | inl same ↦
      let same_as : x ≡ last = ground (arith, same) in
      let rest = dedup_after-In last xs v in
      rw same (
        λ h. elim (In-cases last xs (rest.0 h)) [
          | inl e ↦ subst (λ u. In u (last ∷ x ∷ xs)) e (In-head last (x ∷ xs))
          | inr later ↦ In-tail last (x ∷ xs) (In-tail x xs later)
        ],
        λ h. rest.1 (elim (In-cases last (x ∷ xs) h) [
          | inl e ↦ subst (λ u. In u (last ∷ xs)) e (In-head last xs)
          | inr later ↦ subst (λ u. In v (u ∷ xs)) same_as later
        ]),
      )
  | inr new ↦
      let rest = dedup_after-In x xs v in
      rw new (
        λ h. elim (In-cases last (x ∷ dedup_after x xs) h) [
          | inl e ↦ subst (λ u. In u (last ∷ x ∷ xs)) e (In-head last (x ∷ xs))
          | inr later ↦ In-tail last (x ∷ xs) (rest.0 later)
        ],
        λ h. elim (In-cases last (x ∷ xs) h) [
          | inl e ↦
              subst (λ u. In u (last ∷ x ∷ dedup_after x xs)) e
                (In-head last (x ∷ dedup_after x xs))
          | inr later ↦ In-tail last (x ∷ dedup_after x xs) (rest.1 later)
        ],
      )
]

dedup-Ascending : (xs : List ℕ) → From 0 xs → Ascending (dedup xs)
unfolding dedup
dedup-Ascending [] f = tt
dedup-Ascending (x ∷ xs) (f, fs) = dedup_after-Above x xs fs

dedup-In : (xs : List ℕ) (v : ℕ) → In v (dedup xs) ↔ In v xs
unfolding dedup
dedup-In [] v = (λ h. h, λ h. h)
dedup-In (x ∷ xs) v = dedup_after-In x xs v

-- Sorting and removing repetitions keep what is in the list.
pub dedup-sort :
    (xs : List ℕ) → Ascending (dedup (sort xs)) × ((v : ℕ) → In v (dedup (sort xs)) ↔ In v xs)
dedup-sort xs = (
  dedup-Ascending (sort xs) (sort-From xs),
  λ v.
      let kept = dedup-In (sort xs) v in
      let sorted = sort-In xs v in (λ h. sorted.0 (kept.0 h), λ h. kept.1 (sorted.1 h)),
)

-- ===== src/Pe/Parse.antt =====
-- What the search of crates/dll-common/src/pe.rs finds.
use openforge_aio.Prelude.{
  ℕ, ◌+◌, ◌*◌, ◌≤◌, ◌≡◌, refl, Bool, true, false, Option, none, some, List, [], ◌∷◌, ltb,
  if◌then◌else◌, arith, Bool-cases, Option-cases, inl, inr, ◌⊎◌, All, Any, ◌&&◌,
}
use openforge_aio.Prelude.Run.{done}
use openforge_aio.Pe.Headers.{Image, section_table}
use openforge_aio.Pe.{
  Section, Found, is_code, is_text, lower, note_section, or_text, parse_text_section,
}
use openforge_aio.Pe.Sections.{sections_from, note_all, section_loop_lem}

-- The table that the headers give lies inside the image.
section_table-bound :
    (img : Image) (size sections_off num_sections : ℕ)
    → section_table img size ≡ some (sections_off, num_sections)
    → sections_off + num_sections * 40 ≤ size
unfolding section_table
section_table-bound img size sections_off num_sections h = ground arith

-- The range of a section, and that it is one.
abbrev pub IsRange : (Section → Bool) → ℕ → ℕ → Section → Type 0
IsRange p v n s = (p s ≡ true) × (s.vaddr ≡ v) × (s.vsize ≡ n)

-- The code section that lies lowest or, where no section is code, one that is named ".text".
unfoldable pub IsPrimary : List Section → ℕ → ℕ → Type 0
IsPrimary ss v n =
    (Any (IsRange is_code v n) ss × All (λ s. is_code s ≡ true → v ≤ s.vaddr) ss)
    ⊎ (All (λ s. is_code s ≡ false) ss × Any (IsRange is_text v n) ss)

Best : Option (ℕ × ℕ) → List Section → Option (ℕ × ℕ) → Type 0
Best b ss r =
    ((r ≡ none) × (b ≡ none) × All (λ s. is_code s ≡ false) ss)
    ⊎ ((v : ℕ) × (n : ℕ) × (r ≡ some (v, n))
        × All (λ s. is_code s ≡ true → v ≤ s.vaddr) ss
        × ((w k : ℕ) → b ≡ some (w, k) → v ≤ w)
        × ((b ≡ some (v, n)) ⊎ Any (IsRange is_code v n) ss))

-- The candidate behind one section, by whether that is code.
abbrev picked : Bool → ℕ → ℕ → Option (ℕ × ℕ) → Option (ℕ × ℕ)
picked c va sz b = if c && lower va b then some (va, sz) else b

picked-none :
    (c : Bool) (va sz : ℕ) (b : Option (ℕ × ℕ)) → picked c va sz b ≡ none → (b ≡ none) × (c ≡ false)
picked-none false va sz b h = (h, refl)
picked-none true va sz none h = cc h
picked-none true va sz (some (bv, k)) h = ground (arith, h)

picked_low :
    (c : Bool) (va sz : ℕ) (b : Option (ℕ × ℕ)) (v : ℕ)
    → ((w k : ℕ) → picked c va sz b ≡ some (w, k) → v ≤ w)
    → (c ≡ true → v ≤ va) × ((w k : ℕ) → b ≡ some (w, k) → v ≤ w)
picked_low false va sz b v below = (λ on. cc on, below)
picked_low true va sz none v below = (λ on. below va sz refl, λ w k e. cc e)
picked_low true va sz (some (bv, n)) v below = elim (Bool-cases (ltb va bv)) [
  | inl lt ↦
      let here : v ≤ va = below va sz (rw lt refl) in
      (λ on. here, λ w k e. ground (arith, lt, here))
  | inr ge ↦
      let here : v ≤ bv = below bv n (rw ge refl) in
      (λ on. ground arith, λ w k e. ground (arith, here))
]

picked_from :
    (c : Bool) (va sz : ℕ) (b : Option (ℕ × ℕ)) (v n : ℕ)
    → picked c va sz b ≡ some (v, n)
    → (b ≡ some (v, n)) ⊎ ((c ≡ true) × (va ≡ v) × (sz ≡ n))
picked_from false va sz b v n h = inl h
picked_from true va sz b v n h = elim (Bool-cases (lower va b)) [
  | inl lt ↦ inr (refl, ground (arith, lt), ground (arith, lt))
  | inr ge ↦ inl (rw ge at h)
]

best_lem : (f : Found) (ss : List Section) → Best f.best ss (note_all f ss).best
unfolding Best note_all note_section
best_lem f [] = elim (Option-cases f.best) [
  | inl e ↦ inl (e, e, tt)
  | inr ((v, n), e) ↦ inr (v, n, e, tt, λ w k e'. ground (arith, e, e'), inl e)
]
best_lem f (s ∷ ss) = elim (best_lem (note_section f s) ss) [
  | inl (r, b, away) ↦
      let (start, data_only) = picked-none (is_code s) s.vaddr s.vsize f.best b in
      inl (r, start, (data_only, away))
  | inr (v, n, r, low, below, from) ↦
      let (here, before) = picked_low (is_code s) s.vaddr s.vsize f.best v below in
      inr (v, n, r, (here, low), before, origin v n from)
]
  where
    origin :
        (v n : ℕ)
        → ((note_section f s).best ≡ some (v, n)) ⊎ Any (IsRange is_code v n) ss
        → (f.best ≡ some (v, n)) ⊎ Any (IsRange is_code v n) (s ∷ ss)
    origin v n (inr later) = inr (inr later)
    origin v n (inl now) = elim (picked_from (is_code s) s.vaddr s.vsize f.best v n now) [
      | inl old ↦ inl old
      | inr it ↦ inr (inl it)
    ]

text_lem :
    (f : Found) (ss : List Section) (v n : ℕ)
    → (note_all f ss).named_text ≡ some (v, n)
    → (f.named_text ≡ some (v, n)) ⊎ Any (IsRange is_text v n) ss
unfolding note_all note_section
text_lem f [] v n h = inl h
text_lem f (s ∷ ss) v n h = elim (text_lem (note_section f s) ss v n h) [
  | inr later ↦ inr (inr later)
  | inl now ↦ elim (Bool-cases (is_text s)) [
    | inl named ↦ inr (inl (named, ground (arith, named), ground (arith, named)))
    | inr other ↦ inl (rw other at now)
  ]
]

text_none :
    (f : Found) (ss : List Section)
    → (note_all f ss).named_text ≡ none
    → (f.named_text ≡ none) × All (λ s. is_text s ≡ false) ss
unfolding note_all note_section
text_none f [] h = (h, tt)
text_none f (s ∷ ss) h =
    let (now, later) = text_none (note_section f s) ss h in
    elim (Bool-cases (is_text s)) [
      | inl named ↦ ground (arith, named, now)
      | inr other ↦ (rw other at now, (other, later))
    ]

abbrev nothing_found : Found
nothing_found = record { best = none; named_text = none }

-- What the search finds in a list of sections.
chosen_lem :
    (ss : List Section)
    → ((or_text (note_all nothing_found ss) ≡ none)
        × All (λ s. is_code s ≡ false) ss
        × All (λ s. is_text s ≡ false) ss)
      ⊎ ((v : ℕ) × (n : ℕ) × (or_text (note_all nothing_found ss) ≡ some (v, n)) × IsPrimary ss v n)
unfolding Best IsPrimary
chosen_lem ss =
    let r = note_all nothing_found ss in
    elim (best_lem nothing_found ss) [
      | inr (v, n, e, low, below, inl old) ↦ cc old
      | inr (v, n, e, low, below, inr here) ↦ inr (v, n, rw e refl, inl (here, low))
      | inl (e, _, away) ↦ elim (Option-cases r.named_text) [
        | inl none_named ↦
            inl (rw (e, none_named) refl, away, (text_none nothing_found ss none_named).1)
        | inr ((v, n), named) ↦ elim (text_lem nothing_found ss v n named) [
          | inl old ↦ cc old
          | inr here ↦ inr (v, n, rw (e, named) refl, inr (away, here))
        ]
      ]
    ]

-- The search stays inside the image. It answers nothing if the headers give no table or no section
-- of the table is code or is named ".text"; otherwise it answers the table's primary section.
pub parse_text_section_lem :
    (img : Image) (size : ℕ)
    → ((parse_text_section img size ≡ done none) × (section_table img size ≡ none))
      ⊎ ((off : ℕ) × (num : ℕ) × (section_table img size ≡ some (off, num))
          × (off + num * 40 ≤ size)
          × (((parse_text_section img size ≡ done none)
                × All (λ s. is_code s ≡ false) (sections_from img off 0 num)
                × All (λ s. is_text s ≡ false) (sections_from img off 0 num))
              ⊎ ((v : ℕ) × (n : ℕ) × (parse_text_section img size ≡ done (some (v, n)))
                  × IsPrimary (sections_from img off 0 num) v n)))
unfolding parse_text_section
parse_text_section_lem img size = elim (Option-cases (section_table img size)) [
  | inl e ↦ inl (rw e refl, e)
  | inr ((off, num), e) ↦
      let bound = section_table-bound img size off num e in
      let loop = section_loop_lem img size off 0 num nothing_found (omega arith) in
      inr (
        off,
        num,
        e,
        bound,
        elim (chosen_lem (sections_from img off 0 num)) [
          | inl (nothing, no_code, no_text) ↦ inl (rw (e, loop, nothing) refl, no_code, no_text)
          | inr (v, n, it, primary) ↦ inr (v, n, rw (e, loop, it) refl, primary)
        ],
      )
]

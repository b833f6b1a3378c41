-- ===== src/PointerScan/Chunk.antt =====
-- What one chunk of crates/discover/src/pointer_scan.rs contributes: its aligned words in the
-- window, all of them.
use openforge_aio.Prelude.{
  ℕ, zero, suc, ◌+◌, ◌-◌, ◌*◌, ◌/◌, ◌%◌, ◌≤◌, ◌<◌, ◌≡◌, refl, sym, ap, ◌∙◌, subst, Bool, true, ◌&&◌,
  some, List, [], ◌∷◌, length, take, drop, leb, ltb, ◌==◌, if◌then◌else◌, arith, Bool-cases, inl,
  inr, ◌↔◌, In, In-if, In-if_later, In-if_here, not-In-nil,
}
use openforge_aio.Prelude.Bytes.{from_le}
use openforge_aio.PointerScan.{
  PointerCandidate, next_multiple_of, candidate, scan_words, scan_chunk_for_pointers,
}
use native.Mathlib.Nat.{div-add-mod, mod-lt, mul_comm}

abbrev pub IsMultiple : ℕ → ℕ → Type 0
IsMultiple k n = (q : ℕ) × (n ≡ q * k)

-- Two multiples are a whole step apart.
pub IsMultiple-gap : (k a b : ℕ) → IsMultiple k a → IsMultiple k b → a < b → a + k ≤ b
IsMultiple-gap k a b (q, e) (r, f) h = elim (Bool-cases (ltb q r)) [
  | inl below ↦
      let less : q < r = ground (arith, below) in
      let room : q * k + k ≤ r * k = grind (arith, less) in omega (arith, e, f, room)
  | inr above ↦
      let more : r ≤ q = ground (arith, above) in
      let room : r * k ≤ q * k = grind (arith, more) in absurd (omega (arith, e, f, room, h))
]

pub IsMultiple-next : (k a : ℕ) → IsMultiple k a → IsMultiple k (a + k)
IsMultiple-next k a (q, e) = (q + 1, omega (arith, e))

-- `next_multiple_of` is the least multiple that is not below.
pub next_multiple_of_lem :
    (n k : ℕ)
    → 0 < k
    → IsMultiple k (next_multiple_of n k)
      × (n ≤ next_multiple_of n k)
      × ((a : ℕ) → IsMultiple k a → n ≤ a → next_multiple_of n k ≤ a)
unfolding next_multiple_of
next_multiple_of_lem n k h =
    let parts : n ≡ n / k * k + n % k =
      sym (div-add-mod n k) ∙ ap (λ p. p + n % k) (mul_comm k (n / k)) in
    let low : n % k < k = mod-lt n h in
    elim (Bool-cases (n % k == 0)) [
      | inl whole ↦ rw whole ((n / k, ground (arith, parts, whole)), omega arith, λ a m up. up)
      | inr rest ↦
          let over : 0 < n % k = ground (arith, rest) in
          rw rest (
            (n / k + 1, omega (arith, parts, low)),
            omega (arith, low),
            λ a m up.
                let room =
                  IsMultiple-gap k (n / k * k) a (n / k, refl) m (omega (arith, over, parts, up)) in
                omega (arith, room, parts, over),
          )
    ]

module _ (alignment lower upper : ℕ) (positive : 0 < alignment) where
  abbrev pub in_window : ℕ → Bool
  in_window v = leb lower v && leb v upper

  -- The word at the offset `j`, between `i` and the chunk's end, is aligned and in the window.
  abbrev pub WordAt : List ℕ → ℕ → ℕ → PointerCandidate → Type 0
  WordAt chunk chunk_base i c =
      (j : ℕ) × (i ≤ j)
      × (j + 8 ≤ length chunk)
      × IsMultiple alignment (chunk_base + j)
      × (in_window (from_le (take 8 (drop j chunk))) ≡ true)
      × (candidate alignment lower upper chunk_base j (from_le (take 8 (drop j chunk))) ≡ c)

  pub scan_words_lem :
      (fuel : ℕ) (chunk : List ℕ) (chunk_base i : ℕ)
      → 0 < fuel
      → length chunk < fuel + i
      → IsMultiple alignment (chunk_base + i)
      → (out : List PointerCandidate) × (scan_words alignment lower upper fuel chunk chunk_base i
          ≡ some out)
        × ((c : PointerCandidate) → In c out ↔ WordAt chunk chunk_base i c)
  unfolding scan_words
  scan_words_lem zero chunk chunk_base i some_fuel enough at = absurd (omega (arith, some_fuel))
  scan_words_lem (suc fuel) chunk chunk_base i some_fuel enough at =
      elim (Bool-cases (leb (i + 8) (length chunk))) [
        | inr end ↦ (
          [],
          rw end refl,
          λ c. (
            λ m. absurd (not-In-nil m),
            λ (j, low, high, al, w, e). absurd (ground (arith, end, low, high)),
          ),
        )
        | inl more ↦
            let (rest, ran, found) =
              scan_words_lem fuel chunk chunk_base (i + alignment) (ground (arith, more))
                (omega arith)
                (let (q, e) = IsMultiple-next alignment (chunk_base + i) at in
                  (q, omega (arith, e))) in
            let v = from_le (take 8 (drop i chunk)) in
            let here : PointerCandidate = candidate alignment lower upper chunk_base i v in
            let test : Bool = in_window v in
            (
              (if test then here ∷ rest else rest),
              rw (more, ran) refl,
              λ c. (
                λ m. elim (In-if test here rest m) [
                  | inl (on, e) ↦ (i, omega arith, ground (arith, more), at, on, e)
                  | inr later ↦
                      let (j, low, high, al, w, e) = (found c).0 later in
                      (j, omega (arith, low), high, al, w, e)
                ],
                λ (j, low, high, al, w, e). elim (Bool-cases (ltb i j)) [
                  | inl later ↦
                      let gap =
                        IsMultiple-gap alignment (chunk_base + i) (chunk_base + j) at al
                          (ground (arith, later)) in
                      In-if_later test here rest
                        ((found c).1 (j, omega (arith, gap), high, al, w, e))
                  | inr first ↦
                      let same : i ≡ j = ground (arith, first, low) in
                      In-if_here test here rest
                        (ap (λ k. in_window (from_le (take 8 (drop k chunk)))) same ∙ w)
                        (ap
                            (λ k.
                              candidate alignment lower upper chunk_base k
                                (from_le (take 8 (drop k chunk))))
                            same
                          ∙ e)
                ],
              ),
            )
      ]

  -- A chunk gives exactly its aligned words in the window.
  pub scan_chunk_lem :
      (chunk : List ℕ) (chunk_base : ℕ)
      → (out : List PointerCandidate) × (scan_chunk_for_pointers alignment lower upper chunk
            chunk_base
          ≡ some out)
        × ((c : PointerCandidate) → In c out ↔ WordAt chunk chunk_base 0 c)
  unfolding scan_chunk_for_pointers
  scan_chunk_lem chunk chunk_base = elim (Bool-cases (ltb (length chunk) 8)) [
    | inl short ↦ (
      [],
      rw short refl,
      λ c. (
        λ m. absurd (not-In-nil m),
        λ (j, low, high, al, w, e). absurd (ground (arith, short, high)),
      ),
    )
    | inr fine ↦
        let (multiple, up, least) = next_multiple_of_lem chunk_base alignment positive in
        let first = next_multiple_of chunk_base alignment - chunk_base in
        let there : chunk_base + first ≡ next_multiple_of chunk_base alignment =
          omega (arith, up) in
        let (out, ran, found) =
          scan_words_lem (suc (length chunk)) chunk chunk_base first (omega arith) (omega arith)
            (subst (IsMultiple alignment) (sym there) multiple) in
        (
          out,
          rw fine ran,
          λ c. (
            λ m. let (j, low, high, al, w, e) = (found c).0 m in (j, omega arith, high, al, w, e),
            λ (j, low, high, al, w, e).
                (found c).1
                  (j, omega (arith, least (chunk_base + j) al (omega arith), up), high, al, w, e),
          ),
        )
  ]

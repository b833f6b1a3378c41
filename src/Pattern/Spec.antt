-- ===== src/Pattern/Spec.antt =====
-- What a match of a pattern is, independently of the scan of crates/core/src/pattern.rs.
use openforge_aio.Prelude.{
  ℕ, zero, suc, ◌+◌, ◌≤◌, ◌<◌, ◌≡◌, refl, ap, Bool, true, false, ◌&&◌, Option, none, some, List, [],
  ◌∷◌, length, get_elem?, ◌==◌, ==_iff, arith,
}
use openforge_aio.Pattern.{Pattern}

-- Every literal byte stands in the haystack at its place behind `pos`.
abbrev pub MatchesAt : List (Option ℕ) → List ℕ → ℕ → Type 0
MatchesAt bs haystack pos =
    (k b : ℕ) → get_elem? bs k ≡ some (some b) → get_elem? haystack (pos + k) ≡ some b

-- The anchor is the index of a literal byte.
abbrev pub WellFormed : Pattern → Type 0
WellFormed p = (a : ℕ) × (get_elem? p.bytes p.anchor ≡ some (some a))

-- What `scan` promises.
abbrev pub FirstMatch : List (Option ℕ) → List ℕ → Option ℕ → Type 0
FirstMatch bs haystack none = (j : ℕ) → j + length bs ≤ length haystack → ¬ MatchesAt bs haystack j
FirstMatch bs haystack (some i) =
    (i + length bs ≤ length haystack)
    × MatchesAt bs haystack i
    × ((j : ℕ) → j < i → ¬ MatchesAt bs haystack j)

-- The same as a test, byte by byte.
abbrev pub byte_at : Option ℕ → ℕ → Bool
byte_at none b = false
byte_at (some x) b = x == b

unfoldable pub fits : List (Option ℕ) → List ℕ → ℕ → Bool
fits [] haystack pos = true
fits (none ∷ bs) haystack pos = fits bs haystack (pos + 1)
fits (some b ∷ bs) haystack pos = byte_at (get_elem? haystack pos) b && fits bs haystack (pos + 1)

byte_at-eq : (o : Option ℕ) (b : ℕ) → byte_at o b ≡ true → o ≡ some b
byte_at-eq none b h = ground arith
byte_at-eq (some x) b h = ap some ((==_iff x b).0 h)

MatchesAt-tail :
    (x : Option ℕ) (bs : List (Option ℕ)) (haystack : List ℕ) (pos : ℕ)
    → MatchesAt (x ∷ bs) haystack pos
    → MatchesAt bs haystack (pos + 1)
MatchesAt-tail x bs haystack pos h k b e =
    let same : pos + suc k ≡ pos + 1 + k = omega arith in rw (← same) (h (suc k) b e)

MatchesAt-none :
    (bs : List (Option ℕ)) (haystack : List ℕ) (pos : ℕ)
    → MatchesAt bs haystack (pos + 1)
    → MatchesAt (none ∷ bs) haystack pos
MatchesAt-none bs haystack pos h zero b e = ground arith
MatchesAt-none bs haystack pos h (suc k) b e =
    let same : pos + suc k ≡ pos + 1 + k = omega arith in rw same (h k b e)

MatchesAt-some :
    (x : ℕ) (bs : List (Option ℕ)) (haystack : List ℕ) (pos : ℕ)
    → get_elem? haystack pos ≡ some x
    → MatchesAt bs haystack (pos + 1)
    → MatchesAt (some x ∷ bs) haystack pos
MatchesAt-some x bs haystack pos here h zero b e =
    let same : pos + 0 ≡ pos = omega arith in rw same (ground arith)
MatchesAt-some x bs haystack pos here h (suc k) b e =
    let same : pos + suc k ≡ pos + 1 + k = omega arith in rw same (h k b e)

-- A test that holds is a match.
pub fits-MatchesAt :
    (bs : List (Option ℕ)) (haystack : List ℕ) (pos : ℕ)
    → fits bs haystack pos ≡ true
    → MatchesAt bs haystack pos
unfolding fits
fits-MatchesAt [] haystack pos h = λ k b e. ground arith
fits-MatchesAt (none ∷ bs) haystack pos h =
    MatchesAt-none bs haystack pos (fits-MatchesAt bs haystack (pos + 1) h)
fits-MatchesAt (some x ∷ bs) haystack pos h =
    MatchesAt-some x bs haystack pos (byte_at-eq (get_elem? haystack pos) x (ground arith))
      (fits-MatchesAt bs haystack (pos + 1) (ground arith))

head_byte :
    (x : ℕ) (bs : List (Option ℕ)) (haystack : List ℕ) (pos : ℕ)
    → MatchesAt (some x ∷ bs) haystack pos
    → get_elem? haystack pos ≡ some x
head_byte x bs haystack pos h = let same : pos ≡ pos + 0 = omega arith in rw same (h 0 x refl)

-- A match passes the test.
pub MatchesAt-fits :
    (bs : List (Option ℕ)) (haystack : List ℕ) (pos : ℕ)
    → MatchesAt bs haystack pos
    → fits bs haystack pos ≡ true
unfolding fits
MatchesAt-fits [] haystack pos h = refl
MatchesAt-fits (none ∷ bs) haystack pos h =
    MatchesAt-fits bs haystack (pos + 1) (MatchesAt-tail none bs haystack pos h)
MatchesAt-fits (some x ∷ bs) haystack pos h = rw (head_byte x bs haystack pos h) (
    ground
      (arith, MatchesAt-fits bs haystack (pos + 1) (MatchesAt-tail (some x) bs haystack pos h)))

-- ===== src/Pattern/Parse.antt =====
-- `Pattern::parse` of crates/core/src/pattern.rs: what it accepts is well formed.
use openforge_aio.Prelude.{
  ℕ, zero, suc, ◌+◌, ◌-◌, ◌*◌, ◌≤◌, ◌<◌, ◌≡◌, refl, true, false, Option, none, some, List, [], ◌∷◌,
  length, get_elem?, ltb, ◌==◌, if◌then◌else◌, arith, Bool-cases, Option-cases, inl, inr, ◌⊎◌, All,
}
use openforge_aio.Prelude.Result.{ok, err}
use openforge_aio.Prelude.Text.{
  Text, char_len, utf8_len, all_chars, between, is_ascii_hexdigit, to_digit, radix_loop,
  from_str_radix,
}
use openforge_aio.Pattern.{Pattern, empty_pattern, position_from, anchored}
use openforge_aio.Pattern.Spec.{WellFormed}

abbrev pub IsPatternByte : Option ℕ → Type 0
IsPatternByte none = Unit
IsPatternByte (some b) = b < 256

-- The anchor is the first literal byte, and every literal is a byte.
pub record IsParsed (p : Pattern) : Type 0 where
  pub formed : WellFormed p
  pub first : (k : ℕ) → k < p.anchor → get_elem? p.bytes k ≡ some none
  pub in_range : All IsPatternByte p.bytes

position_from_lem :
    (i : ℕ) (bs : List (Option ℕ)) (n : ℕ)
    → position_from i bs ≡ some n
    → (k : ℕ) × (n ≡ i + k)
      × ((a : ℕ) × (get_elem? bs k ≡ some (some a)))
      × ((j : ℕ) → j < k → get_elem? bs j ≡ some none)
unfolding position_from
position_from_lem i [] n h = ground arith
position_from_lem i (some b ∷ bs) n h = (0, ground arith, (b, refl), λ j below. elim below [ ])
position_from_lem i (none ∷ bs) n h =
    let (k, at, (a, here), before) = position_from_lem (i + 1) bs n h in
    (suc k, omega arith, (a, here), first_none bs k before)
  where
    first_none :
        (bs : List (Option ℕ)) (k : ℕ)
        → ((j : ℕ) → j < k → get_elem? bs j ≡ some none)
        → (j : ℕ) → j < suc k
        → get_elem? (none ∷ bs) j ≡ some none
    first_none bs k before zero below = refl
    first_none bs k before (suc j) below = before j (omega arith)

pub anchored_lem :
    (bs : List (Option ℕ)) (p : Pattern)
    → anchored bs ≡ ok p
    → (p.bytes ≡ bs) × WellFormed p × ((k : ℕ) → k < p.anchor → get_elem? p.bytes k ≡ some none)
unfolding anchored
anchored_lem bs p h = elim (Option-cases (position_from 0 bs)) [
  | inl missing ↦ ground (arith, missing)
  | inr (n, found) ↦
      let (k, at, (a, here), before) = position_from_lem 0 bs n found in
      let same_bytes : p.bytes ≡ bs = ground (arith, found) in
      let same_anchor : p.anchor ≡ k = ground (arith, found, at) in
      (same_bytes, (a, rw (same_bytes, same_anchor) here), rw (same_bytes, same_anchor) before)
]

radix_loop-le :
    (limit radix acc : ℕ) (s : Text) (n : ℕ)
    → acc ≤ limit
    → radix_loop limit radix acc s ≡ some n
    → n ≤ limit
unfolding radix_loop
radix_loop-le limit radix acc [] n low h = ground arith
radix_loop-le limit radix acc (c ∷ s) n low h = elim (Option-cases (to_digit radix c)) [
  | inl stop ↦ ground (arith, stop)
  | inr (d, digit) ↦ elim (Bool-cases (ltb limit (acc * radix + d))) [
    | inl over ↦ ground (arith, digit, over)
    | inr fine ↦
        radix_loop-le limit radix (acc * radix + d) s n (ground arith) (ground (arith, digit, fine))
  ]
]

-- A number that `from_str_radix` returns fits the type.
pub from_str_radix-le :
    (limit radix : ℕ) (s : Text) (n : ℕ) → from_str_radix limit radix s ≡ some n → n ≤ limit
unfolding from_str_radix
from_str_radix-le limit radix [] n h = ground arith
from_str_radix-le limit radix (c ∷ []) n h =
    radix_loop-le limit radix 0 (c ∷ []) n (omega arith) (ground arith)
from_str_radix-le limit radix (c ∷ d ∷ s) n h =
    radix_loop-le limit radix 0 (if c == b'+' then d ∷ s else c ∷ d ∷ s) n (omega arith) h

hex_digit :
    (c : ℕ)
    → is_ascii_hexdigit c ≡ true
    → (d : ℕ) × (to_digit 16 c ≡ some d) × (d < 16) × (char_len c ≡ 1) × ((c == b'+') ≡ false)
unfolding is_ascii_hexdigit to_digit
hex_digit c h = elim (Bool-cases (between b'0' b'9' c)) [
  | inl decimal ↦ (c - b'0', ground arith, ground arith, ground arith, ground arith)
  | inr other ↦ elim (Bool-cases (between b'a' b'f' c)) [
    | inl lower ↦ (c - b'a' + 10, ground arith, ground arith, ground arith, ground arith)
    | inr upper ↦ (c - b'A' + 10, ground arith, ground arith, ground arith, ground arith)
  ]
]

pub utf8_len-hex : (tok : Text) → all_chars is_ascii_hexdigit tok ≡ true → utf8_len tok ≡ length tok
utf8_len-hex [] h = refl
utf8_len-hex (c ∷ s) h =
    let (d, digit, small, one, plain) = hex_digit c (ground arith) in
    let rest = utf8_len-hex s (ground arith) in rw (one, rest) (omega arith)

hex_pair :
    (c d c' d' : ℕ)
    → (c == b'+') ≡ false
    → to_digit 16 c ≡ some d
    → to_digit 16 c' ≡ some d'
    → d < 16
    → d' < 16
    → from_str_radix 255 16 (c ∷ c' ∷ []) ≡ some (d * 16 + d')
unfolding from_str_radix
hex_pair c d c' d' plain digit digit' small small' = ground arith

-- Two hex digits are a byte.
pub from_str_radix-hex :
    (tok : Text)
    → length tok ≡ 2
    → all_chars is_ascii_hexdigit tok ≡ true
    → (b : ℕ) × (from_str_radix 255 16 tok ≡ some b)
from_str_radix-hex [] two hex = absurd (omega arith)
from_str_radix-hex (c ∷ []) two hex = absurd (omega arith)
from_str_radix-hex (c ∷ c' ∷ []) two hex =
    let (d, digit, small, one, plain) = hex_digit c (ground arith) in
    let (d', digit', small', one', plain') = hex_digit c' (ground arith) in
    (d * 16 + d', hex_pair c d c' d' plain digit digit' small small')
from_str_radix-hex (c ∷ c' ∷ c'' ∷ s) two hex = absurd (omega arith)

pub anchored-cases :
    (bs : List (Option ℕ))
    → ((p : Pattern) × (anchored bs ≡ ok p)) ⊎ (anchored bs ≡ err empty_pattern)
unfolding anchored
anchored-cases bs = elim (Option-cases (position_from 0 bs)) [
  | inl missing ↦ inr (rw missing refl)
  | inr (n, found) ↦ inl (record { bytes = bs; anchor = n }, rw found refl)
]

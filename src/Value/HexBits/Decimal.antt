-- ===== src/Value/HexBits/Decimal.antt =====
-- The quoted and the bare spelling of an integer in crates/runtime/src/value.rs: `parse_magnitude`
-- reads back the decimal text that `finish_native` formats.
use openforge_aio.Prelude.{
  ℕ, zero, suc, ◌+◌, ◌*◌, ◌/◌, ◌%◌, ◌≤◌, ◌<◌, ◌≡◌, ◌≢◌, refl, ap, ◌∙◌, Bool, true, false, none,
  some, [], ◌∷◌, ltb, arith, Bool-cases, inl, inr, All,
}
use openforge_aio.Prelude.Result.{ok}
use openforge_aio.Prelude.Int.{pos, negsuc, unsigned_abs}
use openforge_aio.Prelude.Text.{
  Text, codes, is_whitespace, trim, trim_start, trim_end, keep_last, strip_prefix, without_char,
  to_digit, radix_loop, from_str_radix, decimal_loop, decimal,
}
use openforge_aio.Value.HexBits.{
  u128_max, split_radix, is_empty, parse_unsigned, parse_magnitude, native_text, reinterp, Token,
  signed, unsigned, quoted,
}

abbrev IsDigit : ℕ → Type 0
IsDigit c = (b'0' ≤ c) × (c ≤ b'9')

abbrev NotSpace : ℕ → Type 0
NotSpace c = is_whitespace c ≡ false

digit-NotSpace : (c : ℕ) → IsDigit c → NotSpace c
unfolding is_whitespace
digit-NotSpace c h = ground arith

minus-NotSpace : NotSpace b'-'
unfolding is_whitespace
minus-NotSpace = refl

All-NotSpace : (s : Text) → All IsDigit s → All NotSpace s
All-NotSpace [] h = tt
All-NotSpace (c ∷ s) h = (digit-NotSpace c h.0, All-NotSpace s h.1)

keep_last_lem : (c : ℕ) (s : Text) → NotSpace c → keep_last c s ≡ c ∷ s
keep_last_lem c [] h = rw h refl
keep_last_lem c (d ∷ s) h = refl

trim_end_lem : (s : Text) → All NotSpace s → trim_end s ≡ s
unfolding trim_end
trim_end_lem [] h = refl
trim_end_lem (c ∷ s) h = rw (trim_end_lem s h.1) (keep_last_lem c s h.0)

trim_start_lem : (s : Text) → All NotSpace s → trim_start s ≡ s
unfolding trim_start
trim_start_lem [] h = refl
trim_start_lem (c ∷ s) h = rw (h.0) refl

trim_lem : (s : Text) → All NotSpace s → trim s ≡ s
unfolding trim
trim_lem s h = ap trim_end (trim_start_lem s h) ∙ trim_end_lem s h

without_char_lem : (s : Text) → All IsDigit s → without_char b'_' s ≡ s
unfolding without_char
without_char_lem [] h = refl
without_char_lem (c ∷ s) h = let rest = without_char_lem s h.1 in ground (arith, rest)

-- Every character of the decimal text is a digit, and there is one at least.
decimal_loop-IsDigit :
    (fuel n : ℕ) (rest : Text) → All IsDigit rest → All IsDigit (decimal_loop fuel n rest)
unfolding decimal_loop
decimal_loop-IsDigit zero n rest h = h
decimal_loop-IsDigit (suc fuel) n rest h = elim (Bool-cases (ltb n 10)) [
  | inl small ↦ rw small ((omega arith, ground arith), h)
  | inr large ↦
      rw large (
        decimal_loop-IsDigit fuel (n / 10) ((b'0' + n % 10) ∷ rest) ((omega arith, omega arith), h))
]

pub decimal-IsDigit : (n : ℕ) → All IsDigit (decimal n)
unfolding decimal
decimal-IsDigit n = decimal_loop-IsDigit (suc n) n [] tt

decimal_loop-ne-nil : (fuel n : ℕ) (c : ℕ) (rest : Text) → decimal_loop fuel n (c ∷ rest) ≢ []
unfolding decimal_loop
decimal_loop-ne-nil zero n c rest e = cc
decimal_loop-ne-nil (suc fuel) n c rest e =
    ground (arith, decimal_loop-ne-nil fuel (n / 10) (b'0' + n % 10) (c ∷ rest))

decimal-ne-nil : (n : ℕ) → decimal n ≢ []
unfolding decimal decimal_loop
decimal-ne-nil n e = ground (arith, decimal_loop-ne-nil n (n / 10) (b'0' + n % 10) [])

to_digit-digit : (d : ℕ) → d < 10 → to_digit 10 (b'0' + d) ≡ some d
unfolding to_digit
to_digit-digit d h = ground arith

read_digit :
    (limit acc d : ℕ) (rest : Text)
    → d < 10
    → acc * 10 + d ≤ limit
    → radix_loop limit 10 acc ((b'0' + d) ∷ rest) ≡ radix_loop limit 10 (acc * 10 + d) rest
unfolding radix_loop
read_digit limit acc d rest small fits = ground (arith, to_digit-digit d small)

-- The digits of `n` take the reader from 0 to `n`.
radix_loop-decimal_loop :
    (limit fuel n : ℕ) (rest : Text)
    → n < fuel
    → n ≤ limit
    → radix_loop limit 10 0 (decimal_loop fuel n rest) ≡ radix_loop limit 10 n rest
unfolding decimal_loop
radix_loop-decimal_loop limit zero n rest h fits = elim h [ ]
radix_loop-decimal_loop limit (suc fuel) n rest h fits = elim (Bool-cases (ltb n 10)) [
  | inl small ↦ ground (arith, small, read_digit limit 0 n rest (ground arith) (omega arith))
  | inr large ↦ ground (
    arith,
    large,
    radix_loop-decimal_loop limit fuel (n / 10) ((b'0' + n % 10) ∷ rest) (ground arith)
        (omega arith),
    read_digit limit (n / 10) (n % 10) rest (omega arith) (omega arith),
  )
]

from_str_radix-digits :
    (limit : ℕ) (s : Text)
    → All IsDigit s
    → s ≢ []
    → from_str_radix limit 10 s ≡ radix_loop limit 10 0 s
unfolding from_str_radix
from_str_radix-digits limit [] h filled = absurd (filled refl)
from_str_radix-digits limit (c ∷ []) h filled = ground arith
from_str_radix-digits limit (c ∷ d ∷ s) h filled = ground arith

from_str_radix-decimal : (limit n : ℕ) → n ≤ limit → from_str_radix limit 10 (decimal n) ≡ some n
unfolding decimal radix_loop
from_str_radix-decimal limit n h =
    from_str_radix-digits limit (decimal n) (decimal-IsDigit n) (decimal-ne-nil n)
    ∙ radix_loop-decimal_loop limit (suc n) n [] (omega arith) h

split_radix-digits : (s : Text) → All IsDigit s → split_radix s ≡ (10, s)
unfolding split_radix
split_radix-digits [] h = refl
split_radix-digits (c ∷ []) h = ground arith
split_radix-digits (c ∷ d ∷ s) h = ground arith

strip_plus : (s : Text) → All IsDigit s → strip_prefix (codes "+") s ≡ none
strip_plus [] h = refl
strip_plus (c ∷ s) h = ground arith

strip_minus : (s : Text) → All IsDigit s → strip_prefix (codes "-") s ≡ none
strip_minus [] h = refl
strip_minus (c ∷ s) h = ground arith

is_empty_lem : (s : Text) → s ≢ [] → is_empty s ≡ false
is_empty_lem [] h = absurd (h refl)
is_empty_lem (c ∷ s) h = refl

parse_unsigned-decimal : (raw : Text) (n : ℕ) → n ≤ u128_max → parse_unsigned raw (decimal n) ≡ ok n
unfolding parse_unsigned
parse_unsigned-decimal raw n h =
    let digits = decimal-IsDigit n in
    rw
      (
        strip_plus (decimal n) digits,
        split_radix-digits (decimal n) digits,
        without_char_lem (decimal n) digits,
        is_empty_lem (decimal n) (decimal-ne-nil n),
        from_str_radix-decimal u128_max n h,
      )
      refl

-- The decimal text of an integer is parsed to its sign and magnitude.
pub parse_magnitude-native_text :
    (neg : Bool) (n : ℕ) → n ≤ u128_max → parse_magnitude (native_text neg n) ≡ ok (neg, n)
unfolding parse_magnitude
parse_magnitude-native_text true n h =
    let spaceless = All-NotSpace (decimal n) (decimal-IsDigit n) in
    rw
      (
        trim_lem (b'-' ∷ decimal n) (minus-NotSpace, spaceless),
        trim_start_lem (decimal n) spaceless,
        parse_unsigned-decimal (b'-' ∷ decimal n) n h,
      )
      refl
parse_magnitude-native_text false n h =
    let digits = decimal-IsDigit n in
    rw
      (
        trim_lem (decimal n) (All-NotSpace (decimal n) digits),
        strip_minus (decimal n) digits,
        parse_unsigned-decimal (decimal n) n h,
      )
      refl

-- The text of a bare integer in decimal.
abbrev pub spelling : Token → Text
spelling (signed (pos n)) = decimal n
spelling (signed (negsuc n)) = b'-' ∷ decimal (suc n)
spelling (unsigned n) = decimal n
spelling (quoted s) = s

-- An integer token, whose magnitude serde keeps within 128 bits.
abbrev pub IsBare : Token → Type 0
IsBare (signed v) = unsigned_abs v ≤ u128_max
IsBare (unsigned n) = n ≤ u128_max
IsBare (quoted s) = ⊥

-- A bare integer token, with a sign or without, and its decimal text in quotes are read alike, into
-- every target: the same value, or the same error.
pub reinterp-quoted :
    {T : Type 0} (t : Token) (width : ℕ) (cast : ℕ → T)
    → IsBare t
    → reinterp (quoted (spelling t)) width cast ≡ reinterp t width cast
unfolding reinterp
reinterp-quoted (signed (pos n)) width cast h = rw (parse_magnitude-native_text false n h) refl
reinterp-quoted (signed (negsuc n)) width cast h =
    rw (parse_magnitude-native_text true (suc n) h) refl
reinterp-quoted (unsigned n) width cast h = rw (parse_magnitude-native_text false n h) refl
reinterp-quoted (quoted s) width cast h = elim h [ ]

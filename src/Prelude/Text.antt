-- ===== src/Prelude/Text.antt =====
-- Rust's `&str` as the list of its code points, with the parts of `core::str` and `core::num`
-- that the source calls.
use openforge_aio.Prelude.Tests.{ltb, leb, ◌==◌, if◌then◌else◌}
use Prim.Native.Nat.{ℕ, zero, suc, ◌+◌, ◌-◌, ◌*◌, ◌/◌, ◌%◌}
use Prim.Native.Char.{code}
use Prim.Native.String.{String}
use mathlib.Core.Bool.{Bool, true, false, ◌&&◌, ◌||◌}
use mathlib.Core.Option.{Option, none, some}
use mathlib.Core.List.{List, [], ◌∷◌, ◌++◌}

abbrev pub Text : Type 0
Text = List ℕ

-- The code points of a literal.
abbrev pub codes : String → Text
codes String.[] = []
codes (String.◌∷◌ c s) = code c ∷ codes s

abbrev pub text_eq : Text → Text → Bool
text_eq [] [] = true
text_eq [] (d ∷ t) = false
text_eq (c ∷ s) [] = false
text_eq (c ∷ s) (d ∷ t) = c == d && text_eq s t

-- `str::len`, which counts the bytes of the UTF-8 encoding.
abbrev pub char_len : ℕ → ℕ
char_len c = if ltb c 0x80 then 1 else if ltb c 0x800 then 2 else if ltb c 0x10000 then 3 else 4

abbrev pub utf8_len : Text → ℕ
utf8_len [] = 0
utf8_len (c ∷ s) = char_len c + utf8_len s

abbrev pub all_chars : (ℕ → Bool) → Text → Bool
all_chars p [] = true
all_chars p (c ∷ s) = p c && all_chars p s

abbrev pub between : ℕ → ℕ → ℕ → Bool
between lo hi c = leb lo c && leb c hi

-- `char::is_whitespace`: the property White_Space of Unicode.
unfoldable pub is_whitespace : ℕ → Bool
is_whitespace c =
    between 9 13 c
    || c == 32
    || c == 0x85
    || c == 0xa0
    || c == 0x1680
    || between 0x2000 0x200a c
    || c == 0x2028
    || c == 0x2029
    || c == 0x202f
    || c == 0x205f
    || c == 0x3000

-- `char::is_ascii_hexdigit`
unfoldable pub is_ascii_hexdigit : ℕ → Bool
is_ascii_hexdigit c = between b'0' b'9' c || between b'a' b'f' c || between b'A' b'F' c

-- `char::to_digit` for a radix up to 16.
unfoldable pub digit_value : ℕ → Option ℕ
digit_value c =
    if between b'0' b'9' c
    then some (c - b'0')
    else if between b'a' b'f' c
    then some (c - b'a' + 10)
    else if between b'A' b'F' c
    then some (c - b'A' + 10)
    else none

abbrev pub below_radix : ℕ → Option ℕ → Option ℕ
below_radix radix none = none
below_radix radix (some d) = if ltb d radix then some d else none

unfoldable pub to_digit : ℕ → ℕ → Option ℕ
unfolding digit_value
to_digit radix c = below_radix radix (digit_value c)

-- The token under the scan, given back once it is not empty.
abbrev pub flush : Text → List Text → List Text
flush [] rest = rest
flush (c ∷ s) rest = (c ∷ s) ∷ rest

-- `str::split_whitespace`; `token` is what the scan has read of the current token.
unfoldable pub split_from : Text → Text → List Text
unfolding is_whitespace
split_from token [] = flush token []
split_from token (c ∷ s) =
    let next = split_from [] s in
    let more = split_from (token ++ c ∷ []) s in if is_whitespace c then flush token next else more

unfoldable pub split_whitespace : Text → List Text
unfolding split_from
split_whitespace s = split_from [] s

-- `from_str_radix` of an unsigned type: the loop checks `acc * radix + digit` against the limit.
abbrev pub add_digit : ℕ → ℕ → ℕ → Option ℕ → Option ℕ
add_digit limit radix acc none = none
add_digit limit radix acc (some d) =
    if ltb limit (acc * radix + d) then none else some (acc * radix + d)

unfoldable pub radix_loop : ℕ → ℕ → ℕ → Text → Option ℕ
radix_loop limit radix acc [] = some acc
radix_loop limit radix acc (c ∷ s) = elim (add_digit limit radix acc (to_digit radix c)) [
  | none ↦ none
  | some n ↦ radix_loop limit radix n s
]

-- The text may start with one `+`; nothing, or a `+` alone, is an error.
unfoldable pub from_str_radix : ℕ → ℕ → Text → Option ℕ
unfolding radix_loop
from_str_radix limit radix [] = none
from_str_radix limit radix (c ∷ []) = if c == b'+' then none else radix_loop limit radix 0 (c ∷ [])
from_str_radix limit radix (c ∷ d ∷ s) =
    radix_loop limit radix 0 (if c == b'+' then d ∷ s else c ∷ d ∷ s)

-- `str::trim_start`, `str::trim_end`, `str::trim`
unfoldable pub trim_start : Text → Text
trim_start [] = []
trim_start (c ∷ s) = if is_whitespace c then trim_start s else c ∷ s

abbrev pub keep_last : ℕ → Text → Text
keep_last c [] = if is_whitespace c then [] else c ∷ []
keep_last c (d ∷ s) = c ∷ d ∷ s

unfoldable pub trim_end : Text → Text
trim_end [] = []
trim_end (c ∷ s) = keep_last c (trim_end s)

unfoldable pub trim : Text → Text
unfolding trim_start trim_end
trim s = trim_end (trim_start s)

-- `str::strip_prefix` of a text, and of one character.
abbrev pub strip_prefix : Text → Text → Option Text
strip_prefix [] s = some s
strip_prefix (p ∷ ps) [] = none
strip_prefix (p ∷ ps) (c ∷ s) = if p == c then strip_prefix ps s else none

abbrev pub or_else {ℓ} : {A : Type ℓ} → Option A → Option A → Option A
or_else none o = o
or_else (some a) o = some a

-- `s.chars().filter(|c| *c != d).collect()`
unfoldable pub without_char : ℕ → Text → Text
without_char d [] = []
without_char d (c ∷ s) = if c == d then without_char d s else c ∷ without_char d s

-- The decimal digits of a number, put before `rest`; `suc n` rounds are enough for `n`.
unfoldable pub decimal_loop : ℕ → ℕ → Text → Text
decimal_loop zero n rest = rest
decimal_loop (suc fuel) n rest =
    let more = decimal_loop fuel (n / 10) ((b'0' + n % 10) ∷ rest) in
    if ltb n 10 then (b'0' + n) ∷ rest else more

-- `format!("{n}")` of an unsigned number.
unfoldable pub decimal : ℕ → Text
unfolding decimal_loop
decimal n = decimal_loop (suc n) n []

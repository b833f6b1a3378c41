-- ===== src/Synthesis/Print.antt =====
-- The text that crates/discover/src/aob.rs prints is parsed back by crates/core/src/pattern.rs.
use openforge_aio.Prelude.{
  ℕ, ◌+◌, ◌*◌, ◌/◌, ◌%◌, ◌<◌, ◌≡◌, refl, ap, ◌∙◌, true, false, Option, none, some, List, [], ◌∷◌,
  ◌++◌, ltb, ◌==◌, arith, All,
}
use openforge_aio.Prelude.Result.{ok}
use openforge_aio.Prelude.Text.{
  Text, is_whitespace, is_ascii_hexdigit, digit_value, split_from, split_whitespace, from_str_radix,
  radix_loop, to_digit,
}
use openforge_aio.Pattern.{parse, parse_token, parse_tokens, anchored}
use openforge_aio.Pattern.Parse.{IsPatternByte}
use openforge_aio.Synthesis.{hex_digit, byte_text, pattern_text}

digit_not_blank : (d : ℕ) → d < 16 → is_whitespace (hex_digit d) ≡ false
unfolding is_whitespace hex_digit
digit_not_blank d h = ground arith

digit_reads : (d : ℕ) → d < 16 → to_digit 16 (hex_digit d) ≡ some d
unfolding to_digit digit_value hex_digit
digit_reads d h = ground arith

digit_hex : (d : ℕ) → d < 16 → is_ascii_hexdigit (hex_digit d) ≡ true
unfolding is_ascii_hexdigit hex_digit
digit_hex d h = ground arith

digit_range : (d : ℕ) → d < 16 → (47 < hex_digit d) × (hex_digit d < 71)
unfolding hex_digit
digit_range d h = ground arith

digit_no_question : (d : ℕ) → d < 16 → (hex_digit d == 63) ≡ false
unfolding hex_digit
digit_no_question d h = ground arith

radix_step :
    (limit radix acc c d : ℕ) (s : Text)
    → to_digit radix c ≡ some d
    → ltb limit (acc * radix + d) ≡ false
    → radix_loop limit radix acc (c ∷ s) ≡ radix_loop limit radix (acc * radix + d) s
unfolding radix_loop
radix_step limit radix acc c d s digit small = ground (arith, digit, small)

parse_token-byte :
    (h l : ℕ)
    → h < 16
    → l < 16
    → parse_token (hex_digit h ∷ hex_digit l ∷ []) ≡ ok (some (h * 16 + l))
unfolding parse_token from_str_radix
parse_token-byte h l small small' =
    let (low, high) = digit_range h small in
    let (low', high') = digit_range l small' in
    let no_question = digit_no_question h small in
    let no_plus : (hex_digit h == 43) ≡ false = ground arith in
    let ascii : ltb (hex_digit h) 0x80 ≡ true = ground arith in
    let ascii' : ltb (hex_digit l) 0x80 ≡ true = ground arith in
    let first : ltb 255 (0 * 16 + h) ≡ false = ground arith in
    let second : ltb 255 ((0 * 16 + h) * 16 + l) ≡ false = ground arith in
    let same : (0 * 16 + h) * 16 + l ≡ h * 16 + l = omega arith in
    let read : radix_loop 255 16 0 (hex_digit h ∷ hex_digit l ∷ []) ≡ some (h * 16 + l) =
      radix_step 255 16 0 (hex_digit h) h (hex_digit l ∷ []) (digit_reads h small) first
      ∙ radix_step 255 16 (0 * 16 + h) (hex_digit l) l [] (digit_reads l small') second
      ∙ (unfold radix_loop in ap some same) in
    rw (no_question, ascii, ascii', digit_hex h small, digit_hex l small', no_plus, read) refl

parse_token-byte_text : (b : Option ℕ) → IsPatternByte b → parse_token (byte_text b) ≡ ok b
parse_token-byte_text none h = unfold parse_token in refl
parse_token-byte_text (some b) h =
    let back : b / 16 * 16 + b % 16 ≡ b = omega arith in
    parse_token-byte (b / 16) (b % 16) (omega arith) (omega arith) ∙ ap (λ n. ok (some n)) back

-- Two characters that are no blanks.
IsToken : Text → Type 0
IsToken t =
    (c : ℕ) × (d : ℕ) × (t ≡ c ∷ d ∷ []) × (is_whitespace c ≡ false) × (is_whitespace d ≡ false)

byte_text-IsToken : (b : Option ℕ) → IsPatternByte b → IsToken (byte_text b)
unfolding IsToken
byte_text-IsToken none h =
    (63, 63, refl, unfold is_whitespace in refl, unfold is_whitespace in refl)
byte_text-IsToken (some b) h = (
  hex_digit (b / 16),
  hex_digit (b % 16),
  refl,
  digit_not_blank (b / 16) (omega arith),
  digit_not_blank (b % 16) (omega arith),
)

split-token : (t s : Text) → IsToken t → split_from [] (t ++ b' ' ∷ s) ≡ t ∷ split_from [] s
unfolding IsToken split_from
split-token t s (c, d, e, hc, hd) = rw (e, hc, hd) refl

split-last : (t : Text) → IsToken t → split_from [] t ≡ t ∷ []
unfolding IsToken split_from
split-last t (c, d, e, hc, hd) = rw (e, hc, hd) refl

pub parse_tokens-pattern_text :
    (bs : List (Option ℕ))
    → All IsPatternByte bs
    → parse_tokens (split_whitespace (pattern_text bs)) ≡ ok bs
unfolding split_whitespace pattern_text parse_tokens
parse_tokens-pattern_text [] h = unfold split_from in refl
parse_tokens-pattern_text (b ∷ []) h =
    rw (split-last (byte_text b) (byte_text-IsToken b h.0), parse_token-byte_text b h.0) refl
parse_tokens-pattern_text (b ∷ c ∷ bs) h =
    rw
      (
        split-token (byte_text b) (pattern_text (c ∷ bs)) (byte_text-IsToken b h.0),
        parse_token-byte_text b h.0,
        parse_tokens-pattern_text (c ∷ bs) h.1,
      )
      refl

-- The printed text of a pattern of bytes and wildcards is parsed to these bytes and wildcards, or
-- refused if all are wildcards.
pub parse-pattern_text :
    (bs : List (Option ℕ)) → All IsPatternByte bs → parse (pattern_text bs) ≡ anchored bs
unfolding parse
parse-pattern_text bs h = rw (parse_tokens-pattern_text bs h) refl

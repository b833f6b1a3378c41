-- ===== src/Signature/Hex.antt =====
-- `parse_hex_payload` of crates/runtime/src/signature.rs: bytes as pairs of hex digits between
-- blanks.
use openforge_aio.Prelude.{
  ℕ, suc, ◌≤◌, ◌⊎◌, In, In-head, In-tail, ◌≡◌, refl, ap, ◌∙◌, Bool, true, false, not, ◌&&◌, ◌||◌,
  some, List, [], ◌∷◌, map, length, ◌==◌, if◌then◌else◌, arith, Bool-cases, inl, inr, All,
}
use openforge_aio.Prelude.Run.{Run, done, panic, expect}
use openforge_aio.Prelude.Result.{Result, ok, err, Result-cases}
use openforge_aio.Prelude.Text.{
  Text, codes, text_eq, utf8_len, all_chars, is_ascii_hexdigit, split_whitespace, from_str_radix,
}
use openforge_aio.Prelude.Bytes.{IsByte}
use openforge_aio.Pattern.{parse_token, parse_tokens}
use openforge_aio.Pattern.Parse.{IsPatternByte, from_str_radix-hex, from_str_radix-le, utf8_len-hex}
use openforge_aio.Synthesis.{pattern_text}
use openforge_aio.Synthesis.Print.{parse_tokens-pattern_text}

-- A token that is not two hex digits is the error; the conversion is unwrapped.
abbrev pub with_byte : Run ℕ → Run (Result Text (List ℕ)) → Run (Result Text (List ℕ))
with_byte panic rest = panic
with_byte (done b) panic = panic
with_byte (done b) (done (err e)) = done (err e)
with_byte (done b) (done (ok bs)) = done (ok (b ∷ bs))

unfoldable pub payload : List Text → Run (Result Text (List ℕ))
payload [] = done (ok [])
payload (tok ∷ toks) =
    let rest = payload toks in
    if not (utf8_len tok == 2) || not (all_chars is_ascii_hexdigit tok)
    then done (err tok)
    else with_byte (expect (from_str_radix 255 16 tok)) rest

unfoldable pub parse_hex_payload : Text → Run (Result Text (List ℕ))
unfolding payload
parse_hex_payload s = payload (split_whitespace s)

-- The text of a list of bytes.
abbrev pub hex_text : List ℕ → Text
hex_text bs = pattern_text (map some bs)

token_byte :
    (tok : Text) (b : ℕ)
    → parse_token tok ≡ ok (some b)
    → ((not (utf8_len tok == 2) || not (all_chars is_ascii_hexdigit tok)) ≡ false)
      × (from_str_radix 255 16 tok ≡ some b)
unfolding parse_token
token_byte tok b h = elim (Bool-cases (text_eq tok (codes "??") || text_eq tok (codes "?"))) [
  | inl wild ↦ ground (arith, wild)
  | inr literal ↦ elim (Bool-cases (utf8_len tok == 2 && all_chars is_ascii_hexdigit tok)) [
    | inr other ↦ ground (arith, literal, other)
    | inl hex ↦ ground (arith, literal, hex)
  ]
]

payload-parse_tokens :
    (toks : List Text) (bs : List ℕ)
    → parse_tokens toks ≡ ok (map some bs)
    → payload toks ≡ done (ok bs)
unfolding payload parse_tokens
payload-parse_tokens [] [] h = refl
payload-parse_tokens [] (b ∷ bs) h = cc h
payload-parse_tokens (tok ∷ toks) [] h = elim (Result-cases (parse_token tok)) [
  | inr (e, bad) ↦ ground (arith, bad)
  | inl (b, good) ↦ elim (Result-cases (parse_tokens toks)) [
    | inr (e, bad) ↦ ground (arith, good, bad)
    | inl (bs, rest) ↦ ground (arith, good, rest)
  ]
]
payload-parse_tokens (tok ∷ toks) (b ∷ bs) h = elim (Result-cases (parse_token tok)) [
  | inr (e, bad) ↦ ground (arith, bad)
  | inl (o, good) ↦ elim (Result-cases (parse_tokens toks)) [
    | inr (e, bad) ↦ ground (arith, good, bad)
    | inl (os, rest) ↦
        let both : ok (o ∷ os) ≡ ok (map some (b ∷ bs)) = rw (good, rest) at h in
        let head : o ≡ some b = cc both in
        let tail : os ≡ map some bs = cc both in
        let (fits, value) = token_byte tok b (good ∙ ap ok head) in
        rw (fits, value, payload-parse_tokens toks bs (rest ∙ ap ok tail)) refl
  ]
]

bytes_in_range : (bs : List ℕ) → All IsByte bs → All IsPatternByte (map some bs)
bytes_in_range [] h = tt
bytes_in_range (b ∷ bs) h = (h.0, bytes_in_range bs h.1)

-- The text of a list of bytes is read back as these bytes.
pub parse_hex_payload-hex_text :
    (bs : List ℕ) → All IsByte bs → parse_hex_payload (hex_text bs) ≡ done (ok bs)
unfolding parse_hex_payload
parse_hex_payload-hex_text bs h =
    payload-parse_tokens (split_whitespace (hex_text bs)) bs
      (parse_tokens-pattern_text (map some bs) (bytes_in_range bs h))

payload_runs :
    (toks : List Text)
    → ((tok : Text) × In tok toks × (payload toks ≡ done (err tok)))
      ⊎ ((bs : List ℕ) × (payload toks ≡ done (ok bs)) × All IsByte bs × (length bs ≡ length toks))
unfolding payload
payload_runs [] = inr ([], refl, tt, refl)
payload_runs (tok ∷ toks) =
    let test : Bool = not (utf8_len tok == 2) || not (all_chars is_ascii_hexdigit tok) in
    elim (Bool-cases test) [
      | inl bad ↦ inl (tok, In-head tok toks, rw bad refl)
      | inr fine ↦
          let hex : all_chars is_ascii_hexdigit tok ≡ true = ground (arith, fine) in
          let two : length tok ≡ 2 = ground (arith, fine, utf8_len-hex tok hex) in
          let (b, value) = from_str_radix-hex tok two hex in
          let low : b ≤ 255 = from_str_radix-le 255 16 tok b value in
          elim (payload_runs toks) [
            | inl (t, at, bad) ↦ inl (t, In-tail tok toks at, rw (fine, value, bad) refl)
            | inr (bs, good, bytes, long) ↦
                inr (b ∷ bs, rw (fine, value, good) refl, (omega (arith, low), bytes), ap suc long)
          ]
    ]

-- The payload's parser does not panic: it reports a token of the text, or it reads bytes, one for
-- each token.
pub parse_hex_payload_runs :
    (s : Text)
    → ((tok : Text) × In tok (split_whitespace s) × (parse_hex_payload s ≡ done (err tok)))
      ⊎ ((bs : List ℕ) × (parse_hex_payload s ≡ done (ok bs))
          × All IsByte bs
          × (length bs ≡ length (split_whitespace s)))
unfolding parse_hex_payload
parse_hex_payload_runs s = payload_runs (split_whitespace s)

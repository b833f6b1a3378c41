-- ===== src/Pattern/Examples.antt =====
-- Runs of crates/core/src/pattern.rs on the inputs of its tests, and the theorems at them.
use openforge_aio.Prelude.{
  ℕ, ◌+◌, ◌≤◌, ◌≡◌, ◌≢◌, ◌⊎◌, ◌↔◌, refl, Option, none, some, List, [], ◌∷◌, length, Ascending, In,
}
use openforge_aio.Prelude.Run.{done}
use openforge_aio.Prelude.Result.{ok, err}
use openforge_aio.Prelude.Text.{
  Text, codes, split_whitespace, from_str_radix, is_ascii_hexdigit, to_digit,
}
use openforge_aio.Pattern.{
  Pattern, bad_token, empty_pattern, wire_length_mismatch, bad_mask_byte, position_from, anchored,
  parse_token, parse_tokens, parse, wire, from_wire, matches_from, matches_at, anchor_byte,
  scan_loop, scan, scan_all_loop, scan_all,
}
use openforge_aio.Pattern.Spec.{MatchesAt, WellFormed, FirstMatch}
use openforge_aio.Pattern.Scan.{scan_lem, scan_all_lem}
use openforge_aio.Pattern.Wire.{cleared, from_wire-wire_ok, from_wire_lem}

abbrev sample : Pattern
sample = record {
  bytes = some 0x48 ∷ some 0x8b ∷ some 0x05 ∷ none ∷ none ∷ none ∷ none ∷ some 0x89 ∷ [];
  anchor = 0;
}

abbrev haystack : List ℕ
haystack = 0 ∷ 0x48 ∷ 0x8b ∷ 0x05 ∷ 0xde ∷ 0xad ∷ 0xbe ∷ 0xef ∷ 0x89 ∷ 0 ∷ []

parse-sample : parse (codes "48 8B 05 ?? ?? ?? ?? 89") ≡ ok sample
unfolding parse parse_tokens parse_token split_whitespace from_str_radix is_ascii_hexdigit to_digit
    anchored position_from
parse-sample = refl

parse_wild : parse (codes "?? ??") ≡ err empty_pattern
unfolding parse parse_tokens parse_token split_whitespace from_str_radix is_ascii_hexdigit to_digit
    anchored position_from
parse_wild = refl

parse_bad : parse (codes "48 8B5") ≡ err (bad_token (codes "8B5"))
unfolding parse parse_tokens parse_token split_whitespace from_str_radix is_ascii_hexdigit to_digit
    anchored position_from
parse_bad = refl

scan-sample : scan sample haystack ≡ done (some 1)
unfolding scan anchor_byte scan_loop matches_at matches_from
scan-sample = refl

scan_all_twice :
    scan_all (record { bytes = some 7 ∷ []; anchor = 0 }) (7 ∷ 8 ∷ 7 ∷ []) ≡ done (0 ∷ 2 ∷ [])
unfolding scan_all anchor_byte scan_all_loop matches_at matches_from
scan_all_twice = refl

scan_lem_example :
    (r : Option ℕ) × (scan sample haystack ≡ done r) × FirstMatch sample.bytes haystack r
scan_lem_example = scan_lem sample haystack (0x48, refl)

scan_all_lem_example :
    (out : List ℕ) × (scan_all sample haystack ≡ done out)
    × Ascending out
    × ((j : ℕ)
        → In j out
          ↔ ((j + length sample.bytes ≤ length haystack) × MatchesAt sample.bytes haystack j))
scan_all_lem_example = scan_all_lem sample haystack (0x48, refl)

anchored-sample : anchored sample.bytes ≡ ok sample
unfolding anchored position_from
anchored-sample = refl

from_wire-wire_ok_example : from_wire (wire sample).0 (wire sample).1 ≡ ok sample
from_wire-wire_ok_example = from_wire-wire_ok sample.bytes sample anchored-sample

from_wire_lem_example :
    ((length {A = ℕ} (1 ∷ 2 ∷ []) ≢ length {A = ℕ} (0xff ∷ 0 ∷ []))
      × (from_wire (1 ∷ 2 ∷ []) (0xff ∷ 0 ∷ []) ≡ err (wire_length_mismatch 2 2)))
    ⊎ ((m : ℕ) × In m (0xff ∷ 0 ∷ [])
        × (m ≢ 0x00)
        × (m ≢ 0xff)
        × (from_wire (1 ∷ 2 ∷ []) (0xff ∷ 0 ∷ []) ≡ err (bad_mask_byte m)))
    ⊎ (from_wire (1 ∷ 2 ∷ []) (0xff ∷ 0 ∷ []) ≡ err empty_pattern)
    ⊎ ((p : Pattern) × (from_wire (1 ∷ 2 ∷ []) (0xff ∷ 0 ∷ []) ≡ ok p)
        × WellFormed p
        × ((wire p).0 ≡ cleared (1 ∷ 2 ∷ []) (0xff ∷ 0 ∷ []))
        × ((wire p).1 ≡ 0xff ∷ 0 ∷ []))
from_wire_lem_example = from_wire_lem (1 ∷ 2 ∷ []) (0xff ∷ 0 ∷ [])

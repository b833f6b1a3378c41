-- ===== src/Pattern.antt =====
-- crates/core/src/pattern.rs: an AOB (array of bytes) pattern with wildcard bytes. A byte of the
-- pattern is `some b`, and `none` for a wildcard. An index out of bounds and the failed `expect`
-- are the value `panic`. A loop that pushes in order is a recursion that conses.
pub mod Spec
pub mod Scan
pub mod Wire
pub mod Parse
mod Examples
use openforge_aio.Prelude.{
  ℕ, zero, suc, ◌+◌, ◌-◌, Bool, true, false, ◌&&◌, ◌||◌, Option, none, some, List, [], ◌∷◌, map,
  length, get_elem?, ltb, ◌==◌, if◌then◌else◌,
}
use openforge_aio.Prelude.Run.{Run, done, panic}
use openforge_aio.Prelude.Result.{Result, ok, err, ok_or, ◌>>=◌, ◌>>◌, fail_if}
use openforge_aio.Prelude.Text.{
  Text, codes, text_eq, utf8_len, all_chars, is_ascii_hexdigit, split_whitespace, from_str_radix,
}

pub record Pattern : Type 0 where
  pub bytes : List (Option ℕ)
  pub anchor : ℕ

-- `core::Error` as far as this module raises it, with what its messages are formatted from.
pub data PatternError : Type 0 where
  bad_hex_token : Text → PatternError
  bad_token : Text → PatternError
  wire_length_mismatch : ℕ → ℕ → PatternError
  bad_mask_byte : ℕ → PatternError
  empty_pattern : PatternError

abbrev pub is_some : Option ℕ → Bool
is_some none = false
is_some (some b) = true

-- `bytes.iter().position(|b| b.is_some())`, from the index `i` on
unfoldable pub position_from : ℕ → List (Option ℕ) → Option ℕ
position_from i [] = none
position_from i (b ∷ bs) = if is_some b then some i else position_from (i + 1) bs

-- The end of `parse` and of `from_wire`.
unfoldable pub anchored : List (Option ℕ) → Result PatternError Pattern
anchored bytes = do
  anchor ← ok_or (position_from 0 bytes) empty_pattern
  ok (record { bytes = bytes; anchor = anchor })

unfoldable pub parse_token : Text → Result PatternError (Option ℕ)
parse_token tok =
    if text_eq tok (codes "??") || text_eq tok (codes "?")
    then ok none
    else if utf8_len tok == 2 && all_chars is_ascii_hexdigit tok
    then (do b ← ok_or (from_str_radix 255 16 tok) (bad_hex_token tok); ok (some b))
    else err (bad_token tok)

unfoldable pub parse_tokens : List Text → Result PatternError (List (Option ℕ))
parse_tokens [] = ok []
parse_tokens (tok ∷ toks) = do b ← parse_token tok; bs ← parse_tokens toks; ok (b ∷ bs)

unfoldable pub parse : Text → Result PatternError Pattern
parse s = do bytes ← parse_tokens (split_whitespace s); anchored bytes

abbrev pub wire_byte : Option ℕ → ℕ
wire_byte none = 0
wire_byte (some v) = v

abbrev pub wire_mask : Option ℕ → ℕ
wire_mask none = 0x00
wire_mask (some v) = 0xff

unfoldable pub wire : Pattern → List ℕ × List ℕ
wire p = (map wire_byte p.bytes, map wire_mask p.bytes)

abbrev pub masked_byte : ℕ → ℕ → Result PatternError (Option ℕ)
masked_byte b m =
    if m == 0xff then ok (some b) else if m == 0x00 then ok none else err (bad_mask_byte m)

-- The loop over `bytes.iter().zip(mask.iter())`.
unfoldable pub masked : List ℕ → List ℕ → Result PatternError (List (Option ℕ))
masked [] mask = ok []
masked (b ∷ bs) [] = ok []
masked (b ∷ bs) (m ∷ ms) = do x ← masked_byte b m; xs ← masked bs ms; ok (x ∷ xs)

unfoldable pub from_wire : List ℕ → List ℕ → Result PatternError Pattern
from_wire bytes mask = do
  fail_if (if length bytes == length mask then false else true)
      (wire_length_mismatch (length bytes) (length mask))
  out ← masked bytes mask
  anchored out

-- The loop of `matches_at`; `pos` is `offset + i`.
unfoldable pub matches_from : List ℕ → ℕ → List (Option ℕ) → Run Bool
matches_from haystack pos [] = done true
matches_from haystack pos (none ∷ bs) = matches_from haystack (pos + 1) bs
matches_from haystack pos (some b ∷ bs) = elim (get_elem? haystack pos) [
  | none ↦ panic
  | some x ↦ elim (x == b) [ true ↦ matches_from haystack (pos + 1) bs | false ↦ done false ]
]

unfoldable pub matches_at : Pattern → List ℕ → ℕ → Run Bool
matches_at p haystack offset = matches_from haystack offset p.bytes

-- `self.bytes[self.anchor].expect("anchor exists by construction")`
unfoldable pub anchor_byte : Pattern → Run ℕ
anchor_byte p = elim (get_elem? p.bytes p.anchor) [
  | none ↦ panic
  | some none ↦ panic
  | some (some b) ↦ done b
]

abbrev pub hit_or : ℕ → Run Bool → Run (Option ℕ) → Run (Option ℕ)
hit_or i panic rest = panic
hit_or i (done true) rest = done (some i)
hit_or i (done false) rest = rest

-- `for i in i..i + rounds`, with the test of the anchor before the full comparison.
unfoldable pub scan_loop : Pattern → ℕ → List ℕ → ℕ → ℕ → Run (Option ℕ)
scan_loop p a haystack zero i = done none
scan_loop p a haystack (suc rounds) i =
    let rest = scan_loop p a haystack rounds (i + 1) in
    elim (get_elem? haystack (i + p.anchor)) [
      | none ↦ panic
      | some x ↦ if x == a then hit_or i (matches_at p haystack i) rest else rest
    ]

unfoldable pub scan : Pattern → List ℕ → Run (Option ℕ)
scan p haystack = elim (anchor_byte p) [
  | panic ↦ panic
  | done a ↦
      let plen = length p.bytes in
      if ltb (length haystack) plen
      then done none
      else scan_loop p a haystack (length haystack - plen + 1) 0
]

abbrev pub push_hit : ℕ → Run (List ℕ) → Run (List ℕ)
push_hit i panic = panic
push_hit i (done out) = done (i ∷ out)

abbrev pub hit_and : ℕ → Run Bool → Run (List ℕ) → Run (List ℕ)
hit_and i panic rest = panic
hit_and i (done true) rest = push_hit i rest
hit_and i (done false) rest = rest

unfoldable pub scan_all_loop : Pattern → ℕ → List ℕ → ℕ → ℕ → Run (List ℕ)
scan_all_loop p a haystack zero i = done []
scan_all_loop p a haystack (suc rounds) i =
    let rest = scan_all_loop p a haystack rounds (i + 1) in
    elim (get_elem? haystack (i + p.anchor)) [
      | none ↦ panic
      | some x ↦ if x == a then hit_and i (matches_at p haystack i) rest else rest
    ]

unfoldable pub scan_all : Pattern → List ℕ → Run (List ℕ)
scan_all p haystack = elim (anchor_byte p) [
  | panic ↦ panic
  | done a ↦
      let plen = length p.bytes in
      if ltb (length haystack) plen
      then done []
      else scan_all_loop p a haystack (length haystack - plen + 1) 0
]

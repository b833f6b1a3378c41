-- ===== src/Value/HexBits.antt =====
-- The module `hex_bits` of crates/runtime/src/value.rs: integer literals that are bit patterns.
-- A `u128` is a number below 2 ^ 128. serde's `deserialize_any` chooses the visitor's method by
-- the token of the file, so the token is an argument here.
pub mod Width
pub mod Decimal
use openforge_aio.Prelude.{
  ℕ, ◌+◌, ◌-◌, ◌*◌, ◌%◌, ◌^◌, Bool, true, false, Option, none, some, List, [], ◌∷◌, ltb,
  if◌then◌else◌,
}
use openforge_aio.Prelude.Result.{Result, ok, err, ok_or, fail_if, ◌>>=◌, ◌>>◌}
use openforge_aio.Prelude.Int.{ℤ, is_neg, unsigned_abs, to_signed}
use openforge_aio.Prelude.Text.{
  Text, codes, trim, trim_start, strip_prefix, or_else, without_char, from_str_radix, decimal,
}

-- The three messages, with what they are formatted from.
pub data LiteralError : Type 0 where
  empty_literal : Text → LiteralError
  invalid_integer : Text → LiteralError
  exceeds_width : Text → ℕ → ℕ → Bool → LiteralError

abbrev pub u128_max : ℕ
u128_max = 2 ^ 128 - 1

-- `match s.strip_prefix('-')`
abbrev pub split_sign : Text → Option Text → Bool × Text
split_sign s none = (false, s)
split_sign s (some r) = (true, trim_start r)

-- `rest.strip_prefix('+').unwrap_or(rest)`
abbrev pub drop_plus : Text → Option Text → Text
drop_plus rest none = rest
drop_plus rest (some r) = r

abbrev pub prefixed : Text → Text → Text → Option Text
prefixed lower upper rest = or_else (strip_prefix lower rest) (strip_prefix upper rest)

-- The chain of `if let`: the radix and the digits behind its prefix.
abbrev pub split_radix_of : Text → Option Text → Option Text → Option Text → ℕ × Text
split_radix_of rest (some h) b o = (16, h)
split_radix_of rest none (some b) o = (2, b)
split_radix_of rest none none (some o) = (8, o)
split_radix_of rest none none none = (10, rest)

unfoldable pub split_radix : Text → ℕ × Text
split_radix rest =
    split_radix_of rest (prefixed (codes "0x") (codes "0X") rest)
      (prefixed (codes "0b") (codes "0B") rest) (prefixed (codes "0o") (codes "0O") rest)

abbrev pub is_empty : Text → Bool
is_empty [] = true
is_empty (c ∷ s) = false

-- The part of `parse_magnitude` behind the sign.
unfoldable pub parse_unsigned : Text → Text → Result LiteralError ℕ
unfolding split_radix
parse_unsigned raw rest =
    let (radix, digits) = split_radix (drop_plus rest (strip_prefix (codes "+") rest)) in
    let cleaned = without_char b'_' digits in
    do
      fail_if (is_empty cleaned) (empty_literal raw)
      ok_or (from_str_radix u128_max radix cleaned) (invalid_integer raw)

unfoldable pub parse_magnitude : Text → Result LiteralError (Bool × ℕ)
unfolding parse_unsigned
parse_magnitude raw =
    let s = trim raw in
    let (neg, rest) = split_sign s (strip_prefix (codes "-") s) in
    do mag ← parse_unsigned raw rest; ok (neg, mag)

-- `u128::wrapping_neg`
abbrev pub wrapping_neg : ℕ → ℕ
wrapping_neg mag = (2 ^ 128 - mag) % 2 ^ 128

-- The largest magnitude of a literal for a target of `width` bits.
abbrev pub width_limit : Bool → ℕ → ℕ
width_limit true width = 2 ^ (width - 1)
width_limit false width = 2 ^ width - 1

unfoldable pub finish : {T : Type 0} → Text → Bool → ℕ → ℕ → (ℕ → T) → Result LiteralError T
finish raw neg mag width cast = do
  fail_if (ltb (width_limit neg width) mag) (exceeds_width raw mag width neg)
  ok (cast (if neg then wrapping_neg mag else mag))

unfoldable pub reinterp_str : {T : Type 0} → Text → ℕ → (ℕ → T) → Result LiteralError T
unfolding parse_magnitude finish
reinterp_str raw width cast = do r ← parse_magnitude raw; finish raw r.0 r.1 width cast

-- The text of a native token, rebuilt for the message.
abbrev pub native_text : Bool → ℕ → Text
native_text true mag = b'-' ∷ decimal mag
native_text false mag = decimal mag

unfoldable pub finish_native : {T : Type 0} → Bool → ℕ → ℕ → (ℕ → T) → Result LiteralError T
unfolding finish
finish_native neg mag width cast = finish (native_text neg mag) neg mag width cast

-- The token that the deserializer hands to the visitor: `visit_i64` and `visit_i128`, `visit_u64`
-- and `visit_u128`, `visit_str` and `visit_string`.
pub data Token : Type 0 where
  signed : ℤ → Token
  unsigned : ℕ → Token
  quoted : Text → Token

unfoldable pub reinterp : {T : Type 0} → Token → ℕ → (ℕ → T) → Result LiteralError T
unfolding finish_native reinterp_str
reinterp (signed v) width cast = finish_native (is_neg v) (unsigned_abs v) width cast
reinterp (unsigned v) width cast = finish_native false v width cast
reinterp (quoted s) width cast = reinterp_str s width cast

unfoldable pub as_i32 : Token → Result LiteralError ℤ
unfolding reinterp
as_i32 t = reinterp t 32 (λ u. to_signed (2 ^ 31) (u % 2 ^ 32))

unfoldable pub as_u32 : Token → Result LiteralError ℕ
unfolding reinterp
as_u32 t = reinterp t 32 (λ u. u % 2 ^ 32)

unfoldable pub as_i64 : Token → Result LiteralError ℤ
unfolding reinterp
as_i64 t = reinterp t 64 (λ u. to_signed (2 ^ 63) (u % 2 ^ 64))

unfoldable pub as_u64 : Token → Result LiteralError ℕ
unfolding reinterp
as_u64 t = reinterp t 64 (λ u. u % 2 ^ 64)

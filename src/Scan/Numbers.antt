-- ===== src/Scan/Numbers.antt =====
-- The value types of crates/discover/src/predicate.rs: the integers, by the macro `impl_int`, and
-- `bool`. The floats are left to `NumberLike`.
use openforge_aio.Prelude.{
  ℕ, ◌^◌, ◌/◌, Bool, true, false, not, ◌||◌, ◌&&◌, List, [], ◌∷◌, take, ltb, leb, ◌==◌,
  if◌then◌else◌,
}
use openforge_aio.Prelude.Bytes.{from_le}
use openforge_aio.Prelude.Int.{ℤ, pos, negsuc, to_signed}
use openforge_aio.Prelude.Text.{Text, codes, text_eq}
use openforge_aio.Prelude.Result.{Result, ok, err}
use openforge_aio.Scan.{Double, NumberLike}

abbrev pub zle : ℤ → ℤ → Bool
zle (pos m) (pos n) = leb m n
zle (pos m) (negsuc n) = false
zle (negsuc m) (pos n) = true
zle (negsuc m) (negsuc n) = leb n m

abbrev pub zeq : ℤ → ℤ → Bool
zeq a b = zle a b && zle b a

module _ (d : Double) (of_int : ℤ → d.F64) where
  -- u8, u16, u32 and u64
  abbrev pub unsigned : ℕ → NumberLike d
  unsigned w = record {
    T = ℕ;
    number_size = w;
    from_le_bytes = λ buf. from_le (take w buf);
    approx_eq = λ a b eps. a == b;
    as_f64 = λ a. of_int (pos a);
    gt = λ a b. ltb b a;
    ge = λ a b. leb b a;
  }

  -- i8, i16, i32 and i64
  abbrev pub signed : ℕ → NumberLike d
  signed w = record {
    T = ℤ;
    number_size = w;
    from_le_bytes = λ buf. to_signed (256 ^ w / 2) (from_le (take w buf));
    approx_eq = λ a b eps. zeq a b;
    as_f64 = of_int;
    gt = λ a b. not (zle a b);
    ge = λ a b. zle b a;
  }

  -- `buf[0] != 0`
  abbrev pub first_nonzero : List ℕ → Bool
  first_nonzero [] = false
  first_nonzero (b ∷ bs) = not (b == 0)

  abbrev pub bool_eq : Bool → Bool → Bool
  bool_eq true b = b
  bool_eq false b = not b

  abbrev pub number_bool : NumberLike d
  number_bool = record {
    T = Bool;
    number_size = 1;
    from_le_bytes = first_nonzero;
    approx_eq = λ a b eps. bool_eq a b;
    as_f64 = λ a. of_int (if a then pos 1 else pos 0);
    gt = λ a b. a && not b;
    ge = λ a b. a || not b;
  }

abbrev pub parse_bool : Text → Result Text Bool
parse_bool s =
    if text_eq s (codes "0")
      || text_eq s (codes "false")
      || text_eq s (codes "False")
      || text_eq s (codes "FALSE")
    then ok false
    else if text_eq s (codes "1")
        || text_eq s (codes "true")
        || text_eq s (codes "True")
        || text_eq s (codes "TRUE")
    then ok true
    else err s

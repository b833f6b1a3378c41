-- ===== src/Value/HexBits/Width.antt =====
-- The width check and the reinterpretation of crates/runtime/src/value.rs.
use openforge_aio.Prelude.{
  ℕ, suc, ◌-◌, ◌*◌, ◌%◌, ◌^◌, ◌<◌, ◌≡◌, refl, ap, ◌∙◌, Bool, false, ltb, arith, Bool-cases, inl,
  inr, ◌⊎◌,
}
use openforge_aio.Prelude.Result.{Result, ok, err, ◌>>=◌}
use openforge_aio.Prelude.Int.{
  ℤ, pos, negsuc, is_neg, unsigned_abs, to_signed, of_signed, InSigned, to_signed-of_signed,
}
use openforge_aio.Prelude.Text.{Text}
use openforge_aio.Value.HexBits.{
  LiteralError, width_limit, parse_magnitude, finish, native_text, reinterp_str, Token, signed,
  unsigned, quoted, reinterp, as_i32, as_u32, as_i64, as_u64,
}

abbrev pub IsOk : {E A : Type 0} → Result E A → Type 0
IsOk (ok a) = Unit
IsOk (err e) = ⊥

abbrev pub map_ok : {E A B : Type 0} → (A → B) → Result E A → Result E B
map_ok f (ok a) = ok (f a)
map_ok f (err e) = err e

map_ok-bind :
    {E A B C : Type 0} (f : B → C) (m : Result E A) (g : A → Result E B)
    → map_ok f (m >>= g) ≡ (m >>= λ a. map_ok f (g a))
map_ok-bind f (ok a) g = refl
map_ok-bind f (err e) g = refl

finish-map :
    {S T : Type 0} (f : S → T) (raw : Text) (neg : Bool) (mag width : ℕ) (cast : ℕ → S)
    → finish raw neg mag width (λ u. f (cast u)) ≡ map_ok f (finish raw neg mag width cast)
unfolding finish
finish-map f raw neg mag width cast = elim (Bool-cases (ltb (width_limit neg width) mag)) [
  | inl over ↦ rw over refl
  | inr fits ↦ rw fits refl
]

parsed-map :
    {S T : Type 0} (f : S → T) (raw : Text) (r : Result LiteralError (Bool × ℕ)) (width : ℕ)
    (cast : ℕ → S)
    → (r >>= λ x. finish raw x.0 x.1 width (λ u. f (cast u)))
      ≡ map_ok f (r >>= λ x. finish raw x.0 x.1 width cast)
parsed-map f raw (ok (neg, mag)) width cast = finish-map f raw neg mag width cast
parsed-map f raw (err e) width cast = refl

-- The target's type has no say in what is accepted: a field of another type holds the image of
-- the same bits, and reports the same error.
reinterp-map :
    {S T : Type 0} (f : S → T) (t : Token) (width : ℕ) (cast : ℕ → S)
    → reinterp t width (λ u. f (cast u)) ≡ map_ok f (reinterp t width cast)
unfolding reinterp reinterp_str
reinterp-map f (signed v) width cast =
    finish-map f (native_text (is_neg v) (unsigned_abs v)) (is_neg v) (unsigned_abs v) width cast
reinterp-map f (unsigned v) width cast = finish-map f (native_text false v) false v width cast
reinterp-map f (quoted s) width cast = parsed-map f s (parse_magnitude s) width cast

-- An i32 field and a u32 field accept the same tokens, quoted or bare, and hold the same bits;
-- what one refuses the other refuses with the same message.
pub as_i32-as_u32 : (t : Token) → as_i32 t ≡ map_ok (to_signed (2 ^ 31)) (as_u32 t)
unfolding as_i32 as_u32
as_i32-as_u32 t = reinterp-map (to_signed (2 ^ 31)) t 32 (λ u. u % 2 ^ 32)

pub as_i64-as_u64 : (t : Token) → as_i64 t ≡ map_ok (to_signed (2 ^ 63)) (as_u64 t)
unfolding as_i64 as_u64
as_i64-as_u64 t = reinterp-map (to_signed (2 ^ 63)) t 64 (λ u. u % 2 ^ 64)

-- Between -half and 2 * half - 1, ends included.
abbrev pub FitsWidth : ℕ → ℤ → Type 0
FitsWidth half (pos n) = n < 2 * half
FitsWidth half (negsuc n) = n < half

abbrev pub Refused : {E A : Type 0} → Result E A → Type 0
Refused r = IsOk r → ⊥

-- A bare integer goes into a u32 field exactly if it lies between -2 ^ 31 and 2 ^ 32 - 1, and
-- then as its residue modulo 2 ^ 32; any other integer is refused.
pub as_u32-signed :
    (v : ℤ)
    → (FitsWidth (2 ^ 31) v × (as_u32 (signed v) ≡ ok (of_signed (2 ^ 31) v)))
      ⊎ ((¬ FitsWidth (2 ^ 31) v) × Refused (as_u32 (signed v)))
unfolding as_u32
as_u32-signed (pos n) = elim (Bool-cases (ltb (2 ^ 32 - 1) n)) [
  | inl over ↦ inr (λ fits. ground arith, rw over (λ x. x))
  | inr fits ↦ inl (ground arith, rw fits (ground arith))
]
as_u32-signed (negsuc n) = elim (Bool-cases (ltb (2 ^ 31) (suc n))) [
  | inl over ↦ inr (λ fits. ground arith, rw over (λ x. x))
  | inr fits ↦ inl (ground arith, rw fits (ground arith))
]

pub as_u64-signed :
    (v : ℤ)
    → (FitsWidth (2 ^ 63) v × (as_u64 (signed v) ≡ ok (of_signed (2 ^ 63) v)))
      ⊎ ((¬ FitsWidth (2 ^ 63) v) × Refused (as_u64 (signed v)))
unfolding as_u64
as_u64-signed (pos n) = elim (Bool-cases (ltb (2 ^ 64 - 1) n)) [
  | inl over ↦ inr (λ fits. ground arith, rw over (λ x. x))
  | inr fits ↦ inl (ground arith, rw fits (ground arith))
]
as_u64-signed (negsuc n) = elim (Bool-cases (ltb (2 ^ 63) (suc n))) [
  | inl over ↦ inr (λ fits. ground arith, rw over (λ x. x))
  | inr fits ↦ inl (ground arith, rw fits (ground arith))
]

FitsWidth-InSigned : (half : ℕ) (v : ℤ) → InSigned half v → FitsWidth half v
FitsWidth-InSigned half (pos n) h = omega arith
FitsWidth-InSigned half (negsuc n) h = h

-- A bare integer in the range of i32 is read by an i32 field as itself.
pub as_i32-signed : (v : ℤ) → InSigned (2 ^ 31) v → as_i32 (signed v) ≡ ok v
as_i32-signed v h = elim (as_u32-signed v) [
  | inl (fits, read) ↦
      as_i32-as_u32 (signed v)
      ∙ ap (map_ok (to_signed (2 ^ 31))) read
      ∙ ap ok (to_signed-of_signed (2 ^ 31) v h)
  | inr (wide, refused) ↦ absurd (wide (FitsWidth-InSigned (2 ^ 31) v h))
]

pub as_i64-signed : (v : ℤ) → InSigned (2 ^ 63) v → as_i64 (signed v) ≡ ok v
as_i64-signed v h = elim (as_u64-signed v) [
  | inl (fits, read) ↦
      as_i64-as_u64 (signed v)
      ∙ ap (map_ok (to_signed (2 ^ 63))) read
      ∙ ap ok (to_signed-of_signed (2 ^ 63) v h)
  | inr (wide, refused) ↦ absurd (wide (FitsWidth-InSigned (2 ^ 63) v h))
]

-- ===== src/Value/Bytes.antt =====
-- `Value::to_le_bytes` and `Value::from_le_bytes` of crates/runtime/src/value.rs.
use openforge_aio.Prelude.{
  ℕ, zero, suc, ◌*◌, ◌^◌, ◌≤◌, ◌<◌, ◌≡◌, refl, ap, ◌∙◌, true, false, List, [], ◌∷◌, ◌++◌, length,
  take, ltb, arith, Bool-cases, inl, inr, ◌⊎◌, ◌≢◌, All, length-take, length-append,
}
use openforge_aio.Prelude.Result.{ok, err}
use openforge_aio.Prelude.Int.{
  ℤ, to_signed, of_signed, InSigned, to_signed-of_signed, of_signed-lt, of_signed-to_signed,
  to_signed-InSigned,
}
use openforge_aio.Prelude.Bytes.{IsByte, to_le, from_le, from_le-to_le, to_le-from_le, from_le_lt}
use openforge_aio.Value.{
  ValueKind, size, Value, kind, to_le_bytes, kind_mismatch, decode, from_le_bytes,
}

-- The value lies in the range of its Rust type.
abbrev pub InRange : Value → Type 0
InRange (Value.bool b) = Unit
InRange (Value.u8 v) = v < 2 ^ 8
InRange (Value.u16 v) = v < 2 ^ 16
InRange (Value.u32 v) = v < 2 ^ 32
InRange (Value.u64 v) = v < 2 ^ 64
InRange (Value.i8 v) = InSigned (2 ^ 7) v
InRange (Value.i16 v) = InSigned (2 ^ 15) v
InRange (Value.i32 v) = InSigned (2 ^ 31) v
InRange (Value.i64 v) = InSigned (2 ^ 63) v
InRange (Value.f32 v) = v < 2 ^ 32
InRange (Value.f64 v) = v < 2 ^ 64

pub length-to_le_bytes : (v : Value) → length (to_le_bytes v) ≡ size (kind v)
unfolding to_le_bytes size kind
length-to_le_bytes (Value.bool b) = refl
length-to_le_bytes _ = refl

signed_bytes :
    (w half : ℕ) (v : ℤ)
    → 2 * half ≤ 256 ^ w
    → InSigned half v
    → to_signed half (from_le (to_le w (of_signed half v))) ≡ v
signed_bytes w half v wide h =
    ap (to_signed half) (from_le-to_le w (of_signed half v) (omega (arith, of_signed-lt half v h)))
    ∙ to_signed-of_signed half v h

decode-to_le_bytes : (v : Value) → InRange v → decode (kind v) (to_le_bytes v) ≡ v
unfolding decode to_le_bytes kind
decode-to_le_bytes (Value.bool true) h = refl
decode-to_le_bytes (Value.bool false) h = refl
decode-to_le_bytes (Value.u8 v) h = ap Value.u8 (from_le-to_le 1 v h)
decode-to_le_bytes (Value.u16 v) h = ap Value.u16 (from_le-to_le 2 v h)
decode-to_le_bytes (Value.u32 v) h = ap Value.u32 (from_le-to_le 4 v h)
decode-to_le_bytes (Value.u64 v) h = ap Value.u64 (from_le-to_le 8 v h)
decode-to_le_bytes (Value.i8 v) h = ap Value.i8 (signed_bytes 1 (2 ^ 7) v (omega arith) h)
decode-to_le_bytes (Value.i16 v) h = ap Value.i16 (signed_bytes 2 (2 ^ 15) v (omega arith) h)
decode-to_le_bytes (Value.i32 v) h = ap Value.i32 (signed_bytes 4 (2 ^ 31) v (omega arith) h)
decode-to_le_bytes (Value.i64 v) h = ap Value.i64 (signed_bytes 8 (2 ^ 63) v (omega arith) h)
decode-to_le_bytes (Value.f32 v) h = ap Value.f32 (from_le-to_le 4 v h)
decode-to_le_bytes (Value.f64 v) h = ap Value.f64 (from_le-to_le 8 v h)

take-append {ℓ} : {A : Type ℓ} (xs ys : List A) → take (length xs) (xs ++ ys) ≡ xs
take-append [] ys = refl
take-append (x ∷ xs) ys = ap (λ t. x ∷ t) (take-append xs ys)

-- A value in range is read back from its bytes, whatever follows them in the buffer.
pub from_le_bytes-to_le_bytes :
    (v : Value) (rest : List ℕ) → InRange v → from_le_bytes (kind v) (to_le_bytes v ++ rest) ≡ ok v
unfolding from_le_bytes
from_le_bytes-to_le_bytes v rest h =
    let len = length-to_le_bytes v in
    let room : ltb (length (to_le_bytes v ++ rest)) (size (kind v)) ≡ false =
      rw (length-append (to_le_bytes v) rest, len) (ground arith) in
    rw (room, ← len, take-append (to_le_bytes v) rest) (ap ok (decode-to_le_bytes v h))

word : (n : ℕ) (bs : List ℕ) → length bs ≡ n → All IsByte bs → to_le n (from_le bs) ≡ bs
word n bs len h = rw (← len) (to_le-from_le bs h)

word_lt : (n : ℕ) (bs : List ℕ) → length bs ≡ n → All IsByte bs → from_le bs < 256 ^ n
word_lt n bs len h = rw (← len) (from_le_lt bs h)

signed_word :
    (n half : ℕ) (bs : List ℕ)
    → 256 ^ n ≡ 2 * half
    → length bs ≡ n
    → All IsByte bs
    → InSigned half (to_signed half (from_le bs))
      × (to_le n (of_signed half (to_signed half (from_le bs))) ≡ bs)
signed_word n half bs modulus len h =
    let low : from_le bs < 2 * half = omega (arith, word_lt n bs len h) in
    (
      to_signed-InSigned half (from_le bs) low,
      ap (to_le n) (of_signed-to_signed half (from_le bs) low) ∙ word n bs len h,
    )

abbrev pub Decoded : ValueKind → List ℕ → Value → Type 0
Decoded k bs v = (kind v ≡ k) × InRange v × (k ≢ ValueKind.bool → to_le_bytes v ≡ bs)

decode_lem :
    (k : ValueKind) (bs : List ℕ) → length bs ≡ size k → All IsByte bs → Decoded k bs (decode k bs)
unfolding decode to_le_bytes kind size
decode_lem ValueKind.bool bs len h = (refl, tt, λ other. absurd (other refl))
decode_lem ValueKind.u8 bs len h = (refl, word_lt 1 bs len h, λ _. word 1 bs len h)
decode_lem ValueKind.u16 bs len h = (refl, word_lt 2 bs len h, λ _. word 2 bs len h)
decode_lem ValueKind.u32 bs len h = (refl, word_lt 4 bs len h, λ _. word 4 bs len h)
decode_lem ValueKind.u64 bs len h = (refl, word_lt 8 bs len h, λ _. word 8 bs len h)
decode_lem ValueKind.i8 bs len h =
    let (low, same) = signed_word 1 (2 ^ 7) bs refl len h in (refl, low, λ _. same)
decode_lem ValueKind.i16 bs len h =
    let (low, same) = signed_word 2 (2 ^ 15) bs refl len h in (refl, low, λ _. same)
decode_lem ValueKind.i32 bs len h =
    let (low, same) = signed_word 4 (2 ^ 31) bs refl len h in (refl, low, λ _. same)
decode_lem ValueKind.i64 bs len h =
    let (low, same) = signed_word 8 (2 ^ 63) bs refl len h in (refl, low, λ _. same)
decode_lem ValueKind.f32 bs len h = (refl, word_lt 4 bs len h, λ _. word 4 bs len h)
decode_lem ValueKind.f64 bs len h = (refl, word_lt 8 bs len h, λ _. word 8 bs len h)

All-take {κ} : (P : ℕ → Type κ) (n : ℕ) (xs : List ℕ) → All P xs → All P (take n xs)
All-take P zero xs h = tt
All-take P (suc n) [] h = tt
All-take P (suc n) (x ∷ xs) h = (h.0, All-take P n xs h.1)

-- A buffer that is too short is refused. Any other is read as a value of the kind, in range, whose
-- bytes are the first of the buffer; only a bool may have other bytes, since each non-zero byte
-- reads as true.
pub from_le_bytes_lem :
    (k : ValueKind) (buf : List ℕ)
    → All IsByte buf
    → ((length buf < size k) × (from_le_bytes k buf ≡ err (kind_mismatch k (length buf))))
      ⊎ ((v : Value) × (from_le_bytes k buf ≡ ok v) × Decoded k (take (size k) buf) v)
unfolding from_le_bytes
from_le_bytes_lem k buf h = elim (Bool-cases (ltb (length buf) (size k))) [
  | inl short ↦ inl (ground arith, rw short refl)
  | inr room ↦
      let len : length (take (size k) buf) ≡ size k =
        rw (length-take (size k) buf) (ground arith) in
      inr (
        decode k (take (size k) buf),
        rw room refl,
        decode_lem k (take (size k) buf) len (All-take IsByte (size k) buf h),
      )
]

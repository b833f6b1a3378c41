-- ===== src/Pattern/Wire.antt =====
-- `Pattern::wire` and `Pattern::from_wire` of crates/core/src/pattern.rs.
use openforge_aio.Prelude.{
  ℕ, suc, ◌≡◌, ◌≢◌, refl, ap, ◌∙◌, Option, none, some, List, [], ◌∷◌, map, length, ◌==◌,
  if◌then◌else◌, arith, Bool-cases, inl, inr, ◌⊎◌, In, In-head, In-tail, ap₂,
}
use openforge_aio.Prelude.Result.{ok, err}
use openforge_aio.Pattern.{
  Pattern, wire_length_mismatch, bad_mask_byte, empty_pattern, anchored, wire_byte, wire_mask, wire,
  masked_byte, masked, from_wire,
}
use openforge_aio.Pattern.Spec.{WellFormed}
use openforge_aio.Pattern.Parse.{anchored_lem, anchored-cases}

masked-wire : (bs : List (Option ℕ)) → masked (map wire_byte bs) (map wire_mask bs) ≡ ok bs
unfolding masked
masked-wire [] = refl
masked-wire (none ∷ bs) = rw (masked-wire bs) refl
masked-wire (some b ∷ bs) = rw (masked-wire bs) refl

length-wire : (bs : List (Option ℕ)) → length (map wire_byte bs) ≡ length (map wire_mask bs)
length-wire [] = refl
length-wire (b ∷ bs) = ap suc (length-wire bs)

-- Whatever pattern is sent, the receiver rebuilds it from its bytes: the anchor is found anew.
pub from_wire-wire : (p : Pattern) → from_wire (wire p).0 (wire p).1 ≡ anchored p.bytes
unfolding from_wire wire
from_wire-wire p = ground (arith, masked-wire p.bytes, length-wire p.bytes)

-- A pattern that `parse` or `from_wire` returned crosses the wire unchanged.
pub from_wire-wire_ok :
    (bs : List (Option ℕ)) (p : Pattern)
    → anchored bs ≡ ok p
    → from_wire (wire p).0 (wire p).1 ≡ ok p
from_wire-wire_ok bs p h = from_wire-wire p ∙ (ap anchored ((anchored_lem bs p h).0) ∙ h)

-- The bytes under a mask, those behind a wildcard cleared.
abbrev pub cleared : List ℕ → List ℕ → List ℕ
cleared [] ms = []
cleared (b ∷ bs) [] = []
cleared (b ∷ bs) (m ∷ ms) = (if m == 0xff then b else 0) ∷ cleared bs ms

masked_byte_lem :
    (b m : ℕ)
    → ((x : Option ℕ) × (masked_byte b m ≡ ok x)
        × (wire_byte x ≡ (if m == 0xff then b else 0))
        × (wire_mask x ≡ m))
      ⊎ ((m ≢ 0x00) × (m ≢ 0xff) × (masked_byte b m ≡ err (bad_mask_byte m)))
masked_byte_lem b m = elim (Bool-cases (m == 0xff)) [
  | inl literal ↦ inl (some b, rw literal refl, rw literal refl, ground arith)
  | inr other ↦ elim (Bool-cases (m == 0x00)) [
    | inl wild ↦ inl (none, rw (other, wild) refl, rw other refl, ground arith)
    | inr bad ↦ inr (ground arith, ground arith, rw (other, bad) refl)
  ]
]

masked_lem :
    (bs ms : List ℕ)
    → length bs ≡ length ms
    → ((xs : List (Option ℕ)) × (masked bs ms ≡ ok xs)
        × (map wire_byte xs ≡ cleared bs ms)
        × (map wire_mask xs ≡ ms))
      ⊎ ((m : ℕ) × In m ms × (m ≢ 0x00) × (m ≢ 0xff) × (masked bs ms ≡ err (bad_mask_byte m)))
unfolding masked
masked_lem [] [] len = inl ([], refl, refl, refl)
masked_lem [] (m ∷ ms) len = absurd (omega arith)
masked_lem (b ∷ bs) [] len = absurd (omega arith)
masked_lem (b ∷ bs) (m ∷ ms) len = elim (masked_byte_lem b m) [
  | inr (wild, literal, bad) ↦ inr (m, In-head m ms, wild, literal, rw bad refl)
  | inl (x, good, byte, mask) ↦ elim (masked_lem bs ms (omega arith)) [
    | inl (xs, rest, bytes, masks) ↦
        inl (x ∷ xs, rw (good, rest) refl, ap₂ ◌∷◌ byte bytes, ap₂ ◌∷◌ mask masks)
    | inr (m', at, wild, literal, bad) ↦
        inr (m', In-tail m ms at, wild, literal, rw (good, bad) refl)
  ]
]

-- What `from_wire` does with any two vectors: it refuses different lengths, then a mask byte that
-- is neither 0x00 nor 0xff, then a mask with no literal byte; a pattern that it accepts is well
-- formed, and `wire` gives back the mask and the bytes, with those behind a wildcard cleared.
pub from_wire_lem :
    (bs ms : List ℕ)
    → ((length bs ≢ length ms)
        × (from_wire bs ms ≡ err (wire_length_mismatch (length bs) (length ms))))
      ⊎ ((m : ℕ) × In m ms × (m ≢ 0x00) × (m ≢ 0xff) × (from_wire bs ms ≡ err (bad_mask_byte m)))
      ⊎ (from_wire bs ms ≡ err empty_pattern)
      ⊎ ((p : Pattern) × (from_wire bs ms ≡ ok p)
          × WellFormed p
          × ((wire p).0 ≡ cleared bs ms)
          × ((wire p).1 ≡ ms))
unfolding from_wire wire
from_wire_lem bs ms = elim (Bool-cases (length bs == length ms)) [
  | inr other ↦ inl (ground arith, rw other refl)
  | inl same ↦ elim (masked_lem bs ms (ground arith)) [
    | inr (m, at, wild, literal, bad) ↦ inr (inl (m, at, wild, literal, rw (same, bad) refl))
    | inl (xs, good, bytes, masks) ↦ elim (anchored-cases xs) [
      | inr empty ↦ inr (inr (inl (rw (same, good, empty) refl)))
      | inl (p, made) ↦
          let (same_bytes, formed, first) = anchored_lem xs p made in
          inr (
            inr (
              inr (
                p,
                rw (same, good, made) refl,
                formed,
                ap (map wire_byte) same_bytes ∙ bytes,
                ap (map wire_mask) same_bytes ∙ masks,
              )))
    ]
  ]
]

-- ===== src/HeapSweep/Multiple.antt =====
-- Sums, differences and parts of multiples, for the offsets of the heap scan of
-- crates/glacier-007-dll/src/scan.rs.
use openforge_aio.Prelude.{
  ℕ, ◌+◌, ◌-◌, ◌*◌, ◌/◌, ◌%◌, ◌≤◌, ◌<◌, ◌≡◌, refl, sym, ap, ◌∙◌, ltb, arith, Bool-cases, inl, inr,
}
use openforge_aio.PointerScan.Chunk.{IsMultiple}
use native.Mathlib.Nat.{div-add-mod, mod-lt, mul_comm}

pub IsMultiple-add : (k a b : ℕ) → IsMultiple k a → IsMultiple k b → IsMultiple k (a + b)
IsMultiple-add k a b (q, e) (r, f) = (q + r, grind (arith, e, f))

pub IsMultiple-trans : (k n a : ℕ) → IsMultiple k n → IsMultiple n a → IsMultiple k a
IsMultiple-trans k n a (q, e) (r, f) = (r * q, grind (arith, e, f))

difference : (k a b q d : ℕ) → a ≡ q * k → b ≡ (q + d) * k → b - a ≡ d * k
difference k a b q d e f =
    let whole : (q + d) * k ≡ q * k + d * k = grind arith in omega (arith, e, f, whole)

pub IsMultiple-sub : (k a b : ℕ) → IsMultiple k a → IsMultiple k b → IsMultiple k (b - a)
IsMultiple-sub k a b (q, e) (r, f) = elim (Bool-cases (ltb q r)) [
  | inl on ↦
      let same : r ≡ q + (r - q) = ground (arith, on) in
      (r - q, difference k a b q (r - q) e (f ∙ ap (λ x. x * k) same))
  | inr off ↦
      let less : r ≤ q = ground (arith, off) in
      let room : r * k ≤ q * k = grind (arith, less) in (0, omega (arith, e, f, room))
]

-- Every offset lies in one part.
pub part_of : (w j : ℕ) → 0 < w → (p : ℕ) × IsMultiple w p × (p ≤ j) × (j < p + w)
part_of w j h =
    let parts : j ≡ j / w * w + j % w =
      sym (div-add-mod j w) ∙ ap (λ p. p + j % w) (mul_comm w (j / w)) in
    let low : j % w < w = mod-lt j h in
    (j / w * w, (j / w, refl), omega (arith, parts), omega (arith, parts, low))

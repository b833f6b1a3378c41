-- ===== src/Feature/Unique.antt =====
-- Which address the heap-scan locator of crates/runtime/src/feature.rs binds.
use openforge_aio.Prelude.{
  ℕ, ◌≤◌, ◌≡◌, refl, ap, ◌∙◌, subst, Bool, true, false, Option, none, some, List, [], ◌∷◌, length,
  take, ltb, arith, Bool-cases, inl, inr, ◌⊎◌, ◌↔◌, All,
}
use openforge_aio.Prelude.Result.{Result, ok, err, Result-cases}
use openforge_aio.Value.{ValueKind, Value, size, from_le_bytes, decode}
use openforge_aio.Memory.Bytes.{length-slice}
use openforge_aio.Scan.{Double}
use openforge_aio.Ctx.{Ctx, CtxLaws}
use openforge_aio.Ctx.Resolve.{wrapping_add}
use openforge_aio.Signature.{HeapScanSpec, HeapValidatorSpec, all_validators}
use openforge_aio.Feature.HeapScan.{
  Floats, HeapScanError, all_failed, ambiguous, as_f64, band_contains, validator_passes, all_pass,
  survivors, verdict, is_64_bit, resolve_via_heap_scan,
}

decodes :
    (k : ValueKind) (buf : List ℕ)
    → length buf ≡ size k
    → (value : Value) × (from_le_bytes k buf ≡ ok value)
unfolding from_le_bytes
decodes k buf long =
    let enough : ltb (length buf) (size k) ≡ false = ground (arith, long) in
    (decode k (take (size k) buf), rw enough refl)

ok_eq : {b : Bool} → ◌≡◌ {A = Result HeapScanError Bool} (ok b) (ok true) → b ≡ true
ok_eq h = cc h

module _ (d : Double) (fl : Floats d) (ctx : Ctx) (laws : CtxLaws ctx) (p : ctx.Proc) where
  validator_decides :
      (candidate : ℕ) (v : HeapValidatorSpec)
      → (b : Bool) × (validator_passes d fl ctx p candidate v ≡ ok b)
  unfolding validator_passes
  validator_decides candidate v =
      let addr = wrapping_add candidate v.relative_offset in
      elim (Result-cases (ctx.read_bytes p addr (size v.field_type))) [
        | inr (e, unread) ↦ (false, rw unread refl)
        | inl (buf, read) ↦
            let long : length buf ≡ size v.field_type =
              ap length (laws.read_lem p addr (size v.field_type) buf read)
              ∙ length-slice (ctx.view p) addr (size v.field_type) in
            let (value, read_as) = decodes v.field_type buf long in
            (band_contains d fl (as_f64 d fl value) v.min v.max, rw (read, read_as) refl)
      ]

  -- A bound that is given is kept, and a value with a bound is a number.
  abbrev pub NotBelow : d.F64 → Option ℕ → Type 0
  NotBelow x none = Unit
  NotBelow x (some min) = d.gt (fl.of_f64 min) x ≡ false

  abbrev pub NotAbove : d.F64 → Option ℕ → Type 0
  NotAbove x none = Unit
  NotAbove x (some max) = d.gt x (fl.of_f64 max) ≡ false

  abbrev pub IsNumber : d.F64 → Option ℕ → Option ℕ → Type 0
  IsNumber x none none = Unit
  IsNumber x none (some max) = fl.is_nan x ≡ false
  IsNumber x (some min) max = fl.is_nan x ≡ false

  -- The field that the validator looks at can be read, and its value lies in the band.
  abbrev pub Accepts : ℕ → HeapValidatorSpec → Type 0
  Accepts candidate v =
      (buf : List ℕ) × (value : Value) × (ctx.read_bytes p
          (wrapping_add candidate v.relative_offset) (size v.field_type)
        ≡ ok buf)
      × (from_le_bytes v.field_type buf ≡ ok value)
      × IsNumber (as_f64 d fl value) v.min v.max
      × NotBelow (as_f64 d fl value) v.min
      × NotAbove (as_f64 d fl value) v.max

  band_contains_iff :
      (x : d.F64) (min max : Option ℕ)
      → (band_contains d fl x min max ≡ true)
        ↔ (IsNumber x min max × NotBelow x min × NotAbove x max)
  unfolding band_contains
  band_contains_iff x none none = (λ h. (tt, tt, tt), λ h. refl)
  band_contains_iff x none (some max) =
      (λ h. (ground (arith, h), tt, ground (arith, h)), λ (n, l, u). ground (arith, n, u))
  band_contains_iff x (some min) none =
      (λ h. (ground (arith, h), ground (arith, h), tt), λ (n, l, u). ground (arith, n, l))
  band_contains_iff x (some min) (some max) = (
    λ h. (ground (arith, h), ground (arith, h), ground (arith, h)),
    λ (n, l, u). ground (arith, n, l, u),
  )

  validator_passes_iff :
      (candidate : ℕ) (v : HeapValidatorSpec)
      → (validator_passes d fl ctx p candidate v ≡ ok true) ↔ Accepts candidate v
  unfolding validator_passes
  validator_passes_iff candidate v =
      let addr = wrapping_add candidate v.relative_offset in
      elim (Result-cases (ctx.read_bytes p addr (size v.field_type))) [
        | inr (e, unread) ↦ (
          λ h. absurd (cc (rw unread at h)),
          λ (buf, value, read, seen, n, l, u). absurd (cc (unread, read)),
        )
        | inl (buf, read) ↦
            let long : length buf ≡ size v.field_type =
              ap length (laws.read_lem p addr (size v.field_type) buf read)
              ∙ length-slice (ctx.view p) addr (size v.field_type) in
            let (value, read_as) = decodes v.field_type buf long in
            let band = band_contains_iff (as_f64 d fl value) v.min v.max in
            (
              λ h.
                  let (n, l, u) = band.0 (ok_eq (rw (read, read_as) at h)) in
                  (buf, value, read, read_as, n, l, u),
              λ (buf', value', read', seen, n, l, u).
                  let same : buf' ≡ buf = cc (read, read') in
                  let alike : value' ≡ value = cc (same, seen, read_as) in
                  let InBand : Value → Type 0 = λ w.
                    IsNumber (as_f64 d fl w) v.min v.max
                    × NotBelow (as_f64 d fl w) v.min
                    × NotAbove (as_f64 d fl w) v.max in
                  rw (read, read_as) (ap ok (band.1 (subst InBand alike (n, l, u)))),
            )
      ]

  all_pass-decides :
      (candidate : ℕ) (vs : List HeapValidatorSpec)
      → (b : Bool) × (all_pass d fl ctx p candidate vs ≡ ok b)
  unfolding all_pass
  all_pass-decides candidate [] = (true, refl)
  all_pass-decides candidate (v ∷ vs) =
      let (b, first) = validator_decides candidate v in
      elim (Bool-cases b) [
        | inr fails ↦ (false, rw (first, fails) refl)
        | inl passes ↦ let (c, rest) = all_pass-decides candidate vs in (c, rw (first, passes) rest)
      ]

  all_pass_iff :
      (candidate : ℕ) (vs : List HeapValidatorSpec)
      → (all_pass d fl ctx p candidate vs ≡ ok true) ↔ All (Accepts candidate) vs
  unfolding all_pass
  all_pass_iff candidate [] = (λ h. tt, λ h. refl)
  all_pass_iff candidate (v ∷ vs) =
      let one = validator_passes_iff candidate v in
      let rest = all_pass_iff candidate vs in
      let (b, first) = validator_decides candidate v in
      elim (Bool-cases b) [
        | inr fails ↦ (
          λ h. absurd (cc (rw (first, fails) at h)),
          λ h. let passes = one.1 h.0 in absurd (cc (passes, first, fails)),
        )
        | inl passes ↦
            let good : validator_passes d fl ctx p candidate v ≡ ok true = first ∙ ap ok passes in
            (λ h. (one.0 good, rest.0 (rw good at h)), λ h. rw good (rest.1 h.1))
      ]

  -- All validators accept the candidate of a hit.
  abbrev pub Passes : HeapScanSpec → ℕ → Type 0
  Passes hs m = All (Accepts (wrapping_add m hs.field_offset)) (all_validators hs)

  -- The candidates of the hits that pass, each hit in its turn.
  abbrev pub Kept : HeapScanSpec → List ℕ → List ℕ → Type 0
  Kept hs [] found = found ≡ []
  Kept hs (m ∷ hits) found =
      (Passes hs m
        × (rest : List ℕ) × (found ≡ wrapping_add m hs.field_offset ∷ rest)
        × Kept hs hits rest)
      ⊎ ((¬ Passes hs m) × Kept hs hits found)

  -- What is bound, or why nothing is.
  abbrev pub Verdict : HeapScanSpec → List ℕ → Result HeapScanError ℕ → Type 0
  Verdict hs hits (ok a) = Kept hs hits (a ∷ [])
  Verdict hs hits (err all_failed) = Kept hs hits []
  Verdict hs hits (err (ambiguous found)) = Kept hs hits found × (2 ≤ length found)
  Verdict hs hits (err e) = ⊥

  survivors-Kept :
      (hs : HeapScanSpec) (hits : List ℕ)
      → (found : List ℕ) × (survivors d fl ctx p hs.field_offset (all_validators hs) hits
          ≡ ok found)
        × Kept hs hits found
  unfolding survivors
  survivors-Kept hs [] = ([], refl, refl)
  survivors-Kept hs (m ∷ hits) =
      let candidate = wrapping_add m hs.field_offset in
      let (rest, ran, law) = survivors-Kept hs hits in
      let (b, decided) = all_pass-decides candidate (all_validators hs) in
      let passing = all_pass_iff candidate (all_validators hs) in
      elim (Bool-cases b) [
        | inl passes ↦
            let good : all_pass d fl ctx p candidate (all_validators hs) ≡ ok true =
              decided ∙ ap ok passes in
            (candidate ∷ rest, rw (good, ran) refl, inl (passing.0 good, rest, refl, law))
        | inr fails ↦
            let bad : all_pass d fl ctx p candidate (all_validators hs) ≡ ok false =
              decided ∙ ap ok fails in
            (rest, rw (bad, ran) refl, inr (λ h. let good = passing.1 h in cc (bad, good), law))
      ]

  Kept-Verdict :
      (hs : HeapScanSpec) (hits found : List ℕ)
      → Kept hs hits found
      → Verdict hs hits (verdict d fl ctx p found)
  Kept-Verdict hs hits [] h = h
  Kept-Verdict hs hits (a ∷ []) h = h
  Kept-Verdict hs hits (a ∷ b ∷ found) h = (h, omega arith)

  -- A scan for a 64-bit value with at least one hit binds the candidate of the only hit that all
  -- validators accept. It is refused as failed when they accept no hit, and as ambiguous, with all
  -- those candidates in order, when they accept several; no other error occurs.
  pub resolve_via_heap_scan-Verdict :
      (hs : HeapScanSpec) (m : ℕ) (hits : List ℕ)
      → is_64_bit d fl ctx p hs.value_type ≡ true
      → Verdict hs (m ∷ hits) (resolve_via_heap_scan d fl ctx p hs (ok (m ∷ hits)))
  unfolding resolve_via_heap_scan
  resolve_via_heap_scan-Verdict hs m hits wide =
      let (found, ran, law) = survivors-Kept hs (m ∷ hits) in
      rw (wide, ran) (Kept-Verdict hs (m ∷ hits) found law)

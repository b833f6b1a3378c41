-- ===== src/Feature/HeapScan.antt =====
-- The heap-scan locator of crates/runtime/src/feature.rs: the candidates of a 64-bit needle that
-- pass all validators, of which there must be one. The scan of the heap is the process's own, so
-- its hits are a parameter; what the validators need of floats is `Floats`.
use openforge_aio.Prelude.{
  ℕ, Bool, true, false, ◌&&◌, ◌||◌, Option, none, some, List, [], ◌∷◌, if◌then◌else◌,
}
use openforge_aio.Prelude.Int.{ℤ, pos}
use openforge_aio.Prelude.Result.{Result, ok, err, ◌>>=◌}
use openforge_aio.Value.{Value, ValueKind, ValueError, size, from_le_bytes}
use openforge_aio.Scan.{Double}
use openforge_aio.Ctx.{Ctx, Error}
use openforge_aio.Ctx.Resolve.{wrapping_add}
use openforge_aio.Manifest.{is_some}
use openforge_aio.Signature.{HeapScanSpec, HeapValidatorSpec, all_validators}

pub record Floats (d : Double) : Type 0 where
  pub is_nan : d.F64 → Bool
  pub of_int : ℤ → d.F64
  -- Of bit patterns.
  pub of_f32 : ℕ → d.F64
  pub of_f64 : ℕ → d.F64

pub data HeapScanError : Type 0 where
  bad_value_type : ValueKind → HeapScanError
  scan_failed : Error → HeapScanError
  no_match all_failed : HeapScanError
  ambiguous : List ℕ → HeapScanError
  undecoded : ValueError → HeapScanError

module _ (d : Double) (fl : Floats d) where
  unfoldable pub as_f64 : Value → d.F64
  as_f64 (Value.bool b) = fl.of_int (if b then pos 1 else pos 0)
  as_f64 (Value.u8 v) = fl.of_int (pos v)
  as_f64 (Value.u16 v) = fl.of_int (pos v)
  as_f64 (Value.u32 v) = fl.of_int (pos v)
  as_f64 (Value.u64 v) = fl.of_int (pos v)
  as_f64 (Value.i8 v) = fl.of_int v
  as_f64 (Value.i16 v) = fl.of_int v
  as_f64 (Value.i32 v) = fl.of_int v
  as_f64 (Value.i64 v) = fl.of_int v
  as_f64 (Value.f32 v) = fl.of_f32 v
  as_f64 (Value.f64 v) = fl.of_f64 v

  abbrev pub below : d.F64 → Option ℕ → Bool
  below value none = false
  below value (some min) = d.gt (fl.of_f64 min) value

  abbrev pub above : d.F64 → Option ℕ → Bool
  above value none = false
  above value (some max) = d.gt value (fl.of_f64 max)

  unfoldable pub band_contains : d.F64 → Option ℕ → Option ℕ → Bool
  band_contains value min max =
      if (is_some min || is_some max) && fl.is_nan value
      then false
      else if below value min
      then false
      else if above value max
      then false
      else true

  abbrev pub in_band : HeapValidatorSpec → Result ValueError Value → Result HeapScanError Bool
  in_band v (err e) = err (undecoded e)
  in_band v (ok value) = ok (band_contains (as_f64 value) v.min v.max)

  abbrev pub probed : HeapValidatorSpec → Result Error (List ℕ) → Result HeapScanError Bool
  probed v (err e) = ok false
  probed v (ok buf) = in_band v (from_le_bytes v.field_type buf)

  module _ (ctx : Ctx) (p : ctx.Proc) where
    unfoldable pub validator_passes : ℕ → HeapValidatorSpec → Result HeapScanError Bool
    unfolding from_le_bytes as_f64 band_contains
    validator_passes candidate v =
        probed v (ctx.read_bytes p (wrapping_add candidate v.relative_offset) (size v.field_type))

    abbrev pub and_then :
        Result HeapScanError Bool → Result HeapScanError Bool → Result HeapScanError Bool
    and_then (err e) rest = err e
    and_then (ok false) rest = ok false
    and_then (ok true) rest = rest

    -- The loop over the validators, which ends at the first that fails.
    unfoldable pub all_pass : ℕ → List HeapValidatorSpec → Result HeapScanError Bool
    all_pass candidate [] = ok true
    all_pass candidate (v ∷ vs) = and_then (validator_passes candidate v) (all_pass candidate vs)

    abbrev pub kept :
        ℕ
        → Result HeapScanError Bool
        → Result HeapScanError (List ℕ)
        → Result HeapScanError (List ℕ)
    kept candidate (err e) rest = err e
    kept candidate (ok false) rest = rest
    kept candidate (ok true) (err e) = err e
    kept candidate (ok true) (ok rest) = ok (candidate ∷ rest)

    unfoldable pub survivors : ℤ → List HeapValidatorSpec → List ℕ → Result HeapScanError (List ℕ)
    survivors field_offset vs [] = ok []
    survivors field_offset vs (m ∷ hits) =
        kept (wrapping_add m field_offset) (all_pass (wrapping_add m field_offset) vs)
          (survivors field_offset vs hits)

    -- The `match survivors.len()`.
    abbrev pub verdict : List ℕ → Result HeapScanError ℕ
    verdict [] = err all_failed
    verdict (a ∷ []) = ok a
    verdict (a ∷ b ∷ rest) = err (ambiguous (a ∷ b ∷ rest))

    abbrev pub is_64_bit : ValueKind → Bool
    is_64_bit ValueKind.i64 = true
    is_64_bit ValueKind.u64 = true
    is_64_bit k = false

    abbrev pub bound : HeapScanSpec → Result Error (List ℕ) → Result HeapScanError ℕ
    bound hs (err e) = err (scan_failed e)
    bound hs (ok []) = err no_match
    bound hs (ok (m ∷ hits)) = do
      found ← survivors hs.field_offset (all_validators hs) (m ∷ hits)
      verdict found

    unfoldable pub resolve_via_heap_scan :
        HeapScanSpec → Result Error (List ℕ) → Result HeapScanError ℕ
    unfolding survivors all_pass all_validators
    resolve_via_heap_scan hs hits =
        if is_64_bit hs.value_type then bound hs hits else err (bad_value_type hs.value_type)

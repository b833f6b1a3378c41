-- ===== src/Signature/Examples.antt =====
-- Runs of crates/runtime/src/signature.rs.
use openforge_aio.Prelude.{
  ℕ, ◌≡◌, ◌⊎◌, refl, some, none, List, [], ◌∷◌, ◌↔◌, arith, All, In, length,
}
use openforge_aio.Prelude.Run.{done}
use openforge_aio.Prelude.Result.{ok, err}
use openforge_aio.Prelude.Bytes.{IsByte}
use openforge_aio.Prelude.Int.{pos}
use openforge_aio.Prelude.Text.{
  codes, split_whitespace, split_from, is_whitespace, is_ascii_hexdigit, from_str_radix, radix_loop,
  to_digit, digit_value,
}
use openforge_aio.Manifest.{signature_invalid}
use openforge_aio.Value.{ValueKind}
use openforge_aio.Signature.{
  SignatureSpec, ReflectionSpec, any, call_instance_ufunction, HeapValidatorSpec, HeapScanSpec,
  all_validators,
}
use openforge_aio.Signature.Hex.{
  payload, parse_hex_payload, hex_text, parse_hex_payload-hex_text, parse_hex_payload_runs,
}
use openforge_aio.Signature.Check.{needs_deref, check_write, check_locators, validate}
use openforge_aio.Signature.Valid.{Suits, validate-Suits}

abbrev character : ReflectionSpec
character = record {
  class_path = codes "/Game/Character";
  predicate = any;
  property_name = codes "Health";
  also_write = [];
  deref = record { property_name = codes "Target"; inner_offset = pos 0 } ∷ [];
  offset = none;
}

abbrev call : SignatureSpec
call = record {
  meta = record {
    feature = codes "unlock";
    display_name = codes "Unlock";
    tier = codes "general";
    kind = codes "trainer";
  };
  value = none;
  write = call_instance_ufunction (codes "Unlock") (codes "01 ff") [];
  locator = none;
  heap_scan = none;
  reflection = some character;
  pointer_chain = none;
}

validate-Suits_example : (validate call ≡ ok tt) ↔ Suits call call.write
validate-Suits_example = validate-Suits call

call_is_valid : validate call ≡ ok tt
unfolding validate check_write check_locators parse_hex_payload payload split_whitespace split_from
    is_whitespace is_ascii_hexdigit from_str_radix radix_loop to_digit digit_value
call_is_valid = refl

no_hop_is_refused :
    validate (record call { reflection = some (record character { deref = [] }) })
    ≡ err (signature_invalid (codes "unlock") needs_deref)
unfolding validate check_write check_locators
no_hop_is_refused = refl

reads_back : parse_hex_payload (hex_text (1 ∷ 255 ∷ [])) ≡ done (ok (1 ∷ 255 ∷ []))
reads_back = parse_hex_payload-hex_text (1 ∷ 255 ∷ []) (omega arith, (omega arith, tt))

parse_hex_payload_runs_example :
    ((tok : List ℕ) × In tok (split_whitespace (codes "01 fg"))
      × (parse_hex_payload (codes "01 fg") ≡ done (err tok)))
    ⊎ ((bs : List ℕ) × (parse_hex_payload (codes "01 fg") ≡ done (ok bs))
        × All IsByte bs
        × (length bs ≡ length (split_whitespace (codes "01 fg"))))
parse_hex_payload_runs_example = parse_hex_payload_runs (codes "01 fg")

bad_digit : parse_hex_payload (codes "01 fg") ≡ done (err (codes "fg"))
unfolding parse_hex_payload payload split_whitespace split_from is_whitespace is_ascii_hexdigit
    from_str_radix radix_loop to_digit digit_value
bad_digit = refl

abbrev first : HeapValidatorSpec
first = record { field_type = ValueKind.i32; relative_offset = pos 8; min = none; max = none }

abbrev second : HeapValidatorSpec
second = record { field_type = ValueKind.f32; relative_offset = pos 16; min = none; max = none }

abbrev heap : HeapScanSpec
heap = record {
  value_type = ValueKind.i64;
  value = pos 9999999;
  field_offset = pos 0;
  alignment = 8;
  validator = some first;
  validators = second ∷ [];
}

merges_legacy : all_validators heap ≡ first ∷ second ∷ []
unfolding all_validators
merges_legacy = refl

-- ===== src/Signature/Check.antt =====
-- `SignatureSpec::validate` of crates/runtime/src/signature.rs: its guards in their order.
use openforge_aio.Prelude.{
  ℕ, ◌+◌, Bool, true, false, not, ◌&&◌, ◌||◌, Option, none, some, ltb, ◌==◌,
}
use openforge_aio.Prelude.Run.{Run, done, panic}
use openforge_aio.Prelude.Result.{Result, ok, err, fail_if, ◌>>◌, map_err}
use openforge_aio.Prelude.Text.{Text, trim}
use openforge_aio.Prelude.Float.{f64_is_finite, f64_is_positive}
use openforge_aio.Manifest.{RuntimeError, signature_invalid, is_none, is_some, is_empty}
use openforge_aio.Signature.{
  SignatureSpec, WriteSpec, FreezeMatchSpec, PlayMontageSpec, ReflectionSpec, one_shot, freeze,
  code_patch, engine_action, set_progress_tags, call_instance_ufunction, teleport_to_waypoint,
  freeze_for_matching, play_anim_montage_for_matching,
}
use openforge_aio.Signature.Hex.{parse_hex_payload}

-- The reasons of `SignatureInvalid`.
pub data Reason : Type 0 where
  binds_no_memory value_required own_discovery : Reason
  one_of_offsets_and_property one_of_path_and_substrings one_of_value_and_bytes : Reason
  bad_value_bytes no_montage_name bad_distance : Reason
  no_locator several_locators needs_locator : Reason
  needs_reflection needs_deref bad_params : Reason

abbrev pub is_err : {A : Type 0} → Run (Result Text A) → Bool
is_err (done (ok a)) = false
is_err (done (err e)) = true
is_err panic = false

abbrev pub both_or_neither : Bool → Bool → Bool
both_or_neither true b = b
both_or_neither false b = not b

-- One of the blocks that bind memory is there.
abbrev pub any_block : SignatureSpec → Bool
any_block s = is_some s.locator || is_some s.heap_scan || is_some s.reflection

abbrev pub as_count : Bool → ℕ
as_count true = 1
as_count false = 0

abbrev pub locator_count : SignatureSpec → ℕ
locator_count s =
    as_count (is_some s.locator) + as_count (is_some s.heap_scan) + as_count (is_some s.reflection)

abbrev pub nonblank : Option Text → Bool
nonblank none = false
nonblank (some p) = not (is_empty (trim p))

abbrev pub bad_bytes : Option Text → Bool
bad_bytes none = false
bad_bytes (some hex) = is_err (parse_hex_payload hex)

unfoldable pub check_freeze_for_matching : FreezeMatchSpec → Result Reason (Unit {0})
check_freeze_for_matching f = do
  fail_if (both_or_neither (not (is_empty f.field_offsets)) (nonblank f.field_property))
      one_of_offsets_and_property
  fail_if
      (both_or_neither (not (is_empty (trim f.class_path)))
        (not (is_empty f.class_name_substrings)))
      one_of_path_and_substrings
  fail_if (both_or_neither (is_some f.value) (is_some f.value_bytes)) one_of_value_and_bytes
  fail_if (bad_bytes f.value_bytes) bad_value_bytes
  ok tt

unfoldable pub check_play_anim_montage : PlayMontageSpec → Result Reason (Unit {0})
check_play_anim_montage p = do
  fail_if
      (both_or_neither (not (is_empty (trim p.class_path)))
        (not (is_empty p.class_name_substrings)))
      one_of_path_and_substrings
  fail_if (is_empty p.montage_names) no_montage_name
  fail_if (not (f64_is_positive p.max_distance_u && f64_is_finite p.max_distance_u)) bad_distance
  ok tt

-- The `match locator_count`.
unfoldable pub check_locators : SignatureSpec → Result Reason (Unit {0})
check_locators s = do
  fail_if (locator_count s == 0) no_locator
  fail_if (ltb 1 (locator_count s)) several_locators
  ok tt

abbrev pub check_call : Option ReflectionSpec → Text → Result Reason (Unit {0})
check_call none params_on = err needs_reflection
check_call (some r) params_on = do
  fail_if (is_empty r.deref) needs_deref
  fail_if (is_err (parse_hex_payload params_on)) bad_params
  ok tt

-- The strategy, with what the guards ask of it in their order.
unfoldable pub check_write : SignatureSpec → WriteSpec → Result Reason (Unit {0})
unfolding check_locators check_freeze_for_matching check_play_anim_montage
check_write s (engine_action action options) = fail_if (any_block s) binds_no_memory
check_write s one_shot = do fail_if (is_none s.value) value_required; check_locators s
check_write s (freeze interval value copy) = do
  fail_if (is_none s.value) value_required
  check_locators s
check_write s (freeze_for_matching f) = do
  fail_if (any_block s) own_discovery
  check_freeze_for_matching f
check_write s (play_anim_montage_for_matching p) = do
  fail_if (any_block s) own_discovery
  check_play_anim_montage p
check_write s (set_progress_tags source call value) = fail_if (any_block s) own_discovery
check_write s (code_patch original patched) = do
  check_locators s
  fail_if (is_some s.heap_scan || is_some s.reflection) needs_locator
check_write s (call_instance_ufunction function params_on params_off) = do
  check_locators s
  check_call s.reflection params_on
check_write s (teleport_to_waypoint waypoint) = do
  check_locators s
  fail_if (is_none s.reflection) needs_reflection

unfoldable pub validate : SignatureSpec → Result (RuntimeError Reason) (Unit {0})
unfolding check_write
validate s = map_err (check_write s s.write) (signature_invalid s.meta.feature)

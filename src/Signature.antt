-- ===== src/Signature.antt =====
-- crates/runtime/src/signature.rs: the specification of one feature, with the blocks of
-- crates/runtime/src/engines/ue5.rs that it holds. The parsers of TOML and RON are serde's, and the
-- floats are bit patterns.
pub mod Hex
pub mod Check
pub mod Valid
pub mod Examples
use openforge_aio.Prelude.{ℕ, Bool, true, false, Option, none, some, List, [], ◌∷◌, ◌++◌}
use openforge_aio.Prelude.Int.{ℤ}
use openforge_aio.Prelude.Text.{Text}
use openforge_aio.Manifest.{EngineKind, ue5, is_some, if_some}
use openforge_aio.Value.{ValueKind}
use openforge_aio.Ctx.Resolve.{Resolve}

pub record Meta : Type 0 where
  pub feature : Text
  pub display_name : Text
  pub tier : Text
  pub kind : Text

pub data Endian : Type 0 where
  little big : Endian

pub record ValueSpec : Type 0 where
  pub kind : ValueKind
  pub min : Option ℕ
  pub max : Option ℕ
  pub display : Text
  pub endian : Endian

pub data PredicateSpec : Type 0 where
  any : PredicateSpec
  exact contains fqn_prefix : Text → PredicateSpec

pub record ReflectionDerefSpec : Type 0 where
  pub property_name : Text
  pub inner_offset : ℤ

pub record ReflectionSpec : Type 0 where
  pub class_path : Text
  pub predicate : PredicateSpec
  pub property_name : Text
  pub also_write : List Text
  pub deref : List ReflectionDerefSpec
  pub offset : Option ℤ

pub data ResolveSpec : Type 0 where
  direct : ResolveSpec
  offset : ℤ → ResolveSpec
  rip_relative : ℕ → ℕ → ResolveSpec

-- `Resolve::from`
unfoldable pub to_resolve : ResolveSpec → Resolve
to_resolve ResolveSpec.direct = Resolve.direct
to_resolve (ResolveSpec.offset delta) = Resolve.offset delta
to_resolve (ResolveSpec.rip_relative instruction_offset operand_size) =
    Resolve.rip_relative instruction_offset operand_size

pub record LocatorSpec : Type 0 where
  pub pattern_text : Text
  pub resolve : ResolveSpec
  pub module_name : Option Text

pub record HeapValidatorSpec : Type 0 where
  pub field_type : ValueKind
  pub relative_offset : ℤ
  pub min : Option ℕ
  pub max : Option ℕ

pub record HeapScanSpec : Type 0 where
  pub value_type : ValueKind
  pub value : ℤ
  pub field_offset : ℤ
  pub alignment : ℕ
  pub validator : Option HeapValidatorSpec
  pub validators : List HeapValidatorSpec

abbrev pub one_of : {A : Type 0} → Option A → List A
one_of none = []
one_of (some a) = a ∷ []

unfoldable pub all_validators : HeapScanSpec → List HeapValidatorSpec
all_validators h = one_of h.validator ++ h.validators

pub record HopSpec : Type 0 where
  pub deref : Bool
  pub offset : ℤ

pub record TagSourceSpec : Type 0 where
  pub asset_class : Text
  pub predicate : PredicateSpec

pub record SetCallSpec : Type 0 where
  pub statics_class : Text
  pub function : Text
  pub world_context_class : Text
  pub world_context_predicate : PredicateSpec

pub record FreezeMatchSpec : Type 0 where
  pub class_path : Text
  pub class_name_substrings : List Text
  pub field_offsets : List ℤ
  pub field_property : Option Text
  pub value : Option ℕ
  pub value_bytes : Option Text
  pub interval_ms : ℕ
  pub max_results : ℕ
  pub include_fqn_contains : List Text
  pub exclude_fqn_contains : List Text

pub record PlayMontageSpec : Type 0 where
  pub class_path : Text
  pub class_name_substrings : List Text
  pub montage_names : List Text
  pub interval_ms : ℕ
  pub max_results : ℕ
  pub max_distance_u : ℕ
  pub include_fqn_contains : List Text
  pub exclude_fqn_contains : List Text
  pub play_rate : ℕ
  pub player_state_class : Text
  pub player_pawn_property : Text

pub data WriteSpec : Type 0 where
  one_shot : WriteSpec
  -- interval_ms, freeze_value, freeze_copy_offset
  freeze : ℕ → Option ℕ → Option ℤ → WriteSpec
  -- original_bytes, patched_bytes
  code_patch : Text → Text → WriteSpec
  -- action, options_action
  engine_action : Text → Option Text → WriteSpec
  -- source, call, value
  set_progress_tags : TagSourceSpec → SetCallSpec → ℕ → WriteSpec
  -- function, params_on, params_off
  call_instance_ufunction : Text → Text → Text → WriteSpec
  -- waypoint
  teleport_to_waypoint : ReflectionSpec → WriteSpec
  freeze_for_matching : FreezeMatchSpec → WriteSpec
  play_anim_montage_for_matching : PlayMontageSpec → WriteSpec

pub record SignatureSpec : Type 0 where
  pub meta : Meta
  pub value : Option ValueSpec
  pub write : WriteSpec
  pub locator : Option LocatorSpec
  pub heap_scan : Option HeapScanSpec
  pub reflection : Option ReflectionSpec
  pub pointer_chain : Option (List HopSpec)

abbrev pub kind_or_i32 : Option ValueSpec → ValueKind
kind_or_i32 none = ValueKind.i32
kind_or_i32 (some v) = v.kind

abbrev pub kind_of : Option ValueSpec → WriteSpec → ValueKind
kind_of v one_shot = kind_or_i32 v
kind_of v (freeze i f c) = kind_or_i32 v
kind_of v (code_patch o p) = ValueKind.bool
kind_of v (engine_action a o) = ValueKind.bool
kind_of v (set_progress_tags s c x) = ValueKind.bool
kind_of v (call_instance_ufunction f on off) = ValueKind.bool
kind_of v (teleport_to_waypoint w) = ValueKind.bool
kind_of v (freeze_for_matching f) = ValueKind.bool
kind_of v (play_anim_montage_for_matching p) = ValueKind.bool

unfoldable pub effective_kind : SignatureSpec → ValueKind
effective_kind s = kind_of s.value s.write

abbrev pub engine_of : WriteSpec → Option EngineKind
engine_of one_shot = none
engine_of (freeze i f c) = none
engine_of (code_patch o p) = none
engine_of (engine_action a o) = none
engine_of (set_progress_tags s c x) = some ue5
engine_of (call_instance_ufunction f on off) = some ue5
engine_of (teleport_to_waypoint w) = some ue5
engine_of (freeze_for_matching f) = some ue5
engine_of (play_anim_montage_for_matching p) = some ue5

unfoldable pub required_engine : SignatureSpec → Option EngineKind
required_engine s = if_some s.reflection (some ue5) (engine_of s.write)

-- ===== src/Feature/Strategy.antt =====
-- What the runtime derives from the write strategy in crates/runtime/src/feature.rs.
use openforge_aio.Prelude.{ℕ, ◌≡◌, ◌≢◌, refl, Bool, true, false, Option, none, some}
use openforge_aio.Prelude.Int.{ℤ}
use openforge_aio.Signature.{
  WriteSpec, engine_action, set_progress_tags, call_instance_ufunction, teleport_to_waypoint,
  freeze_for_matching, play_anim_montage_for_matching,
}

pub data WriteStrategyKind : Type 0 where
  one_shot freeze code_patch : WriteStrategyKind

unfoldable pub write_strategy : WriteSpec → WriteStrategyKind
write_strategy WriteSpec.one_shot = WriteStrategyKind.one_shot
write_strategy (WriteSpec.freeze i f c) = WriteStrategyKind.freeze
write_strategy (WriteSpec.code_patch o p) = WriteStrategyKind.code_patch
write_strategy (engine_action a o) = WriteStrategyKind.one_shot
write_strategy (set_progress_tags s c x) = WriteStrategyKind.one_shot
write_strategy (call_instance_ufunction f on off) = WriteStrategyKind.code_patch
write_strategy (teleport_to_waypoint w) = WriteStrategyKind.one_shot
write_strategy (freeze_for_matching f) = WriteStrategyKind.freeze
write_strategy (play_anim_montage_for_matching p) = WriteStrategyKind.freeze

unfoldable pub supports_probe : WriteSpec → Bool
supports_probe WriteSpec.one_shot = true
supports_probe (WriteSpec.freeze i f c) = true
supports_probe (WriteSpec.code_patch o p) = true
supports_probe (engine_action a o) = false
supports_probe (set_progress_tags s c x) = false
supports_probe (call_instance_ufunction f on off) = false
supports_probe (teleport_to_waypoint w) = true
supports_probe (freeze_for_matching f) = false
supports_probe (play_anim_montage_for_matching p) = false

unfoldable pub freeze_interval_ms : WriteSpec → ℕ
freeze_interval_ms WriteSpec.one_shot = 250
freeze_interval_ms (WriteSpec.freeze interval_ms f c) = interval_ms
freeze_interval_ms (WriteSpec.code_patch o p) = 250
freeze_interval_ms (engine_action a o) = 250
freeze_interval_ms (set_progress_tags s c x) = 250
freeze_interval_ms (call_instance_ufunction f on off) = 250
freeze_interval_ms (teleport_to_waypoint w) = 250
freeze_interval_ms (freeze_for_matching f) = f.interval_ms
freeze_interval_ms (play_anim_montage_for_matching p) = p.interval_ms

unfoldable pub freeze_copy_offset : WriteSpec → Option ℤ
freeze_copy_offset WriteSpec.one_shot = none
freeze_copy_offset (WriteSpec.freeze i f copy) = copy
freeze_copy_offset (WriteSpec.code_patch o p) = none
freeze_copy_offset (engine_action a o) = none
freeze_copy_offset (set_progress_tags s c x) = none
freeze_copy_offset (call_instance_ufunction f on off) = none
freeze_copy_offset (teleport_to_waypoint w) = none
freeze_copy_offset (freeze_for_matching f) = none
freeze_copy_offset (play_anim_montage_for_matching p) = none

-- 1.0 as its bit pattern.
abbrev pub one : ℕ
one = 0x3ff0_0000_0000_0000

unfoldable pub freeze_value : WriteSpec → Option ℕ
freeze_value WriteSpec.one_shot = none
freeze_value (WriteSpec.freeze i value c) = value
freeze_value (WriteSpec.code_patch o p) = none
freeze_value (engine_action a o) = none
freeze_value (set_progress_tags s c x) = none
freeze_value (call_instance_ufunction f on off) = none
freeze_value (teleport_to_waypoint w) = none
freeze_value (freeze_for_matching f) = some one
freeze_value (play_anim_montage_for_matching p) = some one

-- A value or an address to freeze from is given only to the strategies that are driven by the
-- freeze loop.
pub freeze_value-write_strategy :
    (w : WriteSpec)
    → (freeze_value w ≢ none → write_strategy w ≡ WriteStrategyKind.freeze)
      × (freeze_copy_offset w ≢ none → write_strategy w ≡ WriteStrategyKind.freeze)
unfolding freeze_value freeze_copy_offset write_strategy
freeze_value-write_strategy WriteSpec.one_shot = (λ h. absurd (h refl), λ h. absurd (h refl))
freeze_value-write_strategy (WriteSpec.freeze i f c) = (λ h. refl, λ h. refl)
freeze_value-write_strategy (WriteSpec.code_patch o p) =
    (λ h. absurd (h refl), λ h. absurd (h refl))
freeze_value-write_strategy (engine_action a o) = (λ h. absurd (h refl), λ h. absurd (h refl))
freeze_value-write_strategy (set_progress_tags s c x) = (λ h. absurd (h refl), λ h. absurd (h refl))
freeze_value-write_strategy (call_instance_ufunction f on off) =
    (λ h. absurd (h refl), λ h. absurd (h refl))
freeze_value-write_strategy (teleport_to_waypoint w) = (λ h. absurd (h refl), λ h. absurd (h refl))
freeze_value-write_strategy (freeze_for_matching f) = (λ h. refl, λ h. refl)
freeze_value-write_strategy (play_anim_montage_for_matching p) = (λ h. refl, λ h. refl)

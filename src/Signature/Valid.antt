-- ===== src/Signature/Valid.antt =====
-- What `validate` of crates/runtime/src/signature.rs accepts.
use openforge_aio.Prelude.{
  ◌+◌, ◌≡◌, refl, Bool, true, false, not, ◌&&◌, ◌||◌, Option, none, some, ltb, ◌==◌, arith, inl,
  inr, ◌⊎◌, ◌↔◌,
}
use openforge_aio.Prelude.Result.{
  Result, ok, check_iff, then_iff, fail_if_iff, both_iff, trans_iff, Result-cases, fail_if, ◌>>◌,
}
use openforge_aio.Prelude.Text.{Text, trim}
use openforge_aio.Prelude.Float.{f64_is_finite, f64_is_positive}
use openforge_aio.Manifest.{is_none, is_some, is_empty}
use openforge_aio.Signature.{
  SignatureSpec, WriteSpec, FreezeMatchSpec, PlayMontageSpec, ReflectionSpec, one_shot, freeze,
  code_patch, engine_action, set_progress_tags, call_instance_ufunction, teleport_to_waypoint,
  freeze_for_matching, play_anim_montage_for_matching,
}
use openforge_aio.Signature.Hex.{parse_hex_payload}
use openforge_aio.Signature.Check.{
  Reason, value_required, binds_no_memory, own_discovery, needs_locator, needs_reflection, is_err,
  as_count, no_locator, several_locators, both_or_neither, any_block, nonblank, bad_bytes,
  check_freeze_for_matching, check_play_anim_montage, check_locators, check_call, check_write,
  validate,
}

-- One of the two holds, and not the other.
abbrev pub ExactlyOne : Bool → Bool → Type 0
ExactlyOne a b = ((a ≡ true) × (b ≡ false)) ⊎ ((a ≡ false) × (b ≡ true))

-- Which blocks the specification has: locator, heap scan, reflection.
abbrev pub Blocks : SignatureSpec → Bool → Bool → Bool → Type 0
Blocks s l h r = (is_some s.locator ≡ l) × (is_some s.heap_scan ≡ h) × (is_some s.reflection ≡ r)

-- Exactly one block says where the value is.
abbrev pub Located : SignatureSpec → Type 0
Located s = Blocks s true false false ⊎ Blocks s false true false ⊎ Blocks s false false true

abbrev pub Unlocated : SignatureSpec → Type 0
Unlocated s = Blocks s false false false

abbrev pub IsFreezeMatch : FreezeMatchSpec → Type 0
IsFreezeMatch f =
    ExactlyOne (not (is_empty f.field_offsets)) (nonblank f.field_property)
    × ExactlyOne (not (is_empty (trim f.class_path))) (not (is_empty f.class_name_substrings))
    × ExactlyOne (is_some f.value) (is_some f.value_bytes)
    × (bad_bytes f.value_bytes ≡ false)

abbrev pub IsPlayMontage : PlayMontageSpec → Type 0
IsPlayMontage p =
    ExactlyOne (not (is_empty (trim p.class_path))) (not (is_empty p.class_name_substrings))
    × (is_empty p.montage_names ≡ false)
    × (f64_is_positive p.max_distance_u ≡ true)
    × (f64_is_finite p.max_distance_u ≡ true)

abbrev pub IsCall : Option ReflectionSpec → Text → Type 0
IsCall reflection params_on =
    (r : ReflectionSpec) × (reflection ≡ some r)
    × (is_empty r.deref ≡ false)
    × (is_err (parse_hex_payload params_on) ≡ false)

-- What each strategy needs.
abbrev pub Suits : SignatureSpec → WriteSpec → Type 0
Suits s one_shot = (is_some s.value ≡ true) × Located s
Suits s (freeze interval value copy) = (is_some s.value ≡ true) × Located s
Suits s (code_patch original patched) = Blocks s true false false
Suits s (engine_action action options) = Unlocated s
Suits s (set_progress_tags source call value) = Unlocated s
Suits s (call_instance_ufunction function params_on params_off) =
    Blocks s false false true × IsCall s.reflection params_on
Suits s (teleport_to_waypoint waypoint) = Blocks s false false true
Suits s (freeze_for_matching f) = Unlocated s × IsFreezeMatch f
Suits s (play_anim_montage_for_matching p) = Unlocated s × IsPlayMontage p

-- The count of three blocks is 1 exactly if one is there.
counted :
    (l h r : Bool)
    → ((do
      fail_if (as_count l + as_count h + as_count r == 0) no_locator
      fail_if (ltb 1 (as_count l + as_count h + as_count r)) several_locators
      ok tt)
        ≡ ok tt)
      ↔ (((l ≡ true) × (h ≡ false) × (r ≡ false))
          ⊎ ((l ≡ false) × (h ≡ true) × (r ≡ false))
          ⊎ ((l ≡ false) × (h ≡ false) × (r ≡ true)))
counted true true true = (λ e. cc e, λ e. ground (arith, e))
counted true true false = (λ e. cc e, λ e. ground (arith, e))
counted true false true = (λ e. cc e, λ e. ground (arith, e))
counted true false false = (λ e. inl (refl, refl, refl), λ e. refl)
counted false true true = (λ e. cc e, λ e. ground (arith, e))
counted false true false = (λ e. inr (inl (refl, refl, refl)), λ e. refl)
counted false false true = (λ e. inr (inr (refl, refl, refl)), λ e. refl)
counted false false false = (λ e. cc e, λ e. ground (arith, e))

check_locators_iff : (s : SignatureSpec) → (check_locators s ≡ ok tt) ↔ Located s
unfolding check_locators
check_locators_iff s = counted (is_some s.locator) (is_some s.heap_scan) (is_some s.reflection)

ExactlyOne-iff : (a b : Bool) → (both_or_neither a b ≡ false) ↔ ExactlyOne a b
ExactlyOne-iff true true = (λ e. cc e, λ e. ground (arith, e))
ExactlyOne-iff true false = (λ e. inl (refl, refl), λ e. refl)
ExactlyOne-iff false true = (λ e. inr (refl, refl), λ e. refl)
ExactlyOne-iff false false = (λ e. cc e, λ e. ground (arith, e))

any_block_iff : (s : SignatureSpec) → (any_block s ≡ false) ↔ Unlocated s
any_block_iff s = (λ e. ground (arith, e), λ e. ground (arith, e))

IsFreezeMatch-iff : (f : FreezeMatchSpec) → (check_freeze_for_matching f ≡ ok tt) ↔ IsFreezeMatch f
unfolding check_freeze_for_matching
IsFreezeMatch-iff f =
    let offsets = ExactlyOne-iff (not (is_empty f.field_offsets)) (nonblank f.field_property) in
    let class =
      ExactlyOne-iff (not (is_empty (trim f.class_path)))
        (not (is_empty f.class_name_substrings)) in
    let bytes = ExactlyOne-iff (is_some f.value) (is_some f.value_bytes) in
    (
      λ h.
          let (a, h1) =
            (check_iff
                (both_or_neither (not (is_empty f.field_offsets)) (nonblank f.field_property)) _ _
                tt).0
              h in
          let (b, h2) =
            (check_iff
                (both_or_neither (not (is_empty (trim f.class_path)))
                  (not (is_empty f.class_name_substrings)))
                _ _ tt).0
              h1 in
          let (c, h3) =
            (check_iff (both_or_neither (is_some f.value) (is_some f.value_bytes)) _ _ tt).0 h2 in
          let (d, h4) = (check_iff (bad_bytes f.value_bytes) _ _ tt).0 h3 in
          (offsets.0 a, class.0 b, bytes.0 c, d),
      λ (a, b, c, d). rw (offsets.1 a, class.1 b, bytes.1 c, d) refl,
    )

IsPlayMontage-iff : (p : PlayMontageSpec) → (check_play_anim_montage p ≡ ok tt) ↔ IsPlayMontage p
unfolding check_play_anim_montage
IsPlayMontage-iff p =
    let class =
      ExactlyOne-iff (not (is_empty (trim p.class_path)))
        (not (is_empty p.class_name_substrings)) in
    (
      λ h.
          let (a, h1) =
            (check_iff
                (both_or_neither (not (is_empty (trim p.class_path)))
                  (not (is_empty p.class_name_substrings)))
                _ _ tt).0
              h in
          let (b, h2) = (check_iff (is_empty p.montage_names) _ _ tt).0 h1 in
          let (c, h3) =
            (check_iff (not (f64_is_positive p.max_distance_u && f64_is_finite p.max_distance_u)) _
                _ tt).0
              h2 in
          (class.0 a, b, ground (arith, c), ground (arith, c)),
      λ (a, b, c, d). rw (class.1 a, b, c, d) refl,
    )

IsCall-iff : (r : Option ReflectionSpec) (t : Text) → (check_call r t ≡ ok tt) ↔ IsCall r t
IsCall-iff none t = (λ h. cc h, λ (r, e, d, p). cc e)
IsCall-iff (some r) t = (
  λ h.
      let (a, h1) = (check_iff (is_empty r.deref) _ _ tt).0 h in
      let (b, h2) = (check_iff (is_err (parse_hex_payload t)) _ _ tt).0 h1 in (r, refl, a, b),
  λ (q, e, d, p). let same : is_empty r.deref ≡ false = cc (e, d) in rw (same, p) refl,
)

-- A check, and what it is followed by.
guarded_iff :
    {P Q : Type 0} (b : Bool) (e : Reason) (k : Result Reason (Unit {0}))
    → (b ≡ false) ↔ P
    → (k ≡ ok tt) ↔ Q
    → ((fail_if b e >> k) ≡ ok tt) ↔ (P × Q)
guarded_iff b e k p q = trans_iff (check_iff b e k tt) (both_iff p q)

valued_iff :
    (s : SignatureSpec)
    → ((do fail_if (is_none s.value) value_required; check_locators s) ≡ ok tt)
      ↔ ((is_some s.value ≡ true) × Located s)
valued_iff s =
    guarded_iff (is_none s.value) value_required (check_locators s)
      (λ e. ground (arith, e), λ e. ground (arith, e)) (check_locators_iff s)

-- One block is there, and the guard that follows says which.
Located-then :
    (s : SignatureSpec) (k : Result Reason (Unit {0})) (l h r : Bool) (Q : Type 0)
    → (k ≡ ok tt → Located s → Blocks s l h r × Q)
    → (Blocks s l h r × Q → Located s × (k ≡ ok tt))
    → ((check_locators s >> k) ≡ ok tt) ↔ (Blocks s l h r × Q)
Located-then s k l h r Q there back = trans_iff (then_iff (check_locators s) k tt) (
  λ p. there p.1 ((check_locators_iff s).0 p.0),
  λ q. ((check_locators_iff s).1 (back q).0, (back q).1),
)

check_write_iff : (s : SignatureSpec) (w : WriteSpec) → (check_write s w ≡ ok tt) ↔ Suits s w
unfolding check_write
check_write_iff s one_shot = valued_iff s
check_write_iff s (freeze interval value copy) = valued_iff s
check_write_iff s (engine_action action options) =
    trans_iff (fail_if_iff (any_block s) binds_no_memory) (any_block_iff s)
check_write_iff s (set_progress_tags source call value) =
    trans_iff (fail_if_iff (any_block s) own_discovery) (any_block_iff s)
check_write_iff s (freeze_for_matching f) =
    guarded_iff (any_block s) own_discovery (check_freeze_for_matching f) (any_block_iff s)
      (IsFreezeMatch-iff f)
check_write_iff s (play_anim_montage_for_matching p) =
    guarded_iff (any_block s) own_discovery (check_play_anim_montage p) (any_block_iff s)
      (IsPlayMontage-iff p)
check_write_iff s (code_patch original patched) =
    let more = is_some s.heap_scan || is_some s.reflection in
    let guard = fail_if_iff more needs_locator in
    let both = then_iff (check_locators s) (fail_if more needs_locator) tt in
    let located = check_locators_iff s in
    (
      λ h.
          let (a, b) = both.0 h in
          let none_more : more ≡ false = guard.0 b in ground (arith, located.0 a, none_more),
      λ q. both.1 (located.1 (inl q), guard.1 (ground (arith, q))),
    )
check_write_iff s (call_instance_ufunction function params_on params_off) =
    Located-then s (check_call s.reflection params_on) false false true
      (IsCall s.reflection params_on)
      (λ k l.
        let (r, e, d, p) = (IsCall-iff s.reflection params_on).0 k in
        (ground (arith, l, e), (r, e, d, p)))
      (λ q. (inr (inr q.0), (IsCall-iff s.reflection params_on).1 q.1))
check_write_iff s (teleport_to_waypoint waypoint) =
    let guard = fail_if_iff (is_none s.reflection) needs_reflection in
    let both = then_iff (check_locators s) (fail_if (is_none s.reflection) needs_reflection) tt in
    let located = check_locators_iff s in
    (
      λ h.
          let (a, b) = both.0 h in
          let there : is_none s.reflection ≡ false = guard.0 b in
          ground (arith, located.0 a, there),
      λ q. both.1 (located.1 (inr (inr q)), guard.1 (ground (arith, q))),
    )

-- The validation of a signature succeeds exactly on the signatures that have what their strategy
-- needs: for each strategy, the blocks that must and must not be there, and its own conditions.
pub validate-Suits : (s : SignatureSpec) → (validate s ≡ ok tt) ↔ Suits s s.write
unfolding validate
validate-Suits s = elim (Result-cases (check_write s s.write)) [
  | inl (u, fine) ↦ (λ h. (check_write_iff s s.write).0 fine, λ h. rw fine refl)
  | inr (e, bad) ↦ (λ h. ground (arith, h, bad), λ h. cc (bad, (check_write_iff s s.write).1 h))
]

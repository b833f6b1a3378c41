-- ===== src/Freeze/Guard.antt =====
-- What a pass of crates/glacier-007-dll/src/freeze.rs does to the game's bytes.
use openforge_aio.Prelude.{
  ℕ, ◌≡◌, refl, sym, ◌∙◌, Bool, true, false, Option, none, some, List, [], ◌∷◌, length, Bool-cases,
  inl, inr, ◌⊎◌, All,
}
use openforge_aio.Prelude.Result.{ok, Result-cases}
use openforge_aio.Prelude.Int.{ℤ}
use openforge_aio.Memory.{Os, OsLaws, read_bytes}
use openforge_aio.Memory.Bytes.{overwrite, slice, inside, overwrite_outside, length-slice}
use openforge_aio.Memory.Laws.{read_bytes-slice, write_bytes_lem}
use openforge_aio.Freeze.Registry.{retain_active-All}
use openforge_aio.Freeze.{
  FreezeSlot, Freezes, address, plausible, retain_active, source_bytes, stored, stamp, tick_each,
  tick,
}

abbrev pub target : FreezeSlot → ℕ
target s = address s.box_va s.write_offset

-- What the slot writes: its constant, or the bytes of its source field.
unfoldable pub stamped_bytes : (ℕ → ℕ) → FreezeSlot → Option ℤ → List ℕ
stamped_bytes f s none = s.value_bytes
stamped_bytes f s (some off) = slice f (address s.box_va off) s.width

module _ (os : Os) (laws : OsLaws os) where
  -- The slot wrote, and the field was plausible before; or nothing changed.
  unfoldable pub Guarded : os.Mem → FreezeSlot → Bool × os.Mem → Type 0
  Guarded m s r =
      ((r.0 ≡ true)
        × (plausible s (slice (os.view m) (target s) 4) ≡ true)
        × ((x : ℕ)
            → os.view r.1 x
              ≡ overwrite (os.view m) (target s) (stamped_bytes (os.view m) s s.source_offset) x))
      ⊎ ((r.0 ≡ false) × ((x : ℕ) → os.view r.1 x ≡ os.view m x))

  stored_lem :
      (m : os.Mem) (s : FreezeSlot) (bytes : List ℕ)
      → plausible s (slice (os.view m) (target s) 4) ≡ true
      → bytes ≡ stamped_bytes (os.view m) s s.source_offset
      → Guarded m s (stored os m (target s) (ok bytes))
  unfolding Guarded
  stored_lem m s bytes alive same = elim (write_bytes_lem os laws m (target s) bytes) [
    | inl (written, put) ↦ inl (rw written refl, alive, λ x. rw (← same) (put x))
    | inr (e, refused, kept) ↦ inr (rw refused refl, kept)
  ]

  sourced_lem :
      (m : os.Mem) (s : FreezeSlot) (source : Option ℤ)
      → s.source_offset ≡ source
      → plausible s (slice (os.view m) (target s) 4) ≡ true
      → Guarded m s (stored os m (target s) (source_bytes os m s source))
  unfolding Guarded stamped_bytes
  sourced_lem m s none here alive = stored_lem m s s.value_bytes alive (rw here refl)
  sourced_lem m s (some off) here alive =
      elim (Result-cases (read_bytes os m (address s.box_va off) s.width)) [
        | inl (bs, got) ↦
            let (same, _) = read_bytes-slice os laws m (address s.box_va off) s.width bs got in
            rw got (stored_lem m s bs alive (rw here same))
        | inr (e, fault) ↦ rw fault (inr (refl, λ x. refl))
      ]

  -- A slot writes only where a finite float within the guard's bounds stands, and then its constant
  -- or the bytes its source field had, all of them at its target and nothing else; or it is
  -- skipped and no byte changes.
  pub stamp_lem : (m : os.Mem) (s : FreezeSlot) → Guarded m s (stamp os m s)
  unfolding Guarded stamp
  stamp_lem m s = elim (Result-cases (read_bytes os m (target s) 4)) [
    | inr (e, fault) ↦ rw fault (inr (refl, λ x. refl))
    | inl (cur, got) ↦
        let (same, _) = read_bytes-slice os laws m (target s) 4 cur got in
        elim (Bool-cases (plausible s cur)) [
          | inl alive ↦ rw (got, alive) (sourced_lem m s s.source_offset refl (rw (← same) alive))
          | inr stale ↦ rw (got, stale) (inr (refl, λ x. refl))
        ]
  ]

  -- The count of bytes the slot writes.
  abbrev pub reach : FreezeSlot → ℕ
  reach s = length (stamped_bytes (λ x. 0) s s.source_offset)

  length-stamped_bytes :
      (f : ℕ → ℕ) (s : FreezeSlot) (source : Option ℤ)
      → length (stamped_bytes f s source) ≡ length (stamped_bytes (λ x. 0) s source)
  unfolding stamped_bytes
  length-stamped_bytes f s none = refl
  length-stamped_bytes f s (some off) =
      length-slice f (address s.box_va off) s.width
      ∙ sym (length-slice (λ x. 0) (address s.box_va off) s.width)

  stamp-outside :
      (m : os.Mem) (s : FreezeSlot) (x : ℕ)
      → inside (target s) (reach s) x ≡ false
      → os.view (stamp os m s).1 x ≡ os.view m x
  unfolding Guarded
  stamp-outside m s x away = elim (stamp_lem m s) [
    | inl (_, _, put) ↦
        put x
        ∙ overwrite_outside (os.view m) (target s) (stamped_bytes (os.view m) s s.source_offset) x
            (rw (length-stamped_bytes (os.view m) s s.source_offset) away)
    | inr (_, kept) ↦ kept x
  ]

  tick_each-outside :
      (m : os.Mem) (ss : List FreezeSlot) (x : ℕ)
      → All (λ s. inside (target s) (reach s) x ≡ false) ss
      → os.view (tick_each os m ss).1 x ≡ os.view m x
  unfolding tick_each
  tick_each-outside m [] x away = refl
  tick_each-outside m (s ∷ ss) x away =
      tick_each-outside (stamp os m s).1 ss x away.1 ∙ stamp-outside m s x away.0

  -- A pass changes no byte outside the ranges that its active slots write.
  pub tick-outside :
      (m : os.Mem) (reg : Freezes) (x : ℕ)
      → All (λ s. s.active ≡ true → inside (target s) (reach s) x ≡ false) reg.slots
      → os.view (tick os m reg).1 x ≡ os.view m x
  unfolding tick
  tick-outside m reg x away =
      tick_each-outside m (retain_active reg.slots) x
        (retain_active-All (λ s. inside (target s) (reach s) x ≡ false) reg.slots away)

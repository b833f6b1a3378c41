-- ===== src/CodePatch/Apply.antt =====
-- What one request of crates/glacier-007-dll/src/code_patch.rs does to the bytes and the registry.
use openforge_aio.Prelude.{
  ℕ, ◌<◌, ◌≡◌, refl, ap, sym, ◌∙◌, true, Option, none, some, List, [], length, ◌==◌, arith,
  Bool-cases, inl, inr, ◌⊎◌,
}
use openforge_aio.Prelude.Result.{ok, err, Result-cases}
use openforge_aio.Prelude.Dict.{insert, remove, nat_eq, text_eq_iff}
use openforge_aio.Prelude.Text.{text_eq}
use openforge_aio.Memory.{Os, OsLaws, ReadError, failed, read_bytes}
use openforge_aio.Memory.Bytes.{overwrite, slice, overwrite-ext}
use openforge_aio.Memory.Laws.{nil_of, read_bytes-slice, write_bytes_lem}
use openforge_aio.CodePatch.{
  PatchError, write_failed, write_ok, code_patch_error, restore_patch_error, page_execute_readwrite,
  unprotected, write_bytes_at, verify, apply, Patcher, code_patch, restore_patch,
}

module _ (os : Os) (laws : OsLaws os) where
  -- The bytes of `m'` are those of `m`.
  abbrev pub SameBytes : os.Mem → os.Mem → Type 0
  SameBytes m m' = (x : ℕ) → os.view m' x ≡ os.view m x

  -- The bytes of `m'` are those of `m` with `bytes` put at `addr`.
  abbrev pub Overwritten : os.Mem → ℕ → List ℕ → os.Mem → Type 0
  Overwritten m addr bytes m' = (x : ℕ) → os.view m' x ≡ overwrite (os.view m) addr bytes x

  unprotected_lem :
      (m₀ m : os.Mem) (addr : ℕ) (bytes : List ℕ) (old : Option ℕ)
      → SameBytes m₀ m
      → (((unprotected os addr bytes old m).0 ≡ ok tt)
          × Overwritten m₀ addr bytes (unprotected os addr bytes old m).1)
        ⊎ ((e : ReadError) × ((unprotected os addr bytes old m).0 ≡ err e)
            × SameBytes m₀ (unprotected os addr bytes old m).1)
  unprotected_lem m₀ m addr bytes none same = inr (failed, refl, same)
  unprotected_lem m₀ m addr bytes (some old) same = elim (write_bytes_lem os laws m addr bytes) [
    | inl (written, stored) ↦ inl (
      rw written refl,
      λ x. rw written (
          laws.flush_lem _ addr (length bytes) x
          ∙ laws.protect_lem _ addr (length bytes) old x
          ∙ stored x
          ∙ overwrite-ext (os.view m) (os.view m₀) addr bytes x (same x)),
    )
    | inr (e, refused, kept) ↦ inr (
      e,
      rw refused refl,
      λ x. rw refused (laws.protect_lem _ addr (length bytes) old x ∙ kept x ∙ same x),
    )
  ]

  -- The bytes are all stored, or none is and there is an error.
  pub write_bytes_at_lem :
      (m : os.Mem) (addr : ℕ) (bytes : List ℕ)
      → (((write_bytes_at os m addr bytes).0 ≡ ok tt)
          × Overwritten m addr bytes (write_bytes_at os m addr bytes).1)
        ⊎ ((e : ReadError) × ((write_bytes_at os m addr bytes).0 ≡ err e)
            × SameBytes m (write_bytes_at os m addr bytes).1)
  unfolding write_bytes_at
  write_bytes_at_lem m addr bytes = elim (Bool-cases (length bytes == 0)) [
    | inl empty ↦
        let nothing : bytes ≡ [] = nil_of bytes (ground arith) in
        inl (rw empty refl, λ x. rw (empty, nothing) (unfold overwrite in refl))
    | inr filled ↦ rw filled (
        unprotected_lem m (os.protect m addr (length bytes) page_execute_readwrite).1 addr bytes
          (os.protect m addr (length bytes) page_execute_readwrite).0
          (laws.protect_lem m addr (length bytes) page_execute_readwrite))
  ]

  verify_lem :
      (m : os.Mem) (addr : ℕ) (original replacement : List ℕ)
      → verify os m addr original replacement ≡ ok tt
      → (0 < length replacement)
        × (length original ≡ length replacement)
        × (original ≡ slice (os.view m) addr (length original))
  unfolding verify
  verify_lem m addr original replacement h =
      elim (Result-cases (read_bytes os m addr (length replacement))) [
        | inr (e, fault) ↦ ground (arith, fault)
        | inl (actual, got) ↦
            let (bytes, len) = read_bytes-slice os laws m addr (length replacement) actual got in
            let filled : 0 < length replacement = ground (arith, got) in
            let lengths : length original ≡ length replacement = ground (arith, got) in
            let equal : text_eq actual original ≡ true = ground (arith, got) in
            let same = (text_eq_iff actual original).0 equal in
            (filled, lengths, sym same ∙ bytes ∙ ap (slice (os.view m) addr) (sym lengths))
      ]

  -- A patch either goes in whole, over bytes that were verified to be `original`, and is
  -- registered under its address; or an error is reported, and no byte and no entry has changed.
  pub code_patch_lem :
      (s : Patcher os) (addr : ℕ) (original patched : List ℕ)
      → (((code_patch os s addr original patched).0 ≡ write_ok)
          × (original ≡ slice (os.view s.mem) addr (length original))
          × (0 < length original)
          × (length patched ≡ length original)
          × Overwritten s.mem addr patched (code_patch os s addr original patched).1.mem
          × ((code_patch os s addr original patched).1.patches ≡ insert addr original s.patches))
        ⊎ ((e : PatchError) × ((code_patch os s addr original patched).0 ≡ code_patch_error addr e)
            × SameBytes s.mem (code_patch os s addr original patched).1.mem
            × ((code_patch os s addr original patched).1.patches ≡ s.patches))
  unfolding code_patch apply
  code_patch_lem s addr original patched =
      elim (Result-cases (verify os s.mem addr original patched)) [
        | inr (e, refused) ↦ inr (e, rw refused refl, λ x. rw refused refl, rw refused refl)
        | inl (u, verified) ↦
            let (filled, lengths, same) = verify_lem s.mem addr original patched verified in
            elim (write_bytes_at_lem s.mem addr patched) [
              | inl (written, stored) ↦ inl (
                rw (verified, written) refl,
                same,
                omega arith,
                sym lengths,
                λ x. rw (verified, written) (stored x),
                rw (verified, written) refl,
              )
              | inr (e, fault, kept) ↦ inr (
                write_failed e,
                rw (verified, fault) refl,
                λ x. rw (verified, fault) (kept x),
                rw (verified, fault) refl,
              )
            ]
      ]

  -- A restore puts its bytes back and forgets the address, or reports an error and changes
  -- neither a byte nor an entry.
  pub restore_patch_lem :
      (s : Patcher os) (addr : ℕ) (original : List ℕ)
      → (((restore_patch os s addr original).0 ≡ write_ok)
          × Overwritten s.mem addr original (restore_patch os s addr original).1.mem
          × ((restore_patch os s addr original).1.patches ≡ remove addr s.patches))
        ⊎ ((e : ReadError) × ((restore_patch os s addr original).0 ≡ restore_patch_error addr e)
            × SameBytes s.mem (restore_patch os s addr original).1.mem
            × ((restore_patch os s addr original).1.patches ≡ s.patches))
  unfolding restore_patch
  restore_patch_lem s addr original = elim (write_bytes_at_lem s.mem addr original) [
    | inl (written, stored) ↦ inl (rw written refl, λ x. rw written (stored x), rw written refl)
    | inr (e, fault, kept) ↦ inr (e, rw fault refl, λ x. rw fault (kept x), rw fault refl)
  ]

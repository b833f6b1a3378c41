-- ===== src/Memory/Laws.antt =====
-- What the calls of crates/dll-common/src/local_reader.rs do to the bytes, from the laws of `Os`.
use openforge_aio.Prelude.{
  ℕ, ◌≡◌, refl, ap, sym, ◌∙◌, List, [], ◌∷◌, length, ◌==◌, arith, Bool-cases, Option-cases, inl,
  inr, ◌⊎◌,
}
use openforge_aio.Prelude.Result.{ok, err}
use openforge_aio.Memory.{
  Os, OsLaws, ReadError, failed, bad_pointer, looks_readable, read_bytes, write_bytes,
}
use openforge_aio.Memory.Bytes.{overwrite, slice}

pub nil_of : (bs : List ℕ) → length bs ≡ 0 → bs ≡ []
nil_of [] h = refl
nil_of (b ∷ bs) h = absurd (omega arith)

module _ (os : Os) (laws : OsLaws os) where
  -- A read that succeeds returns exactly the bytes of the range.
  pub read_bytes-slice :
      (m : os.Mem) (addr len : ℕ) (bs : List ℕ)
      → read_bytes os m addr len ≡ ok bs
      → (bs ≡ slice (os.view m) addr len) × (length bs ≡ len)
  unfolding read_bytes
  read_bytes-slice m addr len bs h = elim (Bool-cases (len == 0)) [
    | inl empty ↦
        let zero_len : len ≡ 0 = ground arith in
        let nothing : bs ≡ [] = ground (arith, empty) in
        (
          nothing ∙ sym (ap (slice (os.view m) addr) zero_len ∙ unfold slice in refl),
          ap length nothing ∙ sym zero_len,
        )
    | inr filled ↦ elim (Bool-cases (looks_readable addr)) [
      | inr refused ↦ ground (arith, filled, refused)
      | inl fine ↦ elim (Option-cases (os.read m addr len)) [
        | inl fault ↦ ground (arith, filled, fine, fault)
        | inr (cs, got) ↦
            let full : length cs ≡ len = ground (arith, filled, fine, got) in
            let same : cs ≡ bs = ground (arith, filled, fine, got) in
            (
              sym same ∙ laws.read_lem m addr len cs got ∙ ap (slice (os.view m) addr) full,
              ap length (sym same) ∙ full,
            )
      ]
    ]
  ]

  -- A write stores all bytes and nothing else, or reports an error and leaves every byte alone.
  pub write_bytes_lem :
      (m : os.Mem) (addr : ℕ) (bs : List ℕ)
      → (((write_bytes os m addr bs).0 ≡ ok tt)
          × ((x : ℕ) → os.view (write_bytes os m addr bs).1 x ≡ overwrite (os.view m) addr bs x))
        ⊎ ((e : ReadError) × ((write_bytes os m addr bs).0 ≡ err e)
            × ((x : ℕ) → os.view (write_bytes os m addr bs).1 x ≡ os.view m x))
  unfolding write_bytes
  write_bytes_lem m addr bs = elim (Bool-cases (length bs == 0)) [
    | inl empty ↦
        let nothing : bs ≡ [] = nil_of bs (ground arith) in
        inl (rw empty refl, λ x. rw (empty, nothing) (unfold overwrite in refl))
    | inr filled ↦ elim (Bool-cases (looks_readable addr)) [
      | inr refused ↦ inr (bad_pointer, rw (filled, refused) refl, λ x. rw (filled, refused) refl)
      | inl fine ↦ elim (Option-cases (os.write m addr bs).0) [
        | inl fault ↦ inr (
          failed,
          rw (filled, fine, fault) refl,
          λ x. rw (filled, fine) (laws.write_none m addr bs fault x),
        )
        | inr (put, done) ↦
            let (full, bytes) = laws.write_some m addr bs put done in
            inl (ground (arith, filled, fine, done, full), λ x. rw (filled, fine) (bytes x))
      ]
    ]
  ]

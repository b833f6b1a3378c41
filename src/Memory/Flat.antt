-- ===== src/Memory/Flat.antt =====
-- An address space in which the bytes from `lo` up to `hi` are mapped: it shows that the laws of
-- `Os` can hold, and serves the concrete runs.
use openforge_aio.Prelude.{
  ℕ, ◌+◌, ◌≡◌, refl, Bool, ◌&&◌, none, some, length, leb, if◌then◌else◌, arith, Bool-cases, inl,
  inr, ap, sym, ◌∙◌,
}
use openforge_aio.Memory.{Os, OsLaws}
use openforge_aio.Memory.Bytes.{overwrite, slice, length-slice}

abbrev mapped : ℕ → ℕ → ℕ → ℕ → Bool
mapped lo hi addr n = leb lo addr && leb (addr + n) hi

abbrev pub flat : ℕ → ℕ → Os
flat lo hi = record {
  Mem = ℕ → ℕ;
  read = λ m addr n. if mapped lo hi addr n then some (slice m addr n) else none;
  write = λ m addr bs.
      if mapped lo hi addr (length bs) then (some (length bs), overwrite m addr bs) else (none, m);
  protect = λ m addr n flags. if mapped lo hi addr n then (some 0x20, m) else (none, m);
  flush = λ m addr n. m;
  view = λ m. m;
}

pub flat-OsLaws : (lo hi : ℕ) → OsLaws (flat lo hi)
flat-OsLaws lo hi = record {
  read_lem = λ m addr n bs h. elim (Bool-cases (mapped lo hi addr n)) [
    | inl room ↦
        let same : slice m addr n ≡ bs = ground (arith, room) in
        sym same ∙ ap (slice m addr) (sym (length-slice m addr n) ∙ ap length same)
    | inr none_there ↦ ground (arith, none_there)
  ];
  write_some = λ m addr bs put h. elim (Bool-cases (mapped lo hi addr (length bs))) [
    | inl room ↦ (ground (arith, room), λ x. rw room refl)
    | inr none_there ↦ ground (arith, none_there)
  ];
  write_none = λ m addr bs h x. elim (Bool-cases (mapped lo hi addr (length bs))) [
    | inl room ↦ ground (arith, room)
    | inr none_there ↦ rw none_there refl
  ];
  protect_lem = λ m addr n flags x. elim (Bool-cases (mapped lo hi addr n)) [
    | inl room ↦ rw room refl
    | inr none_there ↦ rw none_there refl
  ];
  flush_lem = λ m addr n x. refl;
}

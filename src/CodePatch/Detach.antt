-- ===== src/CodePatch/Detach.antt =====
-- What a client's disconnect leaves behind: the registry of
-- crates/glacier-007-dll/src/code_patch.rs against the bytes that the game had at first.
use openforge_aio.Prelude.{
  ℕ, ◌≡◌, refl, ap, ap₂, sym, ◌∙◌, subst, Bool, true, false, ◌||◌, List, [], ◌∷◌, length, ◌==◌,
  if◌then◌else◌, arith, Bool-cases, inl, inr, ◌⊎◌, In, In-head, In-tail, In-cases, In-unless,
  not-In-nil, ◌↔◌,
}
use openforge_aio.Prelude.Result.{ok}
use openforge_aio.Prelude.Dict.{Dict, insert, remove, nat_eq}
use openforge_aio.Memory.{Os, OsLaws}
use openforge_aio.Memory.Bytes.{
  overwrite, slice, inside, overwrite-slice, overwrite_outside, slice-ext_inside,
}
use openforge_aio.CodePatch.{
  write_bytes_at, Patcher, code_patch, restore_patch, restore_each, restore_all,
}
use openforge_aio.CodePatch.Apply.{write_bytes_at_lem, code_patch_lem, restore_patch_lem}

-- Some entry's range holds `x`.
abbrev pub covers : Dict ℕ (List ℕ) → ℕ → Bool
covers [] x = false
covers ((addr, original) ∷ d) x = inside addr (length original) x || covers d x

-- Every entry of the registry holds the bytes that the game had at first, those of `first`, in
-- its range, and outside these ranges the game still has them.
pub record Tracks (first : ℕ → ℕ) (view : ℕ → ℕ) (d : Dict ℕ (List ℕ)) : Type 0 where
  pub originals :
      (addr : ℕ) (original : List ℕ)
      → In (addr, original) d
      → original ≡ slice first addr (length original)
  pub elsewhere : (x : ℕ) → covers d x ≡ false → view x ≡ first x

-- The entries of a registry without those of one address.
In-remove : (addr : ℕ) (d : Dict ℕ (List ℕ)) {p : ℕ × List ℕ} → In p (remove addr d) → In p d
unfolding remove
In-remove addr [] m = m
In-remove addr ((a, o) ∷ d) m = elim (In-unless (a == addr) (a, o) (remove addr d) m) [
  | inl (_, e) ↦ (0, cc e)
  | inr later ↦ In-tail (a, o) d (In-remove addr d later)
]

-- Taking out entries of an address that no entry covers changes no coverage.
covers-remove :
    (addr : ℕ) (d : Dict ℕ (List ℕ)) (x : ℕ)
    → covers d addr ≡ false
    → covers (remove addr d) x ≡ covers d x
unfolding remove
covers-remove addr [] x h = refl
covers-remove addr ((a, o) ∷ d) x h = ground (arith, covers-remove addr d x)

-- What loses its coverage when an address is taken out was covered by an entry of that address.
covers_lost :
    (addr : ℕ) (d : Dict ℕ (List ℕ)) (x : ℕ)
    → covers d x ≡ true
    → covers (remove addr d) x ≡ false
    → (o : List ℕ) × In (addr, o) d × (inside addr (length o) x ≡ true)
unfolding remove
covers_lost addr [] x h lost = cc h
covers_lost addr ((a, o) ∷ d) x h lost = elim (Bool-cases (a == addr)) [
  | inl same ↦
      let address : a ≡ addr = ground arith in
      elim (Bool-cases (inside a (length o) x)) [
        | inl here ↦ (o, (0, rw address refl), rw address at here)
        | inr away ↦
            let (o', at, within) = covers_lost addr d x (ground arith) (ground arith) in
            (o', In-tail (a, o) d at, within)
      ]
  | inr other ↦
      let (o', at, within) = covers_lost addr d x (ground arith) (ground arith) in
      (o', In-tail (a, o) d at, within)
]

In-insert :
    (addr : ℕ) (original : List ℕ) (d : Dict ℕ (List ℕ)) (a : ℕ) (o : List ℕ)
    → In (a, o) (insert addr original d)
    → ((addr ≡ a) × (original ≡ o)) ⊎ In (a, o) d
unfolding insert
In-insert addr original d a o m = elim (In-cases (addr, original) (remove addr d) m) [
  | inl e ↦ inl (cc e, cc e)
  | inr later ↦ inr (In-remove addr d later)
]

covers-insert :
    (addr : ℕ) (original : List ℕ) (d : Dict ℕ (List ℕ)) (x : ℕ)
    → covers (insert addr original d) x ≡ false
    → covers d addr ≡ false
    → (inside addr (length original) x ≡ false) × (covers d x ≡ false)
unfolding insert
covers-insert addr original d x away free =
    (ground arith, sym (covers-remove addr d x free) ∙ ground arith)

covers_entry :
    (d : Dict ℕ (List ℕ)) (x : ℕ)
    → covers d x ≡ true
    → (a : ℕ) × (o : List ℕ) × In (a, o) d × (inside a (length o) x ≡ true)
covers_entry [] x h = cc h
covers_entry ((a, o) ∷ d) x h = elim (Bool-cases (inside a (length o) x)) [
  | inl here ↦ (a, o, In-head (a, o) d, here)
  | inr away ↦
      let (a', o', at, within) = covers_entry d x (ground arith) in
      (a', o', In-tail (a, o) d at, within)
]

entry_covers :
    (d : Dict ℕ (List ℕ)) (x a : ℕ) (o : List ℕ)
    → In (a, o) d
    → inside a (length o) x ≡ true
    → covers d x ≡ true
entry_covers [] x a o at within = absurd (not-In-nil at)
entry_covers ((b, p) ∷ d) x a o at within = elim (In-cases (b, p) d at) [
  | inl e ↦
      let here : inside b (length p) x ≡ true =
        ap₂ (λ c q. inside c (length q) x) (cc e) (cc e) ∙ within in
      rw here refl
  | inr later ↦ ground (arith, entry_covers d x a o later within)
]

covers_same :
    (d d' : Dict ℕ (List ℕ)) (x : ℕ)
    → ((p : ℕ × List ℕ) → In p d ↔ In p d')
    → covers d x ≡ false
    → covers d' x ≡ false
covers_same d d' x same free = elim (Bool-cases (covers d' x)) [
  | inr done ↦ done
  | inl covered ↦
      let (a, o, at, within) = covers_entry d' x covered in
      cc (free, entry_covers d x a o ((same (a, o)).1 at) within)
]

module _ (os : Os) (laws : OsLaws os) (first : ℕ → ℕ) where
  abbrev pub PatcherTracks : Patcher os → Type 0
  PatcherTracks s = Tracks first (os.view s.mem) s.patches

  -- A request whose range meets no patched byte keeps the registry true, whatever its outcome.
  pub code_patch-Tracks :
      (s : Patcher os) (addr : ℕ) (original patched : List ℕ)
      → PatcherTracks s
      → ((x : ℕ) → inside addr (length original) x ≡ true → covers s.patches x ≡ false)
      → PatcherTracks (code_patch os s addr original patched).1
  code_patch-Tracks s addr original patched t fresh =
      elim (code_patch_lem os laws s addr original patched) [
        | inr (e, refused, kept, entries) ↦ record {
          originals = λ a o m. t.originals a o (subst (In (a, o)) entries m);
          elsewhere = λ x away. kept x ∙ t.elsewhere x (ap (λ d. covers d x) (sym entries) ∙ away);
        }
        | inl (done, same, filled, lengths, stored, entries) ↦
            let free : covers s.patches addr ≡ false = fresh addr (ground arith) in
            record {
              originals = λ a o m.
                  elim (In-insert addr original s.patches a o (subst (In (a, o)) entries m)) [
                    | inr old ↦ t.originals a o old
                    | inl (address, bytes) ↦
                        let untouched =
                          slice-ext_inside (os.view s.mem) first addr (length original)
                            (λ x within. t.elsewhere x (fresh x within)) in
                        sym bytes ∙ same ∙ untouched ∙ ap₂ (slice first) address (ap length bytes)
                  ];
              elsewhere = λ x away.
                  let (outside, uncovered) =
                    covers-insert addr original s.patches x
                      (ap (λ d. covers d x) (sym entries) ∙ away) free in
                  stored x
                  ∙ overwrite_outside (os.view s.mem) addr patched x (rw lengths outside)
                  ∙ t.elsewhere x uncovered;
            }
      ]

  -- A restore that gives the bytes that are registered for its address, and no others are, keeps
  -- the registry true, whatever its outcome.
  pub restore_patch-Tracks :
      (s : Patcher os) (addr : ℕ) (original : List ℕ)
      → PatcherTracks s
      → In (addr, original) s.patches
      → ((o : List ℕ) → In (addr, o) s.patches → o ≡ original)
      → PatcherTracks (restore_patch os s addr original).1
  restore_patch-Tracks s addr original t here only =
      elim (restore_patch_lem os laws s addr original) [
        | inr (e, refused, kept, entries) ↦ record {
          originals = λ a o m. t.originals a o (subst (In (a, o)) entries m);
          elsewhere = λ x away. kept x ∙ t.elsewhere x (ap (λ d. covers d x) (sym entries) ∙ away);
        }
        | inl (done, stored, entries) ↦ record {
          originals =
              λ a o m. t.originals a o (In-remove addr s.patches (subst (In (a, o)) entries m));
          elsewhere = λ x away. stored x ∙ restored x (ap (λ d. covers d x) (sym entries) ∙ away);
        }
      ]
    where
      restored :
          (x : ℕ)
          → covers (remove addr s.patches) x ≡ false
          → overwrite (os.view s.mem) addr original x ≡ first x
      restored x away =
          ap (λ o. overwrite (os.view s.mem) addr o x) (t.originals addr original here)
          ∙ overwrite-slice first (os.view s.mem) addr (length original) x
          ∙ elim (Bool-cases (inside addr (length original) x)) [
            | inl within ↦ rw within refl
            | inr outside ↦ rw outside (elim (Bool-cases (covers s.patches x)) [
              | inr free ↦ t.elsewhere x free
              | inl covered ↦
                  let (o, at, within) = covers_lost addr s.patches x covered away in
                  let bytes = only o at in
                  cc (within, outside, ap (λ l. inside addr (length l) x) bytes)
            ])
          ]

  -- Every write of the loop succeeds.
  abbrev pub AllRestored : os.Mem → List (ℕ × List ℕ) → Type 0
  AllRestored m [] = Unit
  AllRestored m ((addr, original) ∷ rest) =
      ((write_bytes_at os m addr original).0 ≡ ok tt)
      × AllRestored (write_bytes_at os m addr original).1 rest

  restored_write :
      (m : os.Mem) (addr : ℕ) (original : List ℕ) (x : ℕ)
      → (write_bytes_at os m addr original).0 ≡ ok tt
      → original ≡ slice first addr (length original)
      → os.view (write_bytes_at os m addr original).1 x
        ≡ (if inside addr (length original) x then first x else os.view m x)
  restored_write m addr original x written bytes =
      elim (write_bytes_at_lem os laws m addr original) [
        | inr (e, fault, kept) ↦ cc
        | inl (done, stored) ↦
            stored x
            ∙ ap (λ o. overwrite (os.view m) addr o x) bytes
            ∙ overwrite-slice first (os.view m) addr (length original) x
      ]

  restore_each_lem :
      (m : os.Mem) (d : List (ℕ × List ℕ)) (x : ℕ)
      → AllRestored m d
      → ((a : ℕ) (o : List ℕ) → In (a, o) d → o ≡ slice first a (length o))
      → os.view (restore_each os m d) x ≡ (if covers d x then first x else os.view m x)
  unfolding restore_each
  restore_each_lem m [] x all bytes = refl
  restore_each_lem m ((addr, original) ∷ rest) x all bytes =
      restore_each_lem (write_bytes_at os m addr original).1 rest x all.1
        (λ a o at. bytes a o (In-tail (addr, original) rest at))
      ∙ ground (
        arith,
        restored_write m addr original x all.0
            (bytes addr original (In-head (addr, original) rest)),
      )

  -- Where the registry is true, a disconnect whose writes all succeed gives the game back every
  -- byte that it had at first, in whatever order the entries are drained; and nothing is left
  -- registered.
  pub restore_all-first :
      (s : Patcher os) (drained : List (ℕ × List ℕ))
      → PatcherTracks s
      → ((p : ℕ × List ℕ) → In p drained ↔ In p s.patches)
      → AllRestored s.mem drained
      → ((x : ℕ) → os.view (restore_all os s drained).mem x ≡ first x)
        × ((restore_all os s drained).patches ≡ [])
  unfolding restore_all
  restore_all-first s drained t same all = (
    λ x.
        restore_each_lem s.mem drained x all (λ a o at. t.originals a o ((same (a, o)).0 at))
        ∙ elim (Bool-cases (covers drained x)) [
          | inl covered ↦ rw covered refl
          | inr free ↦ rw free (t.elsewhere x (covers_same drained s.patches x same free))
        ],
    refl,
  )

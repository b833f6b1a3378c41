-- ===== src/Feature/Stamped.antt =====
-- However long a freeze of several objects in crates/runtime/src/feature.rs runs, its restore brings
-- back the bytes from before it.
use openforge_aio.Prelude.{
  ℕ, ◌≡◌, ◌≢◌, refl, ap, subst, ◌∙◌, true, false, Option, none, some, List, [], ◌∷◌, ◌++◌, length,
  ◌==◌, arith, Bool-cases, Option-cases, inl, inr, All,
}
use openforge_aio.Prelude.Result.{Result, ok, err, Result-cases}
use openforge_aio.Prelude.Dict.{Dict, lookup, insert, remove, nat_eq}
use openforge_aio.Memory.Bytes.{length-slice, overwrite, overwrite-slice, inside}
use openforge_aio.Ctx.{Ctx, CtxLaws, Frame, Error}
use openforge_aio.Signature.{FreezeMatchSpec, freeze_for_matching}
use openforge_aio.Feature.Restored.{covered}
use openforge_aio.Feature.Snapshot.{restore}
use openforge_aio.Feature.Matching.{Feature, stamp, stamp_all, write_originals, restore_matching}

abbrev pub keys : Dict ℕ (List ℕ) → List ℕ
keys [] = []
keys ((k, v) ∷ d) = k ∷ keys d

remove_absent : (k : ℕ) (d : Dict ℕ (List ℕ)) → lookup k d ≡ none → remove k d ≡ d
unfolding remove lookup
remove_absent k [] h = refl
remove_absent k ((j, v) ∷ d) h = elim (Bool-cases (j == k)) [
  | inl it ↦ ground (arith, it, h)
  | inr other ↦ rw other (ap (λ r. (j, v) ∷ r) (remove_absent k d (ground (arith, other, h))))
]

uncovered_key :
    (n k x : ℕ) (d : Dict ℕ (List ℕ)) (v : List ℕ)
    → lookup k d ≡ some v
    → covered n (keys d) x ≡ false
    → inside k n x ≡ false
unfolding lookup
uncovered_key n k x [] v h free = cc h
uncovered_key n k x ((j, w) ∷ d) v h free = elim (Bool-cases (j == k)) [
  | inl it ↦
      let same : j ≡ k = ground (arith, it) in
      subst (λ a. inside a n x ≡ false) same (ground (arith, free))
  | inr other ↦ uncovered_key n k x d v (ground (arith, other, h)) (ground (arith, free))
]

-- The ranges of `n` bytes at different addresses have no byte in common.
abbrev pub Apart : ℕ → (ℕ → Type 0) → Type 0
Apart n Target =
    (a b x : ℕ) → Target a → Target b → a ≢ b → inside a n x ≡ true → inside b n x ≡ false

covered-append :
    (n : ℕ) (first later : List ℕ) (x : ℕ)
    → covered n (first ++ later) x ≡ false
    → (covered n first x ≡ false) × (covered n later x ≡ false)
covered-append n [] later x h = (refl, h)
covered-append n (a ∷ first) later x h =
    let rest = covered-append n first later x (ground (arith, h)) in
    (ground (arith, h, rest.0), rest.1)

module _ (ctx : Ctx) where
  abbrev pub missed : ℕ → Option (List ℕ) → Result Error (List ℕ) → List ℕ
  missed addr none (err e) = addr ∷ []
  missed addr none (ok buf) = []
  missed addr (some bytes) r = []

  -- The addresses that are stamped while their original is neither known nor readable.
  abbrev pub unread : List ℕ → List ℕ → Feature ctx → List ℕ
  unread payload [] s = []
  unread payload (addr ∷ addrs) s =
      missed addr (lookup addr s.freeze_originals) (ctx.read_bytes s.proc addr (length payload))
      ++ unread payload addrs (stamp ctx payload addr s)

  abbrev pub refused : ℕ → Result Error (Unit {0}) → List ℕ
  refused addr (err e) = addr ∷ []
  refused addr (ok u) = []

  -- The addresses whose original cannot be written back.
  abbrev pub stuck : Dict ℕ (List ℕ) → ctx.Proc → List ℕ
  stuck [] p = []
  stuck ((addr, bytes) ∷ d) p =
      refused addr (ctx.write_bytes p addr bytes).0 ++ stuck d (ctx.write_bytes p addr bytes).1

module _ (ctx : Ctx) (laws : CtxLaws ctx) (frame : Frame ctx) (p : ctx.Proc) (payload : List ℕ)
    (Target : ℕ → Type 0) (apart : Apart (length payload) Target) (exempt : List ℕ) where
  -- The bytes go back to what `p` has there, but for the exempt ranges.
  abbrev IsOriginal : ℕ × List ℕ → Type 0
  IsOriginal e =
      (length e.1 ≡ length payload)
      × ((f : ℕ → ℕ) (x : ℕ)
          → inside e.0 (length payload) x ≡ true
          → covered (length payload) exempt x ≡ false
          → overwrite f e.0 e.1 x ≡ ctx.view p x)

  -- Every original is one of a target, and what lies outside them is as in `p`.
  abbrev Kept : Feature ctx → Type 0
  Kept s =
      All (λ e. Target e.0 × IsOriginal e) s.freeze_originals
      × ((x : ℕ)
          → covered (length payload) (keys s.freeze_originals) x ≡ false
          → covered (length payload) exempt x ≡ false
          → ctx.view s.proc x ≡ ctx.view p x)

  uncovered-Target :
      (addr x : ℕ) (d : Dict ℕ (List ℕ))
      → All (λ e. Target e.0 × IsOriginal e) d
      → Target addr
      → lookup addr d ≡ none
      → inside addr (length payload) x ≡ true
      → covered (length payload) (keys d) x ≡ false
  unfolding lookup
  uncovered-Target addr x [] h t gone in_it = refl
  uncovered-Target addr x ((j, v) ∷ d) h t gone in_it = elim (Bool-cases (j == addr)) [
    | inl it ↦ ground (arith, it, gone)
    | inr other ↦
        let differ : addr ≢ j = ground (arith, other) in
        let first = apart addr j x t h.0.0 differ in_it in
        let rest = uncovered-Target addr x d h.1 t (ground (arith, other, gone)) in_it in
        ground (arith, first, rest)
  ]

  captured-IsOriginal :
      (addr : ℕ) (buf : List ℕ) (s : Feature ctx)
      → Target addr
      → Kept s
      → lookup addr s.freeze_originals ≡ none
      → ctx.read_bytes s.proc addr (length payload) ≡ ok buf
      → IsOriginal (addr, buf)
  captured-IsOriginal addr buf s t (known, same) gone read =
      let copied = laws.read_lem s.proc addr (length payload) buf read in
      (
        ap length copied ∙ length-slice (ctx.view s.proc) addr (length payload),
        λ f x in_it free.
            ap (λ bs. overwrite f addr bs x) copied
            ∙ overwrite-slice (ctx.view s.proc) f addr (length payload) x
            ∙ rw in_it
                (same x (uncovered-Target addr x s.freeze_originals known t gone in_it) free),
      )

  stamp-Kept :
      (addr : ℕ) (s : Feature ctx)
      → Target addr
      → ((x : ℕ)
          → covered (length payload) exempt x ≡ false
          → covered
              (length payload)
              (missed ctx addr
                (lookup addr s.freeze_originals)
                (ctx.read_bytes s.proc addr (length payload)))
              x
            ≡ false)
      → Kept s
      → Kept (stamp ctx payload addr s)
  unfolding stamp
  stamp-Kept addr s t lost (known, same) = elim (Option-cases (lookup addr s.freeze_originals)) [
    | inr (bytes, there) ↦ rw there (
      known,
      λ x free spared.
          frame s.proc addr payload x
            (uncovered_key (length payload) addr x s.freeze_originals bytes there free)
          ∙ same x free spared,
    )
    | inl gone ↦ elim (Result-cases (ctx.read_bytes s.proc addr (length payload))) [
      | inr (e, failed) ↦
          let lost' = rw (gone, failed) at lost in
          rw (gone, failed)
            (
              known,
              λ x free spared.
                  let out : inside addr (length payload) x ≡ false =
                    let l = lost' x spared in ground (arith, l) in
                  frame s.proc addr payload x out ∙ same x free spared,
            )
      | inl (buf, read) ↦
          let alone : insert addr buf s.freeze_originals ≡ (addr, buf) ∷ s.freeze_originals =
            unfold insert in
            ap (λ r. (addr, buf) ∷ r) (remove_absent addr s.freeze_originals gone) in
          let original = captured-IsOriginal addr buf s t (known, same) gone read in
          rw (gone, read, alone)
            (
              ((t, original), known),
              λ x free spared.
                  frame s.proc addr payload x (ground (arith, free))
                  ∙ same x (ground (arith, free)) spared,
            )
    ]
  ]

  stamp_all-Kept :
      (addrs : List ℕ) (s : Feature ctx)
      → All Target addrs
      → ((x : ℕ)
          → covered (length payload) exempt x ≡ false
          → covered (length payload) (unread ctx payload addrs s) x ≡ false)
      → Kept s
      → Kept (stamp_all ctx payload addrs s)
  unfolding stamp_all
  stamp_all-Kept [] s ts lost h = h
  stamp_all-Kept (addr ∷ addrs) s ts lost h =
      let first =
        missed ctx addr (lookup addr s.freeze_originals)
          (ctx.read_bytes s.proc addr (length payload)) in
      let later = unread ctx payload addrs (stamp ctx payload addr s) in
      stamp_all-Kept addrs (stamp ctx payload addr s) ts.1
        (λ x spared. (covered-append (length payload) first later x (lost x spared)).1)
        (stamp-Kept addr s ts.0
          (λ x spared. (covered-append (length payload) first later x (lost x spared)).0) h)

  write_originals_lem :
      (x : ℕ) (d : Dict ℕ (List ℕ)) (q : ctx.Proc)
      → All (λ e. Target e.0 × IsOriginal e) d
      → covered (length payload) exempt x ≡ false
      → (covered (length payload) (keys d) x ≡ false → ctx.view q x ≡ ctx.view p x)
      → covered (length payload) (stuck ctx d q) x ≡ false
      → ctx.view (write_originals ctx d q) x ≡ ctx.view p x
  unfolding write_originals
  write_originals_lem x [] q known spared same moved = same refl
  write_originals_lem x ((addr, bytes) ∷ d) q known spared same moved =
      let n = length payload in
      let q' = (ctx.write_bytes q addr bytes).1 in
      let (long, original) = known.0.1 in
      let (head, rest) =
        covered-append n (refused ctx addr (ctx.write_bytes q addr bytes).0) (stuck ctx d q') x
          moved in
      let outside : inside addr n x ≡ false
          → covered n (keys d) x ≡ false
          → ctx.view q' x ≡ ctx.view p x =
        λ out free.
          frame q addr bytes x (ap (λ k. inside addr k x) long ∙ out)
          ∙ same (ground (arith, out, free)) in
      let now : covered n (keys d) x ≡ false → ctx.view q' x ≡ ctx.view p x = λ free.
        elim (Bool-cases (inside addr n x)) [
          | inr out ↦ outside out free
          | inl within ↦ elim (Result-cases (ctx.write_bytes q addr bytes).0) [
            | inl (u, written) ↦
                laws.write_lem q addr bytes written x ∙ original (ctx.view q) x within spared
            | inr (e, failed) ↦
                let gone = rw failed at head in absurd (ground (arith, gone, within))
          ]
        ] in
      write_originals_lem x d q' known.1 spared now rest

-- A freeze of several objects stamps, over all its ticks, addresses whose ranges have no byte in
-- common, with no other writer at work, in a process whose reads give the bytes that are there and
-- whose writes change none outside their range. Its restore succeeds, leaves no original behind, and brings
-- every byte back to what it was before the first tick, but for the ranges that were stamped while
-- their bytes could not be read and those that cannot be written when they go back.
pub restore-stamp_all :
    (ctx : Ctx) (laws : CtxLaws ctx) (frame : Frame ctx) (s : Feature ctx) (payload : List ℕ)
    (Target : ℕ → Type 0) (apart : Apart (length payload) Target) (addrs : List ℕ)
    (w : FreezeMatchSpec) (size addr : ℕ) (companions bytes : List ℕ)
    → s.freeze_originals ≡ []
    → All Target addrs
    → (x : ℕ)
    → let t = stamp_all ctx payload addrs s in
      covered (length payload) (unread ctx payload addrs s) x ≡ false
      → covered (length payload) (stuck ctx t.freeze_originals t.proc) x ≡ false
      → let (answer, restored) = restore ctx t (freeze_for_matching w) size addr companions bytes in
        (answer ≡ ok tt)
        × (restored.freeze_originals ≡ [])
        × (ctx.view restored.proc x ≡ ctx.view s.proc x)
unfolding restore restore_matching
restore-stamp_all ctx laws frame s payload Target apart addrs w size addr companions bytes none_yet
      ts x spared moved =
    let exempt = unread ctx payload addrs s in
    let t = stamp_all ctx payload addrs s in
    let (known, same) =
      stamp_all-Kept ctx laws frame s.proc payload Target apart exempt addrs s ts (λ y out. out)
        (rw none_yet tt, λ y free out. refl) in
    (
      refl,
      refl,
      write_originals_lem ctx laws frame s.proc payload Target apart exempt x t.freeze_originals
          t.proc known spared (λ free. same x free spared) moved,
    )

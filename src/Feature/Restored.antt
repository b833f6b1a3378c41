-- ===== src/Feature/Restored.antt =====
-- A restore in crates/runtime/src/feature.rs brings back what the snapshot saw.
use openforge_aio.Prelude.{
  ℕ, zero, suc, ◌+◌, ◌*◌, ◌≡◌, refl, sym, ap, ◌∙◌, Bool, true, false, ◌||◌, List, [], ◌∷◌, ◌++◌,
  length, length-append, take, drop, ◌==◌, if◌then◌else◌, arith, inl, inr,
}
use openforge_aio.Prelude.Result.{Result, ok, err, Result-cases}
use openforge_aio.Memory.Bytes.{slice, length-slice, overwrite-slice, inside}
use openforge_aio.Ctx.{Ctx, CtxLaws, Error}
use openforge_aio.Signature.{
  WriteSpec, engine_action, freeze_for_matching, play_anim_montage_for_matching,
}
use openforge_aio.Feature.Matching.{Feature}
use openforge_aio.Feature.Snapshot.{
  read_each, snapshot, then_write, write_each, restore_bytes, from_snapshot, restore,
}

take_front : (n : ℕ) (xs ys : List ℕ) → length xs ≡ n → take n (xs ++ ys) ≡ xs
take_front zero [] ys h = refl
take_front zero (x ∷ xs) ys h = absurd (omega (arith, h))
take_front (suc n) [] ys h = absurd (omega (arith, h))
take_front (suc n) (x ∷ xs) ys h = ap (λ r. x ∷ r) (take_front n xs ys (omega (arith, h)))

drop_front : (n : ℕ) (xs ys : List ℕ) → length xs ≡ n → drop n (xs ++ ys) ≡ ys
drop_front zero [] ys h = refl
drop_front zero (x ∷ xs) ys h = absurd (omega (arith, h))
drop_front (suc n) [] ys h = absurd (omega (arith, h))
drop_front (suc n) (x ∷ xs) ys h = drop_front n xs ys (omega (arith, h))

-- The address lies in one of the ranges of `n` bytes.
abbrev pub covered : ℕ → List ℕ → ℕ → Bool
covered n [] x = false
covered n (addr ∷ addrs) x = inside addr n x || covered n addrs x

module _ (ctx : Ctx) (laws : CtxLaws ctx) where
  -- A write of the bytes that another state has there.
  pub write_back :
      (p q : ctx.Proc) (addr n x : ℕ)
      → (ctx.write_bytes q addr (slice (ctx.view p) addr n)).0 ≡ ok tt
      → ctx.view (ctx.write_bytes q addr (slice (ctx.view p) addr n)).1 x
        ≡ (if inside addr n x then ctx.view p x else ctx.view q x)
  write_back p q addr n x h =
      laws.write_lem q addr (slice (ctx.view p) addr n) h x
      ∙ overwrite-slice (ctx.view p) (ctx.view q) addr n x

  read_each-cons :
      (p : ctx.Proc) (n addr : ℕ) (addrs buf : List ℕ)
      → read_each ctx p n (addr ∷ addrs) ≡ ok buf
      → (bytes : List ℕ) × (rest : List ℕ) × (ctx.read_bytes p addr n ≡ ok bytes)
        × (read_each ctx p n addrs ≡ ok rest)
        × (buf ≡ bytes ++ rest)
  unfolding read_each
  read_each-cons p n addr addrs buf h = elim (Result-cases (ctx.read_bytes p addr n)) [
    | inr (e, bad) ↦ ground (arith, bad, h)
    | inl (bytes, got) ↦ elim (Result-cases (read_each ctx p n addrs)) [
      | inr (e, bad) ↦ ground (arith, got, bad, h)
      | inl (rest, more) ↦ (bytes, rest, got, more, ground (arith, got, more, h))
    ]
  ]

  then_write-ok :
      (r : Result Error (Unit {0}) × ctx.Proc) (go : ctx.Proc → Result Error (Unit {0}) × ctx.Proc)
      → (then_write ctx r go).0 ≡ ok tt
      → (r.0 ≡ ok tt) × (then_write ctx r go ≡ go r.1)
  then_write-ok (ok u, p) go h = (refl, refl)
  then_write-ok (err e, p) go h = absurd (cc h)

  read_each-length :
      (p : ctx.Proc) (n : ℕ) (addrs buf : List ℕ)
      → read_each ctx p n addrs ≡ ok buf
      → length buf ≡ n * length addrs
  unfolding read_each
  read_each-length p n [] buf h =
      let same : buf ≡ [] = ground (arith, h) in ap length same ∙ omega arith
  read_each-length p n (addr ∷ addrs) buf h =
      let (bytes, rest, got, more, same) = read_each-cons p n addr addrs buf h in
      let front : length bytes ≡ n =
        ap length (laws.read_lem p addr n bytes got) ∙ length-slice (ctx.view p) addr n in
      let behind = read_each-length p n addrs rest more in
      ap length same
      ∙ length-append bytes rest
      ∙ (let product : n * suc (length addrs) ≡ n * length addrs + n = omega arith in
          omega (arith, front, behind, product))

  write_each-read_each :
      (p q : ctx.Proc) (n : ℕ) (addrs buf : List ℕ)
      → read_each ctx p n addrs ≡ ok buf
      → (write_each ctx q n addrs buf).0 ≡ ok tt
      → (x : ℕ)
      → ctx.view (write_each ctx q n addrs buf).1 x
        ≡ (if covered n addrs x then ctx.view p x else ctx.view q x)
  unfolding read_each write_each
  write_each-read_each p q n [] buf h k x = refl
  write_each-read_each p q n (addr ∷ addrs) buf h k x =
      let (bytes, rest, got, more, same) = read_each-cons p n addr addrs buf h in
      let copied : bytes ≡ slice (ctx.view p) addr n = laws.read_lem p addr n bytes got in
      let long : length bytes ≡ n = ap length copied ∙ length-slice (ctx.view p) addr n in
      let front : take n buf ≡ slice (ctx.view p) addr n =
        ap (take n) same ∙ take_front n bytes rest long ∙ copied in
      let behind : drop n buf ≡ rest = ap (drop n) same ∙ drop_front n bytes rest long in
      let k' = rw (front, behind) at k in
      let (wrote, on) =
        then_write-ok (ctx.write_bytes q addr (slice (ctx.view p) addr n))
          (λ q'. write_each ctx q' n addrs rest) k' in
      let q' = (ctx.write_bytes q addr (slice (ctx.view p) addr n)).1 in
      let later = write_each-read_each p q' n addrs rest more (ap (λ r. r.0) (sym on) ∙ k') x in
      rw (front, behind, on) (later ∙ ground (arith, write_back p q addr n x wrote))

  restore_bytes-read_each :
      (p : ctx.Proc) (s : Feature ctx) (size addr : ℕ) (companions buf : List ℕ)
      → read_each ctx p size (addr ∷ companions) ≡ ok buf
      → (from_snapshot ctx s size addr companions buf).0 ≡ ok tt
      → (x : ℕ)
      → ctx.view (from_snapshot ctx s size addr companions buf).1.proc x
        ≡ (if covered size (addr ∷ companions) x then ctx.view p x else ctx.view s.proc x)
  unfolding restore_bytes
  restore_bytes-read_each p s size addr companions buf read done x =
      let long = read_each-length p size (addr ∷ companions) buf read in
      let count : suc (length companions) ≡ 1 + length companions = omega arith in
      let whole : (length buf == size * (1 + length companions)) ≡ true =
        ground (arith, long ∙ ap (λ k. size * k) count) in
      rw whole
        (write_each-read_each p s.proc size (addr ∷ companions) buf read (rw whole at done) x)

  -- The strategies whose restore writes the snapshot back.
  abbrev pub writes_back : WriteSpec → Bool
  writes_back (engine_action a o) = false
  writes_back (freeze_for_matching w) = false
  writes_back (play_anim_montage_for_matching w) = false
  writes_back w = true

  -- A feature is restored from its snapshot, whatever was written in between, unless it is an
  -- engine action or works on all matching objects: when its companions are those of the snapshot
  -- and the restore succeeds, its value and its companions' hold the bytes of the snapshot, and
  -- every other byte is as before the restore.
  pub restore-snapshot :
      (p : ctx.Proc) (s : Feature ctx) (write : WriteSpec) (size addr : ℕ) (companions buf : List ℕ)
      → writes_back write ≡ true
      → snapshot ctx p write size addr companions ≡ ok buf
      → (restore ctx s write size addr companions buf).0 ≡ ok tt
      → (x : ℕ)
      → ctx.view (restore ctx s write size addr companions buf).1.proc x
        ≡ (if covered size (addr ∷ companions) x then ctx.view p x else ctx.view s.proc x)
  unfolding snapshot restore
  restore-snapshot p s (engine_action a o) size addr companions buf back taken done x =
      absurd (cc back)
  restore-snapshot p s (freeze_for_matching w) size addr companions buf back taken done x =
      absurd (cc back)
  restore-snapshot p s (play_anim_montage_for_matching w) size addr companions buf back taken done
        x =
      absurd (cc back)
  restore-snapshot p s _ size addr companions buf back taken done x =
      restore_bytes-read_each p s size addr companions buf taken done x

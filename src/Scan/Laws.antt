-- ===== src/Scan/Laws.antt =====
-- What the scans of crates/discover/src/scan.rs find: every match and nothing else.
use openforge_aio.Prelude.{
  ℕ, zero, suc, ◌+◌, ◌-◌, ◌%◌, ◌^◌, ◌≤◌, ◌<◌, ◌≡◌, refl, sym, ap, ap₂, ◌∙◌, subst, true, none, some,
  List, [], ◌∷◌, ◌++◌, length, take, drop, leb, if◌then◌else◌, arith, Bool-cases, inl, inr, ◌↔◌, In,
  In-head, In-tail, In-cases, not-In-nil, In-append_left, In-append_cases, In-append_right, In-if,
  In-if_later, In-if_here, All,
}
use openforge_aio.Prelude.Run.{done}
use openforge_aio.Prelude.Result.{ok, err, Result-cases}
use openforge_aio.Ctx.{Ctx, CtxLaws}
use openforge_aio.Memory.Bytes.{length-slice}
use openforge_aio.Scan.{
  Double, NumberLike, Predicate, MemoryRegion, matches, scan_offsets, scan_region, first_scan,
  next_scan,
}

module _ (d : Double) (t : NumberLike d) (ctx : Ctx) (predicate : Predicate d t) (eps : d.F64) where
  abbrev pub value : List ℕ → ℕ → t.T
  value buf i = t.from_le_bytes (take t.number_size (drop i buf))

  -- The hit stands at an offset from `i` up to `top` and satisfies the predicate.
  abbrev pub HitAt : ℕ → List ℕ → ℕ → ℕ → ℕ × t.T → Type 0
  HitAt base buf i top h =
      (j : ℕ) × (i ≤ j)
      × (j < top)
      × (((base + j) % 2 ^ 64, value buf j) ≡ h)
      × (matches d t predicate (value buf j) none eps ≡ true)

  scan_offsets_lem :
      (base : ℕ) (buf : List ℕ) (n i : ℕ)
      → i + n + t.number_size ≤ length buf + 1
      → (out : List (ℕ × t.T)) × (scan_offsets d t ctx predicate eps base buf n i ≡ done out)
        × ((h : ℕ × t.T) → In h out ↔ HitAt base buf i (i + n) h)
  unfolding scan_offsets
  scan_offsets_lem base buf zero i room = (
    [],
    refl,
    λ h. (λ m. absurd (not-In-nil m), λ (j, low, high, e, on). absurd (omega (arith, low, high))),
  )
  scan_offsets_lem base buf (suc n) i room =
      let fits : leb (i + t.number_size) (length buf) ≡ true = ground arith in
      let (out, ran, found) = scan_offsets_lem base buf n (i + 1) (omega arith) in
      let v = value buf i in
      let here : ℕ × t.T = ((base + i) % 2 ^ 64, v) in
      let test = matches d t predicate v none eps in
      (
        (if test then here ∷ out else out),
        rw (fits, ran) refl,
        λ h. (
          λ m. elim (In-if test here out m) [
            | inl (on, e) ↦ (i, omega arith, omega arith, e, on)
            | inr later ↦
                let (j, low, high, e, on) = (found h).0 later in
                (j, omega (arith, low), omega (arith, high), e, on)
          ],
          λ (j, low, high, e, on). elim (Bool-cases (leb (suc i) j)) [
            | inl later ↦
                In-if_later test here out
                  ((found h).1 (j, ground (arith, later), omega (arith, high), e, on))
            | inr first ↦
                let same : i ≡ j = ground (arith, first, low) in
                In-if_here test here out
                  (ap (λ k. matches d t predicate (value buf k) none eps) same ∙ on)
                  (ap (λ k. ((base + k) % 2 ^ 64, value buf k)) same ∙ e)
          ],
        ),
      )

  -- The region is read, and the hit is a match at one of the offsets at which a whole value fits.
  abbrev pub FoundIn : ctx.Proc → MemoryRegion → ℕ × t.T → Type 0
  FoundIn p region h =
      (buf : List ℕ) × (ctx.read_bytes p region.base region.size ≡ ok buf)
      × HitAt region.base buf 0 (region.size - t.number_size + 1) h

  abbrev pub Found : ctx.Proc → List MemoryRegion → ℕ × t.T → Type 0
  Found p regions h = (region : MemoryRegion) × In region regions × FoundIn p region h

  module _ (laws : CtxLaws ctx) where
    scan_region_lem :
        (p : ctx.Proc) (region : MemoryRegion)
        → t.number_size ≤ region.size
        → (out : List (ℕ × t.T)) × (scan_region d t ctx predicate eps region
              (ctx.read_bytes p region.base region.size)
            ≡ done out)
          × ((h : ℕ × t.T) → In h out ↔ FoundIn p region h)
    scan_region_lem p region wide = elim (Result-cases (ctx.read_bytes p region.base region.size)) [
      | inr (e, failed) ↦ (
        [],
        rw failed refl,
        λ h. (λ m. absurd (not-In-nil m), λ (buf, read, at). cc (failed, read)),
      )
      | inl (buf, read) ↦
          let long : length buf ≡ region.size =
            ap length (laws.read_lem p region.base region.size buf read)
            ∙ length-slice (ctx.view p) region.base region.size in
          let (out, ran, found) =
            scan_offsets_lem region.base buf (suc (region.size - t.number_size)) 0
              (omega (arith, long)) in
          (
            out,
            rw read ran,
            λ h. (
              λ m.
                  let (j, low, high, e, on) = (found h).0 m in
                  (buf, read, (j, low, omega (arith, high), e, on)),
              λ (buf', read', at).
                  let same : buf' ≡ buf = cc (read, read') in
                  let (j, low, high, e, on) =
                    subst (λ b. HitAt region.base b 0 (region.size - t.number_size + 1) h) same
                      at in
                  (found h).1 (j, low, omega (arith, high), e, on),
            ),
          )
    ]

    -- Where every region has room for a value, a first scan does not panic, and its hits are
    -- exactly the matches at every offset of every region that can be read.
    pub first_scan_iff :
        (p : ctx.Proc) (regions : List MemoryRegion)
        → All (λ region. t.number_size ≤ region.size) regions
        → (out : List (ℕ × t.T)) × (first_scan d t ctx predicate eps p regions ≡ done out)
          × ((h : ℕ × t.T) → In h out ↔ Found p regions h)
    unfolding first_scan
    first_scan_iff p [] wide =
        ([], refl, λ h. (λ m. absurd (not-In-nil m), λ (region, at, found). absurd (not-In-nil at)))
    first_scan_iff p (region ∷ regions) wide =
        let (hits, ran, found) = scan_region_lem p region wide.0 in
        let (rest, ran', found') = first_scan_iff p regions wide.1 in
        (
          hits ++ rest,
          rw (ran, ran') refl,
          λ h. (
            λ m. elim (In-append_cases hits rest m) [
              | inl early ↦ (region, In-head region regions, (found h).0 early)
              | inr late ↦
                  let (r, at, there) = (found' h).0 late in (r, In-tail region regions at, there)
            ],
            λ (r, at, there). elim (In-cases region regions at) [
              | inl e ↦
                  In-append_left hits rest ((found h).1 (subst (λ q. FoundIn p q h) (sym e) there))
              | inr later ↦ In-append_right hits rest ((found' h).1 (r, later, there))
            ],
          ),
        )

  -- A hit with a previous value, and its value now.
  abbrev pub Narrowed : ctx.Proc → List (ℕ × t.T) → ℕ × t.T → Type 0
  Narrowed p previous h =
      (prev_v : t.T) × In (h.0, prev_v) previous
      × (bytes : List ℕ) × (ctx.read_bytes p h.0 t.number_size ≡ ok bytes)
      × (h.1 ≡ t.from_le_bytes bytes)
      × (matches d t predicate h.1 (some prev_v) eps ≡ true)

  -- A next scan keeps exactly the candidates that can still be read and whose new value matches
  -- against the previous one, and reports the new value.
  pub next_scan_iff :
      (p : ctx.Proc) (previous : List (ℕ × t.T)) (h : ℕ × t.T)
      → In h (next_scan d t ctx predicate eps p previous) ↔ Narrowed p previous h
  unfolding next_scan
  next_scan_iff p [] h =
      (λ m. absurd (not-In-nil m), λ (v, at, bs, again, e, on). absurd (not-In-nil at))
  next_scan_iff p ((addr, prev_v) ∷ previous) h =
      elim (Result-cases (ctx.read_bytes p addr t.number_size)) [
        | inr (e', gone) ↦ rw gone (
          λ m.
              let (v, at, bs, again, e, on) = (next_scan_iff p previous h).0 m in
              (v, In-tail (addr, prev_v) previous at, bs, again, e, on),
          λ (v, at, bs, again, e, on). elim (In-cases (addr, prev_v) previous at) [
            | inl same ↦
                let to : addr ≡ h.0 = ap (λ q. q.0) same in
                let failed = subst (λ a. ctx.read_bytes p a t.number_size ≡ err e') to gone in
                cc (failed, again)
            | inr later ↦ (next_scan_iff p previous h).1 (v, later, bs, again, e, on)
          ],
        )
        | inl (bytes, read) ↦
            let v = t.from_le_bytes bytes in
            let rest = next_scan d t ctx predicate eps p previous in
            let test = matches d t predicate v (some prev_v) eps in
            rw read (
              λ m. elim (In-if test (addr, v) rest m) [
                | inl (on, e) ↦
                    let to : addr ≡ h.0 = ap (λ q. q.0) e in
                    let now : v ≡ h.1 = ap (λ q. q.1) e in
                    (
                      prev_v,
                      (0, ap (λ a. some (a, prev_v)) to),
                      bytes,
                      cc (read, to),
                      sym now,
                      cc (on, now),
                    )
                | inr later ↦
                    let (w, at, bs, again, e, on) = (next_scan_iff p previous h).0 later in
                    (w, In-tail (addr, prev_v) previous at, bs, again, e, on)
              ],
              λ (w, at, bs, again, e, on). elim (In-cases (addr, prev_v) previous at) [
                | inl same ↦
                    let to : addr ≡ h.0 = ap (λ q. q.0) same in
                    let was : prev_v ≡ w = ap (λ q. q.1) same in
                    let now : v ≡ h.1 = cc (read, again, to, e) in
                    In-if_here test (addr, v) rest (cc (on, now, was)) (ap₂ (λ a b. (a, b)) to now)
                | inr later ↦
                    In-if_later test (addr, v) rest
                      ((next_scan_iff p previous h).1 (w, later, bs, again, e, on))
              ],
            )
      ]

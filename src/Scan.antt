-- ===== src/Scan.antt =====
-- crates/discover/src/predicate.rs and scan.rs: the first scan of a process's writable pages for
-- a typed value, and the scans that narrow its hits. The operations of `f64`, which the predicates
-- compare with, are the parameter `Double`; a value type is an instance of `NumberLike`.
pub mod Numbers
pub mod Laws
pub mod Examples
use openforge_aio.Prelude.{
  ℕ, zero, suc, ◌+◌, ◌-◌, ◌%◌, ◌^◌, Bool, true, false, not, ◌&&◌, Option, none, some, List, [], ◌∷◌,
  ◌++◌, length, take, drop, leb, if◌then◌else◌,
}
use openforge_aio.Prelude.Run.{Run, done, panic, ◌>>=◌}
use openforge_aio.Prelude.Result.{Result, ok, err}
use openforge_aio.Ctx.{Ctx, Error}

-- `f64`, with the rounding of IEEE 754 left to it.
pub record Double : Type 1 where
  pub F64 : Type 0
  pub sub : F64 → F64 → F64
  pub abs : F64 → F64
  pub gt : F64 → F64 → Bool
  pub ge : F64 → F64 → Bool

-- What holds without a previous value, and what of one.
abbrev pub against : {A : Type 0} → Option A → Bool → (A → Bool) → Bool
against none alone f = alone
against (some p) alone f = f p

module _ (d : Double) where
  pub record NumberLike : Type 1 where
    pub T : Type 0
    pub number_size : ℕ
    pub from_le_bytes : List ℕ → T
    pub approx_eq : T → T → d.F64 → Bool
    pub as_f64 : T → d.F64
    -- `PartialOrd`: `a < b` is `b > a`, and `a <= b` is `b >= a`.
    pub gt : T → T → Bool
    pub ge : T → T → Bool

  pub data Predicate (t : NumberLike) : Type 0 where
    eq ne gt ge lt le increased_by decreased_by : t.T → Predicate t
    between : t.T → t.T → Predicate t
    changed unchanged increased decreased unknown_initial : Predicate t

  -- `(a.as_f64() - b.as_f64() - c.as_f64()).abs() <= eps`
  abbrev pub near : (t : NumberLike) → t.T → t.T → t.T → d.F64 → Bool
  near t a b c eps = d.ge eps (d.abs (d.sub (d.sub (t.as_f64 a) (t.as_f64 b)) (t.as_f64 c)))

  unfoldable pub matches : (t : NumberLike) → Predicate t → t.T → Option t.T → d.F64 → Bool
  matches t (eq v) current previous eps = t.approx_eq current v eps
  matches t (ne v) current previous eps = not (t.approx_eq current v eps)
  matches t (gt v) current previous eps = t.gt current v
  matches t (ge v) current previous eps = t.ge current v
  matches t (lt v) current previous eps = t.gt v current
  matches t (le v) current previous eps = t.ge v current
  matches t (between lo hi) current previous eps = t.ge current lo && t.ge hi current
  matches t changed current previous eps =
      against previous true (λ p. not (t.approx_eq current p eps))
  matches t unchanged current previous eps = against previous true (λ p. t.approx_eq current p eps)
  matches t increased current previous eps =
      against previous true (λ p. d.gt (t.as_f64 current) (t.as_f64 p))
  matches t decreased current previous eps =
      against previous true (λ p. d.gt (t.as_f64 p) (t.as_f64 current))
  matches t (increased_by x) current previous eps =
      against previous false (λ p. near t current p x eps)
  matches t (decreased_by x) current previous eps =
      against previous false (λ p. near t p current x eps)
  matches t unknown_initial current previous eps = true

pub record MemoryRegion : Type 0 where
  pub base : ℕ
  pub size : ℕ

module _ (d : Double) (t : NumberLike d) (ctx : Ctx) (predicate : Predicate d t) (eps : d.F64) where
  abbrev pub Hit : Type 0
  Hit = ℕ × t.T

  -- `T::from_le_bytes(&buf[i..i + T::SIZE])`
  abbrev pub value_at : List ℕ → ℕ → Run t.T
  value_at buf i =
      if leb (i + t.number_size) (length buf)
      then done (t.from_le_bytes (take t.number_size (drop i buf)))
      else panic

  -- The `n` next rounds of the loop over a region's offsets, from the offset `i` on.
  unfoldable pub scan_offsets : ℕ → List ℕ → ℕ → ℕ → Run (List Hit)
  scan_offsets base buf zero i = done []
  scan_offsets base buf (suc n) i = do
    v ← value_at buf i
    rest ← scan_offsets base buf n (i + 1)
    done (if matches d t predicate v none eps then ((base + i) % 2 ^ 64, v) ∷ rest else rest)

  -- The offsets up to and with `last`; a region that is not read is skipped.
  abbrev pub scan_region : MemoryRegion → Result Error (List ℕ) → Run (List Hit)
  scan_region region (ok buf) = scan_offsets region.base buf (suc (region.size - t.number_size)) 0
  scan_region region (err e) = done []

  unfoldable pub first_scan : ctx.Proc → List MemoryRegion → Run (List Hit)
  unfolding scan_offsets
  first_scan p [] = done []
  first_scan p (region ∷ regions) = do
    hits ← scan_region region (ctx.read_bytes p region.base region.size)
    rest ← first_scan p regions
    done (hits ++ rest)

  -- The hit with its new value, where it is still readable and matches.
  abbrev pub narrowed : ℕ → t.T → Result Error (List ℕ) → List Hit → List Hit
  narrowed addr prev_v (ok bytes) rest =
      let v = t.from_le_bytes bytes in
      if matches d t predicate v (some prev_v) eps then (addr, v) ∷ rest else rest
  narrowed addr prev_v (err e) rest = rest

  unfoldable pub next_scan : ctx.Proc → List Hit → List Hit
  next_scan p [] = []
  next_scan p ((addr, prev_v) ∷ previous) =
      narrowed addr prev_v (ctx.read_bytes p addr t.number_size) (next_scan p previous)

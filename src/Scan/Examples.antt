-- ===== src/Scan/Examples.antt =====
-- Runs of crates/discover/src/scan.rs in a flat process, over whole numbers in place of `f64`.
use openforge_aio.Prelude.{ℕ, ◌≡◌, refl, ◌-◌, ◌↔◌, true, leb, ltb, List, [], ◌∷◌, In, arith}
use openforge_aio.Prelude.Run.{done, panic}
use openforge_aio.Prelude.Result.{ok, err}
use openforge_aio.Prelude.Int.{unsigned_abs}
use openforge_aio.Prelude.Text.{codes}
use openforge_aio.Memory.Bytes.{overwrite, slice}
use openforge_aio.Ctx.{Ctx}
use openforge_aio.Ctx.Flat.{flat, flat-CtxLaws}
use openforge_aio.Scan.{
  Double, NumberLike, Predicate, MemoryRegion, eq, increased, matches, scan_offsets, first_scan,
  next_scan,
}
use openforge_aio.Scan.Numbers.{unsigned, parse_bool}
use openforge_aio.Scan.Laws.{Found, Narrowed, first_scan_iff, next_scan_iff}

-- Natural numbers in the place of `f64`: enough for the comparisons of the runs.
abbrev whole : Double
whole = record {
  F64 = ℕ;
  sub = λ a b. a - b;
  abs = λ a. a;
  gt = λ a b. ltb b a;
  ge = λ a b. leb b a;
}

abbrev u16 : NumberLike whole
u16 = unsigned whole unsigned_abs 2

abbrev ctx : Ctx
ctx = flat 0x10000 0x20000

-- 100 at 0x10001, and 200 there later.
abbrev before : ctx.Proc
before = overwrite (λ x. 0) 0x10001 (100 ∷ 0 ∷ [])

abbrev after : ctx.Proc
after = overwrite (λ x. 0) 0x10001 (200 ∷ 0 ∷ [])

abbrev page : MemoryRegion
page = record { base = 0x10000; size = 4 }

abbrev unmapped : MemoryRegion
unmapped = record { base = 0x30000; size = 4 }

abbrev hundred : Predicate whole u16
hundred = eq 100

abbrev rising : Predicate whole u16
rising = increased

first_scan_iff_example :
    (out : List (ℕ × ℕ)) × (first_scan whole u16 ctx hundred 0 before (page ∷ unmapped ∷ [])
      ≡ done out)
    × ((h : ℕ × ℕ) → In h out ↔ Found whole u16 ctx hundred 0 before (page ∷ unmapped ∷ []) h)
first_scan_iff_example =
    first_scan_iff whole u16 ctx hundred 0 (flat-CtxLaws 0x10000 0x20000) before
      (page ∷ unmapped ∷ []) (omega arith, (omega arith, tt))

next_scan_iff_example :
    In (0x10001, 200) (next_scan whole u16 ctx rising 0 after ((0x10001, 100) ∷ []))
    ↔ Narrowed whole u16 ctx rising 0 after ((0x10001, 100) ∷ []) (0x10001, 200)
next_scan_iff_example =
    next_scan_iff whole u16 ctx rising 0 after ((0x10001, 100) ∷ []) (0x10001, 200)

finds_it :
    first_scan whole u16 ctx hundred 0 before (page ∷ unmapped ∷ []) ≡ done ((0x10001, 100) ∷ [])
unfolding first_scan scan_offsets matches overwrite slice
finds_it = refl

narrows_it :
    next_scan whole u16 ctx rising 0 after ((0x10001, 100) ∷ (0x30000, 7) ∷ (0x10003, 0) ∷ [])
    ≡ (0x10001, 200) ∷ []
unfolding next_scan matches overwrite slice
narrows_it = refl

-- A readable region of 1 byte has no room for a value of 2: the slice is out of bounds.
small_region_panics :
    first_scan whole u16 ctx hundred 0 before (record { base = 0x10000; size = 1 } ∷ []) ≡ panic
unfolding first_scan scan_offsets matches overwrite slice
small_region_panics = refl

reads_bool : (parse_bool (codes "True") ≡ ok true) × (parse_bool (codes "yes") ≡ err (codes "yes"))
reads_bool = (refl, refl)

-- ===== src/PointerScan/Pages.antt =====
-- `enumerate_rw` of crates/discover/src/pages.rs over the answers of VirtualQueryEx.
use openforge_aio.Prelude.{
  ℕ, zero, suc, ◌+◌, ◌-◌, ◌/◌, ◌%◌, ◌^◌, ◌≤◌, ◌<◌, ◌≢◌, Bool, not, ◌&&◌, ◌||◌, Option, none, some,
  List, [], ◌∷◌, leb, ◌==◌, if◌then◌else◌, min, arith, Bool-cases, Option-cases, inl, inr,
}
use openforge_aio.Prelude.Maybe.{◌>>=◌}
use openforge_aio.Scan.{MemoryRegion}

-- MEMORY_BASIC_INFORMATION
pub record Mbi : Type 0 where
  pub base_address : ℕ
  pub region_size : ℕ
  pub state : ℕ
  pub protect : ℕ

abbrev pub mem_commit : ℕ
mem_commit = 0x1000

-- `base.saturating_add(region_size)`
abbrev pub saturating_add : ℕ → ℕ → ℕ
saturating_add a b = min (a + b) (2 ^ 64 - 1)

-- Committed, PAGE_READWRITE or PAGE_WRITECOPY, none of the PAGE_EXECUTE bits 4 to 7, not the
-- PAGE_GUARD bit 8, and not PAGE_NOACCESS.
unfoldable pub is_haystack : Mbi → Bool
is_haystack mbi =
    (mbi.state == mem_commit)
    && (mbi.protect == 4 || mbi.protect == 8)
    && not (not (mbi.protect / 16 % 16 == 0))
    && not (not (mbi.protect / 256 % 2 == 0))
    && not (mbi.protect == 1)

abbrev pub region_of : Mbi → MemoryRegion
region_of mbi = record { base = mbi.base_address; size = mbi.region_size }

module _ (query : ℕ → Option Mbi) where
  abbrev pub visit : ℕ → Option Mbi → (ℕ → Option (List MemoryRegion)) → Option (List MemoryRegion)
  visit addr none go = some []
  visit addr (some mbi) go = if mbi.region_size == 0 then some [] else (do
    rest ←
        (if leb (saturating_add mbi.base_address mbi.region_size) addr
          then some []
          else go (saturating_add mbi.base_address mbi.region_size))
    some (if is_haystack mbi then region_of mbi ∷ rest else rest))

  -- The loop from the address on; `none` when the fuel is spent.
  unfoldable pub enumerate_from : ℕ → ℕ → Option (List MemoryRegion)
  enumerate_from zero addr = none
  enumerate_from (suc fuel) addr = visit addr (query addr) (λ next. enumerate_from fuel next)

  unfoldable pub enumerate_rw : Option (List MemoryRegion)
  unfolding enumerate_from
  enumerate_rw = enumerate_from (2 ^ 64) 0

  enumerate_from_fuel :
      (fuel addr : ℕ) → 2 ^ 64 ≤ fuel + addr → addr < 2 ^ 64 → enumerate_from fuel addr ≢ none
  unfolding enumerate_from
  enumerate_from_fuel zero addr enough low = omega arith
  enumerate_from_fuel (suc fuel) addr enough low = elim (Option-cases (query addr)) [
    | inl end ↦ λ out. ground (arith, end)
    | inr (mbi, e) ↦
        let next = saturating_add mbi.base_address mbi.region_size in
        elim (Bool-cases (leb next addr)) [
          | inl back ↦ λ out. ground (arith, e, back)
          | inr on ↦
              let rest = enumerate_from_fuel fuel next (ground (arith, on)) (omega arith) in
              λ out. ground (arith, e, on, rest)
        ]
  ]

-- The enumeration ends whatever VirtualQueryEx answers: its 2^64 rounds are enough.
pub enumerate_rw_fuel : (query : ℕ → Option Mbi) → enumerate_rw query ≢ none
unfolding enumerate_rw
enumerate_rw_fuel query = enumerate_from_fuel query (2 ^ 64) 0 (omega arith) (omega arith)

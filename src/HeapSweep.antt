-- ===== src/HeapSweep.antt =====
-- The heap scan of crates/glacier-007-dll/src/scan.rs: the process's writable regions, each read in
-- windows and, where a window cannot be read, in pages. VirtualQuery is `query`; the two scratch
-- buffers stand by their lengths. Addresses stay below 2^64, as those of user space do.
pub mod Multiple
pub mod Span
pub mod Range
pub mod Sort
pub mod Walk
pub mod Examples
use openforge_aio.Prelude.{
  ℕ, zero, suc, ◌+◌, ◌-◌, ◌*◌, ◌/◌, ◌%◌, ◌^◌, Bool, true, false, not, ◌&&◌, ◌||◌, Option, none,
  some, List, [], ◌∷◌, ◌++◌, length, take, drop, leb, ltb, ◌==◌, if◌then◌else◌, min, max,
}
use openforge_aio.Prelude.Maybe.{◌>>=◌}
use openforge_aio.Prelude.Result.{Result, ok, err}
use openforge_aio.Prelude.Bytes.{to_le}
use openforge_aio.Memory.{Os, ReadError, read_bytes}
use openforge_aio.HeapSweep.Sort.{sort, dedup}
use openforge_aio.PointerScan.Pages.{Mbi, mem_commit, saturating_add}

-- `bytes[i..i + 8] == needle[..]`
unfoldable pub equal : List ℕ → List ℕ → Bool
equal [] [] = true
equal [] (y ∷ ys) = false
equal (x ∷ xs) [] = false
equal (x ∷ xs) (y ∷ ys) = (x == y) && equal xs ys

-- The loop over the offsets of a span, from `i` on; `none` when the fuel is spent.
unfoldable pub search_from : ℕ → ℕ → List ℕ → List ℕ → ℕ → ℕ → Option (List ℕ)
unfolding equal
search_from zero abs bytes needle align i = none
search_from (suc fuel) abs bytes needle align i =
    if leb (i + 8) (length bytes)
    then (do
      rest ← search_from fuel abs bytes needle align (i + align)
      some (if equal (take 8 (drop i bytes)) needle then (abs + i) ∷ rest else rest))
    else some []

unfoldable pub search_span : ℕ → List ℕ → List ℕ → ℕ → Option (List ℕ)
unfolding search_from
search_span abs bytes needle align = search_from (suc (length bytes)) abs bytes needle align 0

-- What a part of a range adds: the bytes read, and the hits.
abbrev pub Swept : Type 0
Swept = ℕ × List ℕ

-- `while off < len { let want = (len - off).min(width); …; off += want }`; `none` when the fuel is
-- spent.
unfoldable pub each_part : ℕ → (ℕ → ℕ → Option Swept) → ℕ → ℕ → ℕ → Option Swept
each_part width body zero len off = none
each_part width body (suc fuel) len off =
    if ltb off len
    then (do
      (walked, hits) ← body off (min (len - off) width)
      (more, later) ← each_part width body fuel len (off + min (len - off) width)
      some (walked + more, hits ++ later))
    else some (0, [])

module _ (os : Os) (m : os.Mem) (needle : List ℕ) (align win page : ℕ) where
  -- A part that was read is searched; `missed` is done for one that was not.
  abbrev pub searched : ℕ → ℕ → Result ReadError (List ℕ) → Option Swept → Option Swept
  searched abs n (err e) missed = missed
  searched abs n (ok bytes) missed = do hits ← search_span abs bytes needle align; some (n, hits)

  abbrev pub scan_page : ℕ → ℕ → ℕ → Option Swept
  scan_page a p pn = searched (a + p) pn (read_bytes os m (a + p) pn) (some (0, []))

  abbrev pub scan_window : ℕ → ℕ → ℕ → Option Swept
  scan_window base off want =
      searched (base + off) want (read_bytes os m (base + off) want)
        (each_part page (scan_page (base + off)) (suc want) want 0)

  unfoldable pub scan_range : ℕ → ℕ → Option Swept
  unfolding each_part
  scan_range base len = each_part win (scan_window base) (suc len) len 0

-- The windows and pages of the scan, its floor and step of 64 KiB, and its bounds.
abbrev pub win_bytes : ℕ
win_bytes = 4 * 1024 * 1024

abbrev pub page_bytes : ℕ
page_bytes = 4096

abbrev pub user_max : ℕ
user_max = 0x0000800000000000

abbrev pub granularity : ℕ
granularity = 0x10000

abbrev pub max_region : ℕ
max_region = 16 * 2 ^ 30

abbrev pub max_iters : ℕ
max_iters = 50000000

-- PAGE_READWRITE, PAGE_WRITECOPY, PAGE_EXECUTE_READWRITE or PAGE_EXECUTE_WRITECOPY
unfoldable pub is_writable : ℕ → Bool
is_writable prot = (prot == 0x04) || (prot == 0x08) || (prot == 0x40) || (prot == 0x80)

-- The PAGE_GUARD bit.
abbrev pub is_guard : ℕ → Bool
is_guard prot = not (prot / 0x100 % 2 == 0)

abbrev pub read_ok : Result ReadError (List ℕ) → Bool
read_ok (ok bytes) = true
read_ok (err e) = false

module _ (os : Os) (m : os.Mem) (query : ℕ → Option Mbi) where
  abbrev pub probe : ℕ → Bool
  probe addr = read_ok (read_bytes os m addr page_bytes)

  abbrev pub goes_back : ℕ → Mbi → Bool
  goes_back addr mbi =
      (mbi.region_size == 0) || leb (saturating_add mbi.base_address mbi.region_size) addr

  -- The range that a round of the loop scans: a region that is writable, or one that is said not to
  -- be committed and can be read none the less.
  unfoldable pub range_of : ℕ → Option Mbi → Option (ℕ × ℕ)
  unfolding is_writable
  range_of addr none = if probe addr then some (addr, granularity) else none
  range_of addr (some mbi) =
      if goes_back addr mbi
      then none
      else if (mbi.state == mem_commit)
          && is_writable mbi.protect
          && not (is_guard mbi.protect)
          && leb mbi.region_size max_region
      then some (mbi.base_address, mbi.region_size)
      else if not (mbi.state == mem_commit)
          && leb mbi.region_size max_region
          && probe mbi.base_address
      then some (mbi.base_address, mbi.region_size)
      else none

  -- The address that the next round asks for.
  unfoldable pub next_addr : ℕ → Option Mbi → ℕ
  next_addr addr none = saturating_add addr granularity
  next_addr addr (some mbi) =
      if goes_back addr mbi
      then saturating_add addr granularity
      else saturating_add mbi.base_address mbi.region_size

  module _ (needle : List ℕ) (align : ℕ) where
    abbrev pub range_hits : Option (ℕ × ℕ) → Option (List ℕ)
    range_hits none = some []
    range_hits (some (base, len)) = do
      (walked, hits) ← scan_range os m needle align win_bytes page_bytes base len
      some hits

    -- The loop over the regions, with the rounds that the cap leaves.
    unfoldable pub sweep : ℕ → ℕ → Option (List ℕ)
    unfolding scan_range range_of next_addr
    sweep zero addr = some []
    sweep (suc iters) addr =
        if ltb addr user_max
        then (do
          hits ← range_hits (range_of addr (query addr))
          later ← sweep iters (next_addr addr (query addr))
          some (hits ++ later))
        else some []

  abbrev pub tidy : Option (List ℕ) → Option (List ℕ)
  tidy found = do hits ← found; some (dedup (sort hits))

  unfoldable pub heap_for_u64 : ℕ → ℕ → Option (List ℕ)
  heap_for_u64 needle alignment =
      tidy (sweep (to_le 8 needle) (max alignment 1) max_iters granularity)

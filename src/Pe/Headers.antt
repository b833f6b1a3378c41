-- ===== src/Pe/Headers.antt =====
-- crates/dll-common/src/pe.rs: the reads of the image and its headers.
use openforge_aio.Prelude.{ℕ, ◌+◌, ◌*◌, ◌^◌, not, Option, none, some, ltb, ◌==◌, if◌then◌else◌}
use openforge_aio.Prelude.Maybe.{◌>>=◌, ◌>>◌, none_if}
use openforge_aio.Prelude.Bytes.{from_le}
use openforge_aio.Memory.Bytes.{slice}

abbrev pub Image : Type 0
Image = ℕ → ℕ

unfoldable pub read_u32_in_image : Image → ℕ → ℕ → Option ℕ
read_u32_in_image img size off =
    if ltb size (off + 4) then none else some (from_le (slice img off 4))

unfoldable pub read_u16_in_image : Image → ℕ → ℕ → Option ℕ
read_u16_in_image img size off =
    if ltb size (off + 2) then none else some (from_le (slice img off 2))

-- `checked_add` and `checked_mul` of `usize`.
abbrev pub checked : ℕ → Option ℕ
checked n = if ltb n (2 ^ 64) then some n else none

-- The section table that the headers give: its offset and its count.
unfoldable pub section_table : Image → ℕ → Option (ℕ × ℕ)
unfolding read_u32_in_image read_u16_in_image
section_table img size = do
  none_if (ltb size 0x40)
  e_lfanew ← read_u32_in_image img size 0x3c
  header_end ← checked (e_lfanew + 24)
  none_if (ltb size header_end)
  sig ← read_u32_in_image img size e_lfanew
  none_if (not (sig == 0x4550))
  num_sections ← read_u16_in_image img size (e_lfanew + 4 + 2)
  opt_header_size ← read_u16_in_image img size (e_lfanew + 4 + 16)
  table_size ← checked (40 * num_sections)
  none_if (ltb size (e_lfanew + 4 + 20 + opt_header_size + table_size))
  some (e_lfanew + 4 + 20 + opt_header_size, num_sections)

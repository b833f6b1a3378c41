-- ===== src/Pe/Sections.antt =====
-- The section loop of crates/dll-common/src/pe.rs: it stays inside the image, and what it finds is
-- what its sections say.
use openforge_aio.Prelude.{
  ℕ, zero, suc, ◌+◌, ◌*◌, ◌≤◌, ◌≡◌, refl, true, false, some, List, [], ◌∷◌, ltb, arith,
}
use openforge_aio.Prelude.Run.{done}
use openforge_aio.Prelude.Bytes.{from_le}
use openforge_aio.Memory.Bytes.{slice}
use openforge_aio.Pe.Headers.{Image, read_u32_in_image}
use openforge_aio.Pe.{Section, Found, read_name, read_section, note_section, section_loop}

-- The section whose header stands at an offset.
abbrev pub section_at : Image → ℕ → Section
section_at img s = record {
  vsize = from_le (slice img (s + 8) 4);
  vaddr = from_le (slice img (s + 12) 4);
  chars = from_le (slice img (s + 36) 4);
  name = slice img s 8;
}

-- The sections of a table, in order.
unfoldable pub sections_from : Image → ℕ → ℕ → ℕ → List Section
sections_from img sections_off i zero = []
sections_from img sections_off i (suc n) =
    section_at img (sections_off + i * 40) ∷ sections_from img sections_off (i + 1) n

-- The search over a list of sections.
unfoldable pub note_all : Found → List Section → Found
note_all f [] = f
note_all f (s ∷ ss) = note_all (note_section f s) ss

read_name_lem :
    (img : Image) (size off n : ℕ)
    → off + n ≤ size
    → read_name img size off n ≡ done (slice img off n)
unfolding read_name slice
read_name_lem img size off zero h = refl
read_name_lem img size off (suc n) h =
    let inside : ltb off size ≡ true = ground arith in
    rw inside (rw (read_name_lem img size (off + 1) n (omega arith)) refl)

read_u32_lem :
    (img : Image) (size off : ℕ)
    → off + 4 ≤ size
    → read_u32_in_image img size off ≡ some (from_le (slice img off 4))
unfolding read_u32_in_image
read_u32_lem img size off h =
    let inside : ltb size (off + 4) ≡ false = ground arith in rw inside refl

read_section_lem :
    (img : Image) (size s : ℕ)
    → s + 40 ≤ size
    → read_section img size s ≡ done (some (section_at img s))
unfolding read_section
read_section_lem img size s h =
    rw
      (
        read_u32_lem img size (s + 8) (omega arith),
        read_u32_lem img size (s + 12) (omega arith),
        read_u32_lem img size (s + 36) (omega arith),
        read_name_lem img size s 8 (omega arith),
      )
      refl

-- A table inside the image is read to its end.
pub section_loop_lem :
    (img : Image) (size sections_off i n : ℕ) (f : Found)
    → sections_off + (i + n) * 40 ≤ size
    → section_loop img size sections_off i n (some f)
      ≡ done (some (note_all f (sections_from img sections_off i n)))
unfolding section_loop sections_from note_all
section_loop_lem img size sections_off i zero f h = refl
section_loop_lem img size sections_off i (suc n) f h =
    rw (read_section_lem img size (sections_off + i * 40) (omega arith)) (
      section_loop_lem img size sections_off (i + 1) n
        (note_section f (section_at img (sections_off + i * 40))) (omega arith))

-- ===== src/Pe.antt =====
-- crates/dll-common/src/pe.rs: the search for the code section in a mapped PE image. The image is
-- its bytes by offset, with the size that the loader reports. A raw read behind that size panics
-- here, where the source reads memory that it may not. `usize` has 64 bits.
pub mod Headers
pub mod Sections
pub mod Parse
mod Examples
use openforge_aio.Prelude.{
  ℕ, zero, suc, ◌+◌, ◌*◌, ◌^◌, ◌/◌, ◌%◌, ◌<◌, ◌≡◌, Bool, true, false, not, ◌&&◌, Option, none, some,
  List, [], ◌∷◌, ltb, ◌==◌, if◌then◌else◌,
}
use openforge_aio.Prelude.Run.{Run, done, panic, ◌>>=◌}
use openforge_aio.Prelude.Text.{Text, codes, text_eq}
use openforge_aio.Pe.Headers.{Image, read_u32_in_image, section_table}

-- The bytes of a section's name, read one by one without a check.
unfoldable pub read_name : Image → ℕ → ℕ → ℕ → Run Text
read_name img size off zero = done []
read_name img size off (suc n) = do
  b ← if ltb off size then done (img off) else panic
  rest ← read_name img size (off + 1) n
  done (b ∷ rest)

-- The name up to its first NUL.
unfoldable pub until_nul : Text → Text
until_nul [] = []
until_nul (c ∷ cs) = if c == 0 then [] else c ∷ until_nul cs

pub record Section : Type 0 where
  pub vsize : ℕ
  pub vaddr : ℕ
  pub chars : ℕ
  pub name : Text

-- `best` and `named_text`.
pub record Found : Type 0 where
  pub best : Option (ℕ × ℕ)
  pub named_text : Option (ℕ × ℕ)

abbrev pub exec : ℕ
exec = 0x2000_0000

abbrev pub blob_cap : ℕ
blob_cap = 0x8000_0000

unfoldable pub is_code : Section → Bool
is_code s = not ((s.chars / exec) % 2 == 0) && (ltb 0 s.vsize && ltb s.vsize blob_cap)

unfoldable pub is_text : Section → Bool
unfolding until_nul
is_text s = text_eq (until_nul s.name) (codes ".text") && ltb 0 s.vsize

abbrev pub lower : ℕ → Option (ℕ × ℕ) → Bool
lower vaddr none = true
lower vaddr (some (bv, size)) = ltb vaddr bv

-- What one section changes of the search.
unfoldable pub note_section : Found → Section → Found
unfolding is_code is_text
note_section f s = record {
  best = if is_code s && lower s.vaddr f.best then some (s.vaddr, s.vsize) else f.best;
  named_text = if is_text s then some (s.vaddr, s.vsize) else f.named_text;
}

abbrev pub fields : Option ℕ → Option ℕ → Option ℕ → Run Text → Run (Option Section)
fields (some vsize) (some vaddr) (some chars) named = do
  name ← named
  done (some (record { vsize = vsize; vaddr = vaddr; chars = chars; name = name }))
fields (some vsize) (some vaddr) none named = done none
fields (some vsize) none chars named = done none
fields none vaddr chars named = done none

unfoldable pub read_section : Image → ℕ → ℕ → Run (Option Section)
unfolding read_u32_in_image read_name
read_section img size s =
    fields (read_u32_in_image img size (s + 8)) (read_u32_in_image img size (s + 12))
      (read_u32_in_image img size (s + 36)) (read_name img size s 8)

abbrev pub noted : Found → Option Section → Option Found
noted f none = none
noted f (some s) = some (note_section f s)

unfoldable pub section_loop : Image → ℕ → ℕ → ℕ → ℕ → Option Found → Run (Option Found)
unfolding read_section note_section
section_loop img size sections_off i zero f = done f
section_loop img size sections_off i (suc n) none = done none
section_loop img size sections_off i (suc n) (some f) = do
  s ← read_section img size (sections_off + i * 40)
  section_loop img size sections_off (i + 1) n (noted f s)

-- `best.or(named_text)`
abbrev pub or_text : Found → Option (ℕ × ℕ)
or_text f = elim f.best [ some b ↦ some b | none ↦ f.named_text ]

abbrev pub chosen : Option Found → Option (ℕ × ℕ)
chosen none = none
chosen (some f) = or_text f

abbrev pub search : Image → ℕ → Option (ℕ × ℕ) → Run (Option (ℕ × ℕ))
search img size none = done none
search img size (some (sections_off, num_sections)) = do
  f ←
      section_loop img size sections_off 0 num_sections
        (some (record { best = none; named_text = none }))
  done (chosen f)

unfoldable pub parse_text_section : Image → ℕ → Run (Option (ℕ × ℕ))
unfolding section_table section_loop
parse_text_section img size = search img size (section_table img size)

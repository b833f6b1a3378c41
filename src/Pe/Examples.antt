-- ===== src/Pe/Examples.antt =====
-- Runs of crates/dll-common/src/pe.rs over a small image, and its theorem there.
use openforge_aio.Prelude.{
  ℕ, ◌+◌, ◌*◌, ◌≤◌, ◌≡◌, ◌⊎◌, refl, false, none, some, List, [], ◌∷◌, ◌++◌, All,
}
use openforge_aio.Prelude.Run.{done}
use openforge_aio.Prelude.Bytes.{to_le}
use openforge_aio.Prelude.Text.{Text, codes}
use openforge_aio.Memory.Bytes.{overwrite, slice}
use openforge_aio.Pe.Headers.{Image, read_u32_in_image, read_u16_in_image, section_table}
use openforge_aio.Pe.{
  is_code, is_text, note_section, read_name, read_section, section_loop, until_nul,
  parse_text_section,
}
use openforge_aio.Pe.Sections.{sections_from}
use openforge_aio.Pe.Parse.{IsPrimary, parse_text_section_lem}

abbrev header : ℕ → List ℕ
header num_sections =
    to_le 4 0x4550
    ++ (to_le 2 0x8664 ++ (to_le 2 num_sections ++ (to_le 12 0 ++ (to_le 2 0 ++ to_le 2 0))))

abbrev section : Text → ℕ → ℕ → ℕ → List ℕ
section name vsize vaddr chars =
    name ++ (to_le 4 vsize ++ (to_le 4 vaddr ++ (to_le 20 0 ++ to_le 4 chars)))

abbrev text_name : Text
text_name = codes ".text" ++ 0 ∷ 0 ∷ 0 ∷ []

abbrev data_name : Text
data_name = codes ".udata" ++ 0 ∷ 0 ∷ []

-- A section that is named ".text" without being code, and a code section.
abbrev image : ℕ → Image
image code_size = overwrite (overwrite (λ x. 0) 0x3c (to_le 4 0x40)) 0x40 (
    header 2
    ++ (section text_name 0x100 0x1000 0x4000_0000
        ++ section data_name code_size 0x2000 0x6000_0000))

finds_code : parse_text_section (image 0x300) 0xa8 ≡ done (some (0x2000, 0x300))
unfolding parse_text_section section_table read_u32_in_image read_u16_in_image slice overwrite
    section_loop read_section read_name note_section is_code is_text until_nul
finds_code = refl

-- A section of 256 MiB is below the cap.
finds_blob : parse_text_section (image 0x1000_0000) 0xa8 ≡ done (some (0x2000, 0x1000_0000))
unfolding parse_text_section section_table read_u32_in_image read_u16_in_image slice overwrite
    section_loop read_section read_name note_section is_code is_text until_nul
finds_blob = refl

falls_back : parse_text_section (image 0x8000_0000) 0xa8 ≡ done (some (0x1000, 0x100))
unfolding parse_text_section section_table read_u32_in_image read_u16_in_image slice overwrite
    section_loop read_section read_name note_section is_code is_text until_nul
falls_back = refl

parse_text_section_lem_example :
    ((parse_text_section (image 0x300) 0xa8 ≡ done none)
      × (section_table (image 0x300) 0xa8 ≡ none))
    ⊎ ((off : ℕ) × (num : ℕ) × (section_table (image 0x300) 0xa8 ≡ some (off, num))
        × (off + num * 40 ≤ 0xa8)
        × (((parse_text_section (image 0x300) 0xa8 ≡ done none)
              × All (λ s. is_code s ≡ false) (sections_from (image 0x300) off 0 num)
              × All (λ s. is_text s ≡ false) (sections_from (image 0x300) off 0 num))
            ⊎ ((v : ℕ) × (n : ℕ) × (parse_text_section (image 0x300) 0xa8 ≡ done (some (v, n)))
                × IsPrimary (sections_from (image 0x300) off 0 num) v n)))
parse_text_section_lem_example = parse_text_section_lem (image 0x300) 0xa8

-- ===== src/Synthesis/Examples.antt =====
-- Runs of crates/discover/src/aob.rs with a decoder that knows two instructions, and its theorem
-- there.
use openforge_aio.Prelude.{
  ℕ, ◌≡◌, refl, false, Option, none, some, List, [], ◌∷◌, arith, ◌==◌, if◌then◌else◌,
}
use openforge_aio.Prelude.Result.{ok}
use openforge_aio.Prelude.Text.{codes}
use openforge_aio.Synthesis.{
  AobSynthesis, Instruction, immediate32, other_kind, rip_relative, immediate_bytes,
  is_legacy_prefix, displacement_size, parse_displacement, fill, with_displacement, with_immediates,
  hex_digit, pattern_text, shown, synthesized, instruction, instructions, build_pattern,
}
use openforge_aio.Synthesis.Built.{ReadsBack, build_pattern_lem}

-- `mov dword ptr [rip+0x12345678], 0xDEADBEEF`
abbrev mov : List ℕ
mov = 0xc7 ∷ 0x05 ∷ 0x78 ∷ 0x56 ∷ 0x34 ∷ 0x12 ∷ 0xef ∷ 0xbe ∷ 0xad ∷ 0xde ∷ []

abbrev decoder : List ℕ → ℕ → Option Instruction
decoder bytes at_offset =
    if at_offset == 0
    then some (record { invalid = false; len = 10; op_kinds = other_kind ∷ immediate32 ∷ [] })
    else none

abbrev synthesis : AobSynthesis
synthesis = record {
  pattern = codes "C7 05 ?? ?? ?? ?? ?? ?? ?? ??";
  resolve_kind = rip_relative;
  instruction_offset = 2;
  operand_size = 4;
  instructions_included = 1;
}

mov_built : build_pattern decoder mov 3 ≡ ok synthesis
unfolding build_pattern instructions instruction synthesized shown pattern_text hex_digit
    with_immediates with_displacement fill parse_displacement displacement_size is_legacy_prefix
    immediate_bytes
mov_built = refl

build_pattern_lem_example : ReadsBack mov (codes "C7 05 ?? ?? ?? ?? ?? ?? ?? ??")
build_pattern_lem_example =
    build_pattern_lem decoder mov 3 synthesis
      (
        omega arith,
        (
          omega arith,
          (
            omega arith,
            (
              omega arith,
              (
                omega arith,
                (omega arith, (omega arith, (omega arith, (omega arith, (omega arith, tt))))),
              ),
            ),
          ),
        ),
      )
      mov_built

-- ===== src/Synthesis.antt =====
-- crates/discover/src/aob.rs: the synthesis of a pattern from captured bytes. The x86 decoder,
-- crate iced-x86, is a parameter: what it decodes at an offset of the bytes, if it can.
pub mod Print
pub mod Built
mod Examples
use openforge_aio.Prelude.{
  ℕ, zero, suc, ◌+◌, ◌-◌, ◌*◌, ◌/◌, ◌%◌, ◌<◌, ◌≡◌, min, Bool, true, false, not, ◌&&◌, ◌||◌, Option,
  none, some, List, [], ◌∷◌, ◌++◌, length, replicate, take, drop, get_elem?, ltb, leb, ◌==◌,
  if◌then◌else◌,
}
use openforge_aio.Prelude.Result.{Result, ok, err, ◌>>=◌, ◌>>◌, fail_if}
use openforge_aio.Prelude.Text.{Text, codes}

pub data AobResolveKind : Type 0 where
  direct rip_relative : AobResolveKind

pub record AobSynthesis : Type 0 where
  pub pattern : Text
  pub resolve_kind : AobResolveKind
  pub instruction_offset : ℕ
  pub operand_size : ℕ
  pub instructions_included : ℕ

pub data AobError : Type 0 where
  no_bytes no_instructions : AobError
  invalid_instruction past_end : ℕ → AobError

-- The kinds of operands that `total_immediate_bytes` tells apart.
pub data OpKind : Type 0 where
  immediate8 immediate8_2nd immediate8to16 immediate8to32 immediate8to64 : OpKind
  immediate16 immediate32 immediate32to64 immediate64 other_kind : OpKind

-- What the source asks of a decoded instruction.
pub record Instruction : Type 0 where
  pub invalid : Bool
  pub len : ℕ
  pub op_kinds : List OpKind

unfoldable pub immediate_bytes : OpKind → ℕ
immediate_bytes immediate8 = 1
immediate_bytes immediate8_2nd = 1
immediate_bytes immediate8to16 = 1
immediate_bytes immediate8to32 = 1
immediate_bytes immediate8to64 = 1
immediate_bytes immediate16 = 2
immediate_bytes immediate32 = 4
immediate_bytes immediate32to64 = 4
immediate_bytes immediate64 = 8
immediate_bytes other_kind = 0

abbrev pub total_immediate_bytes : List OpKind → ℕ
total_immediate_bytes [] = 0
total_immediate_bytes (k ∷ ks) = immediate_bytes k + total_immediate_bytes ks

unfoldable pub is_legacy_prefix : ℕ → Bool
is_legacy_prefix b =
    b == 0x66
    || b == 0x67
    || b == 0x26
    || b == 0x2e
    || b == 0x36
    || b == 0x3e
    || b == 0x64
    || b == 0x65
    || b == 0xf0
    || b == 0xf2
    || b == 0xf3

pub record DisplacementInfo : Type 0 where
  pub offset_in_instr : ℕ
  pub size : ℕ
  pub is_rip_relative : Bool

abbrev pub no_displacement : DisplacementInfo
no_displacement = record { offset_in_instr = 0; size = 0; is_rip_relative = false }

-- The match on the mode and register bits.
unfoldable pub displacement_size : ℕ → ℕ → Bool → ℕ → ℕ × Bool
displacement_size mod_bits rm_bits has_sib sib_base =
    if mod_bits == 0
    then (if rm_bits == 5 && not has_sib
        then (4, true)
        else if rm_bits == 4 && sib_base == 5
        then (4, false)
        else (0, false))
    else if mod_bits == 1
    then (1, false)
    else if mod_bits == 2
    then (4, false)
    else (0, false)

abbrev pub displaced : ℕ → ℕ × Bool → DisplacementInfo
displaced i (size, rip) = record { offset_in_instr = i; size = size; is_rip_relative = rip }

-- The SIB byte behind the ModR/M byte, if there is to be one.
abbrev pub after_modrm : ℕ → ℕ → List ℕ → DisplacementInfo
after_modrm i modrm rest =
    let mod_bits = modrm / 64 in
    let rm_bits = modrm % 8 in
    let has_sib = not (mod_bits == 3) && rm_bits == 4 in
    let plain = displaced i (displacement_size mod_bits rm_bits has_sib 0) in
    let with_sib : DisplacementInfo = elim rest [
      | [] ↦ no_displacement
      | sib ∷ _ ↦ displaced (i + 1) (displacement_size mod_bits rm_bits has_sib (sib % 8))
    ] in
    if has_sib then with_sib else plain

abbrev pub at_modrm : ℕ → List ℕ → DisplacementInfo
at_modrm i [] = no_displacement
at_modrm i (modrm ∷ rest) = after_modrm (i + 1) modrm rest

-- The last opcode byte, behind an escape; then the ModR/M byte.
abbrev pub behind_escape : ℕ → List ℕ → DisplacementInfo
behind_escape i [] = no_displacement
behind_escape i (b ∷ bs) =
    if b == 0x38 || b == 0x3a then at_modrm (i + 2) (drop 1 bs) else at_modrm (i + 1) bs

abbrev pub at_opcode : ℕ → List ℕ → DisplacementInfo
at_opcode i [] = no_displacement
at_opcode i (b ∷ bs) = if b == 0x0f then behind_escape (i + 1) bs else at_modrm (i + 1) bs

abbrev pub at_rex : ℕ → List ℕ → DisplacementInfo
at_rex i [] = no_displacement
at_rex i (b ∷ bs) = if b / 16 == 4 then at_opcode (i + 1) bs else at_opcode i (b ∷ bs)

-- `parse_displacement`, with the count of the bytes before and the bytes that are left.
unfoldable pub parse_displacement : ℕ → List ℕ → DisplacementInfo
parse_displacement i [] = no_displacement
parse_displacement i (b ∷ bs) =
    let rest = parse_displacement (i + 1) bs in
    if is_legacy_prefix b then rest else at_rex i (b ∷ bs)

-- `wildcards[a..a + n].fill(true)`
unfoldable pub fill : ℕ → ℕ → List Bool → List Bool
fill a n [] = []
fill zero zero (x ∷ xs) = x ∷ xs
fill zero (suc n) (x ∷ xs) = true ∷ fill zero n xs
fill (suc a) n (x ∷ xs) = x ∷ fill a n xs

-- The locals of `build_pattern`.
pub record Progress : Type 0 where
  pub accumulated_len : ℕ
  pub wildcards : List Bool
  pub first_disp_abs_offset : Option ℕ
  pub first_disp_size : ℕ
  pub first_is_rip_rel : Bool
  pub decoded : ℕ

-- The wildcards of a displacement; that of the first instruction is remembered.
unfoldable pub with_displacement : Progress → ℕ → DisplacementInfo → Progress
with_displacement p len d =
    let abs = p.accumulated_len + d.offset_in_instr in
    let marked : Progress = record p { wildcards = fill abs d.size p.wildcards } in
    if ltb 0 d.size && leb (d.offset_in_instr + d.size) len
    then (if p.decoded == 0
        then (record marked {
          first_disp_abs_offset = some abs;
          first_disp_size = d.size;
          first_is_rip_rel = d.is_rip_relative;
        })
        else marked)
    else p

-- The wildcards of the immediate operands, and the step behind the instruction.
unfoldable pub with_immediates : Progress → ℕ → ℕ → Progress
with_immediates p len imm_size =
    let wildcards =
      if ltb 0 imm_size
      then fill (p.accumulated_len + len - imm_size) imm_size p.wildcards
      else p.wildcards in
    record p {
      wildcards = wildcards;
      accumulated_len = p.accumulated_len + len;
      decoded = p.decoded + 1;
    }

abbrev pub resolved : Text → Progress → AobSynthesis
resolved pattern p =
    if p.first_is_rip_rel
    then (record {
      pattern = pattern;
      resolve_kind = rip_relative;
      instruction_offset = elim p.first_disp_abs_offset [ none ↦ 0 | some abs ↦ abs ];
      operand_size = p.first_disp_size;
      instructions_included = p.decoded;
    })
    else (record {
      pattern = pattern;
      resolve_kind = direct;
      instruction_offset = 0;
      operand_size = 0;
      instructions_included = p.decoded;
    })

-- A digit of `{:02X}`.
unfoldable pub hex_digit : ℕ → ℕ
hex_digit d = if ltb d 10 then b'0' + d else b'A' + (d - 10)

abbrev pub byte_text : Option ℕ → Text
byte_text none = codes "??"
byte_text (some b) = hex_digit (b / 16) ∷ hex_digit (b % 16) ∷ []

-- The tokens, with a blank between two of them.
unfoldable pub pattern_text : List (Option ℕ) → Text
pattern_text [] = []
pattern_text (b ∷ []) = byte_text b
pattern_text (b ∷ c ∷ bs) = byte_text b ++ b' ' ∷ pattern_text (c ∷ bs)

-- The bytes of the pattern: those behind a wildcard are not shown.
unfoldable pub shown : ℕ → List ℕ → List Bool → List (Option ℕ)
shown zero bs ws = []
shown (suc n) [] ws = []
shown (suc n) (b ∷ bs) [] = []
shown (suc n) (b ∷ bs) (w ∷ ws) = (if w then none else some b) ∷ shown n bs ws

-- The text of the pattern, and the metadata.
unfoldable pub synthesized : List ℕ → Progress → Result AobError AobSynthesis
synthesized bytes p = do
  fail_if (p.accumulated_len == 0) no_instructions
  ok (resolved (pattern_text (shown p.accumulated_len bytes p.wildcards)) p)

module _ (decode : List ℕ → ℕ → Option Instruction) where
  unfoldable pub instruction : List ℕ → Progress → Instruction → Result AobError Progress
  instruction bytes p instr = do
    fail_if instr.invalid (invalid_instruction p.accumulated_len)
    fail_if (ltb (length bytes) (p.accumulated_len + instr.len)) (past_end p.accumulated_len)
    let instr_bytes = take instr.len (drop p.accumulated_len bytes) in
        let imm_size = min (total_immediate_bytes instr.op_kinds) instr.len in
        ok (
          with_immediates (with_displacement p instr.len (parse_displacement 0 instr_bytes))
            instr.len imm_size)

  -- `for i in 0..n_instr`; the rounds before the current one are those that decoded.
  unfoldable pub instructions : List ℕ → ℕ → Progress → Result AobError Progress
  instructions bytes zero p = ok p
  instructions bytes (suc n) p = elim (decode bytes p.accumulated_len) [
    | none ↦ ok p
    | some instr ↦ do p' ← instruction bytes p instr; instructions bytes n p'
  ]

  unfoldable pub build_pattern : List ℕ → ℕ → Result AobError AobSynthesis
  build_pattern bytes n_instr = do
    fail_if (length bytes == 0) no_bytes
    p ← instructions bytes n_instr (record {
      accumulated_len = 0;
      wildcards = replicate (length bytes) false;
      first_disp_abs_offset = none;
      first_disp_size = 0;
      first_is_rip_rel = false;
      decoded = 0;
    })
    synthesized bytes p

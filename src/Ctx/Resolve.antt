-- ===== src/Ctx/Resolve.antt =====
-- crates/core/src/resolve.rs: from the address of a pattern's match to the address it stands for.
-- `usize` has 64 bits and wraps around, as the release build does.
use openforge_aio.Prelude.{
  ◌*◌, ◌/◌, ◌<◌, refl, sym, ap, ◌∙◌, subst, ◌⊎◌, ℕ, ◌+◌, ◌%◌, ◌^◌, ◌≡◌, true, false, ◌==◌, List,
  leb, if◌then◌else◌, arith, inl, inr,
}
use openforge_aio.Prelude.Run.{Run, done, panic}
use openforge_aio.Prelude.Result.{Result, ok, err}
use openforge_aio.Prelude.Bytes.{from_le, to_le, from_le-to_le}
use openforge_aio.Prelude.Int.{ℤ, to_signed, of_signed, InSigned, to_signed-of_signed, of_signed-lt}
use openforge_aio.Ctx.{Ctx, Error, bad_pattern, operand_size}

pub data Resolve : Type 0 where
  direct : Resolve
  offset : ℤ → Resolve
  rip_relative : ℕ → ℕ → Resolve

-- `(a as i64).wrapping_add(delta) as usize`
abbrev pub wrapping_add : ℕ → ℤ → ℕ
wrapping_add a delta = (a + of_signed (2 ^ 63) delta) % 2 ^ 64

-- The displacement, of the operand's width.
abbrev pub displacement : ℕ → List ℕ → Result Error ℤ
displacement n bs =
    if n == 1
    then ok (to_signed (2 ^ 7) (from_le bs))
    else if n == 2
    then ok (to_signed (2 ^ 15) (from_le bs))
    else if n == 4
    then ok (to_signed (2 ^ 31) (from_le bs))
    else err (bad_pattern (operand_size n))

abbrev pub target : ℕ → Result Error ℤ → Result Error ℕ
target next_rip (ok disp) = ok (wrapping_add next_rip disp)
target next_rip (err e) = err e

abbrev pub from_operand : ℕ → ℕ → Result Error (List ℕ) → Result Error ℕ
from_operand next_rip n (ok bs) = target next_rip (displacement n bs)
from_operand next_rip n (err e) = err e

module _ (ctx : Ctx) where
  -- An operand of more than 8 bytes is sliced out of a buffer of 8.
  unfoldable pub apply : Resolve → ctx.Proc → ℕ → Run (Result Error ℕ)
  apply direct p match_addr = done (ok match_addr)
  apply (offset delta) p match_addr = done (ok (wrapping_add match_addr delta))
  apply (rip_relative instruction_offset n) p match_addr =
      if leb n 8
      then done (
          from_operand ((match_addr + instruction_offset + n) % 2 ^ 64) n
            (ctx.read_bytes p ((match_addr + instruction_offset) % 2 ^ 64) n))
      else panic

-- The widths that an operand may have.
abbrev pub IsWidth : ℕ → Type 0
IsWidth n = (n ≡ 1) ⊎ (n ≡ 2) ⊎ (n ≡ 4)

signed_word :
    (half n : ℕ) (d : ℤ)
    → 2 * half ≡ 256 ^ n
    → InSigned half d
    → to_signed half (from_le (to_le n (of_signed half d))) ≡ d
signed_word half n d wide h =
    let small : of_signed half d < 256 ^ n =
      subst (λ k. of_signed half d < k) wide (of_signed-lt half d h) in
    ap (to_signed half) (from_le-to_le n (of_signed half d) small) ∙ to_signed-of_signed half d h

displacement-to_le :
    (n : ℕ) (d : ℤ)
    → IsWidth n
    → InSigned (256 ^ n / 2) d
    → displacement n (to_le n (of_signed (256 ^ n / 2) d)) ≡ ok d
displacement-to_le n d (inl e) h =
    subst
      (λ k. InSigned (256 ^ k / 2) d → displacement k (to_le k (of_signed (256 ^ k / 2) d)) ≡ ok d)
      (sym e) (λ g. ap ok (signed_word (2 ^ 7) 1 d refl g)) h
displacement-to_le n d (inr (inl e)) h =
    subst
      (λ k. InSigned (256 ^ k / 2) d → displacement k (to_le k (of_signed (256 ^ k / 2) d)) ≡ ok d)
      (sym e) (λ g. ap ok (signed_word (2 ^ 15) 2 d refl g)) h
displacement-to_le n d (inr (inr e)) h =
    subst
      (λ k. InSigned (256 ^ k / 2) d → displacement k (to_le k (of_signed (256 ^ k / 2) d)) ≡ ok d)
      (sym e) (λ g. ap ok (signed_word (2 ^ 31) 4 d refl g)) h

-- An instruction whose operand, of 1, 2 or 4 bytes, holds the displacement `d` in two's
-- complement resolves to the address `d` away from the end of the operand.
pub apply-to_le :
    (ctx : Ctx) (p : ctx.Proc) (match_addr instruction_offset n : ℕ) (d : ℤ)
    → IsWidth n
    → InSigned (256 ^ n / 2) d
    → ctx.read_bytes p ((match_addr + instruction_offset) % 2 ^ 64) n
      ≡ ok (to_le n (of_signed (256 ^ n / 2) d))
    → apply ctx (rip_relative instruction_offset n) p match_addr
      ≡ done (ok (wrapping_add ((match_addr + instruction_offset + n) % 2 ^ 64) d))
unfolding apply
apply-to_le ctx p match_addr instruction_offset n d width small read =
    let fits : leb n 8 ≡ true = ground arith in
    rw (fits, read, displacement-to_le n d width small) refl

-- An operand of more than 8 bytes panics, and one of another width than 1, 2 and 4 is refused
-- once it has been read.
pub apply_bad-width :
    (ctx : Ctx) (p : ctx.Proc) (match_addr instruction_offset n : ℕ) (bs : List ℕ)
    → ¬ IsWidth n
    → ctx.read_bytes p ((match_addr + instruction_offset) % 2 ^ 64) n ≡ ok bs
    → apply ctx (rip_relative instruction_offset n) p match_addr
      ≡ (if leb n 8 then done (err (bad_pattern (operand_size n))) else panic)
unfolding apply
apply_bad-width ctx p match_addr instruction_offset n bs other read =
    let one : n == 1 ≡ false = ground (arith, other) in
    let two : n == 2 ≡ false = ground (arith, other) in
    let four : n == 4 ≡ false = ground (arith, other) in rw (read, one, two, four) refl

-- ===== src/Synthesis/Built.antt =====
-- What crates/discover/src/aob.rs builds, as crates/core/src/pattern.rs reads it.
use openforge_aio.Prelude.{
  ℕ, zero, suc, ◌+◌, ◌≡◌, refl, Bool, true, false, Option, none, some, List, [], ◌∷◌, length,
  get_elem?, replicate, ◌==◌, arith, Bool-cases, inl, inr, All, if-lem,
}
use openforge_aio.Prelude.Text.{Text}
use openforge_aio.Prelude.Result.{ok, Result-cases}
use openforge_aio.Prelude.Bytes.{IsByte}
use openforge_aio.Pattern.{parse, anchored}
use openforge_aio.Pattern.Parse.{IsPatternByte}
use openforge_aio.Pattern.Spec.{MatchesAt}
use openforge_aio.Synthesis.{
  AobSynthesis, Instruction, Progress, shown, resolved, synthesized, instructions, build_pattern,
  pattern_text,
}
use openforge_aio.Synthesis.Print.{parse-pattern_text}

shown-IsPatternByte :
    (n : ℕ) (bs : List ℕ) (ws : List Bool) → All IsByte bs → All IsPatternByte (shown n bs ws)
unfolding shown
shown-IsPatternByte zero bs ws h = tt
shown-IsPatternByte (suc n) [] ws h = tt
shown-IsPatternByte (suc n) (b ∷ bs) [] h = tt
shown-IsPatternByte (suc n) (b ∷ bs) (true ∷ ws) h = (tt, shown-IsPatternByte n bs ws h.1)
shown-IsPatternByte (suc n) (b ∷ bs) (false ∷ ws) h = (h.0, shown-IsPatternByte n bs ws h.1)

shown-get :
    (n : ℕ) (bs : List ℕ) (ws : List Bool) (k b : ℕ)
    → get_elem? (shown n bs ws) k ≡ some (some b)
    → get_elem? bs k ≡ some b
unfolding shown
shown-get zero bs ws k b h = cc h
shown-get (suc n) [] ws k b h = cc h
shown-get (suc n) (x ∷ bs) [] k b h = cc h
shown-get (suc n) (x ∷ bs) (true ∷ ws) zero b h = cc h
shown-get (suc n) (x ∷ bs) (false ∷ ws) zero b h = cc h
shown-get (suc n) (x ∷ bs) (w ∷ ws) (suc k) b h = shown-get n bs ws k b h

resolved-pattern : (t : Text) (p : Progress) → (resolved t p).pattern ≡ t
resolved-pattern t p =
    if-lem (λ (r : AobSynthesis). r.pattern ≡ t) p.first_is_rip_rel _ _ (λ e. refl) (λ e. refl)

-- The text is that of bytes and wildcards which stand at the start of the captured bytes, and is
-- read back as these.
unfoldable pub ReadsBack : List ℕ → Text → Type 0
ReadsBack bytes t = (bs : List (Option ℕ)) × (parse t ≡ anchored bs) × MatchesAt bs bytes 0

synthesized_lem :
    (bytes : List ℕ) (p : Progress) (syn : AobSynthesis)
    → All IsByte bytes
    → synthesized bytes p ≡ ok syn
    → ReadsBack bytes syn.pattern
unfolding synthesized ReadsBack
synthesized_lem bytes p syn h e = elim (Bool-cases (p.accumulated_len == 0)) [
  | inl empty ↦ cc (rw empty at e)
  | inr filled ↦
      let bs = shown p.accumulated_len bytes p.wildcards in
      let made : ok (resolved (pattern_text bs) p) ≡ ok syn = rw filled at e in
      let same : syn.pattern ≡ pattern_text bs =
        ground (arith, made, resolved-pattern (pattern_text bs) p) in
      (
        bs,
        rw same (parse-pattern_text bs (shown-IsPatternByte p.accumulated_len bytes p.wildcards h)),
        λ k b got.
            let at_start : 0 + k ≡ k = omega arith in
            rw at_start (shown-get p.accumulated_len bytes p.wildcards k b got),
      )
]

-- Whatever the decoder says, the text that `build_pattern` returns for captured bytes is parsed
-- to a pattern that matches at the start of these bytes, or refused for having no literal.
pub build_pattern_lem :
    (decode : List ℕ → ℕ → Option Instruction) (bytes : List ℕ) (n_instr : ℕ) (syn : AobSynthesis)
    → All IsByte bytes
    → build_pattern decode bytes n_instr ≡ ok syn
    → ReadsBack bytes syn.pattern
unfolding build_pattern
build_pattern_lem decode bytes n_instr syn h e = elim (Bool-cases (length bytes == 0)) [
  | inl empty ↦ cc (rw empty at e)
  | inr filled ↦
      let start : Progress = record {
        accumulated_len = 0;
        wildcards = replicate (length bytes) false;
        first_disp_abs_offset = none;
        first_disp_size = 0;
        first_is_rip_rel = false;
        decoded = 0;
      } in
      elim (Result-cases (instructions decode bytes n_instr start)) [
        | inl (p, run) ↦ synthesized_lem bytes p syn h (rw (filled, run) at e)
        | inr (er, failed) ↦ cc (rw (filled, failed) at e)
      ]
]

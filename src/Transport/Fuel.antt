-- ===== src/Transport/Fuel.antt =====
-- The loops of crates/host-common/src/transport.rs end: the rounds they are given are enough.
use openforge_aio.Prelude.{
  ℕ, zero, suc, ◌-◌, ◌≤◌, ◌≡◌, refl, List, [], ◌∷◌, ◌++◌, length, drop, length-drop, ◌==◌, arith,
  Bool-cases, inl, inr,
}
use openforge_aio.Prelude.Result.{Result-cases}
use openforge_aio.Transport.{Win32, write_loop, read_loop}

module _ (w : Win32) where
  -- For the loop that writes, as many rounds as there are bytes are enough: more change nothing.
  pub write_loop_fuel :
      (f g : ℕ) (p : w.Pipe) (buf : List ℕ)
      → length buf ≤ f
      → length buf ≤ g
      → write_loop w f p buf ≡ write_loop w g p buf
  unfolding write_loop
  write_loop_fuel f g p [] hf hg = refl
  write_loop_fuel zero g p (b ∷ bs) hf hg = elim hf [ ]
  write_loop_fuel (suc f) zero p (b ∷ bs) hf hg = elim hg [ ]
  write_loop_fuel (suc f) (suc g) p (b ∷ bs) hf hg =
      let p' = (w.write_file p (b ∷ bs)).1 in
      elim (Result-cases (w.write_file p (b ∷ bs)).0) [
        | inr (code, e) ↦ rw e refl
        | inl (n, e) ↦ elim (Bool-cases (n == 0)) [
          | inl stuck ↦ rw (e, stuck) refl
          | inr some_bytes ↦
              let shorter : length (drop n (b ∷ bs)) ≤ f = ground (arith, length-drop n (b ∷ bs)) in
              let shorter' : length (drop n (b ∷ bs)) ≤ g =
                ground (arith, length-drop n (b ∷ bs)) in
              rw (e, some_bytes) (write_loop_fuel f g p' (drop n (b ∷ bs)) shorter shorter')
        ]
      ]

  -- As many rounds as there are bytes to read are enough: more of them change nothing.
  pub read_loop_fuel :
      (f g : ℕ) (p : w.Pipe) (n : ℕ) (filled : List ℕ)
      → n ≤ f
      → n ≤ g
      → read_loop w f p n filled ≡ read_loop w g p n filled
  unfolding read_loop
  read_loop_fuel f g p zero filled hf hg = refl
  read_loop_fuel zero g p (suc n) filled hf hg = elim hf [ ]
  read_loop_fuel (suc f) zero p (suc n) filled hf hg = elim hg [ ]
  read_loop_fuel (suc f) (suc g) p (suc n) filled hf hg =
      let p' = (w.read_file p (suc n)).1 in
      elim (Result-cases (w.read_file p (suc n)).0) [
        | inr (code, e) ↦ rw e refl
        | inl (got, e) ↦ elim (Bool-cases (length got == 0)) [
          | inl stuck ↦ rw (e, stuck) refl
          | inr some_bytes ↦
              rw (e, some_bytes)
                (read_loop_fuel f g p' (suc n - length got) (filled ++ got) (ground arith)
                  (ground arith))
        ]
      ]

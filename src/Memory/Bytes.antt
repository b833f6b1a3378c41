-- ===== src/Memory/Bytes.antt =====
-- An address space as a function from addresses to bytes: ranges that are read and overwritten.
use openforge_aio.Prelude.{
  ℕ, zero, suc, ◌+◌, ◌≤◌, ◌≡◌, refl, ap, ◌∙◌, Bool, true, false, ◌&&◌, List, [], ◌∷◌, length, ltb,
  leb, ◌==◌, if◌then◌else◌, arith, ap₂,
}

unfoldable pub overwrite : (ℕ → ℕ) → ℕ → List ℕ → ℕ → ℕ
overwrite f addr [] x = f x
overwrite f addr (b ∷ bs) x = if x == addr then b else overwrite f (addr + 1) bs x

unfoldable pub slice : (ℕ → ℕ) → ℕ → ℕ → List ℕ
slice f addr zero = []
slice f addr (suc n) = f addr ∷ slice f (addr + 1) n

-- `x` lies in the `n` bytes from `addr` on.
abbrev pub inside : ℕ → ℕ → ℕ → Bool
inside addr n x = leb addr x && ltb x (addr + n)

pub length-slice : (f : ℕ → ℕ) (addr n : ℕ) → length (slice f addr n) ≡ n
unfolding slice
length-slice f addr zero = refl
length-slice f addr (suc n) = ap suc (length-slice f (addr + 1) n)

pub slice-ext :
    (f g : ℕ → ℕ) (addr n : ℕ) → ((x : ℕ) → addr ≤ x → f x ≡ g x) → slice f addr n ≡ slice g addr n
unfolding slice
slice-ext f g addr zero h = refl
slice-ext f g addr (suc n) h =
    ap₂ ◌∷◌ (h addr (omega arith)) (slice-ext f g (addr + 1) n (λ x low. h x (omega arith)))

pub overwrite-ext :
    (f g : ℕ → ℕ) (addr : ℕ) (bs : List ℕ) (x : ℕ)
    → f x ≡ g x
    → overwrite f addr bs x ≡ overwrite g addr bs x
unfolding overwrite
overwrite-ext f g addr [] x h = h
overwrite-ext f g addr (b ∷ bs) x h = ground (arith, overwrite-ext f g (addr + 1) bs x h)

pub overwrite_outside :
    (f : ℕ → ℕ) (addr : ℕ) (bs : List ℕ) (x : ℕ)
    → inside addr (length bs) x ≡ false
    → overwrite f addr bs x ≡ f x
unfolding overwrite
overwrite_outside f addr [] x h = refl
overwrite_outside f addr (b ∷ bs) x h =
    ground (arith, overwrite_outside f (addr + 1) bs x (ground arith))

-- A range that is overwritten by what another space holds there.
pub overwrite-slice :
    (f g : ℕ → ℕ) (addr n x : ℕ)
    → overwrite g addr (slice f addr n) x ≡ (if inside addr n x then f x else g x)
unfolding overwrite slice
overwrite-slice f g addr zero x = ground arith
overwrite-slice f g addr (suc n) x = ground (arith, overwrite-slice f g (addr + 1) n x)

behind_head :
    (f : ℕ → ℕ) (addr b : ℕ) (bs : List ℕ) (x : ℕ)
    → addr + 1 ≤ x
    → overwrite f addr (b ∷ bs) x ≡ overwrite f (addr + 1) bs x
unfolding overwrite
behind_head f addr b bs x h = ground arith

at_head : (f : ℕ → ℕ) (addr b : ℕ) (bs : List ℕ) → overwrite f addr (b ∷ bs) addr ≡ b
unfolding overwrite
at_head f addr b bs = ground arith

-- What was written is read back.
pub slice-overwrite :
    (f : ℕ → ℕ) (addr : ℕ) (bs : List ℕ) → slice (overwrite f addr bs) addr (length bs) ≡ bs
unfolding slice
slice-overwrite f addr [] = refl
slice-overwrite f addr (b ∷ bs) = ap₂ ◌∷◌ (at_head f addr b bs) (
    slice-ext (overwrite f addr (b ∷ bs)) (overwrite f (addr + 1) bs) (addr + 1) (length bs)
      (behind_head f addr b bs)
    ∙ slice-overwrite f (addr + 1) bs)

pub slice-ext_inside :
    (f g : ℕ → ℕ) (addr n : ℕ)
    → ((x : ℕ) → inside addr n x ≡ true → f x ≡ g x)
    → slice f addr n ≡ slice g addr n
unfolding slice
slice-ext_inside f g addr zero h = refl
slice-ext_inside f g addr (suc n) h =
    ap₂ ◌∷◌ (h addr (ground arith))
      (slice-ext_inside f g (addr + 1) n (λ x within. h x (ground arith)))

-- ===== src/Prelude/Window.antt =====
-- The last elements of a list, and a bounded queue that evicts its oldest element.
use openforge_aio.Prelude.Tests.{leb, if◌then◌else◌, Bool-cases}
use openforge_aio.Prelude.Lists.{length, drop, length-append, length-drop}
use Prim.Native.Nat.{ℕ, zero, suc, ◌+◌, ◌-◌, ◌≤◌, ◌<◌}
use mathlib.Core.Path.{◌≡◌, refl, sym, ap, ◌∙◌}
use mathlib.Core.Logic.{inl, inr}
use mathlib.Core.List.{List, [], ◌∷◌, ◌++◌}
use native.Mathlib.Omega.{arith}

-- The last `n` elements.
abbrev pub last_n {ℓ} : {A : Type ℓ} → ℕ → List A → List A
last_n n xs = drop (length xs - n) xs

module _ {ℓ} {A : Type ℓ} where
  pub drop-append : (k : ℕ) (xs ys : List A) → k ≤ length xs → drop k (xs ++ ys) ≡ drop k xs ++ ys
  drop-append zero xs ys h = refl
  drop-append (suc k) [] ys h = elim h [ ]
  drop-append (suc k) (x ∷ xs) ys h = drop-append k xs ys (omega arith)

  pub drop-drop : (j k : ℕ) (xs : List A) → drop j (drop k xs) ≡ drop (k + j) xs
  drop-drop j zero xs = let e : zero + j ≡ j = omega arith in rw e refl
  drop-drop zero (suc k) [] = let e : suc k + 0 ≡ suc k = omega arith in rw e refl
  drop-drop (suc j) (suc k) [] = let e : suc k + suc j ≡ suc (k + suc j) = omega arith in rw e refl
  drop-drop j (suc k) (x ∷ xs) =
      let e : suc k + j ≡ suc (k + j) = omega arith in rw e (drop-drop j k xs)

  -- What is kept does not depend on what was dropped before.
  pub last_n-last_n : (n : ℕ) (xs ys : List A) → last_n n (last_n n xs ++ ys) ≡ last_n n (xs ++ ys)
  last_n-last_n n xs ys =
      let k : ℕ = length xs - n in
      let short : k ≤ length xs = omega arith in
      let joined : drop k xs ++ ys ≡ drop k (xs ++ ys) = sym (drop-append k xs ys short) in
      let cut : length (drop k (xs ++ ys)) ≡ length (xs ++ ys) - k = length-drop k (xs ++ ys) in
      rw (joined, cut)
        (drop-drop (length (xs ++ ys) - k - n) k (xs ++ ys)
          ∙ ap (λ i. drop i (xs ++ ys)) (omega (arith, length-append xs ys)))

  -- The queue's push: the oldest element goes if the queue is full.
  abbrev pub push_evict : ℕ → List A → A → List A
  push_evict cap xs x = (if leb cap (length xs) then drop 1 xs else xs) ++ x ∷ []

  pub last_n_short : (n : ℕ) (xs : List A) → length xs ≤ n → last_n n xs ≡ xs
  last_n_short n xs h = let e : length xs - n ≡ 0 = omega arith in rw e refl

  pub length-last_n : (n : ℕ) (xs : List A) → length (last_n n xs) ≤ n
  length-last_n n xs = omega (arith, length-drop (length xs - n) xs)

  pub length-last_n_eq : (n : ℕ) (xs : List A) → length (last_n n xs) ≡ length xs - (length xs - n)
  length-last_n_eq n xs = length-drop (length xs - n) xs

  pub push_evict_lem :
      (cap : ℕ) (xs : List A) (x : A)
      → 0 < cap
      → length xs ≤ cap
      → push_evict cap xs x ≡ last_n cap (xs ++ x ∷ [])
  push_evict_lem cap xs x positive bounded =
      let total = length-append xs (x ∷ []) in
      elim (Bool-cases (leb cap (length xs))) [
        | inr room ↦ rw room (sym (last_n_short cap (xs ++ x ∷ []) (ground (arith, total))))
        | inl full ↦
            let one : length (xs ++ x ∷ []) - cap ≡ 1 = ground (arith, total) in
            rw full (rw one (sym (drop-append 1 xs (x ∷ []) (ground arith))))
      ]

-- ===== src/Prelude/Lists.antt =====
-- Lists measured and indexed by native numbers, under the library's names.
use Prim.Native.Nat.{ℕ, zero, suc, ◌+◌, ◌-◌, ◌<◌, min}
use mathlib.Core.Path.{◌≡◌, refl, ap, subst}
use mathlib.Core.Bool.{Bool, true, false}
use openforge_aio.Prelude.Tests.{if◌then◌else◌}
use mathlib.Core.Logic.{◌⊎◌, inl, inr}
use mathlib.Core.List.{List, [], ◌∷◌, ◌++◌}
use mathlib.Core.Option.{Option, none, some}
use native.Mathlib.Omega.{arith}

module _ {ℓ} {A : Type ℓ} where
  abbrev pub length : List A → ℕ
  length [] = 0
  length (x ∷ xs) = suc (length xs)

  abbrev pub get_elem? : List A → ℕ → Option A
  get_elem? [] i = none
  get_elem? (x ∷ xs) zero = some x
  get_elem? (x ∷ xs) (suc i) = get_elem? xs i

  abbrev pub take : ℕ → List A → List A
  take zero xs = []
  take (suc n) [] = []
  take (suc n) (x ∷ xs) = x ∷ take n xs

  abbrev pub drop : ℕ → List A → List A
  drop zero xs = xs
  drop (suc n) [] = []
  drop (suc n) (x ∷ xs) = drop n xs

  abbrev pub replicate : ℕ → A → List A
  replicate zero a = []
  replicate (suc n) a = a ∷ replicate n a

  pub length-append : (xs ys : List A) → length (xs ++ ys) ≡ length xs + length ys
  length-append [] ys = omega arith
  length-append (x ∷ xs) ys = omega (arith, length-append xs ys)

  pub take-append-drop : (n : ℕ) (xs : List A) → take n xs ++ drop n xs ≡ xs
  take-append-drop zero xs = refl
  take-append-drop (suc n) [] = refl
  take-append-drop (suc n) (x ∷ xs) = rw (take-append-drop n xs)

  pub length-take : (n : ℕ) (xs : List A) → length (take n xs) ≡ min n (length xs)
  length-take zero xs = omega arith
  length-take (suc n) [] = omega arith
  length-take (suc n) (x ∷ xs) = omega (arith, length-take n xs)

  pub length-drop : (n : ℕ) (xs : List A) → length (drop n xs) ≡ length xs - n
  length-drop zero xs = omega arith
  length-drop (suc n) [] = omega arith
  length-drop (suc n) (x ∷ xs) = omega (arith, length-drop n xs)

  pub length-replicate : (n : ℕ) (a : A) → length (replicate n a) ≡ n
  length-replicate zero a = refl
  length-replicate (suc n) a = ap suc (length-replicate n a)

  pub get_elem?_lt : (xs : List A) (i : ℕ) → i < length xs → (a : A) × (get_elem? xs i ≡ some a)
  get_elem?_lt [] i h = elim h [ ]
  get_elem?_lt (x ∷ xs) zero h = (x, refl)
  get_elem?_lt (x ∷ xs) (suc i) h = get_elem?_lt xs i (omega arith)

  pub lt_of_get_elem? : (xs : List A) (i : ℕ) (a : A) → get_elem? xs i ≡ some a → i < length xs
  lt_of_get_elem? [] i a h = ground arith
  lt_of_get_elem? (x ∷ xs) zero a h = omega arith
  lt_of_get_elem? (x ∷ xs) (suc i) a h = omega (arith, lt_of_get_elem? xs i a h)

-- A predicate of every element, by recursion.
abbrev pub All {ℓ κ} : {A : Type ℓ} → (A → Type κ) → List A → Type κ
All P [] = Unit
All P (x ∷ xs) = P x × All P xs

pub All-append {ℓ κ} :
    {A : Type ℓ} (P : A → Type κ) (xs ys : List A) → All P xs → All P ys → All P (xs ++ ys)
All-append P [] ys hx hy = hy
All-append P (x ∷ xs) ys hx hy = (hx.0, All-append P xs ys hx.1 hy)

-- The element stands in the list.
abbrev pub In {ℓ} : {A : Type ℓ} → A → List A → Type ℓ
In {A = A} a xs = (i : ℕ) × (get_elem? xs i ≡ some a)

module _ {ℓ} {A : Type ℓ} where
  pub In-head : (x : A) (xs : List A) → In x (x ∷ xs)
  In-head x xs = (0, refl)

  pub In-tail : {a : A} (x : A) (xs : List A) → In a xs → In a (x ∷ xs)
  In-tail x xs (i, e) = (suc i, e)

  pub In-cases : {a : A} (x : A) (xs : List A) → In a (x ∷ xs) → (x ≡ a) ⊎ In a xs
  In-cases x xs (zero, e) = inl (cc e)
  In-cases x xs (suc i, e) = inr (i, e)

  pub not-In-nil : {a : A} → ¬ In a []
  not-In-nil (i, e) = cc e

  pub In-append_left : {a : A} (xs ys : List A) → In a xs → In a (xs ++ ys)
  In-append_left [] ys m = absurd (not-In-nil m)
  In-append_left (x ∷ xs) ys (zero, e) = (0, e)
  In-append_left (x ∷ xs) ys (suc i, e) = In-tail x (xs ++ ys) (In-append_left xs ys (i, e))

  pub In-append_right : {a : A} (xs ys : List A) → In a ys → In a (xs ++ ys)
  In-append_right [] ys m = m
  In-append_right (x ∷ xs) ys m = In-tail x (xs ++ ys) (In-append_right xs ys m)

  pub In-append_cases : {a : A} (xs ys : List A) → In a (xs ++ ys) → In a xs ⊎ In a ys
  In-append_cases [] ys m = inr m
  In-append_cases (x ∷ xs) ys (zero, e) = inl (0, e)
  In-append_cases (x ∷ xs) ys (suc i, e) = elim (In-append_cases xs ys (i, e)) [
    | inl early ↦ inl (In-tail x xs early)
    | inr late ↦ inr late
  ]

  pub All-In {κ} : (P : A → Type κ) {a : A} (xs : List A) → All P xs → In a xs → P a
  All-In P [] h m = absurd (not-In-nil m)
  All-In P (x ∷ xs) h m = elim (In-cases x xs m) [
    | inl e ↦ subst P e h.0
    | inr later ↦ All-In P xs h.1 later
  ]

  -- The membership in a list that a test may extend.
  pub In-if :
      {a : A} (b : Bool) (x : A) (xs : List A)
      → In a (if b then x ∷ xs else xs)
      → ((b ≡ true) × (x ≡ a)) ⊎ In a xs
  In-if true x xs m = elim (In-cases x xs m) [ inl e ↦ inl (refl, e) | inr later ↦ inr later ]
  In-if false x xs m = inr m

  pub In-unless :
      {a : A} (b : Bool) (x : A) (xs : List A)
      → In a (if b then xs else x ∷ xs)
      → ((b ≡ false) × (x ≡ a)) ⊎ In a xs
  In-unless true x xs m = inr m
  In-unless false x xs m = elim (In-cases x xs m) [ inl e ↦ inl (refl, e) | inr later ↦ inr later ]

  pub In-if_later :
      {a : A} (b : Bool) (x : A) (xs : List A) → In a xs → In a (if b then x ∷ xs else xs)
  In-if_later true x xs m = In-tail x xs m
  In-if_later false x xs m = m

  pub In-if_here :
      {a : A} (b : Bool) (x : A) (xs : List A) → b ≡ true → x ≡ a → In a (if b then x ∷ xs else xs)
  In-if_here true x xs h e = (0, cc e)
  In-if_here false x xs h e = cc h

-- Every element is below those behind it.
abbrev pub Ascending : List ℕ → Type 0
Ascending [] = Unit
Ascending (x ∷ xs) = All (λ y. x < y) xs × Ascending xs

-- A predicate of some element, by recursion.
abbrev pub Any {ℓ} : {A : Type ℓ} → (A → Type 0) → List A → Type 0
Any P [] = ⊥
Any P (x ∷ xs) = P x ⊎ Any P xs

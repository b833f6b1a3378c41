-- ===== src/LuaWorkers/Keys.antt =====
-- The key poll thread of crates/ue5-lua/src/workers.rs: one call for each press.
use openforge_aio.Prelude.{
  ℕ, ◌+◌, ◌≡◌, refl, sym, ◌∙◌, ap, ap₂, Bool, true, false, not, ◌&&◌, none, some, List, [], ◌∷◌,
  ◌==◌, if◌then◌else◌, arith, Bool-cases, inl, inr,
}
use openforge_aio.Prelude.Dict.{Dict, lookup, insert, nat_eq, lookup-insert}
use openforge_aio.LuaWorkers.{was_down, poll_keys, one_of, retain_bound, poll}

-- How often the key is to be called.
abbrev pub count : ℕ → List ℕ → ℕ
count vk [] = 0
count vk (v ∷ vs) = (if v == vk then 1 else 0) + count vk vs

-- The keys are different.
abbrev pub Different : List ℕ → Type 0
Different [] = Unit
Different (v ∷ vs) = (one_of v vs ≡ false) × Different vs

abbrev pub one_if : Bool → ℕ
one_if true = 1
one_if false = 0

poll_keys-prev :
    (pressed : ℕ → Bool) (vks : List ℕ) (prev : Dict ℕ Bool) (vk : ℕ)
    → lookup vk (poll_keys pressed vks prev).1
      ≡ (if one_of vk vks then some (pressed vk) else lookup vk prev)
unfolding poll_keys
poll_keys-prev pressed [] prev vk = refl
poll_keys-prev pressed (v ∷ vks) prev vk = ground (
  arith,
  poll_keys-prev pressed vks (insert v (pressed v) prev) vk,
  lookup-insert {V = Bool} v vk (pressed v) prev,
)

poll_keys-sent :
    (pressed : ℕ → Bool) (vks : List ℕ) (prev : Dict ℕ Bool) (vk : ℕ)
    → Different vks
    → count vk (poll_keys pressed vks prev).0
      ≡ one_if (one_of vk vks && (pressed vk && not (was_down (lookup vk prev))))
unfolding poll_keys
poll_keys-sent pressed [] prev vk different = refl
poll_keys-sent pressed (v ∷ vks) prev vk different =
    let law = lookup-insert {V = Bool} v vk (pressed v) prev in
    let rest = poll_keys-sent pressed vks (insert v (pressed v) prev) vk different.1 in
    let test : Bool = pressed v && not (was_down (lookup v prev)) in
    elim (Bool-cases (v == vk)) [
      | inl it ↦
          let same : v ≡ vk = ground (arith, it) in
          let once : one_of vk vks ≡ false = ap (λ k. one_of k vks) (sym same) ∙ different.0 in
          let down : was_down (lookup v prev) ≡ was_down (lookup vk prev) =
            ap (λ k. was_down (lookup k prev)) same in
          let press : pressed v ≡ pressed vk = ap pressed same in
          elim (Bool-cases test) [
            | inl on ↦ ground (arith, on, it, rest, once, down, press)
            | inr off ↦ ground (arith, off, it, rest, once, down, press)
          ]
      | inr other ↦ elim (Bool-cases test) [
        | inl on ↦ ground (arith, on, other, rest, law)
        | inr off ↦ ground (arith, off, other, rest, law)
      ]
    ]

the_same : (a b : ℕ) → (a == b) ≡ true → a ≡ b
the_same a b h = ground arith

retain_bound-lookup :
    (vks : List ℕ) (prev : Dict ℕ Bool) (vk : ℕ)
    → lookup vk (retain_bound vks prev) ≡ (if one_of vk vks then lookup vk prev else none)
unfolding retain_bound lookup
retain_bound-lookup vks [] vk = ground arith
retain_bound-lookup vks ((k, p) ∷ prev) vk =
    let rest = retain_bound-lookup vks prev vk in
    elim (Bool-cases (k == vk)) [
      | inl it ↦
          let same : one_of k vks ≡ one_of vk vks = ap (λ j. one_of j vks) (the_same k vk it) in
          elim (Bool-cases (one_of k vks)) [
            | inl on ↦ ground (arith, on, it, rest, same)
            | inr off ↦ ground (arith, off, it, rest, same)
          ]
      | inr other ↦ elim (Bool-cases (one_of k vks)) [
        | inl on ↦ ground (arith, on, other, rest)
        | inr off ↦ ground (arith, off, other, rest)
      ]
    ]

-- A round of the poll calls for a bound key exactly if it is down and was not in the round before,
-- and remembers the state of the bound keys and of no others.
pub poll_lem :
    (pressed : ℕ → Bool) (vks : List ℕ) (prev : Dict ℕ Bool) (vk : ℕ)
    → Different vks
    → (count vk (poll pressed vks prev).0
        ≡ one_if (one_of vk vks && (pressed vk && not (was_down (lookup vk prev)))))
      × (lookup vk (poll pressed vks prev).1 ≡ (if one_of vk vks then some (pressed vk) else none))
unfolding poll
poll_lem pressed vks prev vk different = (
  poll_keys-sent pressed vks prev vk different,
  retain_bound-lookup vks (poll_keys pressed vks prev).1 vk
      ∙ ground (arith, poll_keys-prev pressed vks prev vk),
)

-- The calls of the key in the rounds of the poll, in which the same keys are bound.
abbrev pub polls : List (ℕ → Bool) → List ℕ → Dict ℕ Bool → ℕ → ℕ
polls [] vks prev vk = 0
polls (pressed ∷ rounds) vks prev vk =
    count vk (poll pressed vks prev).0 + polls rounds vks (poll pressed vks prev).1 vk

-- How often the key goes down.
abbrev pub presses : Bool → List (ℕ → Bool) → ℕ → ℕ
presses was [] vk = 0
presses was (pressed ∷ rounds) vk = one_if (pressed vk && not was) + presses (pressed vk) rounds vk

polls_lem :
    (rounds : List (ℕ → Bool)) (vks : List ℕ) (prev : Dict ℕ Bool) (vk : ℕ)
    → Different vks
    → one_of vk vks ≡ true
    → polls rounds vks prev vk ≡ presses (was_down (lookup vk prev)) rounds vk
polls_lem [] vks prev vk different bound = refl
polls_lem (pressed ∷ rounds) vks prev vk different bound =
    let (sent, kept) = poll_lem pressed vks prev vk different in
    let rest = polls_lem rounds vks (poll pressed vks prev).1 vk different bound in
    let first : count vk (poll pressed vks prev).0
        ≡ one_if (pressed vk && not (was_down (lookup vk prev))) =
      sent ∙ (rw bound refl) in
    let state : was_down (lookup vk (poll pressed vks prev).1) ≡ pressed vk =
      rw (kept, bound) refl in
    ap₂ ◌+◌ first (rest ∙ ap (λ was. presses was rounds vk) state)

-- Over any rounds of the poll a key that stays bound is called as often as it goes down, however
-- long it is held.
pub polls-presses :
    (rounds : List (ℕ → Bool)) (vks : List ℕ) (vk : ℕ)
    → Different vks
    → one_of vk vks ≡ true
    → polls rounds vks [] vk ≡ presses false rounds vk
polls-presses rounds vks vk different bound =
    polls_lem rounds vks [] vk different bound ∙ (unfold lookup in refl)

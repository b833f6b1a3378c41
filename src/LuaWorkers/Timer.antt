-- ===== src/LuaWorkers/Timer.antt =====
-- The timer thread of crates/ue5-lua/src/workers.rs: what it sends, and what it leaves.
use openforge_aio.Prelude.{
  ℕ, zero, suc, ◌+◌, ◌≤◌, ◌<◌, ◌≡◌, refl, Bool, true, false, List, [], ◌∷◌, length, leb, ◌==◌,
  if◌then◌else◌, arith, Bool-cases, ◌⊎◌, inl, inr, All,
}
use openforge_aio.LuaWorkers.{DelayedTask, cmp, is_lt, pop, dispatch_due}

-- The task comes no later than the other: by deadline, then by id.
abbrev pub NotLater : DelayedTask → DelayedTask → Type 0
NotLater a b = (a.deadline < b.deadline) ⊎ ((a.deadline ≡ b.deadline) × (a.id ≤ b.id))

NotLater-trans : (a b c : DelayedTask) → NotLater a b → NotLater b c → NotLater a c
NotLater-trans a b c h k = ground (arith, h, k)

cmp_lem :
    (a b : DelayedTask)
    → ((is_lt (cmp a b) ≡ true) → NotLater b a) × ((is_lt (cmp a b) ≡ false) → NotLater a b)
unfolding cmp
cmp_lem a b = (λ h. ground (arith, h), λ h. ground (arith, h))

-- How often a task of the id and the deadline stands in the list.
abbrev pub count : DelayedTask → List DelayedTask → ℕ
count t [] = 0
count t (u ∷ us) =
    (if u.deadline == t.deadline then (if u.id == t.id then 1 else 0) else 0) + count t us

All-map :
    (P Q : DelayedTask → Type 0)
    → ((t : DelayedTask) → P t → Q t)
    → (ts : List DelayedTask) → All P ts
    → All Q ts
All-map P Q f [] h = tt
All-map P Q f (t ∷ ts) h = (f t h.0, All-map P Q f ts h.1)

-- The popped task comes no later than the others, and with them makes up the heap.
pop_lem :
    (t : DelayedTask) (ts : List DelayedTask)
    → All (NotLater (pop t ts).0) (pop t ts).1
      × ((x : DelayedTask) → count x ((pop t ts).0 ∷ (pop t ts).1) ≡ count x (t ∷ ts))
      × (length (pop t ts).1 ≡ length ts)
unfolding pop
pop_lem t [] = (tt, λ x. refl, refl)
pop_lem t (u ∷ ts) =
    let (first, same, long) = pop_lem u ts in
    let g = (pop u ts).0 in
    let rest = (pop u ts).1 in
    elim (Bool-cases (is_lt (cmp t g))) [
      | inl later ↦
          rw later (((cmp_lem t g).0 later, first), λ x. omega (arith, same x), omega (arith, long))
      | inr sooner ↦
          let low = (cmp_lem t g).1 sooner in
          rw sooner (
            (low, All-map (NotLater g) (NotLater t) (λ v h. NotLater-trans t g v low h) rest first),
            λ x. omega (arith, same x),
            omega (arith, long),
          )
    ]

pop-All :
    (P : DelayedTask → Type 0) (t : DelayedTask) (ts : List DelayedTask)
    → All P (t ∷ ts)
    → P (pop t ts).0 × All P (pop t ts).1
unfolding pop
pop-All P t [] h = h
pop-All P t (u ∷ ts) h =
    let (first, rest) = pop-All P u ts h.1 in
    elim (Bool-cases (is_lt (cmp t (pop u ts).0))) [
      | inl later ↦ rw later (first, (h.0, rest))
      | inr sooner ↦ rw sooner (h.0, (first, rest))
    ]

pop-All_back :
    (P : DelayedTask → Type 0) (t : DelayedTask) (ts : List DelayedTask)
    → P (pop t ts).0 × All P (pop t ts).1
    → All P (t ∷ ts)
unfolding pop
pop-All_back P t [] h = h
pop-All_back P t (u ∷ ts) h = elim (Bool-cases (is_lt (cmp t (pop u ts).0))) [
  | inl later ↦ let k = rw later at h in (k.1.0, pop-All_back P u ts (k.0, k.1.1))
  | inr sooner ↦ let k = rw sooner at h in (k.0, pop-All_back P u ts k.1)
]

dispatch_due-All :
    (P : DelayedTask → Type 0) (connected : Bool) (clock : ℕ → ℕ) (n i : ℕ)
    (heap : List DelayedTask)
    → All P heap
    → All P (dispatch_due connected clock n i heap).0
      × All P (dispatch_due connected clock n i heap).1
unfolding dispatch_due
dispatch_due-All P connected clock zero i heap h = (tt, h)
dispatch_due-All P connected clock (suc n) i [] h = (tt, tt)
dispatch_due-All P connected clock (suc n) i (t ∷ ts) h =
    let (first, others) = pop-All P t ts h in
    let (sent, left) = dispatch_due-All P connected clock n (i + 1) (pop t ts).1 others in
    elim (Bool-cases (leb (pop t ts).0.deadline (clock i))) [
      | inr early ↦ rw early (tt, h)
      | inl due ↦ elim (Bool-cases connected) [
        | inl on ↦ rw (due, on) ((first, sent), left)
        | inr gone ↦ rw (due, gone) (tt, others)
      ]
    ]

-- Each task comes no later than those behind it.
abbrev pub InOrder : List DelayedTask → Type 0
InOrder [] = Unit
InOrder (t ∷ ts) = All (NotLater t) ts × InOrder ts

-- Each task was due at its look at the clock, the first at the `i`-th.
abbrev pub DueFrom : (ℕ → ℕ) → ℕ → List DelayedTask → Type 0
DueFrom clock i [] = Unit
DueFrom clock i (t ∷ ts) = (t.deadline ≤ clock i) × DueFrom clock (i + 1) ts

-- A clock that does not run backwards.
abbrev pub IsClock : (ℕ → ℕ) → Type 0
IsClock clock = (i : ℕ) → clock i ≤ clock (i + 1)

dispatch_rounds :
    (clock : ℕ → ℕ) (n i : ℕ) (heap : List DelayedTask)
    → IsClock clock
    → length heap ≤ n
    → let (sent, left) = dispatch_due true clock n i heap in
      All (λ t. clock i < t.deadline) left
      × InOrder sent
      × DueFrom clock i sent
      × ((x : DelayedTask) → count x sent + count x left ≡ count x heap)
unfolding dispatch_due
dispatch_rounds clock zero i [] steady enough = (tt, tt, tt, λ x. refl)
dispatch_rounds clock zero i (t ∷ ts) steady enough = absurd (omega (arith, enough))
dispatch_rounds clock (suc n) i [] steady enough = (tt, tt, tt, λ x. refl)
dispatch_rounds clock (suc n) i (t ∷ ts) steady enough =
    let (first, same, long) = pop_lem t ts in
    let g = (pop t ts).0 in
    let rest = (pop t ts).1 in
    elim (Bool-cases (leb g.deadline (clock i))) [
      | inl due ↦
          let (later, ordered, on_time, kept) =
            dispatch_rounds clock n (i + 1) rest steady (omega (arith, long, enough)) in
          rw due (
            All-map (λ u. clock (i + 1) < u.deadline) (λ u. clock i < u.deadline)
                (λ u h. omega (arith, steady i, h)) (dispatch_due true clock n (i + 1) rest).1
                later,
            ((dispatch_due-All (NotLater g) true clock n (i + 1) rest first).0, ordered),
            (ground (arith, due), on_time),
            λ x. omega (arith, same x, kept x),
          )
      | inr early ↦
          let low : clock i < g.deadline = ground (arith, early) in
          rw early (
            pop-All_back (λ u. clock i < u.deadline) t ts
                (
                  low,
                  All-map (NotLater g) (λ u. clock i < u.deadline) (λ u h. omega (arith, low, h))
                      rest first,
                ),
            tt,
            tt,
            λ x. omega arith,
          )
    ]

-- A pass of the timer thread, with the worker there and a clock that does not run backwards, leaves
-- no task that was due when it began. It sends only tasks that are due at their look at the clock,
-- in the order of their deadlines and then of their ids, and no task is lost or sent twice.
pub dispatch_due_lem :
    (clock : ℕ → ℕ) (heap : List DelayedTask)
    → IsClock clock
    → let (sent, left) = dispatch_due true clock (length heap) 0 heap in
      All (λ t. clock 0 < t.deadline) left
      × InOrder sent
      × DueFrom clock 0 sent
      × ((x : DelayedTask) → count x sent + count x left ≡ count x heap)
dispatch_due_lem clock heap steady = dispatch_rounds clock (length heap) 0 heap steady (omega arith)

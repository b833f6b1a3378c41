-- ===== src/LogRing/Window.antt =====
-- The ring of crates/batman-lod-dll/src/log_ring.rs is the window of the last lines that passed
-- the level.
use openforge_aio.Prelude.{
  ℕ, ◌≤◌, ◌<◌, ◌≡◌, refl, ap, ap₂, ◌≢◌, ◌↔◌, sym, ◌∙◌, List, [], ◌∷◌, ◌++◌, append-nil,
  append_assoc, length, min, last_n, last_n-last_n, length-take, last_n_short, length-last_n,
  push_evict_lem, take-append-drop, if◌then◌else◌, arith, Bool-cases, inl, inr,
}
use openforge_aio.Prelude.Text.{Text}
use openforge_aio.LogRing.{
  capacity, LogLevel, off, level_to_u8, u8_to_level, LogRing, enabled, prefixed, pushed, push,
  drain,
}

-- The line as it is stored, if it is: level and ring decide, and `off` is never stored.
unfoldable pub accepted : LogRing → LogLevel → Text → List Text
accepted r l line = if enabled r l then prefixed l line else []

length-prefixed : (l : LogLevel) (line : Text) → length (prefixed l line) ≤ 1
unfolding prefixed
length-prefixed off line = omega arith
length-prefixed _ line = omega arith

pushed_lem :
    (r : LogRing) (ls : List Text)
    → length ls ≤ 1
    → length r.lines ≤ capacity
    → (pushed r ls).lines ≡ last_n capacity (r.lines ++ ls)
pushed_lem r [] small bounded =
    sym (ap (last_n capacity) (append-nil r.lines) ∙ last_n_short capacity r.lines bounded)
pushed_lem r (l ∷ []) small bounded = push_evict_lem capacity r.lines l (omega arith) bounded
pushed_lem r (l ∷ l' ∷ ls) small bounded = let bad : ⊥ = omega arith in elim bad [ ]

push_lem :
    (r : LogRing) (l : LogLevel) (line : Text)
    → length r.lines ≤ capacity
    → ((push r l line).lines ≡ last_n capacity (r.lines ++ accepted r l line))
      × ((push r l line).level ≡ r.level)
unfolding push accepted
push_lem r l line bounded = elim (Bool-cases (enabled r l)) [
  | inl passes ↦ (
    rw passes (pushed_lem r (prefixed l line) (length-prefixed l line) bounded),
    rw passes (level_pushed r (prefixed l line)),
  )
  | inr shut ↦ (rw shut (pushed_lem r [] (omega arith) bounded), rw shut refl)
]
  where
    level_pushed : (r : LogRing) (ls : List Text) → (pushed r ls).level ≡ r.level
    level_pushed r [] = refl
    level_pushed r (x ∷ ls) = refl

-- A sequence of pushes.
unfoldable pub push_all : LogRing → List (LogLevel × Text) → LogRing
push_all r [] = r
push_all r ((l, line) ∷ ms) = push_all (push r l line) ms

-- The lines of them that the level lets through, in order.
unfoldable pub accepted_all : LogRing → List (LogLevel × Text) → List Text
accepted_all r [] = []
accepted_all r ((l, line) ∷ ms) = accepted r l line ++ accepted_all r ms

accepted-level :
    (r s : LogRing) (l : LogLevel) (line : Text)
    → s.level ≡ r.level
    → accepted s l line ≡ accepted r l line
unfolding accepted enabled
accepted-level r s l line h = rw h refl

accepted_all-level :
    (r s : LogRing) (ms : List (LogLevel × Text))
    → s.level ≡ r.level
    → accepted_all s ms ≡ accepted_all r ms
unfolding accepted_all
accepted_all-level r s [] h = refl
accepted_all-level r s ((l, line) ∷ ms) h =
    ap₂ ◌++◌ (accepted-level r s l line h) (accepted_all-level r s ms h)

-- After any pushes onto a ring of at most 1024 lines it holds the last 1024 of what it held
-- and what the level let through, in order; the level is as it was.
pub push_all_lem :
    (r : LogRing) (ms : List (LogLevel × Text))
    → length r.lines ≤ capacity
    → ((push_all r ms).lines ≡ last_n capacity (r.lines ++ accepted_all r ms))
      × ((push_all r ms).level ≡ r.level)
unfolding push_all accepted_all
push_all_lem r [] bounded = ((pushed_lem r [] (omega arith) bounded), refl)
push_all_lem r ((l, line) ∷ ms) bounded =
    let (lines, level) = push_lem r l line bounded in
    let small : length (push r l line).lines ≤ capacity =
      rw lines (length-last_n capacity (r.lines ++ accepted r l line)) in
    let (lines', level') = push_all_lem (push r l line) ms small in
    (
      lines'
          ∙ ap (λ rest. last_n capacity ((push r l line).lines ++ rest))
              (accepted_all-level r (push r l line) ms level)
          ∙ ap (λ xs. last_n capacity (xs ++ accepted_all r ms)) lines
          ∙ last_n-last_n capacity (r.lines ++ accepted r l line) (accepted_all r ms)
          ∙ ap (last_n capacity) (append_assoc r.lines (accepted r l line) (accepted_all r ms)),
      level' ∙ level,
    )

-- A drain takes the oldest lines, as many as are asked for and there, and leaves the others.
pub drain_lem :
    (r : LogRing) (max_lines : ℕ)
    → ((drain r max_lines).0 ++ (drain r max_lines).1.lines ≡ r.lines)
      × (length (drain r max_lines).0 ≡ min max_lines (length r.lines))
unfolding drain
drain_lem r max_lines =
    let n : ℕ = min max_lines (length r.lines) in
    (take-append-drop n r.lines, omega (arith, length-take n r.lines))

-- The level read back from its stored byte.
pub u8_to_level-level_to_u8 : (l : LogLevel) → u8_to_level (level_to_u8 l) ≡ l
unfolding u8_to_level level_to_u8
u8_to_level-level_to_u8 off = refl
u8_to_level-level_to_u8 _ = refl

-- Which lines are stored: those of a level that is not `off` and not above the configured one.
pub accepted_lem :
    (r : LogRing) (l : LogLevel) (line : Text)
    → (accepted r l line ≢ []) ↔ ((0 < level_to_u8 l) × (level_to_u8 l ≤ r.level))
unfolding accepted enabled prefixed
accepted_lem r off line = (λ h. ground arith, λ h. ground arith)
accepted_lem r _ line = (λ h. ground arith, λ h. ground arith)

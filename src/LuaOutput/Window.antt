-- ===== src/LuaOutput/Window.antt =====
-- What the buffer of crates/ue5-lua/src/output.rs holds after pushes and drains.
use openforge_aio.Prelude.{
  ℕ, ◌+◌, ◌-◌, ◌≤◌, ◌≡◌, refl, ap, sym, ◌∙◌, List, [], ◌∷◌, ◌++◌, append-nil, append_assoc, length,
  min, ltb, leb, if◌then◌else◌, arith, Bool-cases, inl, inr, last_n, last_n-last_n, length-append,
  last_n_short, length-last_n, length-last_n_eq, push_evict, push_evict_lem,
}
use openforge_aio.Prelude.Text.{Text}
use openforge_aio.LuaOutput.{
  output_capacity, LuaLogLevel, LuaOutputLine, OutputBuffer, push_with_eviction, dropped_marker,
  push,
}

-- The marker that the next push stamps, if it stamps one.
unfoldable pub stamp : OutputBuffer → ℕ → List LuaOutputLine
stamp b now = if ltb 0 b.pending_drops then dropped_marker b.pending_drops now ∷ [] else []

eviction-lines :
    (b : OutputBuffer) (l : LuaOutputLine)
    → length b.lines ≤ output_capacity
    → (push_with_eviction b l).lines ≡ last_n output_capacity (b.lines ++ l ∷ [])
unfolding push_with_eviction
eviction-lines b l bounded =
    let e : (push_with_eviction b l).lines ≡ push_evict output_capacity b.lines l =
      elim (Bool-cases (leb output_capacity (length b.lines))) [
        | inl full ↦ rw full refl
        | inr room ↦ rw room refl
      ] in
    e ∙ push_evict_lem output_capacity b.lines l (omega arith) bounded

eviction-pending :
    (b : OutputBuffer) (l : LuaOutputLine)
    → length b.lines ≤ output_capacity
    → b.pending_drops ≤ 2
    → (push_with_eviction b l).pending_drops
      ≡ b.pending_drops + (length b.lines + 1 - output_capacity)
unfolding push_with_eviction
eviction-pending b l bounded small = ground arith

abbrev pub printed : LuaLogLevel → Text → ℕ → LuaOutputLine
printed level message now = record { level = level; message = message; timestamp_ms = now }

-- A push onto a buffer of at most 4096 lines appends the marker, if a drop is pending, and the
-- line, keeps the last 4096, and leaves as pending the count of the lines it evicted.
pub push_lem :
    (b : OutputBuffer) (level : LuaLogLevel) (message : Text) (now now' : ℕ)
    → length b.lines ≤ output_capacity
    → ((push b level message now now').lines
        ≡ last_n output_capacity (b.lines ++ (stamp b now ++ printed level message now' ∷ [])))
      × ((push b level message now now').pending_drops
          ≡ length b.lines + length (stamp b now) + 1 - output_capacity)
unfolding push stamp
push_lem b level message now now' bounded =
    let line = printed level message now' in
    elim (Bool-cases (ltb 0 b.pending_drops)) [
      | inl lost ↦
          let marker = dropped_marker b.pending_drops now in
          let reset : OutputBuffer = record b { pending_drops = 0 } in
          let b' = push_with_eviction reset marker in
          let first = eviction-lines reset marker bounded in
          let counted = eviction-pending reset marker bounded (omega arith) in
          let size : length b'.lines ≡ min output_capacity (length b.lines + 1) = rw first (
            omega (
              arith,
              length-last_n_eq output_capacity (b.lines ++ marker ∷ []),
              length-append b.lines (marker ∷ []),
            )) in
          let small : length b'.lines ≤ output_capacity = omega arith in
          rw lost (
            (eviction-lines b' line small
                ∙ ap (λ xs. last_n output_capacity (xs ++ line ∷ [])) first
                ∙ last_n-last_n output_capacity (b.lines ++ marker ∷ []) (line ∷ [])
                ∙ ap (last_n output_capacity) (append_assoc b.lines (marker ∷ []) (line ∷ []))),
            omega (arith, eviction-pending b' line small (omega arith)),
          )
      | inr kept ↦
          let none_lost : b.pending_drops ≡ 0 = ground arith in
          rw kept (
            eviction-lines b line bounded,
            omega (arith, eviction-pending b line bounded (omega arith)),
          )
    ]

-- A sequence of pushes, each with its two readings of the clock.
unfoldable pub push_all : OutputBuffer → List (LuaLogLevel × Text × ℕ × ℕ) → OutputBuffer
push_all b [] = b
push_all b ((level, message, now, now') ∷ ms) = push_all (push b level message now now') ms

-- Once the buffer has evicted two lines for one push it does so for each: what the pushes append
-- is a marker and a line in turn.
unfoldable pub flood : List (LuaLogLevel × Text × ℕ × ℕ) → List LuaOutputLine
flood [] = []
flood ((level, message, now, now') ∷ ms) =
    dropped_marker 2 now ∷ printed level message now' ∷ flood ms

-- On a buffer of 4096 lines that owes a marker for two lines, any pushes append a marker and a
-- line each, of which with the lines before the last 4096 are kept, and a marker for two lines
-- is owed again.
pub push_all-flood :
    (b : OutputBuffer) (ms : List (LuaLogLevel × Text × ℕ × ℕ))
    → length b.lines ≡ output_capacity
    → b.pending_drops ≡ 2
    → ((push_all b ms).lines ≡ last_n output_capacity (b.lines ++ flood ms))
      × ((push_all b ms).pending_drops ≡ 2)
unfolding push_all flood
push_all-flood b [] full owed = (
  sym (
      ap (last_n output_capacity) (append-nil b.lines)
      ∙ last_n_short output_capacity b.lines (omega arith)),
  owed,
)
push_all-flood b ((level, message, now, now') ∷ ms) full owed =
    let two = dropped_marker 2 now ∷ printed level message now' ∷ [] in
    let stamped : stamp b now ≡ dropped_marker 2 now ∷ [] = unfold stamp in rw owed refl in
    let (lines, pending) = push_lem b level message now now' (omega arith) in
    let lines' : (push b level message now now').lines ≡ last_n output_capacity (b.lines ++ two) =
      rw stamped at lines in
    let still : length (push b level message now now').lines ≡ output_capacity = rw lines' (
      omega (
        arith,
        full,
        length-last_n_eq output_capacity (b.lines ++ two),
        length-append b.lines two,
      )) in
    let owed_again : (push b level message now now').pending_drops ≡ 2 =
      omega (arith, pending, full, ap length stamped) in
    let (rest, owed') = push_all-flood (push b level message now now') ms still owed_again in
    (
      rest
          ∙ ap (λ xs. last_n output_capacity (xs ++ flood ms)) lines'
          ∙ last_n-last_n output_capacity (b.lines ++ two) (flood ms)
          ∙ ap (last_n output_capacity) (append_assoc b.lines two (flood ms)),
      owed',
    )

-- A buffer of at most 4096 lines has at most 4096 lines after any pushes.
pub push_all-bound :
    (b : OutputBuffer) (ms : List (LuaLogLevel × Text × ℕ × ℕ))
    → length b.lines ≤ output_capacity
    → length (push_all b ms).lines ≤ output_capacity
unfolding push_all
push_all-bound b [] bounded = bounded
push_all-bound b ((level, message, now, now') ∷ ms) bounded =
    let (lines, _) = push_lem b level message now now' bounded in
    push_all-bound (push b level message now now') ms (
      rw lines (
        length-last_n output_capacity
          (b.lines ++ (stamp b now ++ printed level message now' ∷ []))))

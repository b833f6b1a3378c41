-- ===== src/LuaOutput/Examples.antt =====
-- Runs of crates/ue5-lua/src/output.rs, and its theorems at small buffers.
use openforge_aio.Prelude.{
  ℕ, zero, suc, ◌+◌, ◌-◌, ◌≤◌, ◌≡◌, refl, ap, List, [], ◌∷◌, ◌++◌, length, last_n, arith,
}
use openforge_aio.Prelude.Text.{Text, codes, decimal, decimal_loop}
use openforge_aio.LuaOutput.{
  output_capacity, LuaLogLevel, info, warn, error, LuaOutputLine, OutputBuffer, new, push,
  push_with_eviction, push_info, push_error, drain,
}
use openforge_aio.LuaOutput.Window.{
  stamp, printed, push_lem, push_all, flood, push_all-flood, push_all-bound,
}

abbrev hello : LuaOutputLine
hello = record { level = info; message = codes "hello"; timestamp_ms = 7 }

abbrev copies : ℕ → List LuaOutputLine
copies zero = []
copies (suc n) = hello ∷ copies n

length-copies : (n : ℕ) → length (copies n) ≡ n
length-copies zero = refl
length-copies (suc n) = ap suc (length-copies n)

abbrev crowded : OutputBuffer
crowded = record { lines = copies output_capacity; pending_drops = 2 }

abbrev prints : List (LuaLogLevel × Text × ℕ × ℕ)
prints = (info, codes "a", 10, 11) ∷ (error, codes "b", 12, 13) ∷ []

push_all-flood_example :
    ((push_all crowded prints).lines ≡ last_n output_capacity (crowded.lines ++ flood prints))
    × ((push_all crowded prints).pending_drops ≡ 2)
push_all-flood_example = push_all-flood crowded prints (length-copies output_capacity) refl

push_all-bound_example : length (push_all new prints).lines ≤ output_capacity
unfolding new
push_all-bound_example = push_all-bound new prints (omega arith)

push_lem_example :
    ((push new info (codes "hi") 1 2).lines
      ≡ last_n output_capacity (new.lines ++ (stamp new 1 ++ printed info (codes "hi") 2 ∷ [])))
    × ((push new info (codes "hi") 1 2).pending_drops
        ≡ length new.lines + length (stamp new 1) + 1 - output_capacity)
unfolding new
push_lem_example = push_lem new info (codes "hi") 1 2 (omega arith)

drains_oldest_first :
    (drain (push_error (push_info new (codes "a") 1 2) (codes "b") 3 4) 1).0
    ≡ printed info (codes "a") 2 ∷ []
unfolding drain push_error push_info push push_with_eviction new
drains_oldest_first = refl

marks_dropped :
    (push (record { lines = []; pending_drops = 12 }) info (codes "hi") 1 2).lines
    ≡ printed warn (codes "<dropped 12 lines>") 1 ∷ printed info (codes "hi") 2 ∷ []
unfolding push push_with_eviction decimal decimal_loop
marks_dropped = refl

-- ===== src/LuaOutput.antt =====
-- crates/ue5-lua/src/output.rs: the bounded buffer of the lines that Lua scripts print. The mutex
-- makes each method one step; the clock's readings are arguments.
pub mod Window
mod Examples
use openforge_aio.Prelude.{
  ℕ, ◌+◌, ◌<◌, List, [], ◌∷◌, ◌++◌, length, take, drop, min, ltb, leb, if◌then◌else◌, ◌==◌,
}
use openforge_aio.Prelude.Text.{Text, codes, decimal}

abbrev pub output_capacity : ℕ
output_capacity = 4096

-- `LuaLogLevel` of crates/ue5-protocol/src/lib.rs, with the levels of this buffer.
pub data LuaLogLevel : Type 0 where
  info warn error : LuaLogLevel

pub record LuaOutputLine : Type 0 where
  pub level : LuaLogLevel
  pub message : Text
  pub timestamp_ms : ℕ

pub record OutputBuffer : Type 0 where
  pub lines : List LuaOutputLine
  pub pending_drops : ℕ

unfoldable pub new : OutputBuffer
new = record { lines = []; pending_drops = 0 }

-- `u64::saturating_add(1)`
abbrev pub saturating_suc : ℕ → ℕ
saturating_suc n = if ltb n 18446744073709551615 then n + 1 else n

unfoldable pub push_with_eviction : OutputBuffer → LuaOutputLine → OutputBuffer
push_with_eviction b line =
    if leb output_capacity (length b.lines)
    then (record {
      lines = drop 1 b.lines ++ line ∷ [];
      pending_drops = saturating_suc b.pending_drops;
    })
    else record { lines = b.lines ++ line ∷ []; pending_drops = b.pending_drops }

abbrev pub dropped_marker : ℕ → ℕ → LuaOutputLine
dropped_marker n now = record {
  level = warn;
  message = codes "<dropped " ++ decimal n ++ codes " lines>";
  timestamp_ms = now;
}

-- `push`, with the readings of the clock for the marker and for the line.
unfoldable pub push : OutputBuffer → LuaLogLevel → Text → ℕ → ℕ → OutputBuffer
unfolding push_with_eviction
push b level message now_marker now_line =
    let line : LuaOutputLine = record {
      level = level;
      message = message;
      timestamp_ms = now_line;
    } in
    if ltb 0 b.pending_drops
    then (push_with_eviction
        (push_with_eviction (record b { pending_drops = 0 })
          (dropped_marker b.pending_drops now_marker))
        line)
    else push_with_eviction b line

unfoldable pub push_info : OutputBuffer → Text → ℕ → ℕ → OutputBuffer
unfolding push
push_info b message now_marker now_line = push b info message now_marker now_line

unfoldable pub push_error : OutputBuffer → Text → ℕ → ℕ → OutputBuffer
unfolding push
push_error b message now_marker now_line = push b error message now_marker now_line

unfoldable pub drain : OutputBuffer → ℕ → List LuaOutputLine × OutputBuffer
drain b max =
    let n = min max (length b.lines) in (take n b.lines, record b { lines = drop n b.lines })

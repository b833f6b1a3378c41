-- ===== src/LogRing.antt =====
-- crates/batman-lod-dll/src/log_ring.rs, and its copy in crates/glacier-007-dll/src/log_ring.rs:
-- the log lines that the DLL keeps for the host. The mutex makes each method one step.
pub mod Window
mod Examples
use openforge_aio.Prelude.{
  ℕ, ◌<◌, Bool, true, false, not, ◌&&◌, List, [], ◌∷◌, ◌++◌, length, take, drop, min, ltb, leb,
  ◌==◌, if◌then◌else◌,
}
use openforge_aio.Prelude.Text.{Text, codes}

abbrev pub capacity : ℕ
capacity = 1024

pub data LogLevel : Type 0 where
  off error warn info debug trace : LogLevel

unfoldable pub level_to_u8 : LogLevel → ℕ
level_to_u8 off = 0
level_to_u8 error = 1
level_to_u8 warn = 2
level_to_u8 info = 3
level_to_u8 debug = 4
level_to_u8 trace = 5

unfoldable pub u8_to_level : ℕ → LogLevel
u8_to_level v =
    if v == 0
    then off
    else if v == 1
    then error
    else if v == 2
    then warn
    else if v == 3
    then info
    else if v == 4
    then debug
    else trace

pub record LogRing : Type 0 where
  pub lines : List Text
  pub level : ℕ

unfoldable pub new : LogRing
unfolding level_to_u8
new = record { lines = []; level = level_to_u8 info }

unfoldable pub set_level : LogRing → LogLevel → LogRing
unfolding level_to_u8
set_level r l = record r { level = level_to_u8 l }

unfoldable pub enabled : LogRing → LogLevel → Bool
unfolding level_to_u8
enabled r l = leb (level_to_u8 l) r.level && not (r.level == 0)

-- The line behind its prefix, where the level has one.
unfoldable pub prefixed : LogLevel → Text → List Text
prefixed off line = []
prefixed error line = (codes "ERROR " ++ line) ∷ []
prefixed warn line = (codes "WARN  " ++ line) ∷ []
prefixed info line = (codes "INFO  " ++ line) ∷ []
prefixed debug line = (codes "DEBUG " ++ line) ∷ []
prefixed trace line = (codes "TRACE " ++ line) ∷ []

abbrev pub pushed : LogRing → List Text → LogRing
pushed r [] = r
pushed r (l ∷ _) =
    let kept = if leb capacity (length r.lines) then drop 1 r.lines else r.lines in
    record r { lines = kept ++ l ∷ [] }

unfoldable pub push : LogRing → LogLevel → Text → LogRing
unfolding enabled prefixed
push r l line = if enabled r l then pushed r (prefixed l line) else r

unfoldable pub drain : LogRing → ℕ → List Text × LogRing
drain r max_lines =
    let n = min max_lines (length r.lines) in (take n r.lines, record r { lines = drop n r.lines })

-- ===== src/LogRing/Examples.antt =====
-- Runs of crates/batman-lod-dll/src/log_ring.rs, and its theorems at small rings.
use openforge_aio.Prelude.{
  ◌≤◌, ◌<◌, ◌≡◌, ◌≢◌, ◌↔◌, refl, List, [], ◌∷◌, ◌++◌, length, min, last_n, arith,
}
use openforge_aio.Prelude.Text.{Text, codes}
use openforge_aio.LogRing.{
  capacity, LogLevel, off, error, info, debug, new, set_level, enabled, prefixed, push, drain,
  level_to_u8, u8_to_level,
}
use openforge_aio.LogRing.Window.{
  accepted, push_all, accepted_all, push_all_lem, drain_lem, accepted_lem, u8_to_level-level_to_u8,
}

abbrev messages : List (LogLevel × Text)
messages = (info, codes "up") ∷ (debug, codes "noise") ∷ (error, codes "down") ∷ []

push_all_lem_example :
    ((push_all new messages).lines ≡ last_n capacity (new.lines ++ accepted_all new messages))
    × ((push_all new messages).level ≡ new.level)
unfolding new
push_all_lem_example = push_all_lem new messages (omega arith)

drain_lem_example :
    ((drain (push_all new messages) 1).0 ++ (drain (push_all new messages) 1).1.lines
      ≡ (push_all new messages).lines)
    × (length (drain (push_all new messages) 1).0 ≡ min 1 (length (push_all new messages).lines))
drain_lem_example = drain_lem (push_all new messages) 1

accepted_lem_example :
    (accepted new debug (codes "noise") ≢ [])
    ↔ ((0 < level_to_u8 debug) × (level_to_u8 debug ≤ new.level))
accepted_lem_example = accepted_lem new debug (codes "noise")

u8_to_level-level_to_u8_example : u8_to_level (level_to_u8 debug) ≡ debug
u8_to_level-level_to_u8_example = u8_to_level-level_to_u8 debug

keeps_passing : (push_all new messages).lines ≡ codes "INFO  up" ∷ codes "ERROR down" ∷ []
unfolding push_all push enabled prefixed new level_to_u8
keeps_passing = refl

quiet : (push_all (set_level new off) messages).lines ≡ []
unfolding push_all push enabled prefixed new set_level level_to_u8
quiet = refl

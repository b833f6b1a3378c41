-- ===== src/LuaWorkers/Examples.antt =====
-- Runs of the queues and threads of crates/ue5-lua.
use openforge_aio.Prelude.{
  ℕ, ◌+◌, ◌<◌, ◌≡◌, refl, Bool, true, false, none, some, List, [], ◌∷◌, length, ◌==◌, arith, All,
}
use openforge_aio.Prelude.Result.{ok}
use openforge_aio.Prelude.Text.{codes}
use openforge_aio.Prelude.Dict.{lookup, insert, remove, nat_eq}
use openforge_aio.LuaWorkers.{
  DelayedTask, cmp, pop, dispatch_due, alloc_delayed_id, serve, serve_all, clear,
  execute_with_delay,
}
use openforge_aio.LuaWorkers.Timer.{InOrder, DueFrom, count, dispatch_due_lem}
use openforge_aio.LuaWorkers.Keys.{polls, presses, polls-presses}
use openforge_aio.LuaWorkers.Runtime.{
  Outside, Command, run, stop, dispatch_delayed, handle, idle, stopped, no_callback,
}
use openforge_aio.LuaWorkers.Once.{
  System, start, sends, works, ticks, Reach, started, after, ticked, Distinct, Reach-Once,
}

abbrev tasks : List DelayedTask
tasks =
    record { deadline = 50; id = 1 }
    ∷ record { deadline = 10; id = 3 }
    ∷ record { deadline = 10; id = 2 }
    ∷ []

abbrev clock : ℕ → ℕ
clock i = 20 + i

dispatch_due_lem_example :
    let (sent, left) = dispatch_due true clock (length tasks) 0 tasks in
    All (λ t. clock 0 < t.deadline) left
    × InOrder sent
    × DueFrom clock 0 sent
    × ((x : DelayedTask) → count x sent + count x left ≡ count x tasks)
dispatch_due_lem_example = dispatch_due_lem clock tasks (λ i. omega arith)

earliest_first : dispatch_due true clock 3 0 tasks ≡ (
  record { deadline = 10; id = 2 } ∷ record { deadline = 10; id = 3 } ∷ [],
  record { deadline = 50; id = 1 } ∷ [],
)
unfolding dispatch_due pop cmp
earliest_first = refl

-- F5 is held over two rounds, released, and pressed again.
abbrev rounds : List (ℕ → Bool)
rounds = (λ vk. vk == 0x74) ∷ (λ vk. vk == 0x74) ∷ (λ vk. false) ∷ (λ vk. vk == 0x74) ∷ []

polls-presses_example : polls rounds (0x74 ∷ 0x75 ∷ []) [] 0x74 ≡ presses false rounds 0x74
polls-presses_example = polls-presses rounds (0x74 ∷ 0x75 ∷ []) 0x74 (refl, (refl, tt)) refl

called_twice : presses false rounds 0x74 ≡ 2
called_twice = refl

-- The script asks for one callback, of slot 7, after 5 ms.
abbrev asks : Outside
asks = record { build = ok tt; requests = execute_with_delay 5 7 ∷ []; outcome = ok tt; now = 0 }

abbrev quiet : Outside
quiet = record { build = ok tt; requests = []; outcome = ok tt; now = 0 }

abbrev script : Command
script = run (codes "s") (codes "demo")

abbrev s1 : System
s1 = record start { queue = script ∷ [] }

abbrev s2 : System
s2 = record s1 { runtime = (handle asks script s1.runtime).1; queue = [] }

abbrev s3 : System
s3 = ticked true (λ i. 5) s2

abbrev s4 : System
s4 = record s3 { runtime = (handle quiet (dispatch_delayed 1) s3.runtime).1; queue = [] }

reached : Reach s4
unfolding ticked handle serve_all serve alloc_delayed_id clear dispatch_due pop lookup insert remove
reached =
    after s3 s4
      (after s2 s3
        (after s1 s2 (after start s1 started (sends start script)) (works s1 asks script [] refl))
        (ticks s2 true (λ i. 5)))
      (works s3 quiet (dispatch_delayed 1) [] refl)

Reach-Once_example :
    Distinct s4.runtime.called
    × All (λ id. lookup id s4.runtime.workers.delayed_callbacks ≡ none) s4.runtime.called
unfolding ticked handle serve_all serve alloc_delayed_id clear dispatch_due pop lookup insert remove
Reach-Once_example = Reach-Once s4 reached (omega arith)

called_once : s4.runtime.called ≡ 1 ∷ []
unfolding ticked handle serve_all serve alloc_delayed_id clear dispatch_due pop lookup insert remove
called_once = refl

-- The timer has sent the callback when the stop is handled: the script is stopped, and then the
-- stale command puts an error in place of the idle state.
stale_after_stop :
    (handle quiet (dispatch_delayed 1) (handle quiet stop s3.runtime).1).1.state
    ≡ stopped (some (no_callback 1))
unfolding ticked handle serve_all serve alloc_delayed_id clear dispatch_due pop lookup insert remove
stale_after_stop = refl

idle_before : (handle quiet stop s3.runtime).1.state ≡ idle
unfolding handle
idle_before = refl

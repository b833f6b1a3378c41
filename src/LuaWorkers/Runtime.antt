-- ===== src/LuaWorkers/Runtime.antt =====
-- The worker loop of crates/ue5-lua/src/runtime.rs: what each command does to the state of the
-- script, to the queues and to the VM, which is there or not. What happens outside during a command
-- is `Outside`: whether a VM can be built, what the script asks of the bindings, and how it ends.
use openforge_aio.Prelude.{
  ℕ, Bool, true, false, Option, none, some, List, [], ◌∷◌, ◌++◌, if◌then◌else◌,
}
use openforge_aio.Prelude.Result.{Result, ok, err}
use openforge_aio.Prelude.Text.{Text}
use openforge_aio.Prelude.Dict.{lookup, remove, nat_eq}
use openforge_aio.LuaWorkers.{Workers, Request, serve_all, clear}

-- The messages of the worker; the texts of the VM's errors are its own.
pub data Failure : Type 0 where
  rebuild_failed stop_rebuild_failed script_failed : Text → Failure
  no_callback : ℕ → Failure

pub data Command : Type 0 where
  -- script, name
  run : Text → Text → Command
  stop shutdown : Command
  dispatch_delayed dispatch_key : ℕ → Command

pub data RuntimeState : Type 0 where
  idle : RuntimeState
  running : Text → RuntimeState
  stopped : Option Failure → RuntimeState

pub record Outside : Type 0 where
  pub build : Result Text (Unit {0})
  pub requests : List Request
  pub outcome : Result Text (Unit {0})
  pub now : ℕ

pub record Runtime : Type 0 where
  pub state : RuntimeState
  pub workers : Workers
  pub lua : Bool
  -- The errors pushed to the console.
  pub errors : List Failure
  -- The delayed callbacks that were called: a record of the run, which nothing reads.
  pub called : List ℕ

-- `None` where the loop goes on without an answer.
abbrev pub Ack : Type 0
Ack = Option (Result Failure (Unit {0}))

-- What follows the script's main chunk.
abbrev pub executed : Text → Result Text (Unit {0}) → Runtime → Ack × Runtime
executed name (ok u) r = (some (ok tt), r)
executed name (err e) r = (
  some (err (script_failed e)),
  record r {
    state = stopped (some (script_failed e));
    workers = clear r.workers;
    errors = r.errors ++ script_failed e ∷ [];
  },
)

abbrev pub rerun : Text → Outside → Result Text (Unit {0}) → Runtime → Ack × Runtime
rerun name o (err e) r = (
  some (err (rebuild_failed e)),
  record r { state = stopped (some (rebuild_failed e)); lua = false },
)
rerun name o (ok u) r =
    executed name o.outcome (record r {
      state = running name;
      lua = true;
      workers = serve_all o.now o.requests r.workers;
    })

abbrev pub restopped : Result Text (Unit {0}) → Runtime → Ack × Runtime
restopped (err e) r = (
  some (err (stop_rebuild_failed e)),
  record r { state = stopped (some (stop_rebuild_failed e)); lua = false },
)
restopped (ok u) r = (some (ok tt), record r { state = idle; lua = true })

abbrev pub failed : Failure → Runtime → Runtime
failed e r = record r { state = stopped (some e); errors = r.errors ++ e ∷ [] }

abbrev pub called_back : Result Text (Unit {0}) → Runtime → Runtime
called_back (ok u) r = r
called_back (err e) r = failed (script_failed e) r

-- `bindings::dispatch_delayed`: the callback is taken out, and then called.
abbrev pub call_delayed : ℕ → Outside → Option ℕ → Runtime → Runtime
call_delayed id o none r = failed (no_callback id) r
call_delayed id o (some key) r =
    let taken : Workers = record r.workers {
      delayed_callbacks = remove id r.workers.delayed_callbacks;
    } in
    called_back o.outcome
      (record r { workers = serve_all o.now o.requests taken; called = id ∷ r.called })

-- `bindings::dispatch_key`: the callback stays.
abbrev pub call_key : Outside → Option ℕ → Runtime → Runtime
call_key o none r = r
call_key o (some key) r =
    called_back o.outcome (record r { workers = serve_all o.now o.requests r.workers })

-- One command; `shutdown` ends the loop.
unfoldable pub handle : Outside → Command → Runtime → Ack × Runtime
unfolding serve_all clear lookup remove
handle o (run script name) r = rerun name o o.build (record r { workers = clear r.workers })
handle o stop r = restopped o.build (record r { workers = clear r.workers })
handle o shutdown r = (none, r)
handle o (dispatch_delayed id) r =
    (none, if r.lua then call_delayed id o (lookup id r.workers.delayed_callbacks) r else r)
handle o (dispatch_key vk) r =
    (none, if r.lua then call_key o (lookup vk r.workers.keybinds) r else r)

-- `drain_game_thread`: the closures that wait are called once each, with what they ask of the
-- bindings; their errors go to the console alone.
unfoldable pub drain_game_thread : Outside → Runtime → Runtime
unfolding serve_all
drain_game_thread o r =
    if r.lua
    then record r { workers = serve_all o.now o.requests (record r.workers { game_thread = [] }) }
    else r

-- What the host sees of the state: running, the name, the last error.
unfoldable pub status : RuntimeState → Bool × Option Text × Option Failure
status idle = (false, none, none)
status (running name) = (true, some name, none)
status (stopped e) = (false, none, e)

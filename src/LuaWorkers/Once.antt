-- ===== src/LuaWorkers/Once.antt =====
-- The threads of crates/ue5-lua/src/runtime.rs and workers.rs in any interleaving, at the
-- granularity of a command, a pass of the timer, a round of the key poll and a drain: a delayed
-- callback is called at most once.
use openforge_aio.Prelude.{
  ℕ, ◌+◌, ◌%◌, ◌^◌, ◌≤◌, ◌<◌, ◌≡◌, ◌≢◌, refl, Bool, true, Option, none, some, List, [], ◌∷◌, ◌++◌,
  map, length, ◌==◌, arith, Bool-cases, inl, inr, All, if-lem,
}
use openforge_aio.Prelude.Result.{Result, ok, err}
use openforge_aio.Prelude.Text.{Text}
use openforge_aio.Prelude.Dict.{Dict, lookup, insert, remove, nat_eq, lookup-insert, lookup-remove}
use openforge_aio.LuaWorkers.{
  Workers, Request, new, dispatch_due, serve, serve_all, clear, alloc_delayed_id,
  execute_in_game_thread, execute_with_delay, register_keybind, poll,
}
use openforge_aio.LuaWorkers.Runtime.{
  Runtime, idle, Outside, Command, run, stop, shutdown, dispatch_delayed, dispatch_key, handle,
  drain_game_thread, executed, rerun, restopped, called_back, call_delayed, call_key,
}

pub record System : Type 0 where
  pub runtime : Runtime
  -- The channel to the worker.
  pub queue : List Command
  -- The key poll thread's memory.
  pub prev : Dict ℕ Bool

abbrev pub keys_of : Dict ℕ ℕ → List ℕ
keys_of [] = []
keys_of ((k, v) ∷ d) = k ∷ keys_of d

abbrev pub start : System
start = record {
  runtime = record { state = idle; workers = new; lua = true; errors = []; called = [] };
  queue = [];
  prev = [];
}

unfoldable pub ticked : Bool → (ℕ → ℕ) → System → System
unfolding dispatch_due
ticked connected clock s =
    let w = s.runtime.workers in
    let (sent, left) = dispatch_due connected clock (length w.delayed) 0 w.delayed in
    record s {
      runtime = record s.runtime { workers = record w { delayed = left } };
      queue = s.queue ++ map (λ t. dispatch_delayed t.id) sent;
    }

unfoldable pub polled : (ℕ → Bool) → System → System
unfolding poll
polled pressed s =
    let (sent, prev) = poll pressed (keys_of s.runtime.workers.keybinds) s.prev in
    record s { queue = s.queue ++ map dispatch_key sent; prev = prev }

pub data Step : System → System → Type 0 where
  -- The host, or a drop of the runtime, sends a command.
  sends : (s : System) (c : Command) → Step s (record s { queue = s.queue ++ c ∷ [] })
  -- The worker takes the next command.
  works :
      (s : System) (o : Outside) (c : Command) (rest : List Command)
      → s.queue ≡ c ∷ rest
      → Step s (record s { runtime = (handle o c s.runtime).1; queue = rest })
  -- A pass of the timer.
  ticks : (s : System) (connected : Bool) (clock : ℕ → ℕ) → Step s (ticked connected clock s)
  -- A round of the key poll.
  polls : (s : System) (pressed : ℕ → Bool) → Step s (polled pressed s)
  -- The game's own thread drains the closures that wait for it.
  drains :
      (s : System) (o : Outside) → Step s (record s { runtime = drain_game_thread o s.runtime })

pub data Reach : System → Type 0 where
  started : Reach start
  after : (s t : System) → Reach s → Step s t → Reach t

abbrev pub Distinct : List ℕ → Type 0
Distinct [] = Unit
Distinct (id ∷ ids) = All (λ j. id ≢ j) ids × Distinct ids

-- The ids run from 1 on; one that was called was given out and has no callback any more.
abbrev pub Once : Workers → List ℕ → Type 0
Once w called =
    (w.next_delayed_id ≡ (w.allocated + 1) % 2 ^ 64)
    × (w.allocated + 1 < 2 ^ 64
        → ((id : ℕ) → lookup id w.delayed_callbacks ≢ none → id ≤ w.allocated)
          × All (λ id. (id ≤ w.allocated) × (lookup id w.delayed_callbacks ≡ none)) called
          × Distinct called)

All-map : (P Q : ℕ → Type 0) → ((t : ℕ) → P t → Q t) → (ts : List ℕ) → All P ts → All Q ts
All-map P Q f [] h = tt
All-map P Q f (t ∷ ts) h = (f t h.0, All-map P Q f ts h.1)

serve-Once :
    (now : ℕ) (r : Request) (w : Workers) (called : List ℕ)
    → Once w called
    → Once (serve now r w) called
unfolding serve
serve-Once now (execute_in_game_thread key) w called h = h
serve-Once now (register_keybind vk key) w called h = h
serve-Once now (execute_with_delay ms key) w called h =
    unfold alloc_delayed_id in
    (
      omega (arith, h.0),
      λ room.
          let id = w.next_delayed_id in
          let fresh : id ≡ w.allocated + 1 = omega (arith, h.0, room) in
          let (low, gone, apart) = h.1 (omega (arith, room)) in
          (
            λ j there. elim (Bool-cases (id == j)) [
              | inl it ↦ ground (arith, it, fresh)
              | inr other ↦
                  let old : lookup j w.delayed_callbacks ≢ none =
                    ground
                      (arith, lookup-insert {V = ℕ} id j key w.delayed_callbacks, other, there) in
                  omega (arith, low j old)
            ],
            All-map (λ j. (j ≤ w.allocated) × (lookup j w.delayed_callbacks ≡ none))
                (λ j. (j ≤ w.allocated + 1) × (lookup j (insert id key w.delayed_callbacks) ≡ none))
                (λ j k. (
                  omega (arith, k.0),
                  ground (arith, lookup-insert {V = ℕ} id j key w.delayed_callbacks, fresh, k),
                ))
                called gone,
            apart,
          ),
    )

serve_all-Once :
    (now : ℕ) (rs : List Request) (w : Workers) (called : List ℕ)
    → Once w called
    → Once (serve_all now rs w) called
unfolding serve_all
serve_all-Once now [] w called h = h
serve_all-Once now (r ∷ rs) w called h =
    serve_all-Once now rs (serve now r w) called (serve-Once now r w called h)

clear-Once : (w : Workers) (called : List ℕ) → Once w called → Once (clear w) called
unfolding clear
clear-Once w called h = (
  h.0,
  λ room.
      let (low, gone, apart) = h.1 room in
      unfold lookup in
      (
        λ id there. absurd (there refl),
        All-map (λ j. (j ≤ w.allocated) × (lookup j w.delayed_callbacks ≡ none))
            (λ j. (j ≤ w.allocated) × (lookup {V = ℕ} j [] ≡ none)) (λ j k. (k.0, refl)) called
            gone,
        apart,
      ),
)

take-Once :
    (id key : ℕ) (w : Workers) (called : List ℕ)
    → lookup id w.delayed_callbacks ≡ some key
    → Once w called
    → Once (record w { delayed_callbacks = remove id w.delayed_callbacks }) (id ∷ called)
take-Once id key w called there h = (
  h.0,
  λ room.
      let (low, gone, apart) = h.1 room in
      let d = w.delayed_callbacks in
      (
        λ j left. low j (λ out. ground (arith, lookup-remove {V = ℕ} id j d, left, out)),
        (
          (low id (λ out. cc (there, out)), ground (arith, lookup-remove {V = ℕ} id id d)),
          All-map (λ j. (j ≤ w.allocated) × (lookup j d ≡ none))
              (λ j. (j ≤ w.allocated) × (lookup j (remove id d) ≡ none))
              (λ j k. (k.0, ground (arith, lookup-remove {V = ℕ} id j d, k.1))) called gone,
        ),
        (
          All-map (λ j. (j ≤ w.allocated) × (lookup j d ≡ none)) (λ j. id ≢ j)
              (λ j k same. cc (there, k.1, same)) called gone,
          apart,
        ),
      ),
)

called_back-Once :
    (res : Result Text (Unit {0})) (r : Runtime)
    → Once r.workers r.called
    → Once (called_back res r).workers (called_back res r).called
called_back-Once (ok u) r h = h
called_back-Once (err e) r h = h

executed-Once :
    (name : Text) (res : Result Text (Unit {0})) (r : Runtime)
    → Once r.workers r.called
    → Once (executed name res r).1.workers (executed name res r).1.called
executed-Once name (ok u) r h = h
executed-Once name (err e) r h = clear-Once r.workers r.called h

rerun-Once :
    (name : Text) (o : Outside) (built : Result Text (Unit {0})) (r : Runtime)
    → Once r.workers r.called
    → Once (rerun name o built r).1.workers (rerun name o built r).1.called
rerun-Once name o (err e) r h = h
rerun-Once name o (ok u) r h =
    executed-Once name o.outcome _ (serve_all-Once o.now o.requests r.workers r.called h)

restopped-Once :
    (built : Result Text (Unit {0})) (r : Runtime)
    → Once r.workers r.called
    → Once (restopped built r).1.workers (restopped built r).1.called
restopped-Once (ok u) r h = h
restopped-Once (err e) r h = h

call_delayed-Once :
    (id : ℕ) (o : Outside) (found : Option ℕ) (r : Runtime)
    → lookup id r.workers.delayed_callbacks ≡ found
    → Once r.workers r.called
    → Once (call_delayed id o found r).workers (call_delayed id o found r).called
call_delayed-Once id o none r there h = h
call_delayed-Once id o (some key) r there h = called_back-Once o.outcome _ (
    serve_all-Once o.now o.requests _ (id ∷ r.called) (take-Once id key r.workers r.called there h))

call_key-Once :
    (o : Outside) (found : Option ℕ) (r : Runtime)
    → Once r.workers r.called
    → Once (call_key o found r).workers (call_key o found r).called
call_key-Once o none r h = h
call_key-Once o (some key) r h =
    called_back-Once o.outcome _ (serve_all-Once o.now o.requests r.workers r.called h)

abbrev Held : Runtime → Type 0
Held r = Once r.workers r.called

handle-Once : (o : Outside) (c : Command) (r : Runtime) → Held r → Held (handle o c r).1
unfolding handle
handle-Once o (run script name) r h = rerun-Once name o o.build _ (clear-Once r.workers r.called h)
handle-Once o stop r h = restopped-Once o.build _ (clear-Once r.workers r.called h)
handle-Once o shutdown r h = h
handle-Once o (dispatch_delayed id) r h =
    if-lem Held r.lua (call_delayed id o (lookup id r.workers.delayed_callbacks) r) r
      (λ on. call_delayed-Once id o (lookup id r.workers.delayed_callbacks) r refl h) (λ off. h)
handle-Once o (dispatch_key vk) r h =
    if-lem Held r.lua (call_key o (lookup vk r.workers.keybinds) r) r
      (λ on. call_key-Once o (lookup vk r.workers.keybinds) r h) (λ off. h)

drain-Once : (o : Outside) (r : Runtime) → Held r → Held (drain_game_thread o r)
unfolding drain_game_thread
drain-Once o r h =
    if-lem Held r.lua
      (record r { workers = serve_all o.now o.requests (record r.workers { game_thread = [] }) }) r
      (λ on. serve_all-Once o.now o.requests _ r.called h) (λ off. h)

step-Once : {s t : System} → Step s t → Held s.runtime → Held t.runtime
unfolding ticked polled
step-Once (sends s c) h = h
step-Once (works s o c rest e) h = handle-Once o c s.runtime h
step-Once (ticks s connected clock) h = h
step-Once (polls s pressed) h = h
step-Once (drains s o) h = drain-Once o s.runtime h

Reach-Held : {s : System} → Reach s → Held s.runtime
Reach-Held started = (refl, λ room. (λ id there. absurd (there (unfold lookup in refl)), tt, tt))
Reach-Held (after s t reached step) = step-Once step (Reach-Held reached)

-- In every run of the threads, in which fewer than 2^64 - 1 ids are given out, no delayed callback
-- is called twice, and one that was called cannot be called again.
pub Reach-Once :
    (s : System)
    → Reach s
    → s.runtime.workers.allocated + 1 < 2 ^ 64
    → Distinct s.runtime.called
      × All (λ id. lookup id s.runtime.workers.delayed_callbacks ≡ none) s.runtime.called
Reach-Once s h room =
    let w = s.runtime.workers in
    let (low, gone, apart) = (Reach-Held h).1 room in
    (
      apart,
      All-map (λ j. (j ≤ w.allocated) × (lookup j w.delayed_callbacks ≡ none))
          (λ j. lookup j w.delayed_callbacks ≡ none) (λ j k. k.1) s.runtime.called gone,
    )

-- ===== src/LuaWorkers.antt =====
-- crates/ue5-lua/src/workers.rs, with what bindings.rs and runtime.rs do to its queues: the delayed
-- callbacks, the key bindings and the closures for the game thread. The Lua VM is outside: a call
-- into it is what the script asks of the bindings, in order, and whether the call failed. A
-- callback is the number of its slot in the VM's registry.
pub mod Timer
pub mod Keys
pub mod Runtime
pub mod Once
pub mod Examples
use openforge_aio.Prelude.{
  ℕ, zero, suc, ◌+◌, ◌%◌, ◌^◌, Bool, true, false, not, ◌&&◌, ◌||◌, Option, none, some, List, [],
  ◌∷◌, ◌++◌, length, leb, ltb, ◌==◌, if◌then◌else◌,
}
use openforge_aio.Prelude.Dict.{Dict, lookup, insert, remove, nat_eq}
use Prim.Native.Nat.{compare, Ordering}

pub record DelayedTask : Type 0 where
  pub deadline : ℕ
  pub id : ℕ

abbrev pub then_with : Ordering → Ordering → Ordering
then_with Ordering.lt o = Ordering.lt
then_with Ordering.eq o = o
then_with Ordering.gt o = Ordering.gt

-- `Ord` of DelayedTask: the earlier deadline is the greater, then the lower id.
unfoldable pub cmp : DelayedTask → DelayedTask → Ordering
cmp a b = then_with (compare b.deadline a.deadline) (compare b.id a.id)

abbrev pub is_lt : Ordering → Bool
is_lt Ordering.lt = true
is_lt Ordering.eq = false
is_lt Ordering.gt = false

-- `BinaryHeap::pop` of a heap that is not empty: the greatest task, and the others.
unfoldable pub pop : DelayedTask → List DelayedTask → DelayedTask × List DelayedTask
pop t [] = (t, [])
pop t (u ∷ ts) =
    let (g, rest) = pop u ts in if is_lt (cmp t g) then (g, t ∷ rest) else (t, g ∷ rest)

-- The inner loop of the timer thread, from its `i`-th look at the clock on: what it sends, and the
-- heap. A send fails once the worker is gone, which ends the thread; the rounds are bounded by the
-- tasks.
unfoldable pub dispatch_due :
    Bool → (ℕ → ℕ) → ℕ → ℕ → List DelayedTask → List DelayedTask × List DelayedTask
dispatch_due connected clock zero i heap = ([], heap)
dispatch_due connected clock (suc n) i [] = ([], [])
dispatch_due connected clock (suc n) i (t ∷ ts) =
    let (g, rest) = pop t ts in
    let (sent, left) = dispatch_due connected clock n (i + 1) rest in
    if leb g.deadline (clock i)
    then (if connected then (g ∷ sent, left) else ([], rest))
    else ([], t ∷ ts)

pub record Workers : Type 0 where
  pub delayed : List DelayedTask
  pub keybinds : Dict ℕ ℕ
  pub delayed_callbacks : Dict ℕ ℕ
  pub game_thread : List ℕ
  pub next_delayed_id : ℕ
  -- How many ids were given out: a record of the run, which nothing reads.
  pub allocated : ℕ

abbrev pub new : Workers
new = record {
  delayed = [];
  keybinds = [];
  delayed_callbacks = [];
  game_thread = [];
  next_delayed_id = 1;
  allocated = 0;
}

-- The id, and the workers behind the `fetch_add`.
unfoldable pub alloc_delayed_id : Workers → ℕ × Workers
alloc_delayed_id w = (
  w.next_delayed_id,
  record w { next_delayed_id = (w.next_delayed_id + 1) % 2 ^ 64; allocated = w.allocated + 1 },
)

unfoldable pub clear : Workers → Workers
clear w = record w { delayed = []; delayed_callbacks = []; keybinds = []; game_thread = [] }

-- What a script asks of the bindings.
pub data Request : Type 0 where
  execute_in_game_thread : ℕ → Request
  execute_with_delay register_keybind : ℕ → ℕ → Request

-- `now` is the clock of the call, in milliseconds.
unfoldable pub serve : ℕ → Request → Workers → Workers
unfolding alloc_delayed_id
serve now (execute_in_game_thread key) w = record w { game_thread = w.game_thread ++ key ∷ [] }
serve now (execute_with_delay ms key) w =
    let (id, w') = alloc_delayed_id w in
    record w' {
      delayed_callbacks = insert id key w'.delayed_callbacks;
      delayed = record { deadline = now + ms; id = id } ∷ w'.delayed;
    }
serve now (register_keybind vk key) w = record w { keybinds = insert vk key w.keybinds }

unfoldable pub serve_all : ℕ → List Request → Workers → Workers
unfolding serve
serve_all now [] w = w
serve_all now (r ∷ rs) w = serve_all now rs (serve now r w)

-- One round over the keys that are bound: which callbacks to call, and the keys that are down.
abbrev pub was_down : Option Bool → Bool
was_down none = false
was_down (some p) = p

unfoldable pub poll_keys : (ℕ → Bool) → List ℕ → Dict ℕ Bool → List ℕ × Dict ℕ Bool
poll_keys pressed [] prev = ([], prev)
poll_keys pressed (vk ∷ vks) prev =
    let (sent, prev') = poll_keys pressed vks (insert vk (pressed vk) prev) in
    if pressed vk && not (was_down (lookup vk prev)) then (vk ∷ sent, prev') else (sent, prev')

abbrev pub one_of : ℕ → List ℕ → Bool
one_of k [] = false
one_of k (vk ∷ vks) = vk == k || one_of k vks

-- `prev.retain(|k, _| vks.contains(k))`
unfoldable pub retain_bound : List ℕ → Dict ℕ Bool → Dict ℕ Bool
retain_bound vks [] = []
retain_bound vks ((k, p) ∷ prev) =
    let rest = retain_bound vks prev in if one_of k vks then (k, p) ∷ rest else rest

unfoldable pub poll : (ℕ → Bool) → List ℕ → Dict ℕ Bool → List ℕ × Dict ℕ Bool
unfolding poll_keys retain_bound
poll pressed vks prev =
    let (sent, prev') = poll_keys pressed vks prev in (sent, retain_bound vks prev')

-- ===== src/Log/ThreadPool.antt =====
-- `ThreadPool` of log_system/log_src/ThreadPool.hpp and ThreadPool.cpp: workers, the manager thread, and
-- those who add tasks. A take under the queue's mutex is one step, and so is every change of a counter;
-- that the exit branch keeps that mutex is left out, which leaves more orders than there are. A
-- wait may end at any time, as the wake-ups without a notification of the standard let it; so the
-- notifications make no difference, and nothing is said of when a wait ends.
-- A task is a number, its run is one step. Ints are 32-bit patterns.
pub mod Queue
pub mod Counts
pub mod Turns
pub mod Counters
pub mod Shutdown
pub mod Hang
pub mod Promises
mod Examples
use async_log_cloud_storage.Base.{
  ℕ, ◌+◌, ◌-◌, ◌/◌, ◌%◌, ◌^◌, ◌≡◌, ◌==◌, Bool, true, false, not, ◌&&◌, ◌||◌, List, [], ◌∷◌, ◌++◌,
  replicate, take, ltb, if◌then◌else◌, Option, none, some,
}

-- int: `a + 1`, `a - 1`, `a < b` and `a / 2`.
abbrev pub inc32 : ℕ → ℕ
inc32 a = (a + 1) % 2 ^ 32

abbrev pub dec32 : ℕ → ℕ
dec32 a = (a + 2 ^ 32 - 1) % 2 ^ 32

abbrev pub less32 : ℕ → ℕ → Bool
less32 a b = ltb ((a + 2 ^ 31) % 2 ^ 32) ((b + 2 ^ 31) % 2 ^ 32)

abbrev pub half32 : ℕ → ℕ
half32 a = if ltb a (2 ^ 31) then a / 2 else (2 ^ 32 - (2 ^ 32 - a) / 2) % 2 ^ 32

-- What the threads share.
pub record Pool : Type 0 where
  pub min_thread : ℕ
  pub max_thread : ℕ
  pub idle_thread : ℕ
  pub cur_thread : ℕ
  pub exit_thread : ℕ
  pub stop : Bool
  pub tasks : List ℕ
  -- how many ids are in `m_ids`
  pub ids : ℕ

-- Where a worker stands in `worker`.
pub data Worker : Type 0 where
  -- at the test of the outer loop
  looping : Worker
  -- before the mutex
  entering : Worker
  -- in the wait
  waiting : Worker
  -- with a task that it has taken, before `m_idleThread--`
  taken : ℕ → Worker
  -- in the task
  running : ℕ → Worker
  -- in the exit branch, before `m_curThread--`
  leaving : Worker
  -- before `m_idleThread--`
  uncounted : Worker
  -- before `m_exitThread--`
  unidled : Worker
  -- before the id goes into `m_ids`
  exited : Worker
  -- returned from the exit branch
  retired : Worker
  -- left the outer loop
  ended : Worker

-- The inner loop's test and the take behind the loop: the new place, and the task that was taken.
unfoldable pub fetch : Pool → Pool × Worker × List ℕ
fetch p = elim p.tasks [
  | [] ↦ if p.stop then (p, looping, []) else (p, waiting, [])
  | t ∷ tasks ↦ (record p { tasks = tasks }, taken t, t ∷ [])
]

-- A step of the branch behind the wait that ends the thread. The manager reads the counters between
-- these steps.
unfoldable pub retire : Worker → Pool → Option (Pool × Worker × List ℕ)
retire leaving p = some (record p { cur_thread = dec32 p.cur_thread }, uncounted, [])
retire uncounted p = some (record p { idle_thread = dec32 p.idle_thread }, unidled, [])
retire unidled p = some (record p { exit_thread = dec32 p.exit_thread }, exited, [])
retire exited p = some (record p { ids = p.ids + 1 }, retired, [])
retire w p = none

unfoldable pub worker : Worker → Pool → Option (Pool × Worker × List ℕ)
worker looping p = some (p, if p.stop then ended else entering, [])
worker entering p = some (fetch p)
worker waiting p = if less32 0 p.exit_thread then some (p, leaving, []) else some (fetch p)
worker (taken t) p = some (record p { idle_thread = dec32 p.idle_thread }, running t, [])
worker (running t) p = some (record p { idle_thread = inc32 p.idle_thread }, looping, [])
worker ended p = none
worker w p = retire w p

-- Where the manager stands.
pub data Manager : Type 0 where
  -- at the test of its loop
  testing : Manager
  -- in the sleep
  sleeping : Manager
  -- with the idle count
  counted : ℕ → Manager
  -- with both counts
  deciding : ℕ → ℕ → Manager
  -- until a thread has gone
  draining : Manager
  -- before the join of those
  joining : Manager
  -- a thread has been made
  made : Manager
  -- and `m_curThread` counts it
  made_counted : Manager
  -- out of the loop
  over : Manager

-- The manager after its decision.
unfoldable pub decide : ℕ → ℕ → Pool → Pool × Manager × List Worker
decide idle cur p =
    if less32 (half32 cur) idle && less32 p.min_thread cur
    then (record p { exit_thread = 2 }, draining, [])
    else if idle == 0 && (less32 cur p.max_thread && not p.stop)
    then (p, made, looping ∷ [])
    else (p, testing, [])

-- A step of the manager: the new place, and the thread that it makes.
unfoldable pub manager : Manager → Pool → Option (Pool × Manager × List Worker)
manager testing p = some (p, if p.stop then over else sleeping, [])
manager sleeping p = some (p, counted p.idle_thread, [])
manager (counted idle) p = some (p, deciding idle p.cur_thread, [])
manager (deciding idle cur) p = some (decide idle cur p)
manager draining p =
    if p.ids == 0 && less32 0 p.exit_thread then some (p, draining, []) else some (p, joining, [])
manager joining p = some (record p { ids = 0 }, testing, [])
manager made p = some (record p { cur_thread = inc32 p.cur_thread }, made_counted, [])
manager made_counted p = some (record p { idle_thread = inc32 p.idle_thread }, testing, [])
manager over p = none

unfoldable pub add_task : ℕ → Pool → Pool
add_task t p = record p { tasks = p.tasks ++ t ∷ [] }

-- The template `addTask`: the packaged task is queued by the same steps, and the future that is returned is
-- that of this task.
unfoldable pub submit : ℕ → Pool → ℕ × Pool
submit t p = (t, add_task t p)

-- The destructor's first statement. Its notification is left out, as every other.
unfoldable pub stop_pool : Pool → Pool
stop_pool p = record p { stop = true }

-- The pool with its threads, the tasks that were added and those that were taken, in order.
pub record System : Type 0 where
  pub pool : Pool
  pub workers : List Worker
  pub manager_at : Manager
  pub added : List ℕ
  pub started : List ℕ

-- The constructor; `m_exitThread` is not initialised.
unfoldable pub new_pool : ℕ → ℕ → ℕ → System
new_pool min max stray = record {
  pool = record {
    min_thread = min;
    max_thread = max;
    idle_thread = min;
    cur_thread = min;
    exit_thread = stray;
    stop = false;
    tasks = [];
    ids = 0;
  };
  workers = if ltb min (2 ^ 31) then replicate min looping else [];
  manager_at = testing;
  added = [];
  started = [];
}

-- Whether the joins of the destructor have returned: each worker that it has seen in `m_workers` has
-- returned, and the manager has. It has seen the first `seen` threads: those of the constructor and those
-- that the manager had put there, one by one, when it went over them.
unfoldable pub has_returned : Worker → Bool
has_returned retired = true
has_returned ended = true
has_returned _ = false

unfoldable pub workers_returned : List Worker → Bool
workers_returned [] = true
workers_returned (w ∷ ws) = has_returned w && workers_returned ws

unfoldable pub manager_returned : Manager → Bool
manager_returned over = true
manager_returned _ = false

unfoldable pub joins_return : ℕ → System → Bool
joins_return seen s = workers_returned (take seen s.workers) && manager_returned s.manager_at

pub data Step (s : System) : System → Type 0 where
  adds : (t : ℕ) → Step s (record s { pool = add_task t s.pool; added = s.added ++ t ∷ [] })
  stops : Step s (record s { pool = stop_pool s.pool })
  works :
      (before after : List Worker) (w w' : Worker) (p : Pool) (took : List ℕ)
      → s.workers ≡ before ++ w ∷ after
      → worker w s.pool ≡ some (p, w', took)
      → Step s (record s { pool = p; workers = before ++ w' ∷ after; started = s.started ++ took })
  manages :
      (m : Manager) (p : Pool) (new : List Worker)
      → manager s.manager_at s.pool ≡ some (p, m, new)
      → Step s (record s { pool = p; workers = s.workers ++ new; manager_at = m })

pub data Reach (start : System) : System → Type 0 where
  begins : Reach start start
  later : {s t : System} → Reach start s → Step s t → Reach start t

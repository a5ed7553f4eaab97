-- ===== src/Log/ThreadPool/Shutdown.antt =====
-- The threads of the pool of log_system/log_src/ThreadPool.cpp after the destructor has set `m_stop`.
use async_log_cloud_storage.Base.{ℕ, ◌+◌, ◌<◌, ◌≡◌, true, List, [], ◌∷◌, ◌++◌, some, arith}
use async_log_cloud_storage.Log.ThreadPool.{
  Pool, Worker, looping, entering, waiting, taken, running, leaving, uncounted, unidled, exited,
  retired, ended, fetch, retire, worker, Manager, testing, decide, manager,
}

-- How many steps a worker has left at most, once the pool is stopped.
abbrev pub turns_left : Worker → ℕ
turns_left looping = 1
turns_left entering = 4
turns_left waiting = 5
turns_left (taken t) = 3
turns_left (running t) = 2
turns_left leaving = 4
turns_left uncounted = 3
turns_left unidled = 2
turns_left exited = 1
turns_left retired = 0
turns_left ended = 0

abbrev pub all_turns_left : List Worker → ℕ
all_turns_left [] = 0
all_turns_left (w ∷ ws) = turns_left w + all_turns_left ws

pub all_turns_left-append :
    (ws vs : List Worker) → all_turns_left (ws ++ vs) ≡ all_turns_left ws + all_turns_left vs
all_turns_left-append [] vs = omega arith
all_turns_left-append (w ∷ ws) vs = omega (arith, all_turns_left-append ws vs)

-- A step of a worker leaves it fewer turns, and keeps the pool stopped.
pub worker-turns_left :
    (w w' : Worker) (p q : Pool) (took : List ℕ)
    → p.stop ≡ true
    → worker w p ≡ some (q, w', took)
    → (turns_left w' < turns_left w) × (q.stop ≡ true)
unfolding worker fetch retire
worker-turns_left looping w' p q took stopped e = ground arith
worker-turns_left _ w' p q took stopped e = ground arith

-- The manager of a stopped pool makes no thread.
pub manager-new :
    (m m' : Manager) (p q : Pool) (new : List Worker)
    → p.stop ≡ true
    → manager m p ≡ some (q, m', new)
    → (new ≡ []) × (q.stop ≡ true)
unfolding manager decide
manager-new testing m' p q new stopped e = ground arith
manager-new _ m' p q new stopped e = ground arith

-- ===== src/Log/ThreadPool/Counts.antt =====
-- What `m_curThread` and `m_idleThread` of ThreadPool.cpp count, and how a worker's step moves them.
use async_log_cloud_storage.Base.{
  ℕ, ◌+◌, ◌-◌, ◌%◌, ◌^◌, ◌≤◌, ◌<◌, ◌≡◌, List, [], ◌∷◌, ◌++◌, some, arith,
}
use async_log_cloud_storage.Log.ThreadPool.{
  Pool, Worker, looping, entering, waiting, taken, running, leaving, uncounted, unidled, exited,
  retired, ended, fetch, retire, worker, Manager, testing, sleeping, counted, deciding, draining,
  joining, made, made_counted, over,
}

-- A thread counts until its `m_curThread--`; it is idle until its `m_idleThread--`, but in a task.
abbrev pub stays : Worker → ℕ
stays uncounted = 0
stays unidled = 0
stays exited = 0
stays retired = 0
stays _ = 1

abbrev pub idles : Worker → ℕ
idles (running t) = 0
idles unidled = 0
idles exited = 0
idles retired = 0
idles _ = 1

abbrev pub staying : List Worker → ℕ
staying [] = 0
staying (w ∷ ws) = stays w + staying ws

abbrev pub idling : List Worker → ℕ
idling [] = 0
idling (w ∷ ws) = idles w + idling ws

pub staying-append : (ws vs : List Worker) → staying (ws ++ vs) ≡ staying ws + staying vs
staying-append [] vs = omega arith
staying-append (w ∷ ws) vs = omega (arith, staying-append ws vs)

pub idling-append : (ws vs : List Worker) → idling (ws ++ vs) ≡ idling ws + idling vs
idling-append [] vs = omega arith
idling-append (w ∷ ws) vs = omega (arith, idling-append ws vs)

-- What the manager has made and not counted yet.
abbrev pub unadded : Manager → ℕ
unadded made = 1
unadded _ = 0

abbrev pub idle_unadded : Manager → ℕ
idle_unadded made = 1
idle_unadded made_counted = 1
idle_unadded _ = 0

-- The count that the manager has read is not below the one that holds.
abbrev pub IsFresh : Manager → ℕ → Type 0
IsFresh (deciding i c) n = (n ≤ c) × (c < 2 ^ 31)
IsFresh _ n = Unit {0}

pub record Counts (max : ℕ) (p : Pool) (m : Manager) (ws : List Worker) : Type 0 where
  pub same_max : p.max_thread ≡ max
  pub cur_fits : p.cur_thread < 2 ^ 32
  pub cur : (p.cur_thread + unadded m) % 2 ^ 32 ≡ staying ws
  pub idle : (p.idle_thread + idle_unadded m) % 2 ^ 32 ≡ idling ws % 2 ^ 32
  pub bounded : staying ws ≤ max
  pub fresh : IsFresh m (staying ws)

-- What one step of a worker does to the counters.
pub record Moves (w w' : Worker) (p q : Pool) : Type 0 where
  pub same_max : q.max_thread ≡ p.max_thread
  pub leaves : stays w' ≤ stays w
  pub cur : q.cur_thread ≡ (p.cur_thread + 2 ^ 32 + stays w' - stays w) % 2 ^ 32
  pub idle : (q.idle_thread + idles w) % 2 ^ 32 ≡ (p.idle_thread + idles w') % 2 ^ 32

pub worker-Moves :
    (w w' : Worker) (p q : Pool) (took : List ℕ)
    → p.cur_thread < 2 ^ 32
    → worker w p ≡ some (q, w', took)
    → Moves w w' p q
unfolding worker fetch retire
worker-Moves looping w' p q took small h = ground arith
worker-Moves entering w' p q took small h = ground arith
worker-Moves waiting w' p q took small h = ground arith
worker-Moves (taken t) w' p q took small h = ground arith
worker-Moves (running t) w' p q took small h = ground arith
worker-Moves leaving w' p q took small h = ground arith
worker-Moves uncounted w' p q took small h = ground arith
worker-Moves unidled w' p q took small h = ground arith
worker-Moves exited w' p q took small h = ground arith
worker-Moves retired w' p q took small h = absurd (ground arith)
worker-Moves ended w' p q took small h = absurd (ground arith)

pub IsFresh-le : (m : Manager) (k n : ℕ) → k ≤ n → IsFresh m n → IsFresh m k
IsFresh-le (deciding i c) k n h f = (omega (arith, f.0), f.1)
IsFresh-le testing k n h f = tt
IsFresh-le sleeping k n h f = tt
IsFresh-le (counted i) k n h f = tt
IsFresh-le draining k n h f = tt
IsFresh-le joining k n h f = tt
IsFresh-le made k n h f = tt
IsFresh-le made_counted k n h f = tt
IsFresh-le over k n h f = tt

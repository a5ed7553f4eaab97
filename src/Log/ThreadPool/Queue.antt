-- ===== src/Log/ThreadPool/Queue.antt =====
-- The order in which the workers of ThreadPool.cpp take the tasks.
use async_log_cloud_storage.Base.{
  ℕ, ◌≡◌, refl, sym, ap, ◌∙◌, List, [], ◌∷◌, ◌++◌, append_assoc, some, arith,
}
use async_log_cloud_storage.Log.ThreadPool.{
  Pool, Worker, looping, entering, waiting, taken, running, leaving, uncounted, unidled, exited,
  retired, ended, fetch, retire, worker, Manager, testing, sleeping, counted, deciding, draining,
  joining, made, made_counted, over, decide, manager, add_task, stop_pool, System, new_pool, Step,
  adds, stops, works, manages, Reach, begins, later,
}

fetch-tasks :
    (p q : Pool) (w : Worker) (took : List ℕ) → fetch p ≡ (q, w, took) → took ++ q.tasks ≡ p.tasks
unfolding fetch
fetch-tasks p q w took h = ground arith

worker-tasks :
    (w w' : Worker) (p q : Pool) (took : List ℕ)
    → worker w p ≡ some (q, w', took)
    → took ++ q.tasks ≡ p.tasks
unfolding worker retire
worker-tasks looping w' p q took h = ground arith
worker-tasks entering w' p q took h = ground (arith, fetch-tasks p q w' took)
worker-tasks waiting w' p q took h = ground (arith, fetch-tasks p q w' took)
worker-tasks (taken t) w' p q took h = ground arith
worker-tasks (running t) w' p q took h = ground arith
worker-tasks leaving w' p q took h = ground arith
worker-tasks uncounted w' p q took h = ground arith
worker-tasks unidled w' p q took h = ground arith
worker-tasks exited w' p q took h = ground arith
worker-tasks retired w' p q took h = absurd (ground arith)
worker-tasks ended w' p q took h = absurd (ground arith)

manager-tasks :
    (m m' : Manager) (p q : Pool) (new : List Worker)
    → manager m p ≡ some (q, m', new)
    → q.tasks ≡ p.tasks
unfolding manager decide
manager-tasks testing m' p q new h = ground arith
manager-tasks sleeping m' p q new h = ground arith
manager-tasks (counted i) m' p q new h = ground arith
manager-tasks (deciding i c) m' p q new h = ground arith
manager-tasks draining m' p q new h = ground arith
manager-tasks joining m' p q new h = ground arith
manager-tasks made m' p q new h = ground arith
manager-tasks made_counted m' p q new h = ground arith
manager-tasks over m' p q new h = absurd (ground arith)

Step-queue :
    {s t : System}
    → Step s t
    → s.started ++ s.pool.tasks ≡ s.added
    → t.started ++ t.pool.tasks ≡ t.added
unfolding add_task stop_pool
Step-queue {s} (adds t) v =
    sym (append_assoc s.started s.pool.tasks (t ∷ [])) ∙ ap (λ (ts : List ℕ). ts ++ t ∷ []) v
Step-queue stops v = v
Step-queue {s} (works before after w w' p took at_w h) v =
    append_assoc s.started took p.tasks
    ∙ ap (◌++◌ s.started) (worker-tasks w w' s.pool p took h)
    ∙ v
Step-queue {s} (manages m p new h) v =
    ap (◌++◌ s.started) (manager-tasks s.manager_at m s.pool p new h) ∙ v

-- In every state that a new pool reaches, the tasks that workers have taken, followed by those in
-- the queue, are the tasks that were added, in order: none is lost, none is taken twice, and the
-- first added is the first taken.
pub taken_in_order :
    (min max stray : ℕ) (s : System)
    → Reach (new_pool min max stray) s
    → s.started ++ s.pool.tasks ≡ s.added
unfolding new_pool
taken_in_order min max stray s begins = refl
taken_in_order min max stray s (later r st) = Step-queue st (taken_in_order min max stray _ r)

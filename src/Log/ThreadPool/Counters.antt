-- ===== src/Log/ThreadPool/Counters.antt =====
-- How many threads a pool of ThreadPool.cpp has, and what its counters tell.
use mathlib.Core.Path.{subst}
use async_log_cloud_storage.Base.{ℕ, zero, suc, ◌%◌, ◌^◌, ◌≤◌, ◌<◌, ◌≡◌, refl, replicate, arith}
use async_log_cloud_storage.Log.ThreadPool.{
  looping, Manager, testing, sleeping, counted, deciding, draining, joining, made, made_counted,
  over, add_task, stop_pool, System, new_pool, Step, adds, stops, works, manages, Reach, begins,
  later,
}
use async_log_cloud_storage.Log.ThreadPool.Counts.{
  staying, idling, unadded, idle_unadded, Counts, worker-Moves,
}
use async_log_cloud_storage.Log.ThreadPool.Turns.{works-Counts, manager-Counts}

staying-replicate : (n : ℕ) → staying (replicate n looping) ≡ n
staying-replicate zero = refl
staying-replicate (suc n) = omega (arith, staying-replicate n)

idling-replicate : (n : ℕ) → idling (replicate n looping) ≡ n
idling-replicate zero = refl
idling-replicate (suc n) = omega (arith, idling-replicate n)

abbrev Inv : ℕ → System → Type 0
Inv max s = Counts max s.pool s.manager_at s.workers

Step-Inv : {s t : System} (max : ℕ) → max < 2 ^ 31 → Step s t → Inv max s → Inv max t
unfolding add_task stop_pool
Step-Inv max small (adds t) v = record {
  same_max = v.same_max;
  cur_fits = v.cur_fits;
  cur = v.cur;
  idle = v.idle;
  bounded = v.bounded;
  fresh = v.fresh;
}
Step-Inv max small stops v = record {
  same_max = v.same_max;
  cur_fits = v.cur_fits;
  cur = v.cur;
  idle = v.idle;
  bounded = v.bounded;
  fresh = v.fresh;
}
Step-Inv {s} max small (works before after w w' p took at_w h) v =
    works-Counts max s.pool p s.manager_at before after w w' small
      (subst (Counts max s.pool s.manager_at) at_w v) (worker-Moves w w' s.pool p took v.cur_fits h)
Step-Inv {s} max small (manages m p new h) v =
    manager-Counts max s.manager_at m s.pool p s.workers new small v h

new_pool-Inv : (min max stray : ℕ) → min ≤ max → max < 2 ^ 31 → Inv max (new_pool min max stray)
unfolding new_pool
new_pool-Inv min max stray le small = ground (arith, staying-replicate min, idling-replicate min)

Reach-Inv : {start s : System} (max : ℕ) → max < 2 ^ 31 → Inv max start → Reach start s → Inv max s
Reach-Inv max small v begins = v
Reach-Inv max small v (later r st) = Step-Inv max small st (Reach-Inv max small v r)

unadded-le : (m : Manager) → unadded m ≤ idle_unadded m
unadded-le testing = omega arith
unadded-le sleeping = omega arith
unadded-le (counted i) = omega arith
unadded-le (deciding i c) = omega arith
unadded-le draining = omega arith
unadded-le joining = omega arith
unadded-le made = omega arith
unadded-le made_counted = omega arith
unadded-le over = omega arith

-- In every state that a pool with min ≤ max reaches, there are at most `max` threads that have not passed
-- the `m_curThread--` of their exit, for whatever `m_exitThread` holds at first.
pub staying-le-max :
    (min max stray : ℕ) (s : System)
    → min ≤ max
    → max < 2 ^ 31
    → Reach (new_pool min max stray) s
    → staying s.workers ≤ max
staying-le-max min max stray s le small r =
    (Reach-Inv max small (new_pool-Inv min max stray le small) r).bounded

-- In every state that a pool with min ≤ max reaches, with the manager outside of the making of a
-- thread, `m_curThread` is the number of the threads that have not passed the `m_curThread--` of their
-- exit, and `m_idleThread` that of the threads that have not passed the `m_idleThread--` of their exit
-- and are not in a task, as 32-bit patterns; on the way out a thread is for a moment in the second only.
pub counters_exact :
    (min max stray : ℕ) (s : System)
    → min ≤ max
    → max < 2 ^ 31
    → Reach (new_pool min max stray) s
    → idle_unadded s.manager_at ≡ 0
    → (s.pool.cur_thread ≡ staying s.workers)
      × (s.pool.idle_thread % 2 ^ 32 ≡ idling s.workers % 2 ^ 32)
counters_exact min max stray s le small r outside =
    let v : Inv max s = Reach-Inv max small (new_pool-Inv min max stray le small) r in
    (omega (arith, unadded-le s.manager_at, v.cur, v.cur_fits), omega (arith, v.idle))

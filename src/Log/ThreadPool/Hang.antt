-- ===== src/Log/ThreadPool/Hang.antt =====
-- A manager of log_system/log_src/ThreadPool.cpp that waits for threads to retire when the pool is
-- stopped: the destructor's join of it does not return.
use mathlib.Core.Path.{subst}
use mathlib.Core.Option.{some-injective}
use async_log_cloud_storage.Base.{
  take, ℕ, ◌≡◌, refl, sym, ◌∙◌, ap, Bool, true, false, ◌&&◌, List, [], ◌∷◌, append-nil, some, arith,
}
use async_log_cloud_storage.Log.ThreadPool.{
  Pool, Worker, Manager, testing, sleeping, counted, deciding, draining, joining, made,
  made_counted, over, decide, half32, workers_returned, manager_returned, joins_return, manager,
  add_task, stop_pool, System, Step, adds, stops, works, manages, Reach, begins, later, less32,
}
use async_log_cloud_storage.Log.ThreadPool.Shutdown.{
  all_turns_left, all_turns_left-append, worker-turns_left, manager-new,
}

-- The manager sees more idle threads than half of the threads, and more threads than the minimum.
abbrev pub Shrinks : ℕ → ℕ → Pool → Type 0
Shrinks idle cur p = (less32 (half32 cur) idle ≡ true) × (less32 p.min_thread cur ≡ true)

-- The manager waits for a thread to retire, or is on its way to that.
abbrev pub IsDraining : Pool → Manager → Type 0
IsDraining p sleeping = Shrinks p.idle_thread p.cur_thread p
IsDraining p (counted idle) = Shrinks idle p.cur_thread p
IsDraining p (deciding idle cur) = Shrinks idle cur p
IsDraining p draining = less32 0 p.exit_thread ≡ true
IsDraining p _ = ⊥

-- The pool is stopped and its workers have returned, but the manager drains it.
pub record IsStuck (s : System) : Type 0 where
  pub stopped : s.pool.stop ≡ true
  pub returned : all_turns_left s.workers ≡ 0
  pub drains : IsDraining s.pool s.manager_at
  pub none_retired : s.pool.ids ≡ 0

IsDraining-same :
    (m : Manager) (p q : Pool)
    → IsDraining p m
    → q.idle_thread ≡ p.idle_thread
    → q.cur_thread ≡ p.cur_thread
    → q.min_thread ≡ p.min_thread
    → q.exit_thread ≡ p.exit_thread
    → IsDraining q m
IsDraining-same sleeping p q d i c n e = rw (i, c, n) d
IsDraining-same (counted a) p q d i c n e = rw (c, n) d
IsDraining-same (deciding a b) p q d i c n e = rw n d
IsDraining-same draining p q d i c n e = rw e d
IsDraining-same testing p q d i c n e = d
IsDraining-same joining p q d i c n e = d
IsDraining-same made p q d i c n e = d
IsDraining-same made_counted p q d i c n e = d
IsDraining-same over p q d i c n e = d

drains_on :
    (p : Pool)
    → p.ids ≡ 0
    → less32 0 p.exit_thread ≡ true
    → manager draining p ≡ some (p, draining, [])
unfolding manager
drains_on p z asked = ground arith

-- A step that is known.
moved :
    (r : Pool × Manager × List Worker) {q : Pool} {m : Manager} {new : List Worker}
    → some r ≡ some (q, m, new)
    → IsDraining r.0 r.1 × (r.0.ids ≡ 0)
    → IsDraining q m × (q.ids ≡ 0)
moved r e h =
    subst (λ (t : Pool × Manager × List Worker). IsDraining t.0 t.1 × (t.0.ids ≡ 0))
      (some-injective _ _ e) h

manager-IsDraining :
    (m m' : Manager) (p q : Pool) (new : List Worker)
    → p.stop ≡ true
    → p.ids ≡ 0
    → IsDraining p m
    → manager m p ≡ some (q, m', new)
    → IsDraining q m' × (q.ids ≡ 0)
unfolding manager decide
manager-IsDraining testing m' p q new stopped z d e = absurd d
manager-IsDraining sleeping m' p q new stopped z d e = moved (p, counted p.idle_thread, []) e (d, z)
manager-IsDraining (counted i) m' p q new stopped z d e =
    moved (p, deciding i p.cur_thread, []) e (d, z)
manager-IsDraining (deciding i c) m' p q new stopped z d e =
    moved (record p { exit_thread = 2 }, draining, []) (rw (d.0, d.1) at e) (refl, z)
manager-IsDraining draining m' p q new stopped z d e =
    moved (p, draining, []) (sym (drains_on p z d) ∙ e) (d, z)
manager-IsDraining joining m' p q new stopped z d e = absurd d
manager-IsDraining made m' p q new stopped z d e = absurd d
manager-IsDraining made_counted m' p q new stopped z d e = absurd d
manager-IsDraining over m' p q new stopped z d e = absurd d

Step-IsStuck : {s t : System} → Step s t → IsStuck s → IsStuck t
unfolding add_task stop_pool
Step-IsStuck {s} (adds t) v = record {
  stopped = v.stopped;
  returned = v.returned;
  drains = IsDraining-same s.manager_at s.pool (add_task t s.pool) v.drains refl refl refl refl;
  none_retired = v.none_retired;
}
Step-IsStuck {s} stops v = record {
  stopped = refl;
  returned = v.returned;
  drains = IsDraining-same s.manager_at s.pool (stop_pool s.pool) v.drains refl refl refl refl;
  none_retired = v.none_retired;
}
Step-IsStuck {s} (works before after w w' p took at_w h) v =
    let (falls, keeps) = worker-turns_left w w' s.pool p took v.stopped h in
    absurd
      (omega (arith, ap all_turns_left at_w, all_turns_left-append before (w ∷ after), v.returned))
Step-IsStuck {s} (manages m p new h) v =
    let (none_made, keeps) = manager-new s.manager_at m s.pool p new v.stopped h in
    let (drains, z) =
      manager-IsDraining s.manager_at m s.pool p new v.stopped v.none_retired v.drains h in
    record {
      stopped = keeps;
      returned = rw (none_made, append-nil s.workers) v.returned;
      drains = drains;
      none_retired = z;
    }

Reach-IsStuck : {s t : System} → Reach s t → IsStuck s → IsStuck t
Reach-IsStuck begins v = v
Reach-IsStuck (later r st) v = Step-IsStuck st (Reach-IsStuck r v)

draining_goes_on : (p : Pool) (m : Manager) → IsDraining p m → manager_returned m ≡ false
unfolding manager_returned
draining_goes_on p testing d = refl
draining_goes_on p over d = absurd d
draining_goes_on p _ d = refl

not_all : (a b : Bool) → b ≡ false → (a && b) ≡ false
not_all true b e = e
not_all false b e = refl

-- If the pool is stopped and its workers have returned while the manager, with none of them retired, sleeps,
-- counts, decides or waits, and there are more threads than the minimum and more idle ones than half of
-- them, then in no later state the manager has returned: the destructor's joins never return, whichever
-- threads it has seen.
pub joins_return-IsStuck :
    (seen : ℕ) (s t : System) → IsStuck s → Reach s t → joins_return seen t ≡ false
unfolding joins_return
joins_return-IsStuck seen s t v r =
    not_all (workers_returned (take seen t.workers)) (manager_returned t.manager_at)
      (draining_goes_on t.pool t.manager_at (Reach-IsStuck r v).drains)

-- ===== src/Log/ThreadPool/Promises.antt =====
-- The tasks of log_system/log_src/ThreadPool.cpp that are run to their end, which makes the future of the
-- template `addTask` ready, and those that the destructor leaves in the queue.
use mathlib.Core.List.{Perm}
use mathlib.Core.List.Perm
use mathlib.Core.List.Permᴰ
use mathlib.Core.Path.{subst}
use async_log_cloud_storage.Base.{
  take, drop, take-drop, ℕ, zero, suc, ◌≡◌, refl, sym, ◌∙◌, ap, true, List, [], ◌∷◌, ◌++◌,
  append-nil, append_assoc, replicate, some, arith,
}
use async_log_cloud_storage.Log.ThreadPool.{
  Pool, Worker, looping, taken, running, retired, ended, fetch, retire, worker, Manager, testing,
  decide, manager, add_task, stop_pool, System, new_pool, has_returned, workers_returned,
  joins_return, submit, Step, adds, stops, works, manages, Reach, begins, later,
}
use async_log_cloud_storage.Log.ThreadPool.Queue.{taken_in_order}

-- The task that a worker has.
abbrev pub carried : Worker → List ℕ
carried (taken t) = t ∷ []
carried (running t) = t ∷ []
carried _ = []

abbrev pub all_carried : List Worker → List ℕ
all_carried [] = []
all_carried (w ∷ ws) = carried w ++ all_carried ws

-- The task whose run is over when this worker goes on.
abbrev pub ran_of : Worker → List ℕ
ran_of (running t) = t ∷ []
ran_of _ = []

abbrev pub ran_by : {s t : System} → Step s t → List ℕ
ran_by (works before after w w' p took at_w h) = ran_of w
ran_by _ = []

-- The tasks that were run to their end on the way, in this order.
abbrev pub ran_in : {s t : System} → Reach s t → List ℕ
ran_in begins = []
ran_in (later r st) = ran_in r ++ ran_by st

all_carried-append :
    (ws vs : List Worker) → all_carried (ws ++ vs) ≡ all_carried ws ++ all_carried vs
all_carried-append [] vs = refl
all_carried-append (w ∷ ws) vs =
    ap (◌++◌ (carried w)) (all_carried-append ws vs)
    ∙ sym (append_assoc (carried w) (all_carried ws) (all_carried vs))

all_carried-loopers : (n : ℕ) → all_carried (replicate n looping) ≡ []
all_carried-loopers zero = refl
all_carried-loopers (suc n) = all_carried-loopers n

eq-Perm : {xs ys : List ℕ} → xs ≡ ys → Perm xs ys
eq-Perm {xs} e = subst (Perm xs) e (Perm.refl xs)

append_comm-Perm : (xs ys : List ℕ) → Perm (xs ++ ys) (ys ++ xs)
append_comm-Perm xs ys = ∣ Permᴰ.append_comm xs ys ∣₁

-- A piece in the middle comes to the front.
front :
    (ran cs before after : List ℕ)
    → Perm (ran ++ (before ++ (cs ++ after))) (cs ++ (ran ++ (before ++ after)))
front ran cs before after =
    Perm.trans
      (eq-Perm
        (sym (append_assoc (ran ++ before) cs after ∙ append_assoc ran before (cs ++ after))))
      (Perm.trans (Perm.append_right after (append_comm-Perm (ran ++ before) cs)) (
        eq-Perm
          (append_assoc cs (ran ++ before) after ∙ ap (◌++◌ cs) (append_assoc ran before after))))

-- What one worker takes and has is what it has ended and has then.
worker-carried :
    (w w' : Worker) (p q : Pool) (took : List ℕ)
    → worker w p ≡ some (q, w', took)
    → took ++ carried w ≡ ran_of w ++ carried w'
unfolding worker fetch retire
worker-carried looping w' p q took e = ground arith
worker-carried _ w' p q took e = ground arith

-- A thread that the manager makes has no task.
manager-carried :
    (m m' : Manager) (p q : Pool) (new : List Worker)
    → manager m p ≡ some (q, m', new)
    → all_carried new ≡ []
unfolding manager decide
manager-carried testing m' p q new e = ground arith
manager-carried _ m' p q new e = ground arith

-- The tasks that were taken are those that ran and those that workers have.
abbrev Settles : List ℕ → List ℕ → List ℕ → Type 0
Settles started ran has = Perm started (ran ++ has)

works-Settles :
    (started ran took done cs cs' before after : List ℕ)
    → took ++ cs ≡ done ++ cs'
    → Settles started ran (before ++ (cs ++ after))
    → Settles (started ++ took) (ran ++ done) (before ++ (cs' ++ after))
works-Settles started ran took done cs cs' before after same v =
    Perm.trans
      (Perm.trans (append_comm-Perm started took)
        (Perm.append_left took (Perm.trans v (front ran cs before after))))
      (Perm.trans (eq-Perm regrouped) (
        Perm.trans (Perm.append_left done (Perm.symm (front ran cs' before after)))
          (eq-Perm' ran done (before ++ (cs' ++ after)))))
  where
    rest : List ℕ
    rest = ran ++ (before ++ after)

    regrouped : took ++ (cs ++ rest) ≡ done ++ (cs' ++ rest)
    regrouped =
        sym (append_assoc took cs rest) ∙ ap (λ l. l ++ rest) same ∙ append_assoc done cs' rest

    eq-Perm' : (a d r : List ℕ) → Perm (d ++ (a ++ r)) ((a ++ d) ++ r)
    eq-Perm' a d r =
        Perm.trans (eq-Perm (sym (append_assoc d a r))) (Perm.append_right r (append_comm-Perm d a))

Step-Settles :
    {s t : System} (st : Step s t) (ran : List ℕ)
    → Settles s.started ran (all_carried s.workers)
    → Settles t.started (ran ++ ran_by st) (all_carried t.workers)
unfolding add_task stop_pool
Step-Settles {s} (adds t) ran v = rw (append-nil ran) v
Step-Settles stops ran v = rw (append-nil ran) v
Step-Settles {s} (works before after w w' p took at_w h) ran v =
    rw (all_carried-append before (w' ∷ after)) (
      works-Settles s.started ran took (ran_of w) (carried w) (carried w') (all_carried before)
        (all_carried after) (worker-carried w w' s.pool p took h)
        (subst (λ ws. Settles s.started ran ws)
          (ap all_carried at_w ∙ all_carried-append before (w ∷ after)) v))
Step-Settles {s} (manages m p new h) ran v =
    rw
      (
        append-nil ran,
        all_carried-append s.workers new,
        manager-carried s.manager_at m s.pool p new h,
        append-nil (all_carried s.workers),
      )
      v

Reach-Settles :
    {start s : System} (r : Reach start s)
    → start.started ≡ []
    → all_carried start.workers ≡ []
    → Settles s.started (ran_in r) (all_carried s.workers)
Reach-Settles begins z e = rw (z, e) Perm.nil
Reach-Settles (later r st) z e = Step-Settles st (ran_in r) (Reach-Settles r z e)

returned-carried : (ws : List Worker) → workers_returned ws ≡ true → all_carried ws ≡ []
unfolding workers_returned has_returned
returned-carried [] e = refl
returned-carried (retired ∷ ws) e = returned-carried ws e
returned-carried (ended ∷ ws) e = returned-carried ws e
returned-carried (looping ∷ ws) e = absurd (ground arith)
returned-carried (_ ∷ ws) e = absurd (ground arith)

new_pool-carried : (min max stray : ℕ) → all_carried (new_pool min max stray).workers ≡ []
unfolding new_pool
new_pool-carried min max stray = ground (arith, all_carried-loopers min)

-- A future is queued like any other task.
pub submit-Step :
    (t : ℕ) (s : System)
    → Step s (record s { pool = (submit t s.pool).1; added = s.added ++ (submit t s.pool).0 ∷ [] })
unfolding submit
submit-Step t s = adds t

-- When the joins of the destructor of a new pool have returned, the tasks that were added are, in some order,
-- those that workers ran to their end, those that threads still have which the destructor has not seen in
-- `m_workers`, and those that are still in the queue.
pub joins_return-Perm :
    (min max stray seen : ℕ) (s : System) (r : Reach (new_pool min max stray) s)
    → joins_return seen s ≡ true
    → Perm s.added (ran_in r ++ (all_carried (drop seen s.workers) ++ s.pool.tasks))
unfolding joins_return new_pool
joins_return-Perm min max stray seen s r joined =
    Perm.trans (eq-Perm (sym (taken_in_order min max stray s r))) (
      Perm.trans
        (Perm.append_right s.pool.tasks (
          Perm.trans (Reach-Settles r refl (new_pool-carried min max stray))
            (eq-Perm (ap (◌++◌ (ran_in r)) unseen))))
        (eq-Perm (append_assoc (ran_in r) (all_carried (drop seen s.workers)) s.pool.tasks)))
  where
    unseen : all_carried s.workers ≡ all_carried (drop seen s.workers)
    unseen =
        ap all_carried (take-drop seen s.workers)
        ∙ all_carried-append (take seen s.workers) (drop seen s.workers)
        ∙ ap (λ (ts : List ℕ). ts ++ all_carried (drop seen s.workers))
            (returned-carried (take seen s.workers) (ground arith))

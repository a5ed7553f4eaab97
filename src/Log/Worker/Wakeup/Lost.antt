-- ===== src/Log/Worker/Wakeup/Lost.antt =====
-- What `Stop` of AsyncWorker.hpp comes to when it comes between the test and the block of the consumer.
use mathlib.Core.Path.{subst}
use async_log_cloud_storage.Base.{
  ◌≡◌, refl, true, List, [], append-nil, Text, some, ok, arith, ◌⊎◌, inl, inr,
}
use async_log_cloud_storage.Log.Config.{LogConfig}
use async_log_cloud_storage.Log.Worker.{
  AsyncType, async_safe, waiting, Consumer, Worker, new_worker, push, thread_entry, stop_worker,
  start,
}
use async_log_cloud_storage.Log.Worker
use async_log_cloud_storage.Log.Worker.Finish.{safe_push-running, Reach-typed}
use async_log_cloud_storage.Log.Worker.Wakeup.{
  Sleeper, awake, tested, asleep, uncalled, joining, System, notified, consumer_thread, Step,
  producer_stores, producer_drops, producer_notifies, consumer_runs, stop_flags, stop_notifies,
  Reach, begins, later, unstarted,
}

consumer_thread-inv :
    (a b : Sleeper) (w v : Worker) (texts : List Text)
    → consumer_thread a w ≡ some (b, v, texts)
    → (thread_entry w ≡ some (v, texts)) ⊎ ((v ≡ w) × (texts ≡ []))
unfolding consumer_thread
consumer_thread-inv awake b w v texts h = ground arith
consumer_thread-inv tested b w v texts h = inr (ground arith)
consumer_thread-inv asleep b w v texts h = absurd (cc)

pub Step-base :
    {c : LogConfig} {w : Worker} {s t : System}
    → Step c s t
    → Worker.Reach c w s.base
    → Worker.Reach c w t.base
Step-base (producer_stores bytes v free stored) r =
    Worker.Reach.later r (Worker.Step.producer_stores bytes v stored)
Step-base (producer_drops bytes free e) r = r
Step-base (producer_notifies n e) r = r
Step-base {c} {w} {s} (consumer_runs a v texts ran) r =
    elim (consumer_thread-inv s.sleeper a s.base.worker v texts ran) [
      | inl step ↦ Worker.Reach.later r (Worker.Step.consumer_runs v texts step)
      | inr (same, nothing) ↦ rw (same, nothing, append-nil s.base.delivered) r
    ]
Step-base (stop_flags e) r = Worker.Reach.later r Worker.Step.stops
Step-base (stop_notifies e) r = r

pub Reach-base :
    {c : LogConfig} {w : Worker} {s : System} → Reach c (unstarted w) s → Worker.Reach c w s.base
Reach-base begins = Worker.Reach.begins
Reach-base (later r st) = Step-base st (Reach-base r)

-- The consumer is blocked, `Stop` waits for it, and nobody is about to notify.
pub record IsHung (s u : System) : Type 0 where
  typed : u.base.worker.async_type ≡ async_safe
  stopped : u.base.worker.stop ≡ true
  silent : u.owed ≡ 0
  pub blocked : u.sleeper ≡ asleep
  pub joins : u.stopper ≡ joining
  pub kept : u.base.delivered ≡ s.base.delivered
  pub none_stored : u.base.accepted ≡ s.base.accepted

Step-IsHung : {c : LogConfig} {s u v : System} → Step c u v → IsHung s u → IsHung s v
unfolding consumer_thread
Step-IsHung {c} {s} {u} (producer_stores bytes w free stored) h =
    absurd (ground (arith, safe_push-running c bytes u.base.worker w h.typed stored, h.stopped))
Step-IsHung (producer_drops bytes free e) h = h
Step-IsHung (producer_notifies n e) h = absurd (omega (arith, h.silent))
Step-IsHung {c} {s} {u} (consumer_runs a w texts ran) h = absurd (ground (arith, h.blocked))
Step-IsHung (stop_flags e) h = absurd (ground (arith, h.joins))
Step-IsHung (stop_notifies e) h = absurd (ground (arith, h.joins))

Reach-IsHung : {c : LogConfig} {s t u : System} → IsHung s t → Reach c t u → IsHung s u
Reach-IsHung h begins = h
Reach-IsHung h (later r st) = Step-IsHung st (Reach-IsHung h r)

-- `Stop`, called while the consumer is behind the test of its predicate and before its block.
abbrev pub hung : System → System
hung s = record s {
  base = record (s.base) { worker = stop_worker s.base.worker };
  sleeper = asleep;
  stopper = joining;
}

module _ (c : LogConfig) where
  hung-Reach : (s : System) → s.sleeper ≡ tested → s.stopper ≡ uncalled → Reach c s (hung s)
  unfolding consumer_thread notified stop_worker
  hung-Reach s at uncalled_yet =
      subst
        (λ (d : List Text). Reach c s (record (hung s) {
          base = record (s.base) { worker = stop_worker s.base.worker; delivered = d };
        }))
        (append-nil s.base.delivered)
        (later (later (later begins (stop_flags uncalled_yet)) (stop_notifies refl))
          (consumer_runs asleep (stop_worker s.base.worker) [] (rw at refl)))

  -- In a state that a new worker of type ASYNC_SAFE reaches, let the consumer be between the test of its
  -- predicate and its block, let no producer be about to notify, and let `Stop` not have been called.
  -- Then a run of `Stop` leads to a state from which, whatever comes but a wake-up without a
  -- notification, the consumer stays blocked, `Stop`
  -- stays in the join, nothing more is stored and nothing more is delivered.
  pub lost_wakeup :
      (w : Worker) (s : System)
      → new_worker c async_safe ≡ ok w
      → Reach c (unstarted w) s
      → s.sleeper ≡ tested
      → s.stopper ≡ uncalled
      → s.owed ≡ 0
      → (t : System) × Reach c s t × ((u : System) → Reach c t u → IsHung s u)
  unfolding stop_worker
  lost_wakeup w s made r at uncalled_yet silent = (
    hung s,
    hung-Reach s at uncalled_yet,
    λ u later_on.
        Reach-IsHung
          (record {
            typed = Reach-typed c w s.base made (Reach-base r);
            stopped = refl;
            silent = silent;
            blocked = refl;
            joins = refl;
            kept = refl;
            none_stored = refl;
          })
          later_on,
  )

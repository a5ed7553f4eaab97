-- ===== src/Log/Worker/Wakeup/Woken.antt =====
-- What `Stop` of AsyncWorker.hpp comes to when it does not come between the test and the block of the
-- consumer: its notification reaches whoever is blocked.
use async_log_cloud_storage.Base.{
  ℕ, suc, ◌+◌, ◌≤◌, ◌≡◌, ◌≢◌, refl, ◌∙◌, true, false, List, Text, none, some, ok, arith, ◌⊎◌, inl,
  inr, Option-cases,
}
use async_log_cloud_storage.Log.Config.{LogConfig}
use async_log_cloud_storage.Log.Worker.{
  AsyncType, Consumer, Worker, waiting, new_worker, pushed, advance, thread_entry, stop_worker,
}
use async_log_cloud_storage.Log.Worker
use async_log_cloud_storage.Log.Worker.Balance.{Inv}
use async_log_cloud_storage.Log.Worker.Delivery.{Reach-Inv, new_worker-Inv}
use async_log_cloud_storage.Log.Worker.Stall.{push-consumer, advance-stop}
use async_log_cloud_storage.Log.Worker.Ending.{
  turns_left, turns_left-le, advance-turns, advance-some, HasReturned, turns_left-HasReturned,
}
use async_log_cloud_storage.Log.Worker.Wakeup.{
  Sleeper, awake, tested, asleep, uncalled, flagged, joining, System, notified, consumer_thread,
  in_wait, producer_stores, producer_drops, producer_notifies, consumer_runs, stop_flags,
  stop_notifies, Reach, begins, later, unstarted,
}
use async_log_cloud_storage.Log.Worker.Wakeup.Lost.{Step-base, Reach-base}

-- The steps of the consumer thread in a run.
abbrev pub consumer_turns : {c : LogConfig} {s t : System} → Reach c s t → ℕ
consumer_turns begins = 0
consumer_turns (later r (consumer_runs a w texts e)) = suc (consumer_turns r)
consumer_turns (later r _) = consumer_turns r

-- `Stop` has set `stop_`.
abbrev pub flags : System → System
flags s = record s {
  base = record (s.base) { worker = stop_worker s.base.worker };
  stopper = flagged;
}

not_in_wait :
    (pc : Consumer) (w : Worker) → w.stop ≡ true → advance pc w ≡ none → in_wait pc ≡ false
unfolding advance
not_in_wait waiting w stopped h = absurd (ground (arith, stopped))
not_in_wait _ w stopped h = refl

notified-awake : (a : Sleeper) → a ≢ tested → notified a ≡ awake
unfolding notified
notified-awake awake h = refl
notified-awake asleep h = refl
notified-awake tested h = absurd (h refl)

-- A step of the thread of a stopped worker is one of `ThreadEntry`.
consumer_thread-stopped :
    (a b : Sleeper) (w v : Worker) (texts : List Text)
    → w.stop ≡ true
    → a ≢ tested
    → consumer_thread a w ≡ some (b, v, texts)
    → (b ≡ awake) × (thread_entry w ≡ some (v, texts))
unfolding consumer_thread thread_entry
consumer_thread-stopped awake b w v texts stopped h e = elim (Option-cases (advance w.consumer w)) [
  | inl none_open ↦
      absurd (ground (arith, none_open, not_in_wait w.consumer w stopped none_open, e))
  | inr (step, open_step) ↦ ground (arith, open_step, e)
]
consumer_thread-stopped tested b w v texts stopped h e = absurd (h refl)
consumer_thread-stopped asleep b w v texts stopped h e = absurd (cc)

-- What is kept from the stop on, after so many steps of the thread.
record Ends (c : LogConfig) (w : Worker) (s u : System) (turns : ℕ) : Type 0 where
  reached : Worker.Reach c w u.base
  stopped : u.base.worker.stop ≡ true
  untested : u.sleeper ≢ tested
  notifies : u.sleeper ≡ asleep → u.stopper ≡ flagged
  is_called : u.stopper ≢ uncalled
  bounded : turns + turns_left u.base.worker.consumer ≤ turns_left s.base.worker.consumer

module _ (c : LogConfig) (w : Worker) (s : System) where
  notified-Ends :
      (u v : System) (turns : ℕ)
      → Ends c w s u turns
      → v.base ≡ u.base
      → v.sleeper ≡ notified u.sleeper
      → v.stopper ≢ uncalled
      → Ends c w s v turns
  notified-Ends u v turns e base sleeper called =
      let up : v.sleeper ≡ awake = sleeper ∙ notified-awake u.sleeper e.untested in
      record {
        reached = rw base e.reached;
        stopped = rw base e.stopped;
        untested = λ h. absurd (ground (arith, up, h));
        notifies = λ h. absurd (ground (arith, up, h));
        is_called = called;
        bounded = rw base e.bounded;
      }

  Reach-Ends :
      {u : System} (r : Reach c (flags s) u)
      → Ends c w s (flags s) 0
      → Ends c w s u (consumer_turns r)
  unfolding thread_entry
  Reach-Ends begins e = e
  Reach-Ends (later {s = t} r (producer_stores bytes v free stored)) e =
      let i = Reach-Ends r e in
      let (same_place, same_buffer, same_stop, same_type) =
        push-consumer c bytes t.base.worker v stored in
      record {
        reached = Step-base {s = t} (producer_stores bytes v free stored) i.reached;
        stopped = same_stop ∙ i.stopped;
        untested = i.untested;
        notifies = i.notifies;
        is_called = i.is_called;
        bounded = rw same_place i.bounded;
      }
  Reach-Ends (later r (producer_drops bytes free dropped)) e = Reach-Ends r e
  Reach-Ends (later {s = t} r (producer_notifies n owed)) e =
      let i = Reach-Ends r e in
      notified-Ends t (record t { sleeper = notified t.sleeper; owed = n }) (consumer_turns r) i
        refl refl i.is_called
  Reach-Ends (later {s = t} r (consumer_runs a v texts ran)) e =
      let i = Reach-Ends r e in
      let (up, step) =
        consumer_thread-stopped t.sleeper a t.base.worker v texts i.stopped i.untested ran in
      record {
        reached = Worker.Reach.later i.reached (Worker.Step.consumer_runs v texts step);
        stopped = (advance-stop t.base.worker.consumer t.base.worker v texts step).0 ∙ i.stopped;
        untested = λ h. absurd (ground (arith, up, h));
        notifies = λ h. absurd (ground (arith, up, h));
        is_called = i.is_called;
        bounded = omega (
          arith,
          i.bounded,
          advance-turns t.base.worker.consumer t.base.worker v texts i.stopped step,
        );
      }
  Reach-Ends (later r (stop_flags uncalled_yet)) e =
      absurd ((Reach-Ends r e).is_called uncalled_yet)
  Reach-Ends (later {s = t} r (stop_notifies at)) e =
      notified-Ends t (record t { sleeper = notified t.sleeper; stopper = joining })
        (consumer_turns r) (Reach-Ends r e) refl refl (λ h. absurd (cc))

  abbrev pub Goes : System → Type 0
  Goes u =
      HasReturned u.base.worker.consumer
      ⊎ (((a : Sleeper) × (v : Worker) × (texts : List Text) × (consumer_thread u.sleeper
                u.base.worker
              ≡ some (a, v, texts)))
          ⊎ (u.stopper ≡ flagged))

  awake-Goes : (u : System) → u.sleeper ≡ awake → Inv u.base → u.base.worker.stop ≡ true → Goes u
  unfolding thread_entry consumer_thread
  awake-Goes u up v stopped = elim (Option-cases (advance u.base.worker.consumer u.base.worker)) [
    | inl e ↦ inl (
        turns_left-HasReturned u.base.worker.consumer
          (advance-some u.base.worker.consumer u.base v stopped e))
    | inr (step, e) ↦ inr (inl (awake, step.0, step.1, rw up (rw (e, consumer_thread) refl)))
  ]

  goes :
      (t : AsyncType) (u : System) (turns : ℕ)
      → new_worker c t ≡ ok w
      → Ends c w s u turns
      → (a : Sleeper) → u.sleeper ≡ a
      → Goes u
  goes t u turns made e awake at =
      awake-Goes u at (Reach-Inv (new_worker-Inv c t w made) e.reached) e.stopped
  goes t u turns made e tested at = absurd (e.untested at)
  goes t u turns made e asleep at = inr (inr (e.notifies at))

  -- Let a new worker reach a state in which the consumer is not between the test of its predicate and its
  -- block, and let `Stop` set `stop_` there. From then on, whatever producers do, the consumer thread
  -- takes five steps at most; and until it has returned, a step is open to it, or `Stop` is about to
  -- notify.
  pub stop_bounded :
      (t : AsyncType) (u : System)
      → new_worker c t ≡ ok w
      → Reach c (unstarted w) s
      → s.sleeper ≢ tested
      → s.stopper ≡ uncalled
      → (r : Reach c (flags s) u) → (consumer_turns r ≤ 5) × Goes u
  unfolding stop_worker
  stop_bounded t u made before free uncalled_yet r =
      let start : Ends c w s (flags s) 0 = record {
        reached = Step-base {s = s} (stop_flags uncalled_yet) (Reach-base before);
        stopped = refl;
        untested = free;
        notifies = λ _. refl;
        is_called = λ h. absurd (cc);
        bounded = omega arith;
      } in
      let end = Reach-Ends r start in
      (
        omega (arith, end.bounded, turns_left-le s.base.worker.consumer),
        goes t u (consumer_turns r) made end u.sleeper refl,
      )

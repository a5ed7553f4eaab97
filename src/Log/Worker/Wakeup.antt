-- ===== src/Log/Worker/Wakeup.antt =====
-- The wait of the consumer in AsyncWorker.hpp in its parts. `cond_consumer_.wait` tests its predicate
-- under the mutex and then blocks, which gives the mutex free; a notification wakes only who is blocked.
-- `Stop` sets `stop_` and notifies without the mutex. A wake-up without a notification is left out.
pub mod Lost
pub mod Woken
use async_log_cloud_storage.Base.{
  ℕ, suc, ◌≡◌, ◌≢◌, Bool, true, false, List, [], ◌∷◌, ◌++◌, if◌then◌else◌, Text, Option, none, some,
}
use async_log_cloud_storage.Log.Config.{LogConfig}
use async_log_cloud_storage.Log.Worker.{
  Consumer, waiting, Worker, pushed, dropped, push, thread_entry, stop_worker, start,
}
use async_log_cloud_storage.Log.Worker

-- Where the consumer stands in the wait, if it does.
pub data Sleeper : Type 0 where
  -- not in it, or before the test of the predicate
  awake : Sleeper
  -- behind a test that failed, with the mutex
  tested : Sleeper
  -- blocked
  asleep : Sleeper

-- Where the caller of `Stop` stands.
pub data Stopper : Type 0 where
  uncalled : Stopper
  -- before `notify_all`
  flagged : Stopper
  -- in `thread_.join()`
  joining : Stopper

-- The worker, and how many producers stand between the unlock and `notify_one`.
pub record System : Type 0 where
  pub base : Worker.System
  pub sleeper : Sleeper
  pub stopper : Stopper
  pub owed : ℕ

-- A notification of `cond_consumer_`.
unfoldable pub notified : Sleeper → Sleeper
notified asleep = awake
notified s = s

abbrev in_wait : Consumer → Bool
in_wait waiting = true
in_wait _ = false

-- A step of the consumer's thread; `none` while it is blocked and after its end.
unfoldable pub consumer_thread : Sleeper → Worker → Option (Sleeper × Worker × List Text)
consumer_thread awake w = elim (thread_entry w) [
  | some (v, texts) ↦ some (awake, v, texts)
  | none ↦ if in_wait w.consumer then some (tested, w, []) else none
]
consumer_thread tested w = some (asleep, w, [])
consumer_thread asleep w = none

module _ (c : LogConfig) where
  pub data Step (s : System) : System → Type 0 where
    producer_stores :
        (bytes : Text) (w : Worker)
        → s.sleeper ≢ tested
        → push c bytes s.base.worker ≡ pushed w
        → Step s (record s {
          base = record (s.base) { worker = w; accepted = s.base.accepted ++ bytes ∷ [] };
          owed = suc s.owed;
        })
    producer_drops :
        (bytes : Text) → s.sleeper ≢ tested → push c bytes s.base.worker ≡ dropped → Step s s
    producer_notifies :
        (n : ℕ) → s.owed ≡ suc n → Step s (record s { sleeper = notified s.sleeper; owed = n })
    consumer_runs :
        (a : Sleeper) (w : Worker) (texts : List Text)
        → consumer_thread s.sleeper s.base.worker ≡ some (a, w, texts)
        → Step s (record s {
          base = record (s.base) { worker = w; delivered = s.base.delivered ++ texts };
          sleeper = a;
        })
    stop_flags :
        s.stopper ≡ uncalled
        → Step s (record s {
          base = record (s.base) { worker = stop_worker s.base.worker };
          stopper = flagged;
        })
    stop_notifies :
        s.stopper ≡ flagged → Step s (record s { sleeper = notified s.sleeper; stopper = joining })

  pub data Reach (first : System) : System → Type 0 where
    begins : Reach first first
    later : {s t : System} → Reach first s → Step s t → Reach first t

abbrev pub unstarted : Worker → System
unstarted w = record { base = start w; sleeper = awake; stopper = uncalled; owed = 0 }

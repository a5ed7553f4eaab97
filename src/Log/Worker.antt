-- ===== src/Log/Worker.antt =====
-- `mylog::AsyncWorker` of log_system/log_src/AsyncWorker.hpp: producers, one consumer thread and the
-- thread that stops it. What stands under the mutex is one step; the consumer's buffer is its own
-- outside of the mutex. A wait on a condition variable is a step that is open while its predicate
-- holds, so every wake-up that the code can give is there, and some that it does not give; with them
-- no step says that a wait ends. Log.Worker.Wakeup has the wait with its notifications.
pub mod Balance
pub mod Delivery
pub mod Stall
pub mod Finish
pub mod Full
pub mod Ending
pub mod Wakeup
mod Examples
use async_log_cloud_storage.Base.{
  ℕ, ◌≡◌, Bool, true, false, not, ◌&&◌, ◌||◌, List, [], ◌∷◌, ◌++◌, leb, if◌then◌else◌, length, Text,
  Outcome, ok, fail, Failure, ◌>>=◌, Option, none, some,
}
use async_log_cloud_storage.Log.Config.{LogConfig}
use async_log_cloud_storage.Log.Buffer.{
  Buffer, new_buffer, is_empty, writeable_size, begin_readable, swap, reset,
}
use async_log_cloud_storage.Log.Buffer

pub data AsyncType : Type 0 where
  async_safe async_unsafe : AsyncType

-- Where the consumer thread stands in `ThreadEntry`.
pub data Consumer : Type 0 where
  -- at the test of `while (!stop_)`
  looping : Consumer
  -- in the wait on `cond_consumer_`
  waiting : Consumer
  -- before `callback_(buffer_consumer_)`
  swapped : Consumer
  -- before `buffer_consumer_.Reset()`
  called : Consumer
  -- before the test for the end
  emptied : Consumer
  -- returned from the test for the end
  drained : Consumer
  -- left the loop by its test
  left : Consumer

pub record Worker : Type 0 where
  pub buffer_productor : Buffer
  pub buffer_consumer : Buffer
  pub async_type : AsyncType
  pub stop : Bool
  pub consumer : Consumer

-- The constructor, up to the start of the thread.
unfoldable pub new_worker : LogConfig → AsyncType → Outcome Worker
new_worker c t = do
  productor ← new_buffer c
  consumer ← new_buffer c
  ok (record {
    buffer_productor = productor;
    buffer_consumer = consumer;
    async_type = t;
    stop = false;
    consumer = looping;
  })

-- `Stop()`, without the join.
unfoldable pub stop_worker : Worker → Worker
stop_worker w = record w { stop = true }

-- What one try of `AsyncWorker::Push` under the mutex does.
pub data Attempt : Type 0 where
  -- the wait on `cond_productor_` goes on
  waits : Attempt
  -- `if (stop_) return;`
  dropped : Attempt
  -- the bytes are in the producer's buffer
  pushed : Worker → Attempt
  failed : Failure → Attempt

unfoldable pub store : LogConfig → Text → Worker → Attempt
store c bytes w = elim (Buffer.push c bytes w.buffer_productor) [
  | ok b ↦ pushed (record w { buffer_productor = b })
  | fail e ↦ failed e
]

unfoldable pub push : LogConfig → Text → Worker → Attempt
push c bytes w = elim w.async_type [
  | async_safe ↦
      if leb (length bytes) (writeable_size w.buffer_productor) || w.stop
      then if w.stop then dropped else store c bytes w
      else waits
  | async_unsafe ↦ store c bytes w
]

-- One step of `ThreadEntry`, and the bytes that the callback is given; `none` while it waits and
-- after its end.
unfoldable pub advance : Consumer → Worker → Option (Worker × List Text)
advance looping w = some (record w { consumer = if w.stop then left else waiting }, [])
advance waiting w =
    if not (is_empty w.buffer_consumer) || w.stop
    then (let (p, c) = swap w.buffer_productor w.buffer_consumer in
        some (record w { buffer_productor = p; buffer_consumer = c; consumer = swapped }, []))
    else none
advance swapped w = elim (begin_readable w.buffer_consumer) [
  | ok bytes ↦ some (record w { consumer = called }, bytes ∷ [])
  | fail e ↦ none
]
advance called w =
    some (record w { buffer_consumer = reset w.buffer_consumer; consumer = emptied }, [])
advance emptied w =
    some (
      record w { consumer = if w.stop && is_empty w.buffer_productor then drained else looping },
      [],
    )
advance drained w = none
advance left w = none

unfoldable pub thread_entry : Worker → Option (Worker × List Text)
unfolding advance
thread_entry w = advance w.consumer w

-- The worker with what it was given and what it gave: the messages whose `Push` stored them, and the
-- arguments of the callback, in order.
pub record System : Type 0 where
  pub worker : Worker
  pub accepted : List Text
  pub delivered : List Text

pub data Step (c : LogConfig) (s : System) : System → Type 0 where
  producer_stores :
      (bytes : Text) (w : Worker)
      → push c bytes s.worker ≡ pushed w
      → Step c s
          (record { worker = w; accepted = s.accepted ++ bytes ∷ []; delivered = s.delivered })
  producer_drops : (bytes : Text) → push c bytes s.worker ≡ dropped → Step c s s
  consumer_runs :
      (w : Worker) (calls : List Text)
      → thread_entry s.worker ≡ some (w, calls)
      → Step c s (record { worker = w; accepted = s.accepted; delivered = s.delivered ++ calls })
  stops :
      Step c s
        (record { worker = stop_worker s.worker; accepted = s.accepted; delivered = s.delivered })

abbrev pub start : Worker → System
start w = record { worker = w; accepted = []; delivered = [] }

pub data Reach (c : LogConfig) (w : Worker) : System → Type 0 where
  begins : Reach c w (start w)
  later : {s t : System} → Reach c w s → Step c s t → Reach c w t

-- ===== src/Log/Worker/Examples.antt =====
-- The worker of AsyncWorker.hpp on a buffer of four bytes.
use async_log_cloud_storage.Base.{
  ◌≤◌, ◌≡◌, refl, true, false, [], ◌∷◌, ◌++◌, flatten, codes, ok, arith, resize, overwrite,
}
use async_log_cloud_storage.Log.Config.{LogConfig}
use async_log_cloud_storage.Log.Buffer.{Buffer, new_buffer}
use async_log_cloud_storage.Log.Buffer
use async_log_cloud_storage.Log.Buffer.Contents.{contents}
use async_log_cloud_storage.Log.Worker.{
  async_safe, looping, waiting, swapped, called, emptied, drained, left, Worker, new_worker, push,
  thread_entry, stop_worker, System, producer_stores, consumer_runs, stops, Reach, begins, later,
  store, waits,
}
use async_log_cloud_storage.Log.Worker.Balance.{pending}
use async_log_cloud_storage.Log.Worker.Delivery.{delivered_in_order}
use async_log_cloud_storage.Log.Worker.Stall.{delivered-eq-nil}
use async_log_cloud_storage.Log.Worker.Wakeup
use async_log_cloud_storage.Log.Worker.Wakeup.{
  awake, tested, asleep, uncalled, joining, notified, consumer_thread, unstarted,
}
use async_log_cloud_storage.Log.Worker.Wakeup.Lost.{IsHung, lost_wakeup}
use async_log_cloud_storage.Log.Worker.Wakeup.Woken.{consumer_turns, flags, Goes, stop_bounded}
use async_log_cloud_storage.Log.Worker.Full.{Onward, push-waits}
use async_log_cloud_storage.Log.Worker.Finish.{drained_complete, left_undelivered}

abbrev small : LogConfig
small = record {
  buffer_size = 4;
  threshold = 16;
  linear_growth = 4;
  flush_log = 1;
  backup_addr = codes "127.0.0.1";
  backup_port = 8081;
  thread_count = 3;
}

abbrev empty4 : Buffer
empty4 = record { buffer = 0 ∷ 0 ∷ 0 ∷ 0 ∷ []; write_pos = 0; read_pos = 0 }

abbrev fresh : Worker
fresh = record {
  buffer_productor = empty4;
  buffer_consumer = empty4;
  async_type = async_safe;
  stop = false;
  consumer = looping;
}

fresh_made : new_worker small async_safe ≡ ok fresh
unfolding new_worker new_buffer Buffer.resize_to resize
fresh_made = refl

abbrev filled : Buffer
filled = record { buffer = 9 ∷ 9 ∷ 0 ∷ 0 ∷ []; write_pos = 2; read_pos = 0 }

-- A message is stored while the consumer waits.
abbrev stored : System
stored = record {
  worker = record fresh { buffer_productor = filled; consumer = waiting };
  accepted = (9 ∷ 9 ∷ []) ∷ [];
  delivered = [];
}

stored_reached : Reach small fresh stored
unfolding push thread_entry Buffer.writeable_size store Buffer.push overwrite
stored_reached =
    later
      (later begins
        (producer_stores (9 ∷ 9 ∷ []) (record fresh { buffer_productor = filled }) refl))
      (consumer_runs stored.worker [] refl)

-- `Stop` wakes it: it swaps, calls back, resets and returns.
abbrev finished : System
finished = record {
  worker = record fresh {
    buffer_consumer = record filled { write_pos = 0 };
    stop = true;
    consumer = drained;
  };
  accepted = (9 ∷ 9 ∷ []) ∷ [];
  delivered = (9 ∷ 9 ∷ []) ∷ [];
}

finished_reached : Reach small fresh finished
unfolding thread_entry stop_worker Buffer.is_empty Buffer.swap Buffer.begin_readable Buffer.reset
finished_reached =
    later
      (later
        (later
          (later (later stored_reached stops) (
            consumer_runs
              (record fresh { buffer_consumer = filled; stop = true; consumer = swapped }) [] refl))
          (consumer_runs (record fresh { buffer_consumer = filled; stop = true; consumer = called })
            ((9 ∷ 9 ∷ []) ∷ []) refl))
        (consumer_runs
          (record fresh {
            buffer_consumer = record filled { write_pos = 0 };
            stop = true;
            consumer = emptied;
          })
          [] refl))
      (consumer_runs finished.worker [] refl)

delivered_in_order_example :
    flatten stored.delivered ++ (pending waiting empty4 ++ contents filled) ≡ 9 ∷ 9 ∷ []
delivered_in_order_example =
    delivered_in_order small async_safe fresh stored fresh_made stored_reached

delivered-eq-nil_example : stored.delivered ≡ []
delivered-eq-nil_example =
    delivered-eq-nil small async_safe fresh stored fresh_made stored_reached refl

drained_complete_example : flatten finished.delivered ≡ flatten finished.accepted
drained_complete_example = drained_complete small fresh finished fresh_made finished_reached refl

left_undelivered_example :
    (s : System) × Reach small fresh s
    × (s.worker.consumer ≡ left)
    × (s.accepted ≡ (9 ∷ []) ∷ [])
    × (s.delivered ≡ [])
unfolding Buffer.writeable_size
left_undelivered_example =
    left_undelivered small async_safe fresh (9 ∷ []) fresh_made (omega arith) (omega arith)

-- A byte more is stored; three bytes that found no room still find none.
abbrev fuller : System
fuller = record {
  worker = record stored.worker {
    buffer_productor = record { buffer = 9 ∷ 9 ∷ 5 ∷ 0 ∷ []; write_pos = 3; read_pos = 0 };
  };
  accepted = (9 ∷ 9 ∷ []) ∷ (5 ∷ []) ∷ [];
  delivered = [];
}

fuller-Onward : Onward small stored fuller
unfolding push Buffer.writeable_size store Buffer.push overwrite
fuller-Onward =
    Onward.onward Onward.here (producer_stores (5 ∷ []) fuller.worker refl)
      (λ e. absurd (omega arith)) refl

push-waits_example : push small (1 ∷ 2 ∷ 3 ∷ []) fuller.worker ≡ waits
unfolding push Buffer.writeable_size
push-waits_example =
    push-waits small fresh stored fuller (1 ∷ 2 ∷ 3 ∷ []) fresh_made stored_reached refl refl
      fuller-Onward

-- A message is stored, and the consumer has tested its predicate but not blocked yet.
abbrev caught : Wakeup.System
caught = record { base = stored; sleeper = tested; stopper = uncalled; owed = 0 }

caught_reached : Wakeup.Reach small (unstarted fresh) caught
unfolding push thread_entry Buffer.writeable_size Buffer.is_empty store Buffer.push overwrite
    consumer_thread notified
caught_reached =
    Wakeup.Reach.later
      (Wakeup.Reach.later
        (Wakeup.Reach.later
          (Wakeup.Reach.later Wakeup.Reach.begins
            (Wakeup.Step.consumer_runs awake (record fresh { consumer = waiting }) [] refl))
          (Wakeup.Step.producer_stores (9 ∷ 9 ∷ []) stored.worker (λ e. absurd (cc)) refl))
        (Wakeup.Step.producer_notifies 0 refl))
      (Wakeup.Step.consumer_runs tested stored.worker [] refl)

lost_wakeup_example :
    (t : Wakeup.System) × Wakeup.Reach small caught t
    × ((u : Wakeup.System) → Wakeup.Reach small t u → IsHung caught u)
lost_wakeup_example = lost_wakeup small fresh caught fresh_made caught_reached refl refl refl

-- The consumer is blocked when `Stop` sets `stop_`, is notified, and goes on.
abbrev blocked : Wakeup.System
blocked = record caught { sleeper = asleep }

blocked_reached : Wakeup.Reach small (unstarted fresh) blocked
unfolding consumer_thread
blocked_reached =
    Wakeup.Reach.later caught_reached (Wakeup.Step.consumer_runs asleep stored.worker [] refl)

abbrev swapped_worker : Worker
swapped_worker = record fresh { buffer_consumer = filled; stop = true; consumer = swapped }

abbrev handing : Wakeup.System
handing = record blocked {
  base = record stored { worker = swapped_worker };
  sleeper = awake;
  stopper = joining;
}

woken_up : Wakeup.Reach small (flags blocked) handing
unfolding stop_worker notified consumer_thread thread_entry Buffer.is_empty Buffer.swap
woken_up =
    Wakeup.Reach.later (Wakeup.Reach.later Wakeup.Reach.begins (Wakeup.Step.stop_notifies refl))
      (Wakeup.Step.consumer_runs awake swapped_worker [] refl)

stop_bounded_example : (consumer_turns woken_up ≤ 5) × Goes small fresh blocked handing
stop_bounded_example =
    stop_bounded small fresh blocked async_safe handing fresh_made blocked_reached
      (λ e. absurd (cc)) refl woken_up

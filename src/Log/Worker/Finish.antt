-- ===== src/Log/Worker/Finish.antt =====
-- How the consumer thread of AsyncWorker.hpp ends, and what has been delivered then.
use async_log_cloud_storage.Base.{
  ◌≤◌, ◌≡◌, refl, sym, ap, ◌∙◌, true, false, List, [], ◌∷◌, ◌++◌, append-nil, flatten, length, Text,
  ok, arith, some,
}
use async_log_cloud_storage.Log.Config.{LogConfig}
use async_log_cloud_storage.Log.Buffer.{Buffer, is_empty, swap, writeable_size}
use async_log_cloud_storage.Log.Buffer
use async_log_cloud_storage.Log.Buffer.Contents.{contents, is_empty-contents}
use async_log_cloud_storage.Log.Buffer.Growth.{CanGrow, push-of_writeable}
use async_log_cloud_storage.Log.Worker.{
  AsyncType, async_safe, Consumer, looping, waiting, swapped, called, emptied, drained, left,
  Worker, new_worker, pushed, store, push, advance, thread_entry, stop_worker, System, Step,
  producer_stores, producer_drops, consumer_runs, stops, Reach, begins, later, start,
}
use async_log_cloud_storage.Log.Worker.Balance.{pending, Inv}
use async_log_cloud_storage.Log.Worker.Delivery.{Reach-Inv, new_worker-Inv}
use async_log_cloud_storage.Log.Worker.Stall.{push-consumer, advance-stop}

-- After the end test has passed, a worker of type ASYNC_SAFE is stopped and holds nothing.
pub record IsFinished (w : Worker) : Type 0 where
  pub stopped : w.stop ≡ true
  pub holds_nothing : is_empty w.buffer_productor ≡ true

pub safe_push-running :
    (c : LogConfig) (bytes : Text) (w w' : Worker)
    → w.async_type ≡ async_safe
    → push c bytes w ≡ pushed w'
    → w.stop ≡ false
unfolding push
safe_push-running c bytes w w' safe h = ground arith

advance-IsFinished :
    (pc : Consumer) (w w' : Worker) (calls : List Text)
    → advance pc w ≡ some (w', calls)
    → w'.consumer ≡ drained
    → IsFinished w'
unfolding advance
advance-IsFinished looping w w' calls h e = absurd (ground arith)
advance-IsFinished waiting w w' calls h e = absurd (ground arith)
advance-IsFinished swapped w w' calls h e = absurd (ground arith)
advance-IsFinished called w w' calls h e = absurd (ground arith)
advance-IsFinished emptied w w' calls h e = ground arith
advance-IsFinished drained w w' calls h e = absurd (cc)
advance-IsFinished left w w' calls h e = absurd (cc)

record Safe (w : Worker) : Type 0 where
  typed : w.async_type ≡ async_safe
  finished : w.consumer ≡ drained → IsFinished w

Step-Safe : {c : LogConfig} {s t : System} → Step c s t → Safe s.worker → Safe t.worker
unfolding stop_worker thread_entry
Step-Safe {c} {s} (producer_stores bytes w e) v =
    let (same_place, same_buffer, same_stop, same_type) = push-consumer c bytes s.worker w e in
    let running : s.worker.stop ≡ false = safe_push-running c bytes s.worker w v.typed e in
    record {
      typed = same_type ∙ v.typed;
      finished = λ d. absurd (ground (arith, v.finished (sym same_place ∙ d)));
    }
Step-Safe (producer_drops bytes e) v = v
Step-Safe {s} (consumer_runs w calls e) v = record {
  typed = (advance-stop s.worker.consumer s.worker w calls e).1 ∙ v.typed;
  finished = advance-IsFinished s.worker.consumer s.worker w calls e;
}
Step-Safe stops v = record {
  typed = v.typed;
  finished = λ d. record { stopped = refl; holds_nothing = (v.finished d).holds_nothing };
}

Reach-Safe : {c : LogConfig} {w : Worker} {s : System} → Safe w → Reach c w s → Safe s.worker
Reach-Safe v begins = v
Reach-Safe v (later r st) = Step-Safe st (Reach-Safe v r)

new_worker-Safe : (c : LogConfig) (w : Worker) → new_worker c async_safe ≡ ok w → Safe w
unfolding new_worker
new_worker-Safe c w h = record { typed = ground arith; finished = λ d. absurd (ground arith) }

pub Reach-typed :
    (c : LogConfig) (w : Worker) (s : System)
    → new_worker c async_safe ≡ ok w
    → Reach c w s
    → s.worker.async_type ≡ async_safe
Reach-typed c w s made r = (Reach-Safe (new_worker-Safe c w made) r).typed

pub drained-stop :
    (c : LogConfig) (w : Worker) (s : System)
    → new_worker c async_safe ≡ ok w
    → Reach c w s
    → s.worker.consumer ≡ drained
    → s.worker.stop ≡ true
drained-stop c w s made r d = ((Reach-Safe (new_worker-Safe c w made) r).finished d).stopped

pending-drained : (pc : Consumer) (b : Buffer) → pc ≡ drained → pending pc b ≡ []
pending-drained looping b e = refl
pending-drained swapped b e = absurd (cc)
pending-drained _ b e = refl

-- With type ASYNC_SAFE, a thread that has returned from its end test has given the callback all that
-- was ever stored, in order.
pub drained_complete :
    (c : LogConfig) (w : Worker) (s : System)
    → new_worker c async_safe ≡ ok w
    → Reach c w s
    → s.worker.consumer ≡ drained
    → flatten s.delivered ≡ flatten s.accepted
drained_complete c w s made r d =
    let v : Inv s = Reach-Inv (new_worker-Inv c async_safe w made) r in
    let end : IsFinished s.worker = (Reach-Safe (new_worker-Safe c w made) r).finished d in
    let nothing : contents s.worker.buffer_productor ≡ [] =
      is_empty-contents s.worker.buffer_productor v.productor_valid end.holds_nothing in
    sym (append-nil (flatten s.delivered))
    ∙ ap (◌++◌ (flatten s.delivered)) (
        sym (
          ap (λ (t : Text). t ++ contents s.worker.buffer_productor)
            (pending-drained s.worker.consumer s.worker.buffer_consumer d)
          ∙ nothing))
    ∙ v.balance

-- A message that fits the free space of a running worker is stored.
push-of_room :
    (c : LogConfig) (bytes : Text) (w : Worker) (b : Buffer)
    → w.stop ≡ false
    → length bytes ≤ writeable_size w.buffer_productor
    → Buffer.push c bytes w.buffer_productor ≡ ok b
    → push c bytes w ≡ pushed (record w { buffer_productor = b })
unfolding push store
push-of_room c bytes w b running room ran = ground arith

new_worker-start :
    (c : LogConfig) (t : AsyncType) (w : Worker)
    → new_worker c t ≡ ok w
    → (w.stop ≡ false) × (w.consumer ≡ looping)
unfolding new_worker
new_worker-start c t w h = ground arith

leaves :
    (w : Worker)
    → w.consumer ≡ looping
    → w.stop ≡ true
    → thread_entry w ≡ some (record w { consumer = left }, [])
unfolding thread_entry
leaves w e h = rw (e, advance) (rw h refl)

-- From a fresh worker whose buffer can grow, a run stores a message that fits, calls `Stop` before the
-- thread's first test, and the thread ends with nothing delivered.
pub left_undelivered :
    (c : LogConfig) (t : AsyncType) (w : Worker) (bytes : Text)
    → new_worker c t ≡ ok w
    → CanGrow c (length w.buffer_productor.buffer)
    → length bytes ≤ writeable_size w.buffer_productor
    → (s : System) × Reach c w s
      × (s.worker.consumer ≡ left)
      × (s.accepted ≡ bytes ∷ [])
      × (s.delivered ≡ [])
unfolding stop_worker
left_undelivered c t w bytes made g room =
    let v : Inv (start w) = new_worker-Inv c t w made in
    let (running, head) = new_worker-start c t w made in
    let (b, ran, valid, appended, size) =
      push-of_writeable c bytes w.buffer_productor v.productor_valid g room in
    let stored : Worker = record w { buffer_productor = b } in
    let stopped : Worker = record stored { stop = true } in
    (
      record { worker = record stopped { consumer = left }; accepted = bytes ∷ []; delivered = [] },
      later
          (later
            (later begins
              (producer_stores bytes stored (push-of_room c bytes w b running room ran)))
            stops)
          (consumer_runs (record stopped { consumer = left }) [] (leaves stopped head refl)),
      refl,
      refl,
      refl,
    )

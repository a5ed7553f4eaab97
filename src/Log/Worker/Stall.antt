-- ===== src/Log/Worker/Stall.antt =====
-- The consumer of AsyncWorker.hpp waits on its own buffer, which only the swap after that wait fills:
-- it is not woken by a stored message, only by `Stop`.
use async_log_cloud_storage.Base.{
  ◌≡◌, refl, sym, ◌∙◌, true, false, List, [], Text, ok, arith, some, ◌⊎◌, inr,
}
use async_log_cloud_storage.Log.Config.{LogConfig}
use async_log_cloud_storage.Log.Buffer.{Buffer, is_empty, new_buffer, resize_to}
use async_log_cloud_storage.Log.Worker.{
  AsyncType, Consumer, looping, waiting, swapped, called, emptied, drained, left, Worker,
  new_worker, pushed, store, push, advance, thread_entry, stop_worker, System, Step,
  producer_stores, producer_drops, consumer_runs, stops, Reach, begins, later, start,
}

-- The consumer is at the head of its loop or in its wait, over an empty buffer, and has called nobody.
pub record IsStalled (s : System) : Type 0 where
  pub place : (s.worker.consumer ≡ looping) ⊎ (s.worker.consumer ≡ waiting)
  pub empty : is_empty s.worker.buffer_consumer ≡ true
  pub silent : s.delivered ≡ []

pub push-consumer :
    (c : LogConfig) (bytes : Text) (w w' : Worker)
    → push c bytes w ≡ pushed w'
    → (w'.consumer ≡ w.consumer)
      × (w'.buffer_consumer ≡ w.buffer_consumer)
      × (w'.stop ≡ w.stop)
      × (w'.async_type ≡ w.async_type)
unfolding push store
push-consumer c bytes w w' h = ground arith

advance-IsStalled :
    (pc : Consumer) (w w' : Worker) (calls : List Text)
    → advance pc w ≡ some (w', calls)
    → w'.stop ≡ false
    → (pc ≡ looping) ⊎ (pc ≡ waiting)
    → is_empty w.buffer_consumer ≡ true
    → (w'.consumer ≡ waiting) × (is_empty w'.buffer_consumer ≡ true) × (calls ≡ [])
unfolding advance
advance-IsStalled looping w w' calls h go place e = ground arith
advance-IsStalled waiting w w' calls h go place e = ground arith
advance-IsStalled swapped w w' calls h go place e = absurd (ground arith)
advance-IsStalled called w w' calls h go place e = absurd (ground arith)
advance-IsStalled emptied w w' calls h go place e = absurd (ground arith)
advance-IsStalled drained w w' calls h go place e = absurd (ground arith)
advance-IsStalled left w w' calls h go place e = absurd (ground arith)

pub advance-stop :
    (pc : Consumer) (w w' : Worker) (calls : List Text)
    → advance pc w ≡ some (w', calls)
    → (w'.stop ≡ w.stop) × (w'.async_type ≡ w.async_type)
unfolding advance
advance-stop looping w w' calls h = ground arith
advance-stop waiting w w' calls h = ground arith
advance-stop swapped w w' calls h = ground arith
advance-stop called w w' calls h = ground arith
advance-stop emptied w w' calls h = ground arith
advance-stop drained w w' calls h = absurd (cc)
advance-stop left w w' calls h = absurd (cc)

pub Step-IsStalled :
    {c : LogConfig} {s t : System}
    → Step c s t
    → (s.worker.stop ≡ false → IsStalled s)
    → t.worker.stop ≡ false
    → IsStalled t
unfolding stop_worker thread_entry
Step-IsStalled {c} {s} (producer_stores bytes w e) v go =
    let (same_place, same_buffer, same_stop, _) = push-consumer c bytes s.worker w e in
    let rest : IsStalled s = v (sym same_stop ∙ go) in
    record {
      place = rw same_place rest.place;
      empty = rw same_buffer rest.empty;
      silent = rest.silent;
    }
Step-IsStalled (producer_drops bytes e) v go = v go
Step-IsStalled {s} (consumer_runs w calls e) v go =
    let rest : IsStalled s = v (sym (advance-stop s.worker.consumer s.worker w calls e).0 ∙ go) in
    let (place, empty, none_called) =
      advance-IsStalled s.worker.consumer s.worker w calls e go rest.place rest.empty in
    record { place = inr place; empty = empty; silent = rw (rest.silent, none_called) refl }
Step-IsStalled stops v go = absurd (cc)

new_buffer-is_empty : (c : LogConfig) (b : Buffer) → new_buffer c ≡ ok b → is_empty b ≡ true
unfolding new_buffer resize_to is_empty
new_buffer-is_empty c b h = ground arith

pub new_worker-IsStalled :
    (c : LogConfig) (t : AsyncType) (w : Worker) → new_worker c t ≡ ok w → IsStalled (start w)
unfolding new_worker
new_worker-IsStalled c t w h = record {
  place = ground arith;
  empty = ground (arith, new_buffer-is_empty c w.buffer_consumer);
  silent = refl;
}

pub Reach-IsStalled :
    {c : LogConfig} {w : Worker} {s : System}
    → IsStalled (start w)
    → Reach c w s
    → s.worker.stop ≡ false
    → IsStalled s
Reach-IsStalled v begins h = v
Reach-IsStalled v (later r st) h = Step-IsStalled st (Reach-IsStalled v r) h

-- In every state that a new worker reaches without a call of `Stop`, whatever was stored, the
-- callback has been given nothing.
pub delivered-eq-nil :
    (c : LogConfig) (t : AsyncType) (w : Worker) (s : System)
    → new_worker c t ≡ ok w
    → Reach c w s
    → s.worker.stop ≡ false
    → s.delivered ≡ []
delivered-eq-nil c t w s made r go = (Reach-IsStalled (new_worker-IsStalled c t w made) r go).silent

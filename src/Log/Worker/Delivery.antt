-- ===== src/Log/Worker/Delivery.antt =====
-- The bytes that AsyncWorker.hpp has handed to the callback, in every state that a worker reaches.
use async_log_cloud_storage.Base.{
  ℕ, ◌≡◌, refl, [], ◌++◌, ok, arith, flatten, resize, length-resize, ◌≤◌,
}
use async_log_cloud_storage.Log.Config.{LogConfig}
use async_log_cloud_storage.Log.Buffer.{Buffer, new_buffer, resize_to, max_size}
use async_log_cloud_storage.Log.Buffer.Contents.{IsValid, contents}
use async_log_cloud_storage.Log.Worker.{
  AsyncType, Worker, new_worker, thread_entry, stop_worker, System, Step, producer_stores,
  producer_drops, consumer_runs, stops, Reach, begins, later, start,
}
use async_log_cloud_storage.Log.Worker.Balance.{
  pending, Inv, push-pushed, store-Balance, advance-Balance,
}

pub Step-Inv : {c : LogConfig} {s t : System} → Step c s t → Inv s → Inv t
unfolding stop_worker thread_entry
Step-Inv {c} {s} (producer_stores bytes w e) v =
    let (b, same, valid, appended) = push-pushed c bytes s.worker w v.productor_valid e in
    rw same (store-Balance _ _ b _ _ _ bytes v valid appended)
Step-Inv (producer_drops bytes e) v = v
Step-Inv {s} (consumer_runs w calls e) v = advance-Balance _ s.worker w calls _ _ v e
Step-Inv stops v = v

pub Reach-Inv : {c : LogConfig} {w : Worker} {s : System} → Inv (start w) → Reach c w s → Inv s
Reach-Inv v begins = v
Reach-Inv v (later r st) = Step-Inv st (Reach-Inv v r)

new_buffer-empty :
    (c : LogConfig) (b : Buffer) → new_buffer c ≡ ok b → IsValid b × (contents b ≡ [])
unfolding new_buffer resize_to contents
new_buffer-empty c b h = rw same (valid, refl)
  where
    same : b ≡ record { buffer = resize 0 c.buffer_size []; write_pos = 0; read_pos = 0 }
    same = ground arith

    small : c.buffer_size ≤ max_size
    small = ground arith

    valid : IsValid (record { buffer = resize 0 c.buffer_size []; write_pos = 0; read_pos = 0 })
    valid = omega (arith, small, length-resize {0} {A = ℕ} 0 c.buffer_size [])

pub new_worker-Inv :
    (c : LogConfig) (t : AsyncType) (w : Worker) → new_worker c t ≡ ok w → Inv (start w)
unfolding new_worker
new_worker-Inv c t w h =
    ground (arith, new_buffer-empty c w.buffer_productor, new_buffer-empty c w.buffer_consumer)

-- From the start of a worker on, the bytes given to the callback, followed by those on their way and
-- those in the producer's buffer, are the bytes of the stored messages, in order.
pub delivered_in_order :
    (c : LogConfig) (t : AsyncType) (w : Worker) (s : System)
    → new_worker c t ≡ ok w
    → Reach c w s
    → flatten s.delivered
        ++ (pending s.worker.consumer s.worker.buffer_consumer
            ++ contents s.worker.buffer_productor)
      ≡ flatten s.accepted
delivered_in_order c t w s made r = (Reach-Inv (new_worker-Inv c t w made) r).balance

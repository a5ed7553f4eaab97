-- ===== src/Log/Worker/Full.antt =====
-- A producer of AsyncWorker.hpp that waits for room: before `Stop` the consumer makes none.
use async_log_cloud_storage.Base.{
  ◌≤◌, ◌<◌, ◌≡◌, ◌≢◌, refl, ◌∙◌, ap, true, false, List, length, length-overwrite, Text, ok, arith,
  some, ◌⊎◌,
}
use async_log_cloud_storage.Log.Config.{LogConfig}
use async_log_cloud_storage.Log.Buffer.{
  Buffer, add64, max_size, is_empty, writeable_size, to_be_enough, copy_in,
}
use async_log_cloud_storage.Log.Buffer
use async_log_cloud_storage.Log.Buffer.Contents.{IsValid, writeable_size_lem}
use async_log_cloud_storage.Log.Worker.{
  async_safe, Consumer, looping, waiting, Worker, new_worker, waits, pushed, store, push, advance,
  thread_entry, stop_worker, System, Step, producer_stores, producer_drops, consumer_runs, stops,
  Reach,
}
use async_log_cloud_storage.Log.Worker.Balance.{Inv}
use async_log_cloud_storage.Log.Worker.Delivery.{Step-Inv, Reach-Inv, new_worker-Inv}
use async_log_cloud_storage.Log.Worker.Stall.{
  IsStalled, advance-stop, Step-IsStalled, Reach-IsStalled, new_worker-IsStalled,
}

-- The message that is stored, if one is, does not fill the buffer to its last byte.
abbrev pub Misses : {c : LogConfig} {s t : System} → Step c s t → Type 0
Misses {c} {s} (producer_stores bytes w e) = length bytes ≢ writeable_size s.worker.buffer_productor
Misses _ = Unit {0}

-- From `s` on, without `Stop`, no message fills the buffer to its last byte.
pub data Onward (c : LogConfig) (s : System) : System → Type 0 where
  here : Onward c s s
  onward :
      {t u : System}
      → Onward c s t
      → (st : Step c t u) → Misses st
      → u.worker.stop ≡ false
      → Onward c s u

-- The producer's buffer has the size that it had, and no more room.
record NoRoomier (w w' : Worker) : Type 0 where
  typed : w'.async_type ≡ w.async_type
  size : length w'.buffer_productor.buffer ≡ length w.buffer_productor.buffer
  filled : w.buffer_productor.write_pos ≤ w'.buffer_productor.write_pos

same-NoRoomier :
    (w w' : Worker)
    → w'.async_type ≡ w.async_type
    → w'.buffer_productor ≡ w.buffer_productor
    → NoRoomier w w'
same-NoRoomier w w' t b = record {
  typed = t;
  size = rw b refl;
  filled = omega (arith, ap (λ (x : Buffer). x.write_pos) b);
}

push-roomy :
    (c : LogConfig) (bytes : Text) (b b' : Buffer)
    → IsValid b
    → length bytes < writeable_size b
    → Buffer.push c bytes b ≡ ok b'
    → (length b'.buffer ≡ length b.buffer) × (b.write_pos ≤ b'.write_pos)
unfolding Buffer.push to_be_enough copy_in
push-roomy c bytes b b' v room h = ground (
  arith,
  length-overwrite b.write_pos bytes b.buffer,
  writeable_size_lem b v,
  v.inside,
  v.allocated,
)

-- What a try that stored has done.
safe_push-inv :
    (c : LogConfig) (bytes : Text) (w w' : Worker)
    → w.async_type ≡ async_safe
    → push c bytes w ≡ pushed w'
    → (length bytes ≤ writeable_size w.buffer_productor)
      × (Buffer.push c bytes w.buffer_productor ≡ ok w'.buffer_productor)
      × (w'.async_type ≡ w.async_type)
unfolding push store
safe_push-inv c bytes w w' safe h = ground arith

safe_push-NoRoomier :
    (c : LogConfig) (bytes : Text) (w w' : Worker)
    → w.async_type ≡ async_safe
    → IsValid w.buffer_productor
    → length bytes ≢ writeable_size w.buffer_productor
    → push c bytes w ≡ pushed w'
    → NoRoomier w w'
safe_push-NoRoomier c bytes w w' safe v other h =
    let (fits, ran, typed) = safe_push-inv c bytes w w' safe h in
    let (size, filled) =
      push-roomy c bytes w.buffer_productor w'.buffer_productor v (omega (arith, other)) ran in
    record { typed = typed; size = size; filled = filled }

advance-NoRoomier :
    (pc : Consumer) (w w' : Worker) (calls : List Text)
    → advance pc w ≡ some (w', calls)
    → w'.stop ≡ false
    → (pc ≡ looping) ⊎ (pc ≡ waiting)
    → is_empty w.buffer_consumer ≡ true
    → w'.buffer_productor ≡ w.buffer_productor
unfolding advance
advance-NoRoomier looping w w' calls h go place e = ground arith
advance-NoRoomier waiting w w' calls h go place e = absurd (ground arith)
advance-NoRoomier _ w w' calls h go place e = absurd (ground arith)

Step-NoRoomier :
    {c : LogConfig} {s t : System} (st : Step c s t)
    → Misses st
    → t.worker.stop ≡ false
    → s.worker.async_type ≡ async_safe
    → Inv s
    → IsStalled s
    → NoRoomier s.worker t.worker
unfolding stop_worker thread_entry
Step-NoRoomier {c} {s} (producer_stores bytes w e) misses go safe v stalled =
    safe_push-NoRoomier c bytes s.worker w safe v.productor_valid misses e
Step-NoRoomier {c} {s} (producer_drops bytes e) misses go safe v stalled =
    same-NoRoomier s.worker s.worker refl refl
Step-NoRoomier {c} {s} (consumer_runs w calls e) misses go safe v stalled =
    same-NoRoomier s.worker w (advance-stop s.worker.consumer s.worker w calls e).1
      (advance-NoRoomier s.worker.consumer s.worker w calls e go stalled.place stalled.empty)
Step-NoRoomier stops misses go safe v stalled = absurd (cc)

-- A state with what is kept on the way from `w`.
record Waiting (w : Worker) (t : System) : Type 0 where
  inv : Inv t
  stalled : IsStalled t
  running : t.worker.stop ≡ false
  no_roomier : NoRoomier w t.worker

Onward-Waiting :
    {c : LogConfig} {s t : System}
    → s.worker.async_type ≡ async_safe
    → Onward c s t
    → Waiting s.worker s
    → Waiting s.worker t
Onward-Waiting safe here v = v
Onward-Waiting safe (onward r st misses go) v =
    let before = Onward-Waiting safe r v in
    let step =
      Step-NoRoomier st misses go (before.no_roomier.typed ∙ safe) before.inv before.stalled in
    record {
      inv = Step-Inv st before.inv;
      stalled = Step-IsStalled st (λ _. before.stalled) go;
      running = go;
      no_roomier = record {
        typed = step.typed ∙ before.no_roomier.typed;
        size = step.size ∙ before.no_roomier.size;
        filled = omega (arith, step.filled, before.no_roomier.filled);
      };
    }

waits-NoRoomier :
    (c : LogConfig) (bytes : Text) (w w' : Worker)
    → IsValid w.buffer_productor
    → IsValid w'.buffer_productor
    → NoRoomier w w'
    → w'.stop ≡ false
    → push c bytes w ≡ waits
    → push c bytes w' ≡ waits
unfolding push store
waits-NoRoomier c bytes w w' v v' less go h = ground (
  arith,
  writeable_size_lem w.buffer_productor v,
  writeable_size_lem w'.buffer_productor v',
  less.typed,
  less.size,
  less.filled,
)

waits-safe :
    (c : LogConfig) (bytes : Text) (w : Worker) → push c bytes w ≡ waits → w.async_type ≡ async_safe
unfolding push store
waits-safe c bytes w h = ground arith

-- With type ASYNC_SAFE and before `Stop`, a message that waits for room in a state that a new worker reaches
-- waits in every later state before `Stop`, whatever the consumer and other producers do, unless on the
-- way a message fills the buffer to its last byte, which makes it grow.
pub push-waits :
    (c : LogConfig) (w : Worker) (s t : System) (bytes : Text)
    → new_worker c async_safe ≡ ok w
    → Reach c w s
    → s.worker.stop ≡ false
    → push c bytes s.worker ≡ waits
    → Onward c s t
    → push c bytes t.worker ≡ waits
push-waits c w s t bytes made r go waiting_now on =
    let v = Reach-Inv (new_worker-Inv c async_safe w made) r in
    let now : Waiting s.worker s = record {
      inv = v;
      stalled = Reach-IsStalled (new_worker-IsStalled c async_safe w made) r go;
      running = go;
      no_roomier = same-NoRoomier s.worker s.worker refl refl;
    } in
    let later = Onward-Waiting (waits-safe c bytes s.worker waiting_now) on now in
    waits-NoRoomier c bytes s.worker t.worker v.productor_valid later.inv.productor_valid
      later.no_roomier later.running waiting_now

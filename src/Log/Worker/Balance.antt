-- ===== src/Log/Worker/Balance.antt =====
-- Where the bytes given to AsyncWorker.hpp are: handed to the callback, on their way, or waiting in
-- the producer's buffer.
use mathlib.Core.Path.{subst}
use mathlib.Core.Option.{some-injective}
use async_log_cloud_storage.Base.{
  ◌≡◌, refl, ◌&&◌, List, [], ◌∷◌, ◌++◌, append-nil, append_assoc, Text, Outcome, ok, fail, arith,
  flatten, flatten-snoc, Option, some, inl, inr, Bool-cases, if◌then◌else◌,
}
use async_log_cloud_storage.Log.Config.{LogConfig}
use async_log_cloud_storage.Log.Buffer.{
  Buffer, is_empty, writeable_size, begin_readable, swap, reset, new_buffer, resize_to, max_size,
}
use async_log_cloud_storage.Log.Buffer
use async_log_cloud_storage.Log.Buffer.Contents.{
  IsValid, contents, push-ok_inv, begin_readable-contents, reset-contents, reset-IsValid,
}
use async_log_cloud_storage.Log.Worker.{
  Consumer, looping, waiting, swapped, called, emptied, drained, left, Worker, pushed, store, push,
  advance, System,
}

-- The bytes that were taken from the producers and not given to the callback yet.
abbrev pub pending : Consumer → Buffer → Text
pending swapped b = contents b
pending _ b = []

-- The consumer's buffer is empty but from the swap to the reset.
abbrev pub IsQuiet : Consumer → Buffer → Type 0
IsQuiet swapped b = Unit {0}
IsQuiet called b = Unit {0}
IsQuiet _ b = contents b ≡ []

-- What holds of the two buffers, the place of the consumer, and the history.
pub record Balance (pc : Consumer) (p c : Buffer) (accepted delivered : List Text) : Type 0 where
  pub productor_valid : IsValid p
  pub consumer_valid : IsValid c
  pub quiet : IsQuiet pc c
  pub balance : flatten delivered ++ (pending pc c ++ contents p) ≡ flatten accepted

abbrev pub Inv : System → Type 0
Inv s =
    Balance s.worker.consumer s.worker.buffer_productor s.worker.buffer_consumer s.accepted
      s.delivered

pub store-pushed :
    (c : LogConfig) (bytes : Text) (w w' : Worker)
    → IsValid w.buffer_productor
    → store c bytes w ≡ pushed w'
    → (b : Buffer) × (w' ≡ record w { buffer_productor = b })
      × IsValid b
      × (contents b ≡ contents w.buffer_productor ++ bytes)
unfolding store
store-pushed c bytes w w' v h = go (Buffer.push c bytes w.buffer_productor) refl
  where
    go :
        (r : Outcome Buffer)
        → Buffer.push c bytes w.buffer_productor ≡ r
        → (b : Buffer) × (w' ≡ record w { buffer_productor = b })
          × IsValid b
          × (contents b ≡ contents w.buffer_productor ++ bytes)
    go (ok b) e =
        let (valid, appended) = push-ok_inv c bytes w.buffer_productor b v e in
        (b, ground arith, valid, appended)
    go (fail f) e = absurd (ground arith)

-- A stored message goes to the end of the producer's buffer, and nothing else of the worker changes.
pub push-pushed :
    (c : LogConfig) (bytes : Text) (w w' : Worker)
    → IsValid w.buffer_productor
    → push c bytes w ≡ pushed w'
    → (b : Buffer) × (w' ≡ record w { buffer_productor = b })
      × IsValid b
      × (contents b ≡ contents w.buffer_productor ++ bytes)
unfolding push
push-pushed c bytes w w' v h = store-pushed c bytes w w' v (ground arith)

-- Storing a message.
pub store-Balance :
    (pc : Consumer) (p p' c : Buffer) (accepted delivered : List Text) (bytes : Text)
    → Balance pc p c accepted delivered
    → IsValid p'
    → contents p' ≡ contents p ++ bytes
    → Balance pc p' c (accepted ++ bytes ∷ []) delivered
store-Balance pc p p' c accepted delivered bytes v valid appended = record {
  productor_valid = valid;
  consumer_valid = v.consumer_valid;
  quiet = v.quiet;
  balance = rw (appended, flatten-snoc accepted bytes, ← v.balance) (simp append_assoc);
}

-- The consumer moves on, and no bytes move.
pub still :
    {pc pc' : Consumer} {p c : Buffer} {accepted delivered : List Text}
    → Balance pc p c accepted delivered
    → IsQuiet pc' c
    → pending pc' c ≡ pending pc c
    → Balance pc' p c accepted delivered
still {p} {delivered} v q same = record {
  productor_valid = v.productor_valid;
  consumer_valid = v.consumer_valid;
  quiet = q;
  balance = rw same v.balance;
}

abbrev pub runs_to : Worker → List Text → Option (Worker × List Text)
runs_to w calls = some (w, calls)

abbrev pub Kept : List Text → List Text → Worker × List Text → Type 0
Kept accepted delivered (w, calls) =
    Balance w.consumer w.buffer_productor w.buffer_consumer accepted (delivered ++ calls)

-- A step of the consumer thread.
pub advance-Balance :
    (pc : Consumer) (w w' : Worker) (calls accepted delivered : List Text)
    → Balance pc w.buffer_productor w.buffer_consumer accepted delivered
    → advance pc w ≡ some (w', calls)
    → Balance w'.consumer w'.buffer_productor w'.buffer_consumer accepted (delivered ++ calls)
unfolding advance swap
advance-Balance looping w w' calls accepted delivered v h =
    subst (Kept accepted delivered) (some-injective _ _ h) (rw (append-nil delivered) split)
  where
    split :
        Balance
          (if w.stop then left else waiting)
          w.buffer_productor
          w.buffer_consumer
          accepted
          delivered
    split = elim (Bool-cases w.stop) [
      | inl e ↦ rw e (still v v.quiet refl)
      | inr e ↦ rw e (still v v.quiet refl)
    ]
advance-Balance waiting w w' calls accepted delivered v h =
    subst (Kept accepted delivered) (some-injective _ _ opened) (
      rw (append-nil delivered) (record {
        productor_valid = v.consumer_valid;
        consumer_valid = v.productor_valid;
        quiet = tt;
        balance = rw (v.quiet, append-nil (contents w.buffer_productor)) v.balance;
      }))
  where
    opened :
        runs_to
          (record w {
            buffer_productor = w.buffer_consumer;
            buffer_consumer = w.buffer_productor;
            consumer = swapped;
          })
          []
        ≡ some (w', calls)
    opened = ground arith
advance-Balance swapped w w' calls accepted delivered v h =
    subst (Kept accepted delivered) (some-injective _ _ (stepped)) (record {
      productor_valid = v.productor_valid;
      consumer_valid = v.consumer_valid;
      quiet = tt;
      balance = rw (flatten-snoc delivered (contents w.buffer_consumer), append_assoc) v.balance;
    })
  where
    read : (begin_readable w.buffer_consumer) ≡ ok (contents w.buffer_consumer)
    read = begin_readable-contents w.buffer_consumer v.consumer_valid

    stepped :
        runs_to (record w { consumer = called }) (contents w.buffer_consumer ∷ [])
        ≡ some (w', calls)
    stepped = ground (arith, read)
advance-Balance called w w' calls accepted delivered v h =
    subst (Kept accepted delivered) (some-injective _ _ h) (
      rw (append-nil delivered) (record {
        productor_valid = v.productor_valid;
        consumer_valid = reset-IsValid w.buffer_consumer v.consumer_valid;
        quiet = reset-contents w.buffer_consumer;
        balance = v.balance;
      }))
advance-Balance emptied w w' calls accepted delivered v h =
    subst (Kept accepted delivered) (some-injective _ _ h) (rw (append-nil delivered) split)
  where
    split :
        Balance
          (if w.stop && is_empty w.buffer_productor then drained else looping)
          w.buffer_productor
          w.buffer_consumer
          accepted
          delivered
    split = elim (Bool-cases (w.stop && is_empty w.buffer_productor)) [
      | inl e ↦ rw e (still v v.quiet refl)
      | inr e ↦ rw e (still v v.quiet refl)
    ]
advance-Balance drained w w' calls accepted delivered v h = absurd (cc)
advance-Balance left w w' calls accepted delivered v h = absurd (cc)

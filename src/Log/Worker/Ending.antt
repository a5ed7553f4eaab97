-- ===== src/Log/Worker/Ending.antt =====
-- How many steps the consumer thread of AsyncWorker.hpp takes once `stop_` is set.
use async_log_cloud_storage.Base.{
  ℕ, ◌≤◌, ◌<◌, ◌≡◌, refl, true, List, Text, arith, none, some, ◌⊎◌, inl, inr,
}
use async_log_cloud_storage.Log.Buffer.Contents.{begin_readable-contents}
use async_log_cloud_storage.Log.Worker.{
  Consumer, looping, waiting, swapped, called, emptied, drained, left, Worker, advance, System,
}
use async_log_cloud_storage.Log.Worker.Balance.{Inv}

-- The steps that the thread has left, at most.
abbrev pub turns_left : Consumer → ℕ
turns_left waiting = 5
turns_left swapped = 4
turns_left called = 3
turns_left emptied = 2
turns_left looping = 1
turns_left drained = 0
turns_left left = 0

pub advance-turns :
    (pc : Consumer) (w w' : Worker) (calls : List Text)
    → w.stop ≡ true
    → advance pc w ≡ some (w', calls)
    → turns_left w'.consumer < turns_left pc
unfolding advance
advance-turns looping w w' calls stopped h = ground arith
advance-turns waiting w w' calls stopped h = ground arith
advance-turns swapped w w' calls stopped h = ground arith
advance-turns called w w' calls stopped h = ground arith
advance-turns emptied w w' calls stopped h = ground arith
advance-turns drained w w' calls stopped h = absurd (cc)
advance-turns left w w' calls stopped h = absurd (cc)

-- Until it has returned, a step is open to it.
pub advance-some :
    (pc : Consumer) (s : System)
    → Inv s
    → s.worker.stop ≡ true
    → advance pc s.worker ≡ none
    → turns_left pc ≡ 0
unfolding advance
advance-some looping s v stopped h = absurd (cc)
advance-some waiting s v stopped h = absurd (ground arith)
advance-some swapped s v stopped h =
    absurd (ground (arith, begin_readable-contents s.worker.buffer_consumer v.consumer_valid))
advance-some called s v stopped h = absurd (cc)
advance-some emptied s v stopped h = absurd (cc)
advance-some drained s v stopped h = refl
advance-some left s v stopped h = refl

pub turns_left-le : (pc : Consumer) → turns_left pc ≤ 5
turns_left-le looping = omega arith
turns_left-le waiting = omega arith
turns_left-le swapped = omega arith
turns_left-le called = omega arith
turns_left-le emptied = omega arith
turns_left-le drained = omega arith
turns_left-le left = omega arith

abbrev pub HasReturned : Consumer → Type 0
HasReturned pc = (pc ≡ drained) ⊎ (pc ≡ left)

pub turns_left-HasReturned : (pc : Consumer) → turns_left pc ≡ 0 → HasReturned pc
turns_left-HasReturned looping h = absurd (omega (arith, h))
turns_left-HasReturned waiting h = absurd (omega (arith, h))
turns_left-HasReturned swapped h = absurd (omega (arith, h))
turns_left-HasReturned called h = absurd (omega (arith, h))
turns_left-HasReturned emptied h = absurd (omega (arith, h))
turns_left-HasReturned drained h = inl refl
turns_left-HasReturned left h = inr refl

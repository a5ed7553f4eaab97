-- ===== src/TestLogger/Threads.antt =====
-- The threads of the synchronous part of `test_concurrent_throughput_comparison` of
-- src/server/TestLogger.cpp: each has a `SyncLogger` of its own on one file. A call is one step, since its
-- line goes to the file, opened to append, by the flush at its end.
pub mod Order
use async_log_cloud_storage.Base.{
  replaced, ℕ, suc, ◌<◌, ◌≡◌, List, [], ◌∷◌, ◌++◌, Text, codes, to_string,
}
use async_log_cloud_storage.Log.Flush.{LogFiles, Device}
use async_log_cloud_storage.TestLogger.Calls.{Call}
use async_log_cloud_storage.TestLogger.{SyncLogger, new_sync_logger, inf_a}

-- Where a thread stands, with the index of its next call.
pub data Stage : Type 0 where
  starting : Stage
  logging : SyncLogger → ℕ → Stage
  done : Stage

-- The calls in the order in which they were made.
pub record System : Type 0 where
  pub files : LogFiles
  pub stage : ℕ → Stage
  pub calls : List Call

abbrev pub sync_file : Text
sync_file = codes "../log_system/logfile/sync_concurrent_test.log"

unfoldable pub thread_text : ℕ → ℕ → Text
thread_text t i = codes "Sync Thread-" ++ (to_string t ++ (codes " Log-" ++ to_string i))

-- The state behind a call.
unfoldable pub call_step : Device → Call → SyncLogger → System → System
call_step d c l s =
    let (l1, files) = inf_a d c.now (thread_text c.thread c.index) l s.files in
    record {
      files = files;
      stage = replaced c.thread (logging l1 (suc c.index)) s.stage;
      calls = s.calls ++ c ∷ [];
    }

-- The state behind the constructor of a logger.
unfoldable pub open_step : Device → ℕ → System → System
open_step d t s =
    let (l, files) = new_sync_logger d sync_file s.files in
    record s { files = files; stage = replaced t (logging l 0) s.stage }

module _ (d : Device) (thread_count logs_per_thread : ℕ) where
  pub data Step (s : System) : System → Type 0 where
    constructs : (t : ℕ) → t < thread_count → s.stage t ≡ starting → Step s (open_step d t s)
    logs :
        (c : Call) (l : SyncLogger)
        → c.thread < thread_count
        → s.stage c.thread ≡ logging l c.index
        → c.index < logs_per_thread
        → Step s (call_step d c l s)
    ends :
        (t : ℕ) (l : SyncLogger)
        → s.stage t ≡ logging l logs_per_thread
        → Step s (record s { stage = replaced t done s.stage })

  pub data Reach (old : LogFiles) : System → Type 0 where
    begins : Reach old (record { files = old; stage = λ t. starting; calls = [] })
    later : {s t : System} → Reach old s → Step s t → Reach old t

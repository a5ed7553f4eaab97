-- ===== src/TestLogger/AsyncThreads.antt =====
-- The threads of the asynchronous part of `test_concurrent_throughput_comparison` of
-- src/server/TestLogger.cpp: they call `Info` of one logger, whose worker, of type ASYNC_SAFE, is stopped at
-- the end of the program. A call is one step, which is open while its `Push` finds room.
pub mod Order
use async_log_cloud_storage.Base.{
  replaced, ℕ, suc, ◌<◌, ◌≡◌, List, [], ◌∷◌, ◌++◌, Text, codes, to_string, Outcome, ok, some,
}
use async_log_cloud_storage.Log.Config.{LogConfig}
use async_log_cloud_storage.Log.Message.{info}
use async_log_cloud_storage.Log.Logger.{Action, pushes, log_at}
use async_log_cloud_storage.Log.Worker.{Worker, pushed, push, thread_entry, stop_worker}
use async_log_cloud_storage.Log.Worker
use async_log_cloud_storage.TestLogger.Calls.{Call}

-- The worker, the index of each thread's next call, and the calls that have returned, in the order in
-- which their messages were stored.
pub record System : Type 0 where
  pub logger : Worker.System
  pub next : ℕ → ℕ
  pub calls : List Call

unfoldable pub async_thread_text : ℕ → ℕ → Text
async_thread_text t i = codes "Async Thread-" ++ (to_string t ++ (codes " Log-" ++ to_string i))

-- `Info`, in the thread with this number, of a file and a line.
unfoldable pub thread_info : (ℕ → Text) → Text → ℕ → Call → Outcome (List Action)
thread_info tid file line c =
    log_at (codes "cloud_storage") c.now (tid c.thread) info file line
      (some (async_thread_text c.thread c.index))

-- The state behind a call whose `Push` has stored these bytes.
unfoldable pub info_step : Call → Text → Worker → System → System
info_step c bytes w s = record {
  logger = record {
    worker = w;
    accepted = s.logger.accepted ++ bytes ∷ [];
    delivered = s.logger.delivered;
  };
  next = replaced c.thread (suc c.index) s.next;
  calls = s.calls ++ c ∷ [];
}

module _ (c : LogConfig) (tid : ℕ → Text) (file : Text)
    (line thread_count logs_per_thread : ℕ) where
  pub data Step (s : System) : System → Type 0 where
    logs :
        (call : Call) (bytes : Text) (w : Worker)
        → call.thread < thread_count
        → s.next call.thread ≡ call.index
        → call.index < logs_per_thread
        → thread_info tid file line call ≡ ok (pushes bytes ∷ [])
        → push c bytes s.logger.worker ≡ pushed w
        → Step s (info_step call bytes w s)
    consumes :
        (w : Worker) (texts : List Text)
        → thread_entry s.logger.worker ≡ some (w, texts)
        → Step s (record s {
          logger = record (s.logger) { worker = w; delivered = s.logger.delivered ++ texts };
        })
    stops :
        ((t : ℕ) → t < thread_count → s.next t ≡ logs_per_thread)
        → Step s (record s { logger = record (s.logger) { worker = stop_worker s.logger.worker } })

  pub data Reach (first : Worker.System) : System → Type 0 where
    begins : Reach first (record { logger = first; next = λ t. 0; calls = [] })
    later : {s t : System} → Reach first s → Step s t → Reach first t

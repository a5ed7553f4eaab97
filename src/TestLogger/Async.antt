-- ===== src/TestLogger/Async.antt =====
-- What the asynchronous part of src/server/TestLogger.cpp asks of its logger.
use async_log_cloud_storage.Base.{
  ℕ, zero, suc, ◌≡◌, refl, List, [], ◌∷◌, ◌++◌, map, Text, codes, c_str, ok,
}
use mathlib.Core.List.{map-append}
use async_log_cloud_storage.Log.Flush.{Tm}
use async_log_cloud_storage.Log.Message.{info, format}
use async_log_cloud_storage.Log.Logger.{pushes, log_at, serialize, is_backed_up}
use async_log_cloud_storage.TestLogger.{async_text, async_calls}

-- The lines of the calls with the indices below `count`.
abbrev pub async_lines : (ℕ → Tm) → Text → Text → ℕ → ℕ → List Text
async_lines clock tid file line zero = []
async_lines clock tid file line (suc count) =
    async_lines clock tid file line count
    ++ format (record {
      level = info;
      filename = file;
      line = line;
      timestamp = clock count;
      message = c_str (async_text count);
      logger_name = codes "cloud_storage";
      tid = tid;
    })
      ∷ []

-- Every line is pushed to the worker, in order, and none is sent to the backup server.
pub async_calls-pushes :
    (clock : ℕ → Tm) (tid file : Text) (line count : ℕ)
    → async_calls clock tid file line count
      ≡ ok (map pushes (async_lines clock tid file line count))
unfolding async_calls log_at serialize is_backed_up
async_calls-pushes clock tid file line zero = refl
async_calls-pushes clock tid file line (suc count) =
    rw (async_calls-pushes clock tid file line count, map-append) refl

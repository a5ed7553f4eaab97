-- ===== src/TestLogger.antt =====
-- src/server/TestLogger.cpp: the synchronous logger that the logging library is compared with, and what
-- the test logs with both. Times are given, and what is measured and printed is left out.
pub mod Async
pub mod Sync
pub mod Throughput
pub mod Calls
pub mod Threads
pub mod AsyncThreads
mod Examples
mod AsyncExamples
use async_log_cloud_storage.Base.{
  ℕ, zero, suc, ◌+◌, ◌*◌, ◌%◌, ◌^◌, ◌==◌, Bool, true, false, List, [], ◌∷◌, ◌++◌, length, take, map,
  ltb, if◌then◌else◌, Text, codes, c_str, to_string, Option, none, some, Outcome, ok, ◌>>=◌,
}
use async_log_cloud_storage.Log.Config.{LogConfig}
use async_log_cloud_storage.Log.Flush.{LogFiles, Device, Tm, append_log, new_file_flush}
use async_log_cloud_storage.Log.Message.{info, date_time}
use async_log_cloud_storage.Log.Logger.{
  Action, LoggerBuilder, file_sink, new_logger_builder, build_name, build_logger_flush, build,
  log_at,
}
use async_log_cloud_storage.Log.Manager.{LoggerManager, add_logger}
use async_log_cloud_storage.Log.ThreadPool.{System, new_pool}
use async_log_cloud_storage.Log.Util.{before_last_slash}

-- `SyncLogger`: the stream is open, and no write to it has failed.
pub record SyncLogger : Type 0 where
  pub filename : Text
  pub is_open : Bool
  pub good : Bool

-- The command that the constructor runs, if the name has a directory.
unfoldable pub mkdir_command : Text → Option Text
mkdir_command filename = elim (before_last_slash filename) [
  | none ↦ none
  | some dir ↦ some (codes "mkdir -p " ++ dir)
]

-- A line of `InfA`. The buffer has room for 1023 bytes of the text that the format gives.
unfoldable pub sync_line : Tm → Text → Text
sync_line now made =
    codes "[" ++ (date_time now ++ (codes "] [INFO] " ++ (take 1023 (c_str made) ++ codes "\n")))

module _ (d : Device) where
  -- The constructor. What its command does is left to `opens`.
  unfoldable pub new_sync_logger : Text → LogFiles → SyncLogger × LogFiles
  new_sync_logger filename files =
      if d.opens filename
      then (
        record { filename = filename; is_open = true; good = true },
        append_log filename [] files,
      )
      else (record { filename = filename; is_open = false; good = false }, files)

  -- `InfA`: the line is flushed at once; a stream whose write has failed writes no more.
  unfoldable pub inf_a : Tm → Text → SyncLogger → LogFiles → SyncLogger × LogFiles
  inf_a now made l files =
      let line = sync_line now made in
      let taken = d.takes l.filename (length line) in
      if l.is_open
      then if l.good
        then (
          record l { good = taken == length line },
          append_log l.filename (take taken line) files,
        )
        else (l, files)
      else (l, files)

-- `calculate_log_message_size`: the length that `snprintf` returns is that of the whole text.
unfoldable pub calculate_log_message_size : Text → ℕ → ℕ
calculate_log_message_size prefix index =
    length (c_str prefix ++ (codes " log test " ++ to_string index))

-- `std::min(1000, log_count)`
unfoldable pub sampled : ℕ → ℕ
sampled log_count = if ltb log_count 1000 then log_count else 1000

-- The loop over the indices below its bound.
unfoldable pub sum_sizes : ℕ → ℕ
sum_sizes zero = 0
sum_sizes (suc count) = sum_sizes count + calculate_log_message_size (codes "Async") count

-- The size of the asynchronous calls that the test takes for its sample.
unfoldable pub total_bytes : ℕ → ℕ
total_bytes log_count = sum_sizes (sampled log_count)

unfoldable pub async_text : ℕ → Text
async_text i = codes "Async log test " ++ to_string i

unfoldable pub sync_text : ℕ → Text
sync_text i = codes "Sync log test " ++ to_string i

-- The calls of `Info` of the asynchronous part with the indices below `count`, from a thread and a line
-- of the file.
unfoldable pub async_calls : (ℕ → Tm) → Text → Text → ℕ → ℕ → Outcome (List Action)
async_calls clock tid file line zero = ok []
async_calls clock tid file line (suc count) = do
  before ← async_calls clock tid file line count
  last ← log_at (codes "cloud_storage") (clock count) tid info file line (some (async_text count))
  ok (before ++ last)

-- The calls of `InfA` of the synchronous part with the indices below `count`.
unfoldable pub sync_calls : Device → (ℕ → Tm) → ℕ → SyncLogger → LogFiles → SyncLogger × LogFiles
sync_calls d clock zero l files = (l, files)
sync_calls d clock (suc count) l files =
    let (l1, files1) = sync_calls d clock count l files in
    inf_a d (clock count) (sync_text count) l1 files1

abbrev pub sync_throughput_file : Text
sync_throughput_file = codes "../log_system/logfile/sync_throughput_test.log"

-- `test_throughput_comparison`: what it asks of the asynchronous logger, and the files after the
-- synchronous part.
unfoldable pub test_throughput_comparison :
    Device → (ℕ → Tm) → (ℕ → Tm) → Text → Text → ℕ → ℕ → LogFiles → Outcome (List Action × LogFiles)
test_throughput_comparison d async_clock sync_clock tid file line log_count files = do
  actions ← async_calls async_clock tid file line log_count
  let (l, files1) = new_sync_logger d sync_throughput_file files
  ok (actions, (sync_calls d sync_clock log_count l files1).1)

-- `init_thread_pool`, and what `main` does before the tests: the pool, with the number of the machine's
-- threads for its maximum, and the logger with its file.
unfoldable pub init_thread_pool : LogConfig → ℕ → ℕ → System
init_thread_pool c hardware stray = new_pool (c.thread_count % 2 ^ 32) hardware stray

unfoldable pub init_logger : Device → LoggerManager → LogFiles → Outcome (LoggerManager × LogFiles)
init_logger d m files = do
  let (flush, files1) =
      new_file_flush d (codes "../log_system/logfile/async_throughput_test.log") files
  built ←
      build (
        build_logger_flush (file_sink flush)
          (build_name (codes "cloud_storage") new_logger_builder))
  ok (add_logger built.1 m, files1)

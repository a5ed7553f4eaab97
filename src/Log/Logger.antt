-- ===== src/Log/Logger.antt =====
-- `AsyncLogger` and `LoggerBuilder` of log_system/log_src/AsyncLogger.hpp.
pub mod Sinks
mod Examples
use async_log_cloud_storage.Base.{
  ℕ, suc, Bool, true, false, List, [], ◌∷◌, ◌++◌, length, ◌==◌, if◌then◌else◌, Text, c_str, codes,
  Option, none, some, Outcome, ok, fail, assertion, uninitialised, ◌>>=◌,
}
use async_log_cloud_storage.Log.Config.{LogConfig}
use async_log_cloud_storage.Log.Buffer.{Buffer, begin_readable}
use async_log_cloud_storage.Log.Worker.{AsyncType, async_safe}
use async_log_cloud_storage.Log.Flush.{
  LogFiles, Device, Tm, FileFlush, file_flush, RollFileFlush, roll_file_flush,
}
use async_log_cloud_storage.Log.Message.{
  LogLevel, debug, info, warn, error, fatal, LogMessage, format,
}

-- A `LogFlush`.
pub data LogFlush : Type 0 where
  stdout_flush : LogFlush
  file_sink : FileFlush → LogFlush
  roll_sink : RollFileFlush → LogFlush

pub record Outputs : Type 0 where
  pub stdout : Text
  pub files : LogFiles

module _ (c : LogConfig) (d : Device) where
  -- The virtual `Flush`, at a time.
  unfoldable pub flush_log : Tm → Text → LogFlush → Outputs → Outcome (LogFlush × Outputs)
  flush_log t bytes stdout_flush o = ok (stdout_flush, record o { stdout = o.stdout ++ bytes })
  flush_log t bytes (file_sink f) o =
      let (f1, files) = file_flush c d bytes f o.files in
      ok (file_sink f1, record o { files = files })
  flush_log t bytes (roll_sink r) o = roll_file_flush c d t bytes r o.files >>= λ done.
      ok (roll_sink done.0, record o { files = done.1 })

  -- The loop of `RealFlush`. The clock gives a time for each flusher.
  unfoldable pub flush_each :
      (ℕ → Tm) → Text → List LogFlush → Outputs → Outcome (List LogFlush × Outputs)
  flush_each clock bytes [] o = ok ([], o)
  flush_each clock bytes (f ∷ flushes) o = flush_log (clock (length flushes)) bytes f o >>= λ done.
      flush_each clock bytes flushes done.1 >>= λ rest. ok (done.0 ∷ rest.0, rest.1)

  unfoldable pub real_flush :
      (ℕ → Tm) → Buffer → List LogFlush → Outputs → Outcome (List LogFlush × Outputs)
  real_flush clock b [] o = ok ([], o)
  real_flush clock b (f ∷ flushes) o =
      begin_readable b >>= λ bytes. flush_each clock bytes (f ∷ flushes) o

-- What `serialize` does with the text: it has it sent to the backup server, and waits for that, and it
-- pushes it to the worker.
pub data Action : Type 0 where
  sends_backlog : Text → Action
  pushes : Text → Action

unfoldable pub is_backed_up : LogLevel → Bool
is_backed_up error = true
is_backed_up fatal = true
is_backed_up _ = false

-- `serialize`, at a time and in a thread; the text behind `log` ends at its first null byte.
unfoldable pub serialize : Text → Tm → Text → LogLevel → Text → ℕ → Text → List Action
serialize logger_name now tid level file line log =
    let data_text = format (record {
      level = level;
      filename = file;
      line = line;
      timestamp = now;
      message = c_str log;
      logger_name = logger_name;
      tid = tid;
    }) in
    if is_backed_up level
    then sends_backlog data_text ∷ pushes data_text ∷ []
    else pushes data_text ∷ []

-- `Debug` to `Fatal`. The argument is what `vasprintf` made of the format, `none` if it failed: then
-- `ret` is not initialised.
unfoldable pub log_at : Text → Tm → Text → LogLevel → Text → ℕ → Option Text → Outcome (List Action)
log_at logger_name now tid level file line made = elim made [
  | none ↦ fail uninitialised
  | some log ↦ ok (serialize logger_name now tid level file line log)
]

pub record LoggerBuilder : Type 0 where
  pub logger_name : Text
  pub flushes : List LogFlush
  pub async_type : AsyncType

abbrev pub new_logger_builder : LoggerBuilder
new_logger_builder = record { logger_name = codes "default"; flushes = []; async_type = async_safe }

unfoldable pub build_name : Text → LoggerBuilder → LoggerBuilder
build_name name b = record b { logger_name = name }

unfoldable pub build_logger_type : AsyncType → LoggerBuilder → LoggerBuilder
build_logger_type t b = record b { async_type = t }

unfoldable pub build_logger_flush : LogFlush → LoggerBuilder → LoggerBuilder
build_logger_flush f b = record b { flushes = b.flushes ++ f ∷ [] }

-- A logger, without its worker.
pub record AsyncLogger : Type 0 where
  pub logger_name : Text
  pub flushes : List LogFlush
  pub async_type : AsyncType

-- `Build()`: the builder, whose flushers it completes, and the logger.
unfoldable pub build : LoggerBuilder → Outcome (LoggerBuilder × AsyncLogger)
build b =
    if length b.logger_name == 0
    then fail assertion
    else (let flushes : List LogFlush =
          if length b.flushes == 0 then stdout_flush ∷ [] else b.flushes in
        ok (
          record b { flushes = flushes },
          record { logger_name = b.logger_name; flushes = flushes; async_type = b.async_type },
        ))

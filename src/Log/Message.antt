-- ===== src/Log/Message.antt =====
-- `LogLevel` of log_system/log_src/Level.hpp and `LogMessage` of log_system/log_src/Message.hpp.
pub mod Lines
mod Examples
use async_log_cloud_storage.Base.{ℕ, ◌+◌, ◌/◌, ◌%◌, List, [], ◌∷◌, ◌++◌, Text, codes, to_string}
use async_log_cloud_storage.Log.Flush.{Tm}

pub data LogLevel : Type 0 where
  debug info warn error fatal : LogLevel

unfoldable pub level_string : LogLevel → Text
level_string debug = codes "DEBUG"
level_string info = codes "INFO"
level_string warn = codes "WARN"
level_string error = codes "ERROR"
level_string fatal = codes "FATAL"

-- The thread's id is the text that `operator<<` writes for it, the timestamp what `localtime_r` makes
-- of it.
pub record LogMessage : Type 0 where
  pub level : LogLevel
  pub filename : Text
  pub line : ℕ
  pub timestamp : Tm
  pub message : Text
  pub logger_name : Text
  pub tid : Text

-- Two digits, of a number below 100.
unfoldable pub two_digits : ℕ → Text
two_digits n = (n / 10 % 10 + b'0') ∷ (n % 10 + b'0') ∷ []

-- `strftime` with "%Y-%m-%d %H:%M:%S".
unfoldable pub date_time : Tm → Text
date_time t =
    to_string (t.tm_year + 1900)
    ++ (codes "-"
        ++ (two_digits (t.tm_mon + 1)
            ++ (codes "-"
                ++ (two_digits t.tm_mday
                    ++ (codes " "
                        ++ (two_digits t.tm_hour
                            ++ (codes ":"
                                ++ (two_digits t.tm_min
                                    ++ (codes ":" ++ two_digits t.tm_sec)))))))))

-- What stands in front of the message.
unfoldable pub header : LogMessage → Text
header m =
    codes "["
    ++ (date_time m.timestamp
        ++ (codes "]["
            ++ (m.tid
                ++ (codes "]["
                    ++ (level_string m.level
                        ++ (codes "]["
                            ++ (m.logger_name
                                ++ (codes "]["
                                    ++ (m.filename
                                        ++ (codes ":" ++ (to_string m.line ++ codes "]\t")))))))))))

unfoldable pub format : LogMessage → Text
format m = header m ++ (m.message ++ codes "\n")

-- ===== src/Log/Logger/Examples.antt =====
-- A `RealFlush` to two flushers of AsyncLogger.hpp.
use async_log_cloud_storage.Base.{◌≡◌, refl, List, [], ◌∷◌, codes, ok, some, true, text_eq}
use async_log_cloud_storage.Log.Config.{LogConfig}
use async_log_cloud_storage.Log.Buffer.{Buffer, begin_readable}
use async_log_cloud_storage.Log.Flush.{
  Device, Tm, FileFlush, file_flush, flush_by_config, flush_stream, write_stream, append_log,
}
use async_log_cloud_storage.Log.Logger.{
  LogFlush, stdout_flush, file_sink, Outputs, real_flush, flush_each, flush_log,
}

abbrev plain : LogConfig
plain = record {
  buffer_size = 4;
  threshold = 16;
  linear_growth = 4;
  flush_log = 1;
  backup_addr = codes "127.0.0.1";
  backup_port = 8080;
  thread_count = 2;
}

abbrev taking : Device
taking = record { opens = λ p. true; takes = λ p n. n; spills = λ held. 0 }

abbrev midnight : Tm
midnight = record { tm_year = 125; tm_mon = 8; tm_mday = 4; tm_hour = 0; tm_min = 0; tm_sec = 0 }

abbrev two_left : Buffer
two_left = record { buffer = codes "abcd"; write_pos = 3; read_pos = 1 }

abbrev log_file : FileFlush
log_file = record { filename = codes "f"; fs = some (record { name = codes "f"; buffered = [] }) }

abbrev sinks : List LogFlush
sinks = stdout_flush ∷ file_sink log_file ∷ []

abbrev before : Outputs
before = record { stdout = codes ">"; files = [] }

abbrev after : Outputs
after = record { stdout = codes ">bc"; files = (codes "f", codes "bc") ∷ [] }

flushed_both : real_flush plain taking (λ i. midnight) two_left sinks before ≡ ok (sinks, after)
unfolding real_flush begin_readable flush_each flush_log file_flush flush_by_config flush_stream
    write_stream append_log text_eq
flushed_both = refl

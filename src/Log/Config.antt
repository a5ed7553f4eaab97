-- ===== src/Log/Config.antt =====
-- `LogConfig` of log_system/log_src/Util.hpp: the numbers that the logging code reads.
use async_log_cloud_storage.Base.{ℕ, Text}

-- The fields of type size_t are below 2 ^ 64, `backup_port` is below 2 ^ 16.
pub record LogConfig : Type 0 where
  pub buffer_size : ℕ
  pub threshold : ℕ
  pub linear_growth : ℕ
  pub flush_log : ℕ
  pub backup_addr : Text
  pub backup_port : ℕ
  pub thread_count : ℕ

-- ===== src/Log/Manager/Examples.antt =====
-- The loggers of Manager.hpp by name.
use async_log_cloud_storage.Base.{◌≡◌, refl, [], ◌∷◌, codes, some, text_eq}
use async_log_cloud_storage.Log.Worker.{async_safe, async_unsafe}
use async_log_cloud_storage.Log.Logger.{AsyncLogger, stdout_flush}
use async_log_cloud_storage.Log.Manager.{
  LoggerManager, get_logger, add_logger, find_logger, logger_exist, insert_logger,
}

abbrev standard : AsyncLogger
standard = record {
  logger_name = codes "default";
  flushes = stdout_flush ∷ [];
  async_type = async_safe;
}

abbrev impostor : AsyncLogger
impostor = record { logger_name = codes "default"; flushes = []; async_type = async_unsafe }

abbrev storage_logger : AsyncLogger
storage_logger = record {
  logger_name = codes "cloud_storage";
  flushes = [];
  async_type = async_safe;
}

abbrev fresh : LoggerManager
fresh = record { default_logger = standard; loggers = (codes "default", standard) ∷ [] }

added : get_logger (codes "cloud_storage") (add_logger storage_logger fresh) ≡ some storage_logger
unfolding get_logger add_logger find_logger logger_exist insert_logger text_eq
added = refl

first_stays : get_logger (codes "default") (add_logger impostor fresh) ≡ some standard
unfolding get_logger add_logger find_logger logger_exist insert_logger text_eq
first_stays = refl

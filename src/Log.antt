-- ===== src/Log.antt =====
-- The logging library, log_system/log_src.
pub mod Config
pub mod Util
pub mod Buffer
pub mod Worker
pub mod Message
pub mod Logger
pub mod Manager
pub mod Reading
pub mod Backup
pub mod Flush
pub mod Whole
pub mod ThreadPool

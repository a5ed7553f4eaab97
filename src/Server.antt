-- ===== src/Server.antt =====
-- The storage server, src/server.
pub mod Url
pub mod Zstd
pub mod Files
pub mod JsonUtil
pub mod Config
pub mod Data
pub mod World
pub mod Service
pub mod Page
pub mod Frame
pub mod Effect
pub mod Run
mod Examples

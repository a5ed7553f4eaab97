-- ===== src/Server/Run.antt =====
-- The run of the server: `Service` and `RunModule` of src/server/Service.hpp, and src/server/main.cpp.
-- libevent is a parameter: how its calls of the set-up end, and the requests that it dispatches.
pub mod Catalogue
pub mod Restart
pub mod Continue
mod Examples
use async_log_cloud_storage.Base.{
  ℕ, ◌+◌, ◌*◌, ◌%◌, ◌^◌, Bool, true, false, not, List, [], ◌∷◌, if◌then◌else◌, Text, codes, Outcome,
  ok, fail, null_pointer, ◌>>=◌,
}
use async_log_cloud_storage.Log.Config.{LogConfig}
use async_log_cloud_storage.Log.Flush.{new_roll_file_flush}
use async_log_cloud_storage.Log.Logger.{
  LoggerBuilder, AsyncLogger, roll_sink, new_logger_builder, build_name, build_logger_flush, build,
}
use async_log_cloud_storage.Log.Manager.{LoggerManager, new_logger_manager, add_logger}
use async_log_cloud_storage.Log.ThreadPool.{System, new_pool}
use async_log_cloud_storage.Server.Files.{Files}
use async_log_cloud_storage.Server.Config.{Config}
use async_log_cloud_storage.Server.Data.{new_data_manager}
use async_log_cloud_storage.Server.Service.{Request, Response, Server, World, Handled, gen_handler}
use async_log_cloud_storage.Server.Page.{list_show}

-- `Service`
pub record Service : Type 0 where
  pub server_port : ℕ
  pub server_ip : Text
  pub download_prefix : Text

-- The constructor; the port becomes a uint16_t.
unfoldable pub new_service : Config → Service
new_service c = record {
  server_port = c.server_port % 2 ^ 16;
  server_ip = c.server_ip;
  download_prefix = c.download_prefix;
}

-- How libevent's calls end.
pub record Libevent : Type 0 where
  pub makes_base : Bool
  pub makes_http : Bool
  -- whether the socket of this port can be bound
  pub binds : ℕ → Bool

-- `log_system_module_init`: the pool, with the number of the machine's threads for its maximum and a value
-- for the counter that nothing initialises, and the logger of the server.
unfoldable pub log_system_module_init :
    LogConfig → ℕ → ℕ → LoggerManager → Outcome (System × LoggerManager)
log_system_module_init c hardware stray m = do
  let named = build_name (codes "cloud_storage") new_logger_builder
  let rolled = new_roll_file_flush (codes "../log_system/logfile/RollFile_log") (1024 * 1024)
  built ← build (build_logger_flush (roll_sink rolled) named)
  ok (new_pool (c.thread_count % 2 ^ 32) hardware stray, add_logger built.1 m)

module _ (w : World) where
  -- `GenHandler` with the page.
  unfoldable pub handle : Request → Server → Handled
  handle req s = gen_handler w (list_show w) req s

  -- `event_base_dispatch` over the requests that come, one after the other.
  unfoldable pub dispatch : List Request → Server → Outcome (List Response × Server)
  dispatch [] s = ok ([], s)
  dispatch (req ∷ reqs) s = do r ← handle req s; rest ← dispatch reqs r.1; ok (r.0 ∷ rest.0, rest.1)

  -- `RunModule`, when the dispatch ends after these requests, for whatever reason: its result, the
  -- responses and the server. An `evhttp` that could not be made is a null pointer, which
  -- `evhttp_bind_socket` reads.
  unfoldable pub run_module :
      Libevent → List Request → Service → Server → Outcome (Bool × List Response × Server)
  run_module e reqs service s =
      if not e.makes_base
      then ok (false, [], s)
      else if not e.makes_http
      then fail null_pointer
      else if not (e.binds service.server_port)
      then ok (false, [], s)
      else dispatch reqs s >>= λ done. ok (true, done.0, done.1)

  -- `main`, from the files on: the responses and the files it leaves. The manager of the loggers is made
  -- at its first use. The configurations, read at their first use, are given. The log calls are left
  -- out: the run is one in which each of them finds room in the buffer of its logger's worker.
  unfoldable pub main :
      LogConfig → ℕ → ℕ → Libevent → List Request → Files → Outcome (List Response × Server)
  main c hardware stray e reqs fs = do
    loggers ← new_logger_manager
    logs ← log_system_module_init c hardware stray loggers
    made ← new_data_manager w.json w.disk w.config fs
    ran ← run_module e reqs (new_service w.config) (record { files = made.1; manager = made.0 })
    ok (ran.1, ran.2)

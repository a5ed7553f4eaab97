-- ===== src/Lib.antt =====
-- AsyncLog_CloudStorage: an asynchronous logging library (log_system/log_src) and a storage server over
-- HTTP (src/server) that logs with it.
--
-- The program's parts and their models:
--   * A logger formats a message and hands its bytes to an `AsyncWorker`, whose producers append them
--     to one `Buffer` while a consumer thread gives the other buffer to a callback.
--     Log.Buffer is `Buffer` of log_system/log_src/AsyncBuffer.hpp: `push` is `Push`, `to_be_enough` is
--     `ToBeEnough`, and so on by name; positions and sizes are size_t, with the wrap written out.
--     Log.Worker is `AsyncWorker` of log_system/log_src/AsyncWorker.hpp: `push` is one try of `Push`
--     under the mutex, `thread_entry` one step of `ThreadEntry`, `stop_worker` is `Stop` without the
--     join, and `Step` interleaves them. `System` records what was stored and what was delivered.
--     In it a wait is a step that is open while its predicate holds; Worker.Wakeup has the consumer's wait
--     in its parts, the test of the predicate and the block, with the notifications that end it.
--     Log.Config is `LogConfig` of log_system/log_src/Util.hpp, Log.Reading its constructor, and Log.Util the
--     functions of `File` there.
--     Log.Message is `LogMessage::format` of log_system/log_src/Message.hpp, Log.Logger is `AsyncLogger`
--     and `LoggerBuilder` of log_system/log_src/AsyncLogger.hpp, whose `RealFlush` is the callback, and
--     Log.Manager is `LoggerManager` of log_system/log_src/Manager.hpp.
--     Log.Flush is `FileFlush` and `RollFileFlush` of log_system/log_src/LogFlush.hpp: constructor, `Flush`
--     and destructor, over files that are appended to and streams that hold bytes back.
--     Log.Whole puts the worker, the rolled files and the format together.
--   * Messages of the levels ERROR and FATAL are sent to a backup server by a task of a thread pool.
--     Log.ThreadPool is `ThreadPool` of log_system/log_src/ThreadPool.cpp: `worker` and `manager` are one
--     step of the thread's function, `Step` interleaves them with those who add tasks and with the
--     destructor, whose joins are `joins_return`, for as many threads as it has found in `m_workers`; each
--     counter changes in a step of its own. A wait may end at any time, so the notifications are left out,
--     and nothing is stated of when a wait ends. A future of the template `addTask` is the number of its task
--     (`submit`). Log.Backup is `send_backlog` and the service of the server in
--     log_system/log_src/backlog_code, and Backup.Program that server's set-up and `main`.
--     Whole.Backlog puts the logger, `send_backlog` and that server together.
--   * The server decodes a request's path (Server.Url, of src/server/Util.hpp), and its handlers
--     (Server.Service, of src/server/Service.hpp) store a file, plain or packed by zstd (Server.Zstd, of
--     src/server/zstd_wrapper.h), by FileUtil (Server.Files, of src/server/Util.hpp), and keep a
--     table of the files (Server.Data, of src/server/DataManager.hpp) that is written to a JSON file
--     after each change and read at the start. Server.Page is `ListShow` with its page: Page.Format is the
--     `std::regex_replace` of C++ and Page.Size is `formatSize`. Server.Run is `RunModule` and
--     src/server/main.cpp: it hands the requests of libevent to the handlers one by one; the
--     configurations are given (Server.Config and Log.Reading read them). Server.Frame and
--     Server.Effect say what each handler leaves alone, for Run.Catalogue and Run.Restart. Data.Order is
--     about the order of the unordered map, of which the model's association list has only one.
--     Data.Locks has several threads call `Insert` and `Update`, with the read-write lock.
--     Server.Config is `ReadConfig` and the constructor of src/server/Config.hpp, and Server.JsonUtil is
--     `JsonUtil` of src/server/Util.hpp.
--   * A load test compares the logger with one that writes at once. TestLogger is src/server/TestLogger.cpp:
--     `SyncLogger`, the calls of both kinds and the set-up of `main`; TestLogger.Threads interleaves the
--     threads of the synchronous part, each with a logger of its own on one file, and
--     TestLogger.AsyncThreads those of the asynchronous part with the worker of their logger.
--
-- What is not in the repository is an argument: JsonCpp (Json, with its laws and, in Json.Example, a
-- library that has them), zstd (`Zstd`, `ZstdLaws`), the answers of the file system (`Disk`), libevent
-- (`Libevent` and the list of requests), the vendored base64, `ctime` and the memory that nothing
-- initialised (`World`), the sockets (`Network`, `Sockets`).
--
-- Failures are values of `Outcome`: a failed assert, an exception, and undefined behaviour such as a
-- write outside of an array, which ends the run. Loops are structural, or recurse over the number
-- of rounds that the loop's condition allows, as in `load_items` and `connect_from`. `digits_onto`
-- has fuel: n + 1 divisions for the number n, which has at most n + 1 digits. `excess_bits` halves at most
-- 11 times, which is how much longer a uint64_t is than a double's 53 bits.
--
-- Not modelled: the log calls of the server, which change none of its state, but
-- wait for ever if their message does not fit into the buffer of the worker (Log.Worker.Full, Log.Reading), so
-- that a run of the server is one in which each fits; the lock of the table in the
-- handlers, since libevent calls them from one thread, so that each operation runs alone (Data.Locks drops
-- that for `Insert` and `Update`, and leaves out the orders of the parts of two writes of the file); the
-- mutex of the logger manager; the values of tasks and of their futures; what fsync adds to fflush; whether a missing
-- directory is what keeps a log file from being opened; an allocation that fails for want of memory; the
-- singletons, which are arguments; the vendored src/server/base64.cpp, which is a copy of cpp-base64; of
-- the load test, the times and the rates that are printed, and the order of its parts.
mod Base
pub mod Json
pub mod Log
pub mod Server
pub mod TestLogger

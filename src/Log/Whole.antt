-- ===== src/Log/Whole.antt =====
-- The way of log messages through AsyncWorker.hpp and LogFlush.hpp of log_system/log_src: from the calls
-- of `Push` to the lines of the rolled files.
mod Examples
pub mod Backlog
use mathlib.Core.Path.{subst}
use async_log_cloud_storage.Base.{
  ℕ, ◌+◌, ◌^◌, ◌<◌, ◌≡◌, refl, sym, ap, ◌∙◌, List, [], ◌∷◌, ◌++◌, map, flatten, length, Text,
  Outcome, ok,
}
use async_log_cloud_storage.Log.Config.{LogConfig}
use async_log_cloud_storage.Log.Worker.{async_safe, drained, Worker, new_worker, System, Reach}
use async_log_cloud_storage.Log.Worker.Finish.{drained_complete}
use async_log_cloud_storage.Log.Flush.{
  LogFiles, Device, Tm, RollFileFlush, new_roll_file_flush, roll_file_flushes, end_roll_file_flush,
}
use async_log_cloud_storage.Log.Flush.Streams.{TakesAll}
use async_log_cloud_storage.Log.Flush.Rolled.{contents, Unused}
use async_log_cloud_storage.Log.Flush.Life.{given, AllShort, rolled_complete}
use async_log_cloud_storage.Log.Message.{LogMessage, format}
use async_log_cloud_storage.Log.Message.Lines.{lines, AllOneLine, lines-format}

-- The messages `ms` were stored in a worker of type ASYNC_SAFE whose thread has returned from its
-- end test, and the callback handed each delivered text, at some time, to one RollFileFlush that is
-- then destroyed. Over a system that opens every file and takes every byte, and where no file has
-- a name that the flusher can give, the new files, cut behind each line break, are the formatted
-- messages, in order, if their texts have no line break.
pub logged_lines :
    (c : LogConfig) (d : Device) (w : Worker) (s : System) (ms : List LogMessage) (basename : Text)
    (max_size longest : ℕ) (calls : List (Tm × Text)) (old : LogFiles)
    → TakesAll d
    → new_worker c async_safe ≡ ok w
    → Reach c w s
    → s.worker.consumer ≡ drained
    → s.accepted ≡ map format ms
    → AllOneLine ms
    → map (λ e. e.1) calls ≡ s.delivered
    → AllShort longest calls
    → max_size + longest < 2 ^ 64
    → 1 + length calls < 2 ^ 64
    → Unused basename 1 old
    → (r : RollFileFlush) × (files made : LogFiles) × (roll_file_flushes c d calls
          (new_roll_file_flush basename max_size)
          old
        ≡ ok (r, files))
      × ((end_roll_file_flush r files).1 ≡ old ++ made)
      × (lines [] (contents made) ≡ map format ms)
logged_lines c d w s ms basename max_size longest calls old all made_w r done stored one handed
      short fits names unused =
    let (f, files, made, ran, left, all_there, small) =
      rolled_complete c d all basename max_size longest calls old short fits names unused in
    let whole : contents made ≡ flatten (map format ms) =
      all_there ∙ ap flatten handed ∙ drained_complete c w s made_w r done ∙ ap flatten stored in
    (f, files, made, ran, left, ap (λ (t : Text). lines [] t) whole ∙ lines-format ms one)

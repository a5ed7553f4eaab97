-- ===== src/Log/Flush/Examples.antt =====
-- Runs of the flushers of log_system/log_src/LogFlush.hpp.
use async_log_cloud_storage.Base.{
  ◌≡◌, refl, true, [], ◌∷◌, codes, some, ok, arith, text_eq, to_string,
}
use async_log_cloud_storage.Log.Config.{LogConfig}
use async_log_cloud_storage.Log.Flush.{
  LogFiles, Device, Tm, RollFileFlush, new_roll_file_flush, roll_file_flushes, end_roll_file_flush,
  new_file_flush, file_flushes, end_file_flush, find_log, roll_file_flush, roll_write,
  init_log_file, next_log_file, open_append, create_log_file_name, flush_by_config, flush_stream,
  write_stream, append_log, log_name, close_stream, stamped,
}
use async_log_cloud_storage.Log.Flush.Streams.{TakesAll}
use async_log_cloud_storage.Log.Flush.Rolled.{contents, AllAtMost}
use async_log_cloud_storage.Log.Flush.Life.{rolled_complete}
use async_log_cloud_storage.Log.Flush.Single.{appended_complete}
use async_log_cloud_storage.Log.Flush.Opened.{text_of}

abbrev flushing : LogConfig
flushing = record {
  buffer_size = 8;
  threshold = 16;
  linear_growth = 4;
  flush_log = 1;
  backup_addr = codes "127.0.0.1";
  backup_port = 8080;
  thread_count = 2;
}

-- One byte is passed on early.
abbrev eager : Device
eager = record { opens = λ p. true; takes = λ p n. n; spills = λ held. 1 }

eager-TakesAll : TakesAll eager
eager-TakesAll = record { opens_all = λ p. refl; takes_all = λ p n. refl }

abbrev noon : Tm
noon = record { tm_year = 125; tm_mon = 8; tm_mday = 4; tm_hour = 12; tm_min = 0; tm_sec = 0 }

-- The second file begins with the call after the one that reached the size.
rolled_run :
    (r : RollFileFlush) × (roll_file_flushes flushing eager
        ((noon, codes "ab") ∷ (noon, codes "cd") ∷ (noon, codes "e") ∷ [])
        (new_roll_file_flush (codes "log") 3)
        []
      ≡ ok (
        r,
        (codes "log2025941311-1.log", codes "abcd") ∷ (codes "log2025941311-2.log", codes "e") ∷ [],
      ))
unfolding roll_file_flushes roll_file_flush roll_write init_log_file new_roll_file_flush
    next_log_file open_append create_log_file_name flush_by_config flush_stream write_stream
    append_log log_name close_stream stamped text_eq to_string
rolled_run = (
  record {
    fs = some (record { name = codes "log2025941311-2.log"; buffered = [] });
    max_size = 3;
    cur_size = 1;
    cnt = 3;
    basename = codes "log";
  },
  refl,
)

rolled_complete_example :
    (r : RollFileFlush) × (files made : LogFiles) × (roll_file_flushes flushing eager
        ((noon, codes "ab") ∷ (noon, codes "cd") ∷ (noon, codes "e") ∷ [])
        (new_roll_file_flush (codes "log") 3)
        []
      ≡ ok (r, files))
    × ((end_roll_file_flush r files).1 ≡ made)
    × (contents made ≡ codes "abcde")
    × AllAtMost 5 made
unfolding find_log
rolled_complete_example =
    rolled_complete flushing eager eager-TakesAll (codes "log") 3 2
      ((noon, codes "ab") ∷ (noon, codes "cd") ∷ (noon, codes "e") ∷ []) []
      (omega arith, (omega arith, (omega arith, tt))) (omega arith) (omega arith) (λ t k h. refl)

appended_complete_example :
    find_log (codes "f") (
      let (f, files) = new_file_flush eager (codes "f") ((codes "f", codes "x") ∷ []) in
      let (f1, files1) = file_flushes flushing eager (codes "ab" ∷ codes "c" ∷ []) f files in
      (end_file_flush f1 files1).1)
    ≡ some (codes "xabc")
unfolding text_eq text_of find_log
appended_complete_example =
    appended_complete flushing eager eager-TakesAll (codes "f") (codes "ab" ∷ codes "c" ∷ [])
      ((codes "f", codes "x") ∷ []) (codes "f")

-- ===== src/Log/Whole/Examples.antt =====
-- One message on its way through AsyncWorker.hpp and LogFlush.hpp of log_system/log_src.
use async_log_cloud_storage.Base.{
  ◌≡◌, refl, true, false, [], ◌∷◌, ◌++◌, replicate, Text, codes, ok, arith, to_string, resize,
  overwrite,
}
use async_log_cloud_storage.Log.Config.{LogConfig}
use async_log_cloud_storage.Log.Buffer.{
  Buffer, new_buffer, resize_to, writeable_size, push as push_bytes, is_empty, swap, begin_readable,
  reset,
}
use async_log_cloud_storage.Log.Worker.{
  async_safe, looping, waiting, swapped, called, emptied, drained, Worker, new_worker, System,
  Reach, begins, later, producer_stores, consumer_runs, stops, push, store, thread_entry,
  stop_worker,
}
use async_log_cloud_storage.Log.Flush.{
  LogFiles, Device, Tm, RollFileFlush, new_roll_file_flush, roll_file_flushes, end_roll_file_flush,
  find_log,
}
use async_log_cloud_storage.Log.Flush.Streams.{TakesAll}
use async_log_cloud_storage.Log.Flush.Rolled.{contents}
use async_log_cloud_storage.Log.Message.{
  LogMessage, info, format, header, date_time, two_digits, level_string,
}
use async_log_cloud_storage.Log.Message.Lines.{lines, OneLine}
use async_log_cloud_storage.Log.Whole.{logged_lines}

abbrev wide : LogConfig
wide = record {
  buffer_size = 50;
  threshold = 100;
  linear_growth = 10;
  flush_log = 0;
  backup_addr = codes "127.0.0.1";
  backup_port = 8080;
  thread_count = 2;
}

abbrev lazy : Device
lazy = record { opens = λ p. true; takes = λ p n. n; spills = λ held. 0 }

lazy-TakesAll : TakesAll lazy
lazy-TakesAll = record { opens_all = λ p. refl; takes_all = λ p n. refl }

abbrev noon : Tm
noon = record { tm_year = 125; tm_mon = 8; tm_mday = 4; tm_hour = 12; tm_min = 0; tm_sec = 0 }

abbrev greeting : LogMessage
greeting = record {
  level = info;
  filename = codes "f";
  line = 1;
  timestamp = noon;
  message = codes "hi";
  logger_name = codes "a";
  tid = codes "1";
}

greeting-OneLine : OneLine greeting
greeting-OneLine = record {
  in_file = ground arith;
  in_message = ground arith;
  in_name = ground arith;
  in_tid = ground arith;
}

abbrev text : Text
text = codes "[2025-09-04 12:00:00][1][INFO][a][f:1]\thi\n"

greeting_text : format greeting ≡ text
unfolding format header date_time to_string two_digits level_string
greeting_text = refl

abbrev unfilled : Buffer
unfilled = record { buffer = replicate 50 0; write_pos = 0; read_pos = 0 }

abbrev filled : Buffer
filled = record { buffer = text ++ replicate 8 0; write_pos = 42; read_pos = 0 }

abbrev fresh : Worker
fresh = record {
  buffer_productor = unfilled;
  buffer_consumer = unfilled;
  async_type = async_safe;
  stop = false;
  consumer = looping;
}

fresh_made : new_worker wide async_safe ≡ ok fresh
unfolding new_worker new_buffer resize_to resize
fresh_made = refl

abbrev finished : System
finished = record {
  worker = record fresh {
    buffer_consumer = record filled { write_pos = 0 };
    stop = true;
    consumer = drained;
  };
  accepted = text ∷ [];
  delivered = text ∷ [];
}

finished_reached : Reach wide fresh finished
unfolding push writeable_size store push_bytes overwrite thread_entry stop_worker is_empty swap
    begin_readable reset
finished_reached =
    later
      (later
        (later
          (later
            (later
              (later
                (later begins
                  (producer_stores text (record fresh { buffer_productor = filled }) refl))
                (consumer_runs (record fresh { buffer_productor = filled; consumer = waiting }) []
                  refl))
              stops)
            (consumer_runs
              (record fresh { buffer_consumer = filled; stop = true; consumer = swapped }) [] refl))
          (consumer_runs (record fresh { buffer_consumer = filled; stop = true; consumer = called })
            (text ∷ []) refl))
        (consumer_runs
          (record fresh {
            buffer_consumer = record filled { write_pos = 0 };
            stop = true;
            consumer = emptied;
          })
          [] refl))
      (consumer_runs finished.worker [] refl)

logged_lines_example :
    (r : RollFileFlush) × (files made : LogFiles) × (roll_file_flushes wide lazy
        ((noon, text) ∷ [])
        (new_roll_file_flush (codes "log") 1024)
        []
      ≡ ok (r, files))
    × ((end_roll_file_flush r files).1 ≡ made)
    × (lines [] (contents made) ≡ format greeting ∷ [])
unfolding format header date_time to_string two_digits level_string find_log
logged_lines_example =
    logged_lines wide lazy fresh finished (greeting ∷ []) (codes "log") 1024 50 ((noon, text) ∷ [])
      [] lazy-TakesAll fresh_made finished_reached refl refl (greeting-OneLine, tt) refl
      (omega arith, tt) (omega arith) (omega arith) (λ t k h. refl)

-- ===== src/TestLogger/AsyncExamples.antt =====
-- A run of one thread of the asynchronous part of src/server/TestLogger.cpp.
use async_log_cloud_storage.Base.{
  replaced, ℕ, ◌<◌, ◌≡◌, refl, true, false, [], ◌∷◌, flatten, length, Text, codes, replicate,
  resize, overwrite, c_str, to_string, arith, ok,
}
use async_log_cloud_storage.Log.Config.{LogConfig}
use async_log_cloud_storage.Log.Buffer
use async_log_cloud_storage.Log.Buffer.{Buffer, new_buffer}
use async_log_cloud_storage.Log.Message.{format, header, date_time, two_digits, level_string}
use async_log_cloud_storage.Log.Logger.{log_at, serialize, is_backed_up}
use async_log_cloud_storage.Log.Worker.{
  async_safe, looping, waiting, swapped, called, emptied, drained, Worker, new_worker, push, store,
  thread_entry, stop_worker, start,
}
use async_log_cloud_storage.Log.Worker
use async_log_cloud_storage.TestLogger.Calls.{Call, indices_of, upto}
use async_log_cloud_storage.TestLogger.AsyncThreads.{
  System, async_thread_text, thread_info, info_step, logs, consumes, stops, Reach, begins, later,
}
use async_log_cloud_storage.TestLogger.AsyncThreads.Order.{async_line_of, async_lines_in_order}

abbrev roomy : LogConfig
roomy = record {
  buffer_size = 128;
  threshold = 256;
  linear_growth = 4;
  flush_log = 1;
  backup_addr = codes "127.0.0.1";
  backup_port = 8081;
  thread_count = 3;
}

abbrev empty_buffer : Buffer
empty_buffer = record { buffer = replicate 128 0; write_pos = 0; read_pos = 0 }

abbrev idle_worker : Worker
idle_worker = record {
  buffer_productor = empty_buffer;
  buffer_consumer = empty_buffer;
  async_type = async_safe;
  stop = false;
  consumer = looping;
}

idle_made : new_worker roomy async_safe ≡ ok idle_worker
unfolding new_worker new_buffer Buffer.resize_to resize
idle_made = refl

abbrev only_call : Call
only_call = record {
  thread = 0;
  index = 0;
  now = record { tm_year = 125; tm_mon = 8; tm_mday = 4; tm_hour = 12; tm_min = 0; tm_sec = 0 };
}

abbrev only_line : Text
only_line = async_line_of (λ t. codes "7") (codes "T.cpp") 187 only_call

abbrev line_buffer : ℕ → Buffer
line_buffer end = record {
  buffer = overwrite 0 only_line (replicate 128 0);
  write_pos = end;
  read_pos = 0;
}

-- The consumer waits; the line is stored.
abbrev holding : Worker
holding = record idle_worker {
  buffer_productor = line_buffer (length only_line);
  consumer = waiting;
}

-- After the stop the consumer has the line.
abbrev taking : Worker
taking = record idle_worker {
  buffer_consumer = line_buffer (length only_line);
  stop = true;
  consumer = swapped;
}

abbrev handed : Worker
handed = record idle_worker { buffer_consumer = line_buffer 0; stop = true; consumer = emptied }

abbrev ended : System
ended = record {
  logger = record {
    worker = record handed { consumer = drained };
    accepted = only_line ∷ [];
    delivered = only_line ∷ [];
  };
  next = replaced 0 1 (λ t. 0);
  calls = only_call ∷ [];
}

ended_reached : Reach roomy (λ t. codes "7") (codes "T.cpp") 187 1 1 (start idle_worker) ended
unfolding thread_entry stop_worker info_step thread_info async_thread_text log_at serialize
    is_backed_up format header date_time two_digits level_string to_string c_str push store
    Buffer.push overwrite Buffer.writeable_size Buffer.is_empty Buffer.swap Buffer.begin_readable
    Buffer.reset
ended_reached =
    later
      (later
        (later
          (later
            (later
              (later (later begins (consumes (record idle_worker { consumer = waiting }) [] refl))
                (logs only_call only_line holding (omega arith) refl (omega arith) refl refl))
              (stops (λ t small. ground arith)))
            (consumes taking [] refl))
          (consumes (record taking { consumer = called }) (only_line ∷ []) refl))
        (consumes handed [] refl))
      (consumes (record handed { consumer = drained }) [] refl)

async_lines_in_order_example :
    (flatten ended.logger.delivered ≡ flatten (only_line ∷ []))
    × ((t : ℕ) → t < 1 → indices_of t (only_call ∷ []) ≡ upto 1)
async_lines_in_order_example =
    async_lines_in_order (λ t. codes "7") (codes "T.cpp") 187 roomy 1 1 idle_worker
      (start idle_worker) idle_made Worker.Reach.begins refl ended ended_reached refl

-- ===== src/TestLogger/Examples.antt =====
-- Small runs of src/server/TestLogger.cpp.
use async_log_cloud_storage.Base.{
  replaced, ℕ, ◌+◌, ◌*◌, ◌≡◌, refl, true, [], ◌∷◌, map, flatten, length, codes, ok, c_str,
  to_string, arith,
}
use async_log_cloud_storage.Log.Flush.{LogFiles, Device, Tm}
use async_log_cloud_storage.Log.Flush.Streams.{TakesAll}
use async_log_cloud_storage.Log.Message.{date_time, two_digits}
use async_log_cloud_storage.Log.Logger.{pushes}
use async_log_cloud_storage.TestLogger.Async.{async_lines}
use async_log_cloud_storage.TestLogger.Throughput.{test_throughput_comparison-Grown}
use async_log_cloud_storage.TestLogger.{
  sync_throughput_file, test_throughput_comparison, new_sync_logger, inf_a, sync_line, sampled,
  sum_sizes, total_bytes, calculate_log_message_size,
}
use async_log_cloud_storage.TestLogger.Sync.{ready, Grown, sync_lines}
use async_log_cloud_storage.TestLogger.Threads.{
  System, starting, done, sync_file, thread_text, call_step, open_step, constructs, logs, ends,
  Reach, begins, later,
}
use async_log_cloud_storage.TestLogger.Calls.{Call, indices_of, upto}
use async_log_cloud_storage.TestLogger.Threads.Order.{line_of, made, lines_in_order}

abbrev easy : Device
easy = record { opens = λ p. true; takes = λ p n. n; spills = λ held. 0 }

easy-TakesAll : TakesAll easy
easy-TakesAll = record { opens_all = λ p. refl; takes_all = λ p n. refl }

abbrev noon : Tm
noon = record { tm_year = 125; tm_mon = 8; tm_mday = 4; tm_hour = 12; tm_min = 0; tm_sec = 0 }

test_throughput_comparison-Grown_example :
    (files : LogFiles) × (test_throughput_comparison easy
        (λ i. noon)
        (λ i. noon)
        (codes "7")
        (codes "T.cpp")
        117
        2
        []
      ≡ ok (map pushes (async_lines (λ i. noon) (codes "7") (codes "T.cpp") 117 2), files))
    × Grown sync_throughput_file (flatten (sync_lines (λ i. noon) 2)) [] files
    × (length (flatten (sync_lines (λ i. noon) (sampled 2))) ≡ total_bytes 2 + 29 * sampled 2)
unfolding date_time to_string two_digits
test_throughput_comparison-Grown_example =
    test_throughput_comparison-Grown easy (λ i. noon) (λ i. noon) (codes "7") (codes "T.cpp") 117 2
      [] easy-TakesAll (omega arith) (λ i. refl)

counted : total_bytes 2 ≡ 32
unfolding total_bytes sampled sum_sizes calculate_log_message_size c_str to_string
counted = refl

-- Two threads of one call each, the second first.
abbrev first : System
first = record { files = []; stage = λ t. starting; calls = [] }

abbrev call_0 : Call
call_0 = record { thread = 0; index = 0; now = noon }

abbrev call_1 : Call
call_1 = record { thread = 1; index = 0; now = noon }

abbrev both_open : System
both_open = open_step easy 1 (open_step easy 0 first)

abbrev both_called : System
both_called =
    call_step easy call_0 (ready sync_file) (call_step easy call_1 (ready sync_file) both_open)

abbrev both_ended : System
both_ended = record both_called { stage = replaced 1 done (replaced 0 done both_called.stage) }

both_reached : Reach easy 2 1 [] both_ended
unfolding open_step call_step new_sync_logger inf_a sync_line date_time to_string two_digits c_str
    thread_text
both_reached =
    later
      (later
        (later
          (later
            (later (later begins (constructs 0 (omega arith) refl))
              (constructs 1 (omega arith) refl))
            (logs call_1 (ready sync_file) (omega arith) refl (omega arith)))
          (logs call_0 (ready sync_file) (omega arith) refl (omega arith)))
        (ends 0 (ready sync_file) refl))
      (ends 1 (ready sync_file) refl)

lines_in_order_example :
    Grown sync_file (flatten (map line_of (call_1 ∷ call_0 ∷ []))) [] both_ended.files
    × ((t : ℕ) → indices_of t (call_1 ∷ call_0 ∷ []) ≡ upto (made 1 (both_ended.stage t)))
unfolding open_step call_step
lines_in_order_example =
    lines_in_order easy easy-TakesAll 2 1 [] (omega arith) (omega arith) both_ended both_reached

-- ===== src/TestLogger/Throughput.antt =====
-- `test_throughput_comparison` of src/server/TestLogger.cpp.
use async_log_cloud_storage.Base.{ℕ, ◌+◌, ◌*◌, ◌≤◌, ◌≡◌, refl, map, flatten, length, Text, ok}
use async_log_cloud_storage.Log.Flush.{LogFiles, Device, Tm}
use async_log_cloud_storage.Log.Flush.Streams.{TakesAll}
use async_log_cloud_storage.Log.Message.{date_time}
use async_log_cloud_storage.Log.Logger.{pushes}
use async_log_cloud_storage.TestLogger.{
  sampled, total_bytes, new_sync_logger, sync_calls, sync_throughput_file,
  test_throughput_comparison,
}
use async_log_cloud_storage.TestLogger.Async.{async_lines, async_calls-pushes}
use async_log_cloud_storage.TestLogger.Sync.{Grown, sync_lines, sync_calls-Grown}

-- Over a system that opens every file and takes every byte, the test with `log_count` calls of each kind
-- returns. It pushes the lines of its asynchronous calls to the worker, in order, and sends none to the
-- backup server. The file of its synchronous calls has grown by their lines, in order and none cut, and
-- every other file is as it was. With dates of 19 characters the lines of the first of them, as many as the
-- test takes for its sample (`log_count`, and 1000 at most), are 29 bytes for each longer than the size
-- that the test counts for the sample, which is that of the texts of the asynchronous calls.
pub test_throughput_comparison-Grown :
    (d : Device) (async_clock sync_clock : ℕ → Tm) (tid file : Text) (line log_count : ℕ)
    (old : LogFiles)
    → TakesAll d
    → log_count ≤ 10000000000
    → ((i : ℕ) → length (date_time (sync_clock i)) ≡ 19)
    → (files : LogFiles) × (test_throughput_comparison d async_clock sync_clock tid file line
          log_count old
        ≡ ok (map pushes (async_lines async_clock tid file line log_count), files))
      × Grown sync_throughput_file (flatten (sync_lines sync_clock log_count)) old files
      × (length (flatten (sync_lines sync_clock (sampled log_count)))
          ≡ total_bytes log_count + 29 * sampled log_count)
unfolding test_throughput_comparison
test_throughput_comparison-Grown d async_clock sync_clock tid file line log_count old all small
      dated =
    let opened = new_sync_logger d sync_throughput_file old in
    let (grown, counted) =
      sync_calls-Grown d all sync_clock log_count sync_throughput_file old small dated in
    (
      (sync_calls d sync_clock log_count opened.0 opened.1).1,
      rw (async_calls-pushes async_clock tid file line log_count) refl,
      grown,
      counted,
    )

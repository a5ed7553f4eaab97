-- ===== src/Log/Reading/Examples.antt =====
-- A program that finds no configuration file, over the example of a JSON library.
use async_log_cloud_storage.Base.{◌≡◌, refl, false, [], codes, ok, out_of_bounds, arith, resize}
use async_log_cloud_storage.Json.Example.{
  example_json, parse, decode, member, as_int64, as_int, as_string,
}
use async_log_cloud_storage.Log.Buffer.{Buffer, new_buffer, resize_to}
use async_log_cloud_storage.Log.Worker.{async_unsafe, looping, Worker, new_worker, failed, push}
use async_log_cloud_storage.Log.Reading.{missing, new_log_config, NullLaws, zeros, unconfigured}

example_json-NullLaws : NullLaws example_json
unfolding parse decode member as_int64 as_int as_string
example_json-NullLaws = record {
  parse-nil = refl;
  member-null = λ k. refl;
  as_int64-null = refl;
  as_int-null = refl;
  as_string-null = refl;
}

abbrev without : Buffer
without = record { buffer = []; write_pos = 0; read_pos = 0 }

abbrev stuck : Worker
stuck = record {
  buffer_productor = without;
  buffer_consumer = without;
  async_type = async_unsafe;
  stop = false;
  consumer = looping;
}

stuck_made : new_worker zeros async_unsafe ≡ ok stuck
unfolding new_worker new_buffer resize_to resize
stuck_made = refl

unconfigured_example :
    (new_log_config example_json missing ≡ ok zeros)
    × (push zeros (codes "a") stuck ≡ failed out_of_bounds)
unconfigured_example =
    unconfigured example_json async_unsafe stuck (codes "a") example_json-NullLaws stuck_made
      (λ e. absurd (ground arith))

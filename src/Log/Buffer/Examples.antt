-- ===== src/Log/Buffer/Examples.antt =====
-- The buffer of AsyncBuffer.hpp on small inputs.
use async_log_cloud_storage.Base.{
  ◌^◌, ◌≡◌, refl, [], ◌∷◌, ◌++◌, length, codes, ok, fail, out_of_bounds, length_error, arith,
  resize, overwrite,
}
use async_log_cloud_storage.Log.Config.{LogConfig}
use async_log_cloud_storage.Log.Buffer.{
  Buffer, writeable_size, grown_size, push, begin_readable, resize_to,
}
use async_log_cloud_storage.Log.Buffer.Contents.{
  IsValid, contents, capacity, push-contents, push-length_error,
}
use async_log_cloud_storage.Log.Buffer.Growth.{push-overrun}

abbrev small : LogConfig
small = record {
  buffer_size = 4;
  threshold = 16;
  linear_growth = 4;
  flush_log = 1;
  backup_addr = codes "127.0.0.1";
  backup_port = 8081;
  thread_count = 3;
}

-- Four bytes, of which one is read and two are written.
abbrev two_in : Buffer
two_in = record { buffer = 7 ∷ 8 ∷ 0 ∷ 0 ∷ []; write_pos = 2; read_pos = 1 }

two_in-IsValid : IsValid two_in
two_in-IsValid = omega arith

pushed_run :
    push small (5 ∷ 6 ∷ 7 ∷ []) two_in
    ≡ ok (record { buffer = 7 ∷ 8 ∷ 5 ∷ 6 ∷ 7 ∷ 0 ∷ 0 ∷ 0 ∷ []; write_pos = 5; read_pos = 1 })
unfolding push resize_to resize overwrite
pushed_run = refl

read_run : begin_readable two_in ≡ ok (8 ∷ [])
unfolding begin_readable
read_run = refl

push-contents_example :
    (b' : Buffer) × (push small (5 ∷ 6 ∷ 7 ∷ []) two_in ≡ ok b')
    × IsValid b'
    × (contents b' ≡ contents two_in ++ 5 ∷ 6 ∷ 7 ∷ [])
    × (length b'.buffer ≡ capacity small 3 two_in)
unfolding capacity writeable_size grown_size
push-contents_example =
    push-contents small (5 ∷ 6 ∷ 7 ∷ []) two_in two_in-IsValid (omega arith) (omega arith)

push-overrun_example : push small (1 ∷ 2 ∷ 3 ∷ 4 ∷ 5 ∷ 6 ∷ 7 ∷ []) two_in ≡ fail out_of_bounds
unfolding grown_size
push-overrun_example =
    push-overrun small (1 ∷ 2 ∷ 3 ∷ 4 ∷ 5 ∷ 6 ∷ 7 ∷ []) two_in two_in-IsValid (omega arith)
      (omega arith)

abbrev huge : LogConfig
huge = record small { threshold = 0; linear_growth = 2 ^ 63 }

grows_too_far : push huge (1 ∷ 2 ∷ []) two_in ≡ fail length_error
unfolding capacity writeable_size grown_size
grows_too_far = push-length_error huge (1 ∷ 2 ∷ []) two_in two_in-IsValid (omega arith)

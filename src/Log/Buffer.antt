-- ===== src/Log/Buffer.antt =====
-- `mylog::Buffer` of log_system/log_src/AsyncBuffer.hpp, with size_t arithmetic written out.
pub mod Contents
pub mod Growth
mod Examples
use async_log_cloud_storage.Base.{
  ℕ, ◌+◌, ◌-◌, ◌*◌, ◌%◌, ◌^◌, ◌≤◌, ◌<◌, ◌≡◌, refl, Bool, true, false, List, [], ltb, leb, ◌==◌,
  if◌then◌else◌, length, take, drop, replicate, resize, overwrite, Text, Outcome, ok, fail,
  out_of_bounds, length_error, assertion, ◌>>=◌,
}
use async_log_cloud_storage.Log.Config.{LogConfig}

pub record Buffer : Type 0 where
  pub buffer : List ℕ
  pub write_pos : ℕ
  pub read_pos : ℕ

-- size_t `a + b` and `a - b`.
abbrev pub add64 : ℕ → ℕ → ℕ
add64 a b = (a + b) % 2 ^ 64

abbrev pub sub64 : ℕ → ℕ → ℕ
sub64 a b = (a + 2 ^ 64 - b) % 2 ^ 64

-- `std::vector<char>::max_size()`.
abbrev pub max_size : ℕ
max_size = 2 ^ 63 - 1

-- `buffer_.resize(n)`; a memory that is exhausted is not modelled.
unfoldable pub resize_to : ℕ → List ℕ → Outcome (List ℕ)
resize_to n xs = if ltb max_size n then fail length_error else ok (resize 0 n xs)

unfoldable pub new_buffer : LogConfig → Outcome Buffer
new_buffer c = do
  fresh ← resize_to c.buffer_size []
  ok (record { buffer = fresh; write_pos = 0; read_pos = 0 })

unfoldable pub is_empty : Buffer → Bool
is_empty b = b.write_pos == b.read_pos

unfoldable pub writeable_size : Buffer → ℕ
writeable_size b = sub64 (length b.buffer) b.write_pos

unfoldable pub readable_size : Buffer → ℕ
readable_size b = sub64 b.write_pos b.read_pos

-- What a reader gets who reads `ReadableSize()` bytes from `Begin()`.
unfoldable pub begin_readable : Buffer → Outcome Text
unfolding readable_size
begin_readable b =
    if leb (b.read_pos + readable_size b) (length b.buffer)
    then ok (take (readable_size b) (drop b.read_pos b.buffer))
    else fail out_of_bounds

-- `ReadBegin(len)`: the position to read from.
unfoldable pub read_begin : ℕ → Buffer → Outcome ℕ
unfolding readable_size
read_begin len b =
    if leb len (readable_size b)
    then if ltb b.read_pos (length b.buffer) then ok b.read_pos else fail out_of_bounds
    else fail assertion

unfoldable pub swap : Buffer → Buffer → Buffer × Buffer
swap a b = (
  record { buffer = b.buffer; write_pos = b.write_pos; read_pos = b.read_pos },
  record { buffer = a.buffer; write_pos = a.write_pos; read_pos = a.read_pos },
)

unfoldable pub reset : Buffer → Buffer
reset b = record b { write_pos = 0; read_pos = 0 }

-- The capacity that `ToBeEnough` asks for when it grows a buffer of `size` bytes.
unfoldable pub grown_size : LogConfig → ℕ → ℕ
grown_size c size =
    if ltb size c.threshold then add64 (1 * size) size else add64 c.linear_growth size

unfoldable pub to_be_enough : LogConfig → ℕ → Buffer → Outcome Buffer
unfolding writeable_size grown_size
to_be_enough c len b =
    if leb (writeable_size b) len
    then (do
      grown ← resize_to (grown_size c (length b.buffer)) b.buffer
      ok (record b { buffer = grown }))
    else ok b

-- The copy of `Push`, with the write outside of the array as a failure.
unfoldable pub copy_in : Text → Buffer → Outcome Buffer
copy_in bytes b =
    if leb (b.write_pos + length bytes) (length b.buffer)
    then ok (record b {
      buffer = overwrite b.write_pos bytes b.buffer;
      write_pos = add64 b.write_pos (length bytes);
    })
    else fail out_of_bounds

unfoldable pub push : LogConfig → Text → Buffer → Outcome Buffer
unfolding to_be_enough copy_in
push c bytes b = do roomy ← to_be_enough c (length bytes) b; copy_in bytes roomy

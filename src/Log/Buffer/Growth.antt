-- ===== src/Log/Buffer/Growth.antt =====
-- The growth policy of AsyncBuffer.hpp: it doubles below the threshold, then adds a constant, and it
-- grows once. That is enough for a message that fits the free space, and may not be for a larger one.
use async_log_cloud_storage.Base.{
  ℕ, ◌+◌, ◌≤◌, ◌<◌, ◌≡◌, ◌++◌, length, Text, ok, fail, out_of_bounds, arith,
}
use async_log_cloud_storage.Log.Config.{LogConfig}
use async_log_cloud_storage.Log.Buffer.{Buffer, max_size, writeable_size, grown_size, push}
use async_log_cloud_storage.Log.Buffer.Contents.{
  IsValid, contents, capacity, push-contents, push-out_of_bounds, writeable_size_lem,
}

-- Neither branch of the growth policy wraps or leaves what a vector can hold, from this size.
pub record CanGrow (c : LogConfig) (size : ℕ) : Type 0 where
  pub doubled : size < c.threshold → size + size ≤ max_size
  pub extended : c.threshold ≤ size → c.linear_growth + size ≤ max_size

grown_size-ge :
    (c : LogConfig) (size : ℕ)
    → CanGrow c size
    → (size ≤ grown_size c size) × (grown_size c size ≤ max_size)
unfolding grown_size
grown_size-ge c size g = ground (arith, g.doubled, g.extended)

capacity-ge :
    (c : LogConfig) (len : ℕ) (b : Buffer)
    → IsValid b
    → CanGrow c (length b.buffer)
    → (length b.buffer ≤ capacity c len b) × (capacity c len b ≤ max_size)
unfolding capacity
capacity-ge c len b v g = ground (arith, grown_size-ge c (length b.buffer) g, v.allocated)

-- `Push` of at most `WriteableSize()` bytes to a valid buffer that can grow returns: it appends
-- them, keeps the buffer valid and does not shrink it.
pub push-of_writeable :
    (c : LogConfig) (bytes : Text) (b : Buffer)
    → IsValid b
    → CanGrow c (length b.buffer)
    → length bytes ≤ writeable_size b
    → (b' : Buffer) × (push c bytes b ≡ ok b')
      × IsValid b'
      × (contents b' ≡ contents b ++ bytes)
      × (length b.buffer ≤ length b'.buffer)
push-of_writeable c bytes b v g room =
    let (wide, fits) = capacity-ge c (length bytes) b v g in
    let (b', ran, valid, appended, size) =
      push-contents c bytes b v fits (omega (arith, writeable_size_lem b v, v.inside)) in
    (b', ran, valid, appended, omega arith)

-- `Push` to a valid buffer that can grow, of a message that ends behind the grown size, writes
-- past the end of the array.
pub push-overrun :
    (c : LogConfig) (bytes : Text) (b : Buffer)
    → IsValid b
    → CanGrow c (length b.buffer)
    → grown_size c (length b.buffer) < b.write_pos + length bytes
    → push c bytes b ≡ fail out_of_bounds
unfolding capacity
push-overrun c bytes b v g over =
    let (wide, fits) = grown_size-ge c (length b.buffer) g in
    let bound : capacity c (length bytes) b ≤ max_size = (capacity-ge c (length bytes) b v g).1 in
    push-out_of_bounds c bytes b v bound
      (ground (arith, writeable_size_lem b v, v.inside, v.allocated))

-- ===== src/Log/Buffer/Contents.antt =====
-- What the operations of AsyncBuffer.hpp do to the readable bytes of a buffer.
use async_log_cloud_storage.Base.{
  ℕ, ◌+◌, ◌-◌, ◌≤◌, ◌<◌, ◌≡◌, refl, ap, ◌∙◌, true, List, [], ◌++◌, leb, if◌then◌else◌, length, take,
  drop, resize, overwrite, Text, ok, fail, out_of_bounds, length_error, arith, length-resize,
  take-resize, length-overwrite, take-overwrite, drop-take, drop_all, ==_iff, sym, length-take,
  drop-append_of_le, inl, inr, Bool-cases, le→leb, lt→leb_false,
}
use native.Mathlib.Decide.{dec_le}
use mathlib.Core.Path.{subst}
use async_log_cloud_storage.Log.Config.{LogConfig}
use async_log_cloud_storage.Log.Buffer.{
  Buffer, add64, sub64, max_size, resize_to, is_empty, writeable_size, begin_readable, reset,
  grown_size, to_be_enough, copy_in, push,
}

-- The positions are in order and inside of the array, whose size is one that a vector can have.
pub record IsValid (b : Buffer) : Type 0 where
  pub ordered : b.read_pos ≤ b.write_pos
  pub inside : b.write_pos ≤ length b.buffer
  pub allocated : length b.buffer ≤ max_size

-- The bytes that were pushed and not read yet.
unfoldable pub contents : Buffer → Text
contents b = drop b.read_pos (take b.write_pos b.buffer)

-- Reading `ReadableSize()` bytes from `Begin()` on, in a valid buffer, gives the bytes that were pushed
-- and not read yet.
pub begin_readable-contents : (b : Buffer) → IsValid b → begin_readable b ≡ ok (contents b)
unfolding begin_readable contents
begin_readable-contents b v =
    rw (n, le→leb _ _ fits) (ap ok (sym (drop-take b.read_pos b.write_pos b.buffer)))
  where
    open v use {ordered, inside, allocated}

    n : sub64 b.write_pos b.read_pos ≡ b.write_pos - b.read_pos
    n = omega arith

    fits : b.read_pos + (b.write_pos - b.read_pos) ≤ length b.buffer
    fits = omega arith

pub writeable_size_lem : (b : Buffer) → IsValid b → writeable_size b ≡ length b.buffer - b.write_pos
unfolding writeable_size
writeable_size_lem b v = omega arith

pub is_empty-contents : (b : Buffer) → IsValid b → is_empty b ≡ true → contents b ≡ []
unfolding is_empty contents
is_empty-contents b v h = drop_all b.read_pos (take b.write_pos b.buffer) short
  where
    open v use {ordered, inside, allocated}

    short : length (take b.write_pos b.buffer) ≤ b.read_pos
    short = omega (arith, length-take b.write_pos b.buffer, (==_iff _ _).0 h)

pub reset-contents : (b : Buffer) → contents (reset b) ≡ []
unfolding reset contents
reset-contents b = refl

pub reset-IsValid : (b : Buffer) → IsValid b → IsValid (reset b)
unfolding reset
reset-IsValid b v = omega arith

-- The capacity that a push of `len` bytes copies into.
unfoldable pub capacity : LogConfig → ℕ → Buffer → ℕ
capacity c len b =
    if leb (writeable_size b) len then grown_size c (length b.buffer) else length b.buffer

-- What `ToBeEnough` does: it resizes to `capacity`, which leaves the pushed bytes in place.
to_be_enough-ok :
    (c : LogConfig) (len : ℕ) (b : Buffer)
    → IsValid b
    → capacity c len b ≤ max_size
    → (cells : List ℕ) × (to_be_enough c len b ≡ ok (record b { buffer = cells }))
      × (length cells ≡ capacity c len b)
      × (b.write_pos ≤ capacity c len b → take b.write_pos cells ≡ take b.write_pos b.buffer)
unfolding to_be_enough capacity resize_to
to_be_enough-ok c len b v fits = elim (Bool-cases (leb (writeable_size b) len)) [
  | inl full ↦ (
    resize 0 (grown_size c (length b.buffer)) b.buffer,
    ground arith,
    ground (arith, length-resize 0 (grown_size c (length b.buffer)) b.buffer),
    λ wide.
        take-resize 0 b.write_pos (grown_size c (length b.buffer)) b.buffer (ground arith) v.inside,
  )
  | inr roomy ↦ (b.buffer, ground arith, ground arith, λ _. refl)
]

-- The copy of `Push` into room that is there appends the bytes.
copy_in-ok :
    (bytes : Text) (b : Buffer)
    → IsValid b
    → b.write_pos + length bytes ≤ length b.buffer
    → (b' : Buffer) × (copy_in bytes b ≡ ok b')
      × IsValid b'
      × (contents b' ≡ contents b ++ bytes)
      × (length b'.buffer ≡ length b.buffer)
unfolding copy_in contents
copy_in-ok bytes b v fits = (after, ran, valid, appended, same)
  where
    open v use {ordered, inside, allocated}

    after : Buffer
    after = record b {
      buffer = overwrite b.write_pos bytes b.buffer;
      write_pos = b.write_pos + length bytes;
    }

    no_wrap : add64 b.write_pos (length bytes) ≡ b.write_pos + length bytes
    no_wrap = omega arith

    ran : copy_in bytes b ≡ ok after
    ran = rw (le→leb _ _ fits, no_wrap) refl

    same : length after.buffer ≡ length b.buffer
    same = length-overwrite b.write_pos bytes b.buffer fits

    valid : IsValid after
    valid = omega (arith, same)

    appended : contents after ≡ contents b ++ bytes
    appended = rw (take-overwrite b.write_pos bytes b.buffer inside) (
        drop-append_of_le b.read_pos (take b.write_pos b.buffer) bytes
          (omega (arith, length-take b.write_pos b.buffer)))

-- `Push` to a valid buffer, of bytes that its capacity holds, returns: they are appended to the
-- contents, the buffer stays valid, and its size is the capacity.
pub push-contents :
    (c : LogConfig) (bytes : Text) (b : Buffer)
    → IsValid b
    → capacity c (length bytes) b ≤ max_size
    → b.write_pos + length bytes ≤ capacity c (length bytes) b
    → (b' : Buffer) × (push c bytes b ≡ ok b')
      × IsValid b'
      × (contents b' ≡ contents b ++ bytes)
      × (length b'.buffer ≡ capacity c (length bytes) b)
unfolding push contents
push-contents c bytes b v fits wide =
    let (cells, grew, size, kept) = to_be_enough-ok c (length bytes) b v fits in
    let roomy : Buffer = record b { buffer = cells } in
    let still : IsValid roomy = record {
      ordered = v.ordered;
      inside = omega (arith, size);
      allocated = omega (arith, size);
    } in
    let (b', ran, valid, appended, same) = copy_in-ok bytes roomy still (omega (arith, size)) in
    (
      b',
      rw (grew) ran,
      valid,
      appended ∙ ap (λ (t : Text). drop b.read_pos t ++ bytes) (kept (omega arith)),
      same ∙ size,
    )

-- `Push` of bytes that the capacity does not hold writes outside of the array.
pub push-out_of_bounds :
    (c : LogConfig) (bytes : Text) (b : Buffer)
    → IsValid b
    → capacity c (length bytes) b ≤ max_size
    → capacity c (length bytes) b < b.write_pos + length bytes
    → push c bytes b ≡ fail out_of_bounds
unfolding push copy_in
push-out_of_bounds c bytes b v fits over =
    let (cells, grew, size, kept) = to_be_enough-ok c (length bytes) b v fits in
    rw (grew)
      (rw (lt→leb_false (b.write_pos + length bytes) (length cells) (omega (arith, size))) refl)

-- `Push` that would have to grow past what a vector can hold throws.
pub push-length_error :
    (c : LogConfig) (bytes : Text) (b : Buffer)
    → IsValid b
    → max_size < capacity c (length bytes) b
    → push c bytes b ≡ fail length_error
unfolding push to_be_enough capacity resize_to
push-length_error c bytes b v over = elim (Bool-cases (leb (writeable_size b) (length bytes))) [
  | inl full ↦ ground (arith, v.allocated)
  | inr roomy ↦ absurd (ground (arith, v.allocated))
]

-- A `Push` that returns has appended its bytes.
pub push-ok_inv :
    (c : LogConfig) (bytes : Text) (b b' : Buffer)
    → IsValid b
    → push c bytes b ≡ ok b'
    → IsValid b' × (contents b' ≡ contents b ++ bytes)
push-ok_inv c bytes b b' v h = elim (dec_le (capacity c (length bytes) b) max_size) [
  | no large ↦ absurd (cc (push-length_error c bytes b v (omega arith)))
  | yes fits ↦ elim (dec_le (b.write_pos + length bytes) (capacity c (length bytes) b)) [
    | no over ↦ absurd (cc (push-out_of_bounds c bytes b v fits (omega arith)))
    | yes wide ↦
        let (b'', ran, valid, appended, size) = push-contents c bytes b v fits wide in
        let same : b'' ≡ b' = cc in (subst IsValid same valid, rw (← same) appended)
  ]
]

-- ===== src/Log/Reading.antt =====
-- The constructor of `LogConfig` of log_system/log_src/Util.hpp, over JsonCpp, and a program that finds no
-- configuration file.
mod Examples
use mathlib.Core.Path.{subst}
use async_log_cloud_storage.Base.{
  ℕ, ◌+◌, ◌-◌, ◌%◌, ◌^◌, ◌≤◌, ◌≡◌, ◌≢◌, refl, Bool, true, false, ◌||◌, List, [], ◌∷◌, length,
  resize, length-resize, leb, ltb, if◌then◌else◌, Text, codes, Option, none, some, Outcome, ok,
  fail, out_of_bounds, ◌>>=◌, arith,
}
use async_log_cloud_storage.Json.{Json}
use async_log_cloud_storage.Log.Config.{LogConfig}
use async_log_cloud_storage.Log.Buffer.{new_buffer, resize_to, writeable_size}
use async_log_cloud_storage.Log.Buffer
use async_log_cloud_storage.Log.Worker.{
  AsyncType, async_safe, async_unsafe, Worker, new_worker, Attempt, waits, failed, push, store,
  looping,
}

-- How the calls of `File::GetContent` on its file end.
pub data Reading : Type 0 where
  -- the file does not exist
  missing : Reading
  -- the stream cannot be opened
  unopened : Reading
  -- a call throws before the content has its size, as `file_size` does when it fails
  throws_early : Reading
  -- the content has the size of the file, and the read ends before that: the characters that it has not
  -- read are NUL
  short : Text → Reading
  -- all of the file is read
  whole : Text → Reading

-- `File::GetContent` into an empty content: the result, and the content, which a short read leaves with
-- what it has read.
unfoldable pub get_content : Reading → Bool × Text
get_content missing = (false, [])
get_content unopened = (false, [])
get_content throws_early = (false, [])
get_content (short text) = (false, text)
get_content (whole text) = (true, text)

module _ (j : Json) where
  -- `JsonUtil::UnSerialize`; the value stays null if the text cannot be parsed.
  unfoldable pub unserialize : Text → Bool × j.Value
  unserialize s = elim (j.parse s) [ none ↦ (false, j.null) | some v ↦ (true, v) ]

  unfoldable pub read_log_config : j.Value → Outcome LogConfig
  read_log_config root = do
    buffer_size ← j.as_int64 (j.member root (codes "buffer_size"))
    threshold ← j.as_int64 (j.member root (codes "threshold"))
    linear_growth ← j.as_int64 (j.member root (codes "linear_growth"))
    flush_log ← j.as_int64 (j.member root (codes "flush_log"))
    backup_addr ← j.as_string (j.member root (codes "backup_addr"))
    backup_port ← j.as_int (j.member root (codes "backup_port"))
    thread_count ← j.as_int (j.member root (codes "thread_count"))
    ok (record {
      buffer_size = buffer_size;
      threshold = threshold;
      linear_growth = linear_growth;
      flush_log = flush_log;
      backup_addr = backup_addr;
      backup_port = backup_port % 2 ^ 16;
      thread_count = thread_count;
    })

  -- The results of the two calls are not looked at.
  unfoldable pub new_log_config : Reading → Outcome LogConfig
  new_log_config file = read_log_config (unserialize (get_content file).1).1

  -- JsonCpp: an empty text is no document, and null reads as a missing member, 0 and the empty text.
  pub record NullLaws : Type 0 where
    pub parse-nil : j.parse [] ≡ none
    pub member-null : (k : Text) → j.member j.null k ≡ j.null
    pub as_int64-null : j.as_int64 j.null ≡ ok 0
    pub as_int-null : j.as_int j.null ≡ ok 0
    pub as_string-null : j.as_string j.null ≡ ok []

abbrev pub zeros : LogConfig
zeros = record {
  buffer_size = 0;
  threshold = 0;
  linear_growth = 0;
  flush_log = 0;
  backup_addr = [];
  backup_port = 0;
  thread_count = 0;
}

unserialize-nil : (j : Json) → NullLaws j → (unserialize j []).1 ≡ j.null
unfolding unserialize
unserialize-nil j laws = rw (laws.parse-nil, unserialize) refl

read_log_config-null : (j : Json) → NullLaws j → read_log_config j j.null ≡ ok zeros
unfolding read_log_config
read_log_config-null j laws =
    rw
      (
        laws.member-null (codes "buffer_size"),
        laws.member-null (codes "threshold"),
        laws.member-null (codes "linear_growth"),
        laws.member-null (codes "flush_log"),
        laws.member-null (codes "backup_addr"),
        laws.member-null (codes "backup_port"),
        laws.member-null (codes "thread_count"),
        laws.as_int64-null,
        laws.as_string-null,
        laws.as_int-null,
      )
      refl

new_log_config-missing : (j : Json) → NullLaws j → new_log_config j missing ≡ ok zeros
unfolding new_log_config get_content
new_log_config-missing j laws = rw (unserialize-nil j laws) (read_log_config-null j laws)

length-positive : (bytes : Text) → bytes ≢ [] → 1 ≤ length bytes
length-positive [] h = absurd (h refl)
length-positive (c ∷ bytes) h = omega arith

abbrev nothing : Buffer.Buffer
nothing = record { buffer = []; write_pos = 0; read_pos = 0 }

abbrev empty_worker : AsyncType → Worker
empty_worker t = record {
  buffer_productor = nothing;
  buffer_consumer = nothing;
  async_type = t;
  stop = false;
  consumer = looping;
}

new_worker-zeros : (t : AsyncType) (w : Worker) → new_worker zeros t ≡ ok w → empty_worker t ≡ w
unfolding new_worker new_buffer resize_to resize
new_worker-zeros t w made = cc

push-empty_worker :
    (t : AsyncType) (bytes : Text)
    → 1 ≤ length bytes
    → push zeros bytes (empty_worker t)
      ≡ elim t [ async_safe ↦ waits | async_unsafe ↦ failed out_of_bounds ]
unfolding push store writeable_size Buffer.push Buffer.to_be_enough Buffer.copy_in Buffer.grown_size
    resize_to
push-empty_worker async_safe bytes some_bytes = ground arith
push-empty_worker async_unsafe bytes some_bytes = ground (arith, length-resize {0} {A = ℕ} 0 0 [])

-- Without a configuration file every number is 0, and the first message that is not empty never gets
-- into a new worker: a producer of type ASYNC_SAFE waits, and one of type ASYNC_UNSAFE writes outside of
-- the buffer.
pub unconfigured :
    (j : Json) (t : AsyncType) (w : Worker) (bytes : Text)
    → NullLaws j
    → new_worker zeros t ≡ ok w
    → bytes ≢ []
    → (new_log_config j missing ≡ ok zeros)
      × (push zeros bytes w ≡ elim t [ async_safe ↦ waits | async_unsafe ↦ failed out_of_bounds ])
unconfigured j t w bytes laws made nonempty = (
  new_log_config-missing j laws,
  subst
      (λ v.
        push zeros bytes v ≡ elim t [ async_safe ↦ waits | async_unsafe ↦ failed out_of_bounds ])
      (new_worker-zeros t w made) (push-empty_worker t bytes (length-positive bytes nonempty)),
)

-- ===== src/Log/Flush.antt =====
-- `FileFlush` and `RollFileFlush` of log_system/log_src/LogFlush.hpp, over files that are only appended
-- to. A `FILE *` holds bytes back until it is flushed or closed; what it takes and when it passes
-- bytes on by itself is a parameter.
pub mod Names
pub mod Streams
pub mod Rolled
pub mod Rolling
pub mod Life
pub mod Opened
pub mod Single
mod Examples
use async_log_cloud_storage.Base.{
  ℕ, suc, ◌+◌, ◌%◌, ◌^◌, ◌==◌, Bool, true, false, ◌||◌, List, [], ◌∷◌, ◌++◌, if◌then◌else◌, leb,
  length, take, drop, Text, codes, text_eq, to_string, Option, none, some, Outcome, ok, fail,
  null_pointer, ◌>>=◌,
}
use async_log_cloud_storage.Log.Config.{LogConfig}

-- The files by name, as far as the system has got them.
abbrev pub LogFiles : Type 0
LogFiles = List (Text × Text)

-- How the system answers.
pub record Device : Type 0 where
  pub opens : Text → Bool
  -- how many of so many bytes an `fwrite` to a file takes
  pub takes : Text → ℕ → ℕ
  -- how many of the bytes held back a stream passes on by itself
  pub spills : Text → ℕ

-- A `FILE *` opened with "ab".
pub record Stream : Type 0 where
  pub name : Text
  pub buffered : Text

unfoldable pub find_log : Text → LogFiles → Option Text
find_log p [] = none
find_log p ((q, c) ∷ files) = if text_eq q p then some c else find_log p files

unfoldable pub append_log : Text → Text → LogFiles → LogFiles
append_log p bytes [] = (p, bytes) ∷ []
append_log p bytes ((q, c) ∷ files) =
    if text_eq q p then (q, c ++ bytes) ∷ files else (q, c) ∷ append_log p bytes files

-- `fflush`
unfoldable pub flush_stream : Stream → LogFiles → Stream × LogFiles
flush_stream s files = (record s { buffered = [] }, append_log s.name s.buffered files)

-- `fclose`
unfoldable pub close_stream : Stream → LogFiles → LogFiles
close_stream s files = append_log s.name s.buffered files

module _ (d : Device) where
  -- `fopen(name, "ab")`
  unfoldable pub open_append : Text → LogFiles → Option Stream × LogFiles
  open_append name files =
      if d.opens name
      then (some (record { name = name; buffered = [] }), append_log name [] files)
      else (none, files)

  -- `fwrite`
  unfoldable pub write_stream : Text → Stream → LogFiles → Stream × LogFiles
  write_stream bytes s files =
      let held = s.buffered ++ take (d.takes s.name (length bytes)) bytes in
      (
        record s { buffered = drop (d.spills held) held },
        append_log s.name (take (d.spills held) held) files,
      )

-- The end of both `Flush` methods: 1 and 2 flush the stream. Whether the disk has the bytes too, which
-- 2 asks for, is not modelled.
unfoldable pub flush_by_config : LogConfig → Stream → LogFiles → Stream × LogFiles
flush_by_config c s files =
    if c.flush_log == 1 || c.flush_log == 2 then flush_stream s files else (s, files)

pub record FileFlush : Type 0 where
  pub filename : Text
  pub fs : Option Stream

-- `struct tm`, as `localtime_r` fills it.
pub record Tm : Type 0 where
  pub tm_year : ℕ
  pub tm_mon : ℕ
  pub tm_mday : ℕ
  pub tm_hour : ℕ
  pub tm_min : ℕ
  pub tm_sec : ℕ

pub record RollFileFlush : Type 0 where
  pub fs : Option Stream
  pub max_size : ℕ
  pub cur_size : ℕ
  pub cnt : ℕ
  pub basename : Text

unfoldable pub new_roll_file_flush : Text → ℕ → RollFileFlush
new_roll_file_flush filename max_size = record {
  fs = none;
  max_size = max_size;
  cur_size = 0;
  cnt = 1;
  basename = filename;
}

-- The name up to the dash.
unfoldable pub stamped : Text → Tm → Text
stamped basename t =
    basename
    ++ (to_string (t.tm_year + 1900)
        ++ (to_string (t.tm_mon + 1)
            ++ (to_string t.tm_mday
                ++ (to_string (t.tm_hour + 1)
                    ++ (to_string (t.tm_min + 1) ++ to_string (t.tm_sec + 1))))))

unfoldable pub log_name : Text → Tm → ℕ → Text
log_name basename t cnt = stamped basename t ++ (codes "-" ++ (to_string cnt ++ codes ".log"))

unfoldable pub create_log_file_name : Tm → RollFileFlush → Text × RollFileFlush
create_log_file_name t r = (log_name r.basename t r.cnt, record r { cnt = (r.cnt + 1) % 2 ^ 64 })

module _ (d : Device) where
  -- The constructor. The directory that it makes is left to `opens`.
  unfoldable pub new_file_flush : Text → LogFiles → FileFlush × LogFiles
  new_file_flush filename files =
      let (fs, files') = open_append d filename files in
      (record { filename = filename; fs = fs }, files')

  -- `InitLogFile` once it has decided to take the next file.
  unfoldable pub next_log_file : Tm → RollFileFlush → LogFiles → RollFileFlush × LogFiles
  next_log_file t r files =
      let closed : LogFiles = elim r.fs [ none ↦ files | some s ↦ close_stream s files ] in
      let (name, r1) = create_log_file_name t r in
      let (fs, files') = open_append d name closed in (record r1 { fs = fs; cur_size = 0 }, files')

  unfoldable pub init_log_file : Tm → RollFileFlush → LogFiles → RollFileFlush × LogFiles
  init_log_file t r files = elim r.fs [
    | none ↦ next_log_file t r files
    | some s ↦ if leb r.max_size r.cur_size then next_log_file t r files else (r, files)
  ]

module _ (c : LogConfig) (d : Device) where
  unfoldable pub file_flush : Text → FileFlush → LogFiles → FileFlush × LogFiles
  file_flush bytes f files = elim f.fs [
    | none ↦ (f, files)
    | some s ↦
        let (s1, files1) = write_stream d bytes s files in
        let (s2, files2) = flush_by_config c s1 files1 in (record f { fs = some s2 }, files2)
  ]

  -- `RollFileFlush::Flush` behind `InitLogFile`; a stream that could not be opened is a null pointer
  -- for `fwrite`.
  unfoldable pub roll_write : Text → RollFileFlush → LogFiles → Outcome (RollFileFlush × LogFiles)
  roll_write bytes r files = elim r.fs [
    | none ↦ fail null_pointer
    | some s ↦
        let (s1, files1) = write_stream d bytes s files in
        let (s2, files2) = flush_by_config c s1 files1 in
        ok (record r { fs = some s2; cur_size = (r.cur_size + length bytes) % 2 ^ 64 }, files2)
  ]

  unfoldable pub roll_file_flush :
      Tm → Text → RollFileFlush → LogFiles → Outcome (RollFileFlush × LogFiles)
  roll_file_flush t bytes r files =
      let (r1, files1) = init_log_file d t r files in roll_write bytes r1 files1

  -- Calls of `Flush` in a row, each with its time.
  unfoldable pub roll_file_flushes :
      List (Tm × Text) → RollFileFlush → LogFiles → Outcome (RollFileFlush × LogFiles)
  roll_file_flushes [] r files = ok (r, files)
  roll_file_flushes ((t, bytes) ∷ calls) r files =
      roll_file_flush t bytes r files >>= λ s. roll_file_flushes calls s.0 s.1

  unfoldable pub file_flushes : List Text → FileFlush → LogFiles → FileFlush × LogFiles
  file_flushes [] f files = (f, files)
  file_flushes (bytes ∷ calls) f files =
      let (f1, files1) = file_flush bytes f files in file_flushes calls f1 files1

-- The destructors.
unfoldable pub end_file_flush : FileFlush → LogFiles → FileFlush × LogFiles
end_file_flush f files = elim f.fs [
  | none ↦ (f, files)
  | some s ↦
      (record f { fs = none }, close_stream (flush_stream s files).0 (flush_stream s files).1)
]

unfoldable pub end_roll_file_flush : RollFileFlush → LogFiles → RollFileFlush × LogFiles
end_roll_file_flush r files = elim r.fs [
  | none ↦ (r, files)
  | some s ↦ (record r { fs = none }, close_stream s files)
]

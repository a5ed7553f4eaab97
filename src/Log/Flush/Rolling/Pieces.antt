-- ===== src/Log/Flush/Rolling/Pieces.antt =====
-- The two things a call of `RollFileFlush::Flush` of log_system/log_src/LogFlush.hpp may do: it puts bytes
-- into the open file, and it opens the next one.
use async_log_cloud_storage.Base.{
  ℕ, ◌+◌, ◌%◌, ◌^◌, ◌≤◌, ◌<◌, ◌≡◌, refl, sym, ap, ◌∙◌, [], ◌++◌, append_assoc, append-nil, length,
  length-append, Text, text_eq, none, some, arith,
}
use async_log_cloud_storage.Log.Config.{LogConfig}
use async_log_cloud_storage.Log.Flush.{
  LogFiles, Device, Stream, Tm, RollFileFlush, append_log, close_stream, write_stream,
  flush_by_config, log_name, create_log_file_name, next_log_file,
}
use async_log_cloud_storage.Log.Flush.Names.{log_name_ne}
use async_log_cloud_storage.Log.Flush.Streams.{
  TakesAll, write_stream-Holding, flush_by_config-Holding, open_append-Holding, name-write_flush,
}
use async_log_cloud_storage.Log.Flush.Rolled.{contents, AllAtMost, Unused, Rolling}

module _ (c : LogConfig) (d : Device) (all : TakesAll d) where
  -- The bytes go to the open file.
  pub put :
      (old : LogFiles) (limit : ℕ) (written bytes : Text) (r : RollFileFlush) (files : LogFiles)
      (v : Rolling old limit written r files)
      → length v.text + length bytes ≤ limit
      → limit < 2 ^ 64
      → (s : Stream) × (fs : LogFiles) × (flush_by_config c
            (write_stream d bytes v.stream files).0
            (write_stream d bytes v.stream files).1
          ≡ (s, fs))
        × Rolling old limit
            (written ++ bytes)
            (record r { fs = some s; cur_size = (r.cur_size + length bytes) % 2 ^ 64 })
            fs
  put old limit written bytes r files v room fits =
      let wrote = write_stream d bytes v.stream files in
      let done = flush_by_config c wrote.0 wrote.1 in
      (
        done.0,
        done.1,
        refl,
        record {
          closed = v.closed;
          text = v.text ++ bytes;
          stream = done.0;
          opened = refl;
          holding =
              flush_by_config-Holding c (old ++ v.closed) (v.text ++ bytes) wrote.0 wrote.1 (
                write_stream-Holding d (old ++ v.closed) v.text bytes v.stream files all v.holding);
          sized = omega (arith, length-append v.text bytes, v.sized);
          small = omega (arith, length-append v.text bytes);
          all_small = v.all_small;
          all_written =
              sym (append_assoc (contents v.closed) v.text bytes)
              ∙ ap (λ (t : Text). t ++ bytes) v.all_written;
          unused = v.unused;
          own = λ t k h.
              ap (λ (n : Text). text_eq n (log_name r.basename t k))
                (name-write_flush c d bytes v.stream files)
              ∙ v.own t k h;
        },
      )

module _ (d : Device) (all : TakesAll d) where
  -- The next file is opened behind files that are closed.
  pub next :
      (old closed : LogFiles) (limit : ℕ) (t : Tm) (r : RollFileFlush) (files : LogFiles)
      → (elim r.fs [ none ↦ files | some s ↦ close_stream s files ]) ≡ old ++ closed
      → AllAtMost limit closed
      → Unused r.basename r.cnt (old ++ closed)
      → r.cnt + 1 < 2 ^ 64
      → (r1 : RollFileFlush) × (files1 : LogFiles) × (next_log_file d t r files ≡ (r1, files1))
        × (r1.cnt ≡ r.cnt + 1)
        × (r1.cur_size ≡ 0)
        × (r1.max_size ≡ r.max_size)
        × (r1.basename ≡ r.basename)
        × (v : Rolling old limit (contents closed) r1 files1) × (v.text ≡ [])
  unfolding next_log_file create_log_file_name
  next old closed limit t r files shut small unused fits =
      let name = log_name r.basename t r.cnt in
      let (ran, holds) =
        open_append-Holding d name (old ++ closed) all (unused t r.cnt (omega arith)) in
      (
        record r {
          fs = some (record { name = name; buffered = [] });
          cur_size = 0;
          cnt = r.cnt + 1;
        },
        append_log name [] (old ++ closed),
        rw shut (rw ran (rw no_wrap refl)),
        refl,
        refl,
        refl,
        refl,
        record {
          closed = closed;
          text = [];
          stream = record { name = name; buffered = [] };
          opened = refl;
          holding = holds;
          sized = refl;
          small = omega arith;
          all_small = small;
          all_written = append-nil (contents closed);
          unused = λ u k h. unused u k (omega arith);
          own = λ u k h. log_name_ne r.basename t u r.cnt k (λ e. omega arith);
        },
        refl,
      )
    where
      no_wrap : (r.cnt + 1) % 2 ^ 64 ≡ r.cnt + 1
      no_wrap = omega arith

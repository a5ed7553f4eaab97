-- ===== src/Log/Flush/Single.antt =====
-- `FileFlush` of log_system/log_src/LogFlush.hpp: what its file holds.
pub mod AtOnce
use mathlib.Core.Path.{subst}
use mathlib.Core.Option.{some-injective}
use async_log_cloud_storage.Base.{
  take-drop, ◌≡◌, refl, sym, ap, ◌∙◌, true, ◌||◌, ◌==◌, List, [], ◌∷◌, ◌++◌, append_assoc,
  append-nil, flatten, if◌then◌else◌, length, take, drop, take-length, Text, text_eq, text_eq_self,
  some, Bool-cases, inl, inr,
}
use async_log_cloud_storage.Log.Config.{LogConfig}
use async_log_cloud_storage.Log.Flush.{
  LogFiles, Device, Stream, FileFlush, find_log, flush_stream, close_stream, open_append,
  write_stream, flush_by_config, new_file_flush, file_flush, file_flushes, end_file_flush,
}
use async_log_cloud_storage.Log.Flush.Streams.{TakesAll}
use async_log_cloud_storage.Log.Flush.Opened.{
  text_of, find_log-append_log, Open, append_log-Open, flush_stream-Open, flush_stream-buffered,
  seen,
}

module _ (c : LogConfig) (d : Device) (all : TakesAll d) where
  write_stream-Open :
      (old : LogFiles) (name text bytes : Text) (s : Stream) (files : LogFiles)
      → Open old name text s files
      → Open old name
          (text ++ bytes)
          (write_stream d bytes s files).0
          (write_stream d bytes s files).1
  unfolding write_stream
  write_stream-Open old name text bytes s files v =
      let held = s.buffered ++ take (d.takes s.name (length bytes)) bytes in
      append_log-Open old name text (take (d.spills held) held) (drop (d.spills held) held) bytes s
        files v (ap (λ (t : Text). s.buffered ++ t) (sym taken) ∙ take-drop (d.spills held) held)
    where
      taken : take (d.takes s.name (length bytes)) bytes ≡ bytes
      taken = rw (all.takes_all s.name (length bytes)) (take-length bytes)

  flush_by_config-Open :
      (old : LogFiles) (name text : Text) (s : Stream) (files : LogFiles)
      → Open old name text s files
      → Open old name text (flush_by_config c s files).0 (flush_by_config c s files).1
  unfolding flush_by_config
  flush_by_config-Open old name text s files v =
      elim (Bool-cases (c.flush_log == 1 || c.flush_log == 2)) [
        | inl e ↦ rw e (flush_stream-Open old name text s files v)
        | inr e ↦ rw e v
      ]

  file_flush-Open :
      (old : LogFiles) (name text bytes : Text) (f : FileFlush) (s : Stream) (files : LogFiles)
      → f.fs ≡ some s
      → Open old name text s files
      → (s' : Stream) × ((file_flush c d bytes f files).0.fs ≡ some s')
        × Open old name (text ++ bytes) s' (file_flush c d bytes f files).1
  unfolding file_flush
  file_flush-Open old name text bytes f s files opened v =
      let wrote = write_stream d bytes s files in
      rw (opened, file_flush)
        (
          (flush_by_config c wrote.0 wrote.1).0,
          refl,
          flush_by_config-Open old name (text ++ bytes) wrote.0 wrote.1
              (write_stream-Open old name text bytes s files v),
        )

  file_flushes-Open :
      (old : LogFiles) (name text : Text) (calls : List Text) (f : FileFlush) (s : Stream)
      (files : LogFiles)
      → f.fs ≡ some s
      → Open old name text s files
      → (s' : Stream) × ((file_flushes c d calls f files).0.fs ≡ some s')
        × Open old name (text ++ flatten calls) s' (file_flushes c d calls f files).1
  unfolding file_flushes
  file_flushes-Open old name text [] f s files opened v =
      (s, opened, subst (λ w. Open old name w s files) (sym (append-nil text)) v)
  file_flushes-Open old name text (bytes ∷ calls) f s files opened v =
      let (s1, opened1, v1) = file_flush-Open old name text bytes f s files opened v in
      let (s2, opened2, v2) =
        file_flushes-Open old name (text ++ bytes) calls (file_flush c d bytes f files).0 s1
          (file_flush c d bytes f files).1 opened1 v1 in
      (
        s2,
        opened2,
        subst
            (λ w.
              Open old name w s2
                (file_flushes c d calls (file_flush c d bytes f files).0
                  (file_flush c d bytes f files).1).1)
            (append_assoc text bytes (flatten calls)) v2,
      )

  ended :
      (f : FileFlush) (files : LogFiles) (s : Stream)
      → f.fs ≡ some s
      → (end_file_flush f files).1
        ≡ (flush_stream (flush_stream s files).0 (flush_stream s files).1).1
  unfolding end_file_flush close_stream flush_stream
  ended f files s e = rw (e, end_file_flush) refl

  end-Open :
      (old : LogFiles) (name text : Text) (f : FileFlush) (s : Stream) (files : LogFiles) (q : Text)
      → f.fs ≡ some s
      → Open old name text s files
      → find_log q (end_file_flush f files).1
        ≡ (if text_eq name q then some text else find_log q old)
  end-Open old name text f s files q opened v =
      let once = flush_stream s files in
      let twice = flush_stream once.0 once.1 in
      ap (find_log q) (ended f files s opened)
      ∙ seen old name text twice.0 twice.1 q (flush_stream-buffered once.0 once.1) (
          flush_stream-Open old name text once.0 once.1 (flush_stream-Open old name text s files v))

  opened-Open :
      (filename : Text) (old : LogFiles)
      → ((new_file_flush d filename old).0.fs ≡ some (record { name = filename; buffered = [] }))
        × Open old filename
            (text_of filename old)
            (record { name = filename; buffered = [] })
            (new_file_flush d filename old).1
  unfolding new_file_flush open_append
  opened-Open filename old = rw (all.opens_all filename) (
    refl,
    record {
      content = text_of filename old ++ [];
      named = refl;
      there = find_log-append_log filename filename [] old ∙ rw (text_eq_self filename) refl;
      whole = append-nil (text_of filename old ++ []) ∙ append-nil (text_of filename old);
      others = λ q o. find_log-append_log filename q [] old ∙ rw o refl;
    },
  )

  -- A flusher that is constructed, called and destroyed, over a system that opens every file and takes
  -- every byte: its file holds what it held before and then, in order, exactly the bytes of the
  -- calls, and every other file is as it was, whichever flushing is configured.
  pub appended_complete :
      (filename : Text) (calls : List Text) (old : LogFiles) (q : Text)
      → (let (f, files) = new_file_flush d filename old in
          let (f1, files1) = file_flushes c d calls f files in
          find_log q (end_file_flush f1 files1).1)
        ≡ (if text_eq filename q
            then some (text_of filename old ++ flatten calls)
            else find_log q old)
  appended_complete filename calls old q =
      let start = new_file_flush d filename old in
      let (opened, v) = opened-Open filename old in
      let (s, opened', v') =
        file_flushes-Open old filename (text_of filename old) calls start.0
          (record { name = filename; buffered = [] }) start.1 opened v in
      end-Open old filename (text_of filename old ++ flatten calls)
        (file_flushes c d calls start.0 start.1).0 s (file_flushes c d calls start.0 start.1).1 q
        opened' v'

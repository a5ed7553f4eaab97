-- ===== src/Log/Flush/Single/AtOnce.antt =====
-- `FileFlush` of log_system/log_src/LogFlush.hpp with a flush after every write: what its file holds before
-- its destructor runs.
use mathlib.Core.Option.{some-injective}
use async_log_cloud_storage.Base.{
  ◌≡◌, refl, sym, ap, ◌∙◌, true, ◌||◌, ◌==◌, List, [], ◌∷◌, ◌++◌, flatten, if◌then◌else◌, Text,
  text_eq, some,
}
use async_log_cloud_storage.Log.Config.{LogConfig}
use async_log_cloud_storage.Log.Flush.{
  LogFiles, Device, Stream, FileFlush, find_log, flush_stream, write_stream, flush_by_config,
  new_file_flush, file_flush, file_flushes,
}
use async_log_cloud_storage.Log.Flush.Streams.{TakesAll}
use async_log_cloud_storage.Log.Flush.Opened.{text_of, seen}
use async_log_cloud_storage.Log.Flush.Single.{file_flushes-Open, opened-Open}

module _ (c : LogConfig) (d : Device) (all : TakesAll d) where
  flush_by_config-buffered :
      (s : Stream) (files : LogFiles)
      → (c.flush_log == 1 || c.flush_log == 2) ≡ true
      → (flush_by_config c s files).0.buffered ≡ []
  unfolding flush_by_config flush_stream
  flush_by_config-buffered s files flushing = rw flushing refl

  file_flush-buffered :
      (bytes : Text) (f : FileFlush) (s : Stream) (files : LogFiles)
      → (c.flush_log == 1 || c.flush_log == 2) ≡ true
      → f.fs ≡ some s
      → (s' : Stream) × ((file_flush c d bytes f files).0.fs ≡ some s') × (s'.buffered ≡ [])
  unfolding file_flush
  file_flush-buffered bytes f s files flushing opened =
      let wrote = write_stream d bytes s files in
      rw (opened, file_flush)
        (
          (flush_by_config c wrote.0 wrote.1).0,
          refl,
          flush_by_config-buffered wrote.0 wrote.1 flushing,
        )

  file_flushes-buffered :
      (calls : List Text) (f : FileFlush) (s s' : Stream) (files : LogFiles)
      → (c.flush_log == 1 || c.flush_log == 2) ≡ true
      → f.fs ≡ some s
      → s.buffered ≡ []
      → (file_flushes c d calls f files).0.fs ≡ some s'
      → s'.buffered ≡ []
  unfolding file_flushes
  file_flushes-buffered [] f s s' files flushing opened empty after =
      ap (λ (t : Stream). t.buffered) (some-injective _ _ (sym after ∙ opened)) ∙ empty
  file_flushes-buffered (bytes ∷ calls) f s s' files flushing opened empty after =
      let (s1, opened1, empty1) = file_flush-buffered bytes f s files flushing opened in
      file_flushes-buffered calls (file_flush c d bytes f files).0 s1 s'
        (file_flush c d bytes f files).1 flushing opened1 empty1 after

  -- With flush_log 1 or 2 the file has the bytes of every call that has returned, with no need for the
  -- destructor.
  pub flushed_at_once :
      (filename : Text) (calls : List Text) (old : LogFiles) (q : Text)
      → (c.flush_log == 1 || c.flush_log == 2) ≡ true
      → find_log q
          (file_flushes c d calls
            (new_file_flush d filename old).0
            (new_file_flush d filename old).1).1
        ≡ (if text_eq filename q
            then some (text_of filename old ++ flatten calls)
            else find_log q old)
  flushed_at_once filename calls old q flushing =
      let start = new_file_flush d filename old in
      let (opened, v) = opened-Open c d all filename old in
      let (s, opened', v') =
        file_flushes-Open c d all old filename (text_of filename old) calls start.0
          (record { name = filename; buffered = [] }) start.1 opened v in
      seen old filename (text_of filename old ++ flatten calls) s
        (file_flushes c d calls start.0 start.1).1 q
        (file_flushes-buffered calls start.0 (record { name = filename; buffered = [] }) s start.1
          flushing opened refl opened')
        v'

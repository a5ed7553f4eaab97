-- ===== src/Log/Flush/Rolling.antt =====
-- One call of `RollFileFlush::Flush` of log_system/log_src/LogFlush.hpp: what its files hold, and how large
-- they are.
mod Pieces
use mathlib.Core.Path.{subst}
use async_log_cloud_storage.Base.{
  ℕ, ◌+◌, ◌%◌, ◌^◌, ◌≤◌, ◌<◌, ◌≡◌, refl, sym, ap, ◌∙◌, false, [], ◌∷◌, ◌++◌, append_assoc,
  append-nil, leb, length, length-append, Text, text_eq, none, some, ok, arith, Bool-cases, inl,
  inr,
}
use async_log_cloud_storage.Log.Config.{LogConfig}
use async_log_cloud_storage.Log.Flush.{
  LogFiles, Device, Stream, Tm, RollFileFlush, append_log, close_stream, write_stream,
  flush_by_config, log_name, create_log_file_name, next_log_file, init_log_file, roll_write,
  roll_file_flush,
}
use async_log_cloud_storage.Log.Flush.Names.{log_name_ne}
use async_log_cloud_storage.Log.Flush.Streams.{
  TakesAll, write_stream-Holding, flush_by_config-Holding, close_stream-Holding,
  open_append-Holding, name-write_flush,
}
use async_log_cloud_storage.Log.Flush.Rolling.Pieces.{put, next}
use async_log_cloud_storage.Log.Flush.Rolled.{
  contents, AllAtMost, Unused, Rolling, find_log-snoc, AllAtMost-snoc, contents-snoc,
}

module _ (c : LogConfig) (d : Device) (all : TakesAll d) where
  -- A flush has been made: one more name is used up at most.
  pub record Flushed (old : LogFiles) (limit : ℕ) (written : Text) (t : Tm) (bytes : Text)
      (r : RollFileFlush) (files : LogFiles) : Type 0 where
    pub after : RollFileFlush
    pub files_after : LogFiles
    pub ran : roll_file_flush c d t bytes r files ≡ ok (after, files_after)
    pub rolling : Rolling old limit written after files_after
    pub counted : after.cnt ≤ r.cnt + 1
    pub same_max : after.max_size ≡ r.max_size

  roll_write-opened :
      (bytes : Text) (r : RollFileFlush) (files : LogFiles) (s s' : Stream) (fs : LogFiles)
      → r.fs ≡ some s
      → flush_by_config c (write_stream d bytes s files).0 (write_stream d bytes s files).1
        ≡ (s', fs)
      → roll_write c d bytes r files
        ≡ ok (record r { fs = some s'; cur_size = (r.cur_size + length bytes) % 2 ^ 64 }, fs)
  unfolding roll_write
  roll_write-opened bytes r files s s' fs opened did = rw (opened, roll_write) (rw did refl)

  init_log_file-roomy :
      (t : Tm) (r : RollFileFlush) (files : LogFiles) (s : Stream)
      → r.fs ≡ some s
      → leb r.max_size r.cur_size ≡ false
      → init_log_file d t r files ≡ (r, files)
  unfolding init_log_file
  init_log_file-roomy t r files s opened roomy = ground arith

  roll_file_flush-steps :
      (t : Tm) (bytes : Text) (r r1 : RollFileFlush) (files files1 : LogFiles) (s s' : Stream)
      (fs : LogFiles)
      → init_log_file d t r files ≡ (r1, files1)
      → r1.fs ≡ some s
      → flush_by_config c (write_stream d bytes s files1).0 (write_stream d bytes s files1).1
        ≡ (s', fs)
      → roll_file_flush c d t bytes r files
        ≡ ok (record r1 { fs = some s'; cur_size = (r1.cur_size + length bytes) % 2 ^ 64 }, fs)
  unfolding roll_file_flush
  roll_file_flush-steps t bytes r r1 files files1 s s' fs init opened did =
      rw init (roll_write-opened bytes r1 files1 s s' fs opened did)

  finish :
      (old : LogFiles) (limit : ℕ) (written : Text) (t : Tm) (bytes : Text) (r r1 : RollFileFlush)
      (files files1 : LogFiles) (v : Rolling old limit written r1 files1)
      → init_log_file d t r files ≡ (r1, files1)
      → r1.cnt ≤ r.cnt + 1
      → r1.max_size ≡ r.max_size
      → length v.text + length bytes ≤ limit
      → limit < 2 ^ 64
      → Flushed old limit (written ++ bytes) t bytes r files
  finish old limit written t bytes r r1 files files1 v init counted same room fits =
      let (s, fs, did, rolling) = put c d all old limit written bytes r1 files1 v room fits in
      record {
        after = record r1 { fs = some s; cur_size = (r1.cur_size + length bytes) % 2 ^ 64 };
        files_after = fs;
        ran = roll_file_flush-steps t bytes r r1 files files1 v.stream s fs init v.opened did;
        rolling = rolling;
        counted = counted;
        same_max = same;
      }

  pub first_flush :
      (old : LogFiles) (limit : ℕ) (t : Tm) (bytes : Text) (r : RollFileFlush)
      → r.fs ≡ none
      → Unused r.basename r.cnt old
      → r.cnt + 1 < 2 ^ 64
      → length bytes ≤ limit
      → limit < 2 ^ 64
      → Flushed old limit bytes t bytes r old
  unfolding init_log_file
  first_flush old limit t bytes r fresh unused names room fits =
      let (r1, files1, ran, counted, size, max, base, v, empty) =
        next d all old [] limit t r old (rw (fresh, append-nil old) refl) tt
          (subst (λ (fs : LogFiles). Unused r.basename r.cnt fs) (sym (append-nil old)) unused)
          names in
      finish old limit [] t bytes r r1 old files1 v (rw (fresh, init_log_file) ran) (omega arith)
        max (omega (arith, ap length empty)) fits

  pub later_flush :
      (old : LogFiles) (limit longest : ℕ) (written : Text) (t : Tm) (bytes : Text)
      (r : RollFileFlush) (files : LogFiles)
      → Rolling old limit written r files
      → r.cnt + 1 < 2 ^ 64
      → length bytes ≤ longest
      → r.max_size + longest ≤ limit
      → limit < 2 ^ 64
      → Flushed old limit (written ++ bytes) t bytes r files
  unfolding init_log_file
  later_flush old limit longest written t bytes r files v names short bounded fits =
      elim (Bool-cases (leb r.max_size r.cur_size)) [
        | inl full ↦
            let (r1, files1, ran, counted, size, max, base, v1, empty) =
              next d all old (v.closed ++ (v.stream.name, v.text) ∷ []) limit t r files
                (shut ∙ append_assoc old v.closed ((v.stream.name, v.text) ∷ []))
                (AllAtMost-snoc limit v.stream.name v.text v.closed v.all_small v.small)
                (λ u k h. rw (← append_assoc old v.closed ((v.stream.name, v.text) ∷ [])) (
                  find_log-snoc (log_name r.basename u k) v.stream.name v.text (old ++ v.closed)
                    (v.unused u k h) (v.own u k h)))
                names in
            let done : Flushed old limit
                (contents (v.closed ++ (v.stream.name, v.text) ∷ []) ++ bytes) t bytes r files =
              finish old limit (contents (v.closed ++ (v.stream.name, v.text) ∷ [])) t bytes r r1
                files files1 v1 (rw (v.opened, init_log_file) (rw full ran)) (omega arith) max
                (omega (arith, ap length empty)) fits in
            subst (λ w. Flushed old limit (w ++ bytes) t bytes r files)
              (contents-snoc v.stream.name v.text v.closed ∙ v.all_written) done
        | inr roomy ↦
            finish old limit written t bytes r r files files v
              (init_log_file-roomy t r files v.stream v.opened roomy) (omega arith) refl
              (ground (arith, v.sized)) fits
      ]
    where
      shut :
          ◌≡◌ {A = LogFiles}
            (elim r.fs [ none ↦ files | some s ↦ close_stream s files ])
            ((old ++ v.closed) ++ (v.stream.name, v.text) ∷ [])
      shut = rw v.opened (close_stream-Holding (old ++ v.closed) v.text v.stream files v.holding)

-- ===== src/TestLogger/Sync.antt =====
-- What the synchronous part of src/server/TestLogger.cpp writes to its file, and how much.
use mathlib.Core.Path.{subst}
use async_log_cloud_storage.Base.{
  c_str-to_string, length-to_string, take_all, ℕ, zero, suc, ◌+◌, ◌*◌, ◌≤◌, ◌<◌, ◌≡◌, refl, sym, ap,
  ◌∙◌, true, false, List, [], ◌∷◌, ◌++◌, append_assoc, append-nil, flatten, flatten-append,
  flatten-snoc, length, length-append, take-length, Text, codes, c_str, text_eq, text_eq_self,
  to_string, arith,
}
use async_log_cloud_storage.Log.Flush.{LogFiles, Device, Tm, find_log, append_log}
use async_log_cloud_storage.Log.Flush.Streams.{TakesAll}
use async_log_cloud_storage.Log.Flush.Opened.{text_of, find_log-append_log, text_of-some}
use async_log_cloud_storage.Log.Message.{date_time}
use async_log_cloud_storage.TestLogger.{
  SyncLogger, sync_line, new_sync_logger, inf_a, calculate_log_message_size, sum_sizes, sampled,
  total_bytes, sync_text, sync_calls,
}

-- A line with the whole text.
abbrev pub whole_line : Tm → Text → Text
whole_line now text = codes "[" ++ (date_time now ++ (codes "] [INFO] " ++ (text ++ codes "\n")))

pub sync_line-whole :
    (now : Tm) (text : Text)
    → c_str text ≡ text
    → length text ≤ 1023
    → sync_line now text ≡ whole_line now text
unfolding sync_line
sync_line-whole now text clean short = rw (clean, take_all 1023 text short) refl

abbrev pub ready : Text → SyncLogger
ready filename = record { filename = filename; is_open = true; good = true }

module _ (d : Device) (all : TakesAll d) where
  pub new_sync_logger-ready :
      (filename : Text) (files : LogFiles)
      → new_sync_logger d filename files ≡ (ready filename, append_log filename [] files)
  unfolding new_sync_logger
  new_sync_logger-ready filename files = rw (all.opens_all filename) refl

  pub inf_a-ready :
      (now : Tm) (text filename : Text) (files : LogFiles)
      → c_str text ≡ text
      → length text ≤ 1023
      → inf_a d now text (ready filename) files
        ≡ (ready filename, append_log filename (whole_line now text) files)
  unfolding inf_a
  inf_a-ready now text filename files clean short = rw (sync_line-whole now text clean short) (
      rw (all.takes_all filename (length (whole_line now text)))
        (rw (take-length (whole_line now text)) (ground arith)))

text_of-append_log :
    (p bytes : Text) (files : LogFiles)
    → text_of p (append_log p bytes files) ≡ text_of p files ++ bytes
text_of-append_log p bytes files =
    text_of-some p (text_of p files ++ bytes) (append_log p bytes files)
      (find_log-append_log p p bytes files ∙ rw (text_eq_self p) refl)

-- The file has grown by these bytes, and the others are as they were.
pub record Grown (filename bytes : Text) (old files : LogFiles) : Type 0 where
  pub text : text_of filename files ≡ text_of filename old ++ bytes
  pub others : (q : Text) → text_eq filename q ≡ false → find_log q files ≡ find_log q old

pub Grown-append_log :
    (filename bytes more : Text) (old files : LogFiles)
    → Grown filename bytes old files
    → Grown filename (bytes ++ more) old (append_log filename more files)
Grown-append_log filename bytes more old files v = record {
  text =
      text_of-append_log filename more files
      ∙ ap (λ (t : Text). t ++ more) v.text
      ∙ append_assoc (text_of filename old) bytes more;
  others = λ q o. find_log-append_log filename q more files ∙ rw o (v.others q o);
}

pub Grown-nil : (filename : Text) (old : LogFiles) → Grown filename [] old old
Grown-nil filename old = record {
  text = sym (append-nil (text_of filename old));
  others = λ q o. refl;
}

-- The lines of the calls with the indices below `count`.
abbrev pub sync_lines : (ℕ → Tm) → ℕ → List Text
sync_lines clock zero = []
sync_lines clock (suc count) =
    sync_lines clock count ++ whole_line (clock count) (sync_text count) ∷ []

sync_text-plain :
    (i : ℕ) → i < 10000000000 → (c_str (sync_text i) ≡ sync_text i) × (length (sync_text i) ≤ 1023)
unfolding sync_text c_str
sync_text-plain i h = (
  ap (λ (t : Text). codes "Sync log test " ++ t) (c_str-to_string i),
  omega (arith, length-to_string i h),
)

length-whole_line :
    (now : Tm) (i : ℕ)
    → length (date_time now) ≡ 19
    → length (whole_line now (sync_text i)) ≡ calculate_log_message_size (codes "Async") i + 29
unfolding calculate_log_message_size sync_text c_str
length-whole_line now i dated = omega (
  arith,
  dated,
  length-append (date_time now) (codes "] [INFO] " ++ (sync_text i ++ codes "\n")),
  length-append (to_string i) (codes "\n"),
)

length-sync_lines :
    (clock : ℕ → Tm) (count : ℕ)
    → ((i : ℕ) → length (date_time (clock i)) ≡ 19)
    → length (flatten (sync_lines clock count)) ≡ sum_sizes count + 29 * count
unfolding sum_sizes
length-sync_lines clock zero dated = refl
length-sync_lines clock (suc count) dated =
    let line = whole_line (clock count) (sync_text count) in
    omega (
      arith,
      ap length (flatten-append (sync_lines clock count) (line ∷ [])),
      length-append (flatten (sync_lines clock count)) (line ++ []),
      ap length (append-nil line),
      length-sync_lines clock count dated,
      length-whole_line (clock count) count (dated count),
    )

module _ (d : Device) (all : TakesAll d) where
  -- The logger stays open, and the file has the lines.
  record Logged (filename : Text) (old : LogFiles) (lines : List Text) (r : SyncLogger × LogFiles)
      : Type 0 where
    logger : r.0 ≡ ready filename
    grown : Grown filename (flatten lines) old r.1

  inf_a-Logged :
      (now : Tm) (text filename : Text) (old : LogFiles) (lines : List Text)
      (r : SyncLogger × LogFiles)
      → c_str text ≡ text
      → length text ≤ 1023
      → Logged filename old lines r
      → Logged filename old (lines ++ whole_line now text ∷ []) (inf_a d now text r.0 r.1)
  inf_a-Logged now text filename old lines r clean short v = record {
    logger = ap (λ (q : SyncLogger × LogFiles). q.0) ran;
    grown =
        subst
          (λ (q : SyncLogger × LogFiles).
            Grown filename (flatten (lines ++ whole_line now text ∷ [])) old q.1)
          (sym ran)
          (rw (flatten-snoc lines (whole_line now text))
            (Grown-append_log filename (flatten lines) (whole_line now text) old r.1 v.grown));
  }
    where
      ran :
          inf_a d now text r.0 r.1 ≡ (ready filename, append_log filename (whole_line now text) r.1)
      ran =
          ap (λ l. inf_a d now text l r.1) v.logger
          ∙ inf_a-ready d all now text filename r.1 clean short

  sync_calls-Logged :
      (clock : ℕ → Tm) (count : ℕ) (filename : Text) (old : LogFiles) (r : SyncLogger × LogFiles)
      → count ≤ 10000000000
      → Logged filename old [] r
      → Logged filename old (sync_lines clock count) (sync_calls d clock count r.0 r.1)
  unfolding sync_calls
  sync_calls-Logged clock zero filename old r small v = v
  sync_calls-Logged clock (suc count) filename old r small v =
      let (clean, short) = sync_text-plain count (omega arith) in
      inf_a-Logged (clock count) (sync_text count) filename old (sync_lines clock count)
        (sync_calls d clock count r.0 r.1) clean short
        (sync_calls-Logged clock count filename old r (omega arith) v)

  new_sync_logger-Logged :
      (filename : Text) (old : LogFiles) → Logged filename old [] (new_sync_logger d filename old)
  new_sync_logger-Logged filename old = rw (new_sync_logger-ready d all filename old) (record {
    logger = refl;
    grown = Grown-append_log filename [] [] old old (Grown-nil filename old);
  })

  -- Over a system that opens every file and takes every byte, the synchronous part with `count` calls puts
  -- one line for each call behind what its file held, in order and none cut, and leaves every other
  -- file as it was. With dates of 19 characters the lines of the first calls, as many as the test takes
  -- for its sample, are 29 bytes for each longer than the size that the test counts for the sample.
  pub sync_calls-Grown :
      (clock : ℕ → Tm) (count : ℕ) (filename : Text) (old : LogFiles)
      → count ≤ 10000000000
      → ((i : ℕ) → length (date_time (clock i)) ≡ 19)
      → Grown filename
          (flatten (sync_lines clock count))
          old
          (sync_calls d clock count
            (new_sync_logger d filename old).0
            (new_sync_logger d filename old).1).1
        × (length (flatten (sync_lines clock (sampled count)))
            ≡ total_bytes count + 29 * sampled count)
  unfolding total_bytes
  sync_calls-Grown clock count filename old small dated = (
    (sync_calls-Logged clock count filename old (new_sync_logger d filename old) small
        (new_sync_logger-Logged filename old)).grown,
    length-sync_lines clock (sampled count) dated,
  )

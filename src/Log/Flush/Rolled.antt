-- ===== src/Log/Flush/Rolled.antt =====
-- The files of a `RollFileFlush` of log_system/log_src/LogFlush.hpp.
use async_log_cloud_storage.Base.{
  ℕ, ◌≤◌, ◌≡◌, refl, sym, ap, ◌∙◌, false, [], ◌∷◌, ◌++◌, append_assoc, append-nil, map, flatten,
  length, Text, text_eq, none, some,
}
use async_log_cloud_storage.Log.Flush.{LogFiles, Stream, Tm, RollFileFlush, find_log, log_name}
use async_log_cloud_storage.Log.Flush.Streams.{Holding, find_log-append}

abbrev pub contents : LogFiles → Text
contents files = flatten (map (λ e. e.1) files)

abbrev pub AllAtMost : ℕ → LogFiles → Type 0
AllAtMost n [] = Unit {0}
AllAtMost n ((q, c) ∷ files) = (length c ≤ n) × AllAtMost n files

-- No file has a name that the counter can still give.
abbrev pub Unused : Text → ℕ → LogFiles → Type 0
Unused basename cnt files =
    (t : Tm) (k : ℕ) → cnt ≤ k → find_log (log_name basename t k) files ≡ none

-- A flusher with an open file: `old` are the files from before it, `closed` those it has closed, and
-- `text` has been written to the open one.
pub record Rolling (old : LogFiles) (limit : ℕ) (written : Text) (r : RollFileFlush)
    (files : LogFiles) : Type 0 where
  pub closed : LogFiles
  pub text : Text
  pub stream : Stream
  pub opened : r.fs ≡ some stream
  pub holding : Holding (old ++ closed) text stream files
  pub sized : r.cur_size ≡ length text
  pub small : length text ≤ limit
  pub all_small : AllAtMost limit closed
  pub all_written : contents closed ++ text ≡ written
  pub unused : Unused r.basename r.cnt (old ++ closed)
  pub own : (t : Tm) (k : ℕ) → r.cnt ≤ k → text_eq stream.name (log_name r.basename t k) ≡ false

pub find_log-snoc :
    (p q c : Text) (files : LogFiles)
    → find_log p files ≡ none
    → text_eq q p ≡ false
    → find_log p (files ++ (q, c) ∷ []) ≡ none
unfolding find_log
find_log-snoc p q c files h e = find_log-append p files ((q, c) ∷ []) h ∙ rw e refl

pub AllAtMost-snoc :
    (n : ℕ) (q c : Text) (files : LogFiles)
    → AllAtMost n files
    → length c ≤ n
    → AllAtMost n (files ++ (q, c) ∷ [])
AllAtMost-snoc n q c [] a h = (h, tt)
AllAtMost-snoc n q c ((p, e) ∷ files) a h = (a.0, AllAtMost-snoc n q c files a.1 h)

pub contents-snoc :
    (q c : Text) (files : LogFiles) → contents (files ++ (q, c) ∷ []) ≡ contents files ++ c
contents-snoc q c [] = append-nil c
contents-snoc q c ((p, e) ∷ files) =
    ap (◌++◌ e) (contents-snoc q c files) ∙ sym (append_assoc e (contents files) c)

-- ===== src/TestLogger/Threads/Order.antt =====
-- The lines that the threads of src/server/TestLogger.cpp put into their one file, in which order.
use async_log_cloud_storage.Base.{
  replaced, replaced-all, ℕ, suc, ◌≤◌, ◌<◌, ◌≡◌, refl, ap, ◌∙◌, List, [], ◌∷◌, ◌++◌, append-nil,
  map, flatten, flatten-snoc, length, length-append, Text, codes, c_str, to_string, c_str-to_string,
  length-to_string, arith,
}
use mathlib.Core.Path.{subst}
use mathlib.Core.List.{map-append}
use async_log_cloud_storage.Log.Flush.{LogFiles, Device, append_log}
use async_log_cloud_storage.Log.Flush.Streams.{TakesAll}
use async_log_cloud_storage.TestLogger.{SyncLogger}
use async_log_cloud_storage.TestLogger.Sync.{
  whole_line, ready, new_sync_logger-ready, inf_a-ready, Grown, Grown-append_log, Grown-nil,
}
use async_log_cloud_storage.TestLogger.Calls.{
  Call, indices_of, upto, indices_of-mine, indices_of-other,
}
use async_log_cloud_storage.TestLogger.Threads.{
  Stage, starting, logging, done, System, sync_file, thread_text, call_step, open_step, Step,
  constructs, logs, ends, Reach, begins, later,
}

abbrev pub line_of : Call → Text
line_of c = whole_line c.now (thread_text c.thread c.index)

c_str-append : (a b : Text) → c_str a ≡ a → c_str (a ++ b) ≡ a ++ c_str b
unfolding c_str
c_str-append [] b e = refl
c_str-append (x ∷ a) b e = ground (arith, c_str-append a b)

thread_text-plain :
    (t i : ℕ)
    → t < 10000000000
    → i < 10000000000
    → (c_str (thread_text t i) ≡ thread_text t i) × (length (thread_text t i) ≤ 1023)
unfolding thread_text c_str
thread_text-plain t i small_t small_i = (
  ap (λ (s : Text). codes "Sync Thread-" ++ s)
      (c_str-append (to_string t) (codes " Log-" ++ to_string i) (c_str-to_string t)
        ∙ ap (λ (s : Text). to_string t ++ (codes " Log-" ++ s)) (c_str-to_string i)),
  omega (
    arith,
    length-append (to_string t) (codes " Log-" ++ to_string i),
    length-to_string t small_t,
    length-to_string i small_i,
  ),
)

-- How many calls a thread has made.
abbrev pub made : ℕ → Stage → ℕ
made logs_per_thread starting = 0
made logs_per_thread (logging l k) = k
made logs_per_thread done = logs_per_thread

abbrev IsReady : Stage → Type 0
IsReady (logging l k) = l ≡ ready sync_file
IsReady _ = Unit {0}

record Inv (logs_per_thread : ℕ) (old : LogFiles) (s : System) : Type 0 where
  grown : Grown sync_file (flatten (map line_of s.calls)) old s.files
  loggers : (t : ℕ) → IsReady (s.stage t)
  counted : (t : ℕ) → indices_of t s.calls ≡ upto (made logs_per_thread (s.stage t))

module _ (d : Device) (all : TakesAll d) (thread_count logs_per_thread : ℕ) (old : LogFiles) where
  open_step-Inv :
      (t : ℕ) (s : System)
      → s.stage t ≡ starting
      → Inv logs_per_thread old s
      → Inv logs_per_thread old (open_step d t s)
  unfolding open_step
  open_step-Inv t s at v = rw (new_sync_logger-ready d all sync_file s.files) (record {
    grown =
        subst (λ (b : Text). Grown sync_file b old (append_log sync_file [] s.files))
          (append-nil (flatten (map line_of s.calls)))
          (Grown-append_log sync_file (flatten (map line_of s.calls)) [] old s.files v.grown);
    loggers =
        replaced-all (λ u st. IsReady st) t (logging (ready sync_file) 0) s.stage refl
          (λ u _. v.loggers u);
    counted =
        replaced-all (λ u st. indices_of u s.calls ≡ upto (made logs_per_thread st)) t
          (logging (ready sync_file) 0) s.stage
          (v.counted t ∙ ap (λ (x : Stage). upto (made logs_per_thread x)) at) (λ u _. v.counted u);
  })

  call_step-Inv :
      (c : Call) (l : SyncLogger) (s : System)
      → c.thread < 10000000000
      → c.index < 10000000000
      → s.stage c.thread ≡ logging l c.index
      → Inv logs_per_thread old s
      → Inv logs_per_thread old (call_step d c l s)
  unfolding call_step
  call_step-Inv c l s small_t small_i at v =
      let (clean, short) = thread_text-plain c.thread c.index small_t small_i in
      let mine : l ≡ ready sync_file = subst IsReady at (v.loggers c.thread) in
      rw mine (
        rw (inf_a-ready d all c.now (thread_text c.thread c.index) sync_file s.files clean short)
          (record {
            grown =
                rw
                  (
                    map-append line_of s.calls (c ∷ []),
                    flatten-snoc (map line_of s.calls) (line_of c),
                  )
                  (Grown-append_log sync_file (flatten (map line_of s.calls)) (line_of c) old
                    s.files v.grown);
            loggers =
                replaced-all (λ u st. IsReady st) c.thread (logging (ready sync_file) (suc c.index))
                  s.stage refl (λ u _. v.loggers u);
            counted =
                replaced-all
                  (λ u st. indices_of u (s.calls ++ c ∷ []) ≡ upto (made logs_per_thread st))
                  c.thread (logging (ready sync_file) (suc c.index)) s.stage
                  (indices_of-mine s.calls c
                    ∙ ap (λ (ks : List ℕ). ks ++ c.index ∷ [])
                        (v.counted c.thread ∙ ap (λ (x : Stage). upto (made logs_per_thread x)) at))
                  (λ u e. indices_of-other u s.calls c e ∙ v.counted u);
          }))

  end_step-Inv :
      (t : ℕ) (l : SyncLogger) (s : System)
      → s.stage t ≡ logging l logs_per_thread
      → Inv logs_per_thread old s
      → Inv logs_per_thread old (record s { stage = replaced t done s.stage })
  end_step-Inv t l s at v = record {
    grown = v.grown;
    loggers = replaced-all (λ u st. IsReady st) t done s.stage tt (λ u _. v.loggers u);
    counted =
        replaced-all (λ u st. indices_of u s.calls ≡ upto (made logs_per_thread st)) t done s.stage
          (v.counted t ∙ ap (λ (x : Stage). upto (made logs_per_thread x)) at) (λ u _. v.counted u);
  }

  module _ (few : thread_count ≤ 10000000000) (small : logs_per_thread ≤ 10000000000) where
    Step-Inv :
        {s t : System}
        → Step d thread_count logs_per_thread s t
        → Inv logs_per_thread old s
        → Inv logs_per_thread old t
    Step-Inv {s} (constructs t in_range at) v = open_step-Inv t s at v
    Step-Inv {s} (logs c l in_range at more) v =
        call_step-Inv c l s (omega arith) (omega arith) at v
    Step-Inv {s} (ends t l at) v = end_step-Inv t l s at v

    Reach-Inv :
        {s : System} → Reach d thread_count logs_per_thread old s → Inv logs_per_thread old s
    Reach-Inv begins = record {
      grown = Grown-nil sync_file old;
      loggers = λ t. tt;
      counted = λ t. refl;
    }
    Reach-Inv (later r st) = Step-Inv st (Reach-Inv r)

    -- Over a system that opens every file and takes every byte, and however the threads take turns: the
    -- file has grown by the whole lines of the calls, in the order in which they were made, and no
    -- other file has changed; and the calls of each thread are those with the indices from 0 on, each
    -- once and in order, up to its next one, and all of them once it has ended.
    pub lines_in_order :
        (s : System)
        → Reach d thread_count logs_per_thread old s
        → Grown sync_file (flatten (map line_of s.calls)) old s.files
          × ((t : ℕ) → indices_of t s.calls ≡ upto (made logs_per_thread (s.stage t)))
    lines_in_order s r = let v = Reach-Inv r in (v.grown, v.counted)

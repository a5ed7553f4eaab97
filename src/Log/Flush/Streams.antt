-- ===== src/Log/Flush/Streams.antt =====
-- What the stream calls of log_system/log_src/LogFlush.hpp do to the last of the files.
use mathlib.Core.Path.{subst}
use async_log_cloud_storage.Base.{
  take-drop, ℕ, ◌≡◌, refl, sym, ap, ◌∙◌, true, ◌||◌, ◌==◌, [], ◌∷◌, ◌++◌, append_assoc, append-nil,
  length, take, drop, take-length, Text, text_eq_self, none, some, arith, Bool-cases, inl, inr,
}
use async_log_cloud_storage.Log.Config.{LogConfig}
use async_log_cloud_storage.Log.Flush.{
  LogFiles, Device, Stream, find_log, append_log, flush_stream, close_stream, open_append,
  write_stream, flush_by_config,
}

pub find_log-append :
    (p : Text) (files more : LogFiles)
    → find_log p files ≡ none
    → find_log p (files ++ more) ≡ find_log p more
unfolding find_log
find_log-append p [] more h = refl
find_log-append p ((q, c) ∷ files) more h = ground (arith, find_log-append p files more)

append_log-fresh :
    (p bytes : Text) (files : LogFiles)
    → find_log p files ≡ none
    → append_log p bytes files ≡ files ++ (p, bytes) ∷ []
unfolding find_log append_log
append_log-fresh p bytes [] h = refl
append_log-fresh p bytes ((q, c) ∷ files) h = ground (arith, append_log-fresh p bytes files)

append_log-last :
    (p bytes c : Text) (files : LogFiles)
    → find_log p files ≡ none
    → append_log p bytes (files ++ (p, c) ∷ []) ≡ files ++ (p, c ++ bytes) ∷ []
unfolding find_log append_log
append_log-last p bytes c [] h = rw (text_eq_self p) refl
append_log-last p bytes c ((q, e) ∷ files) h = ground (arith, append_log-last p bytes c files)

-- `fwrite` takes every byte, and every `fopen` succeeds.
pub record TakesAll (d : Device) : Type 0 where
  pub opens_all : (name : Text) → d.opens name ≡ true
  pub takes_all : (name : Text) (n : ℕ) → d.takes name n ≡ n

-- The stream writes to the last file, behind `pre`, and `text` has been written to it since it was
-- opened as a new file.
pub record Holding (pre : LogFiles) (text : Text) (s : Stream) (files : LogFiles) : Type 0 where
  pub content : Text
  pub at_end : files ≡ pre ++ (s.name, content) ∷ []
  pub unused : find_log s.name pre ≡ none
  pub whole : content ++ s.buffered ≡ text

append_log-Holding :
    (pre : LogFiles) (text bytes rest : Text) (s : Stream) (files : LogFiles)
    → Holding pre text s files
    → (more : Text) → s.buffered ++ more ≡ bytes ++ rest
    → Holding pre (text ++ more) (record s { buffered = rest }) (append_log s.name bytes files)
append_log-Holding pre text bytes rest s files h more e = record {
  content = h.content ++ bytes;
  at_end = rw (h.at_end) (append_log-last s.name bytes h.content pre h.unused);
  unused = h.unused;
  whole =
      append_assoc h.content bytes rest
      ∙ ap (◌++◌ h.content) (sym e)
      ∙ sym (append_assoc h.content s.buffered more)
      ∙ ap (λ (t : Text). t ++ more) h.whole;
}

pub write_stream-Holding :
    (d : Device) (pre : LogFiles) (text bytes : Text) (s : Stream) (files : LogFiles)
    → TakesAll d
    → Holding pre text s files
    → Holding pre (text ++ bytes) (write_stream d bytes s files).0 (write_stream d bytes s files).1
unfolding write_stream
write_stream-Holding d pre text bytes s files all h =
    let held = s.buffered ++ take (d.takes s.name (length bytes)) bytes in
    append_log-Holding pre text (take (d.spills held) held) (drop (d.spills held) held) s files h
      bytes (ap (λ (t : Text). s.buffered ++ t) (sym taken) ∙ take-drop (d.spills held) held)
  where
    taken : take (d.takes s.name (length bytes)) bytes ≡ bytes
    taken = rw (all.takes_all s.name (length bytes)) (take-length bytes)

pub flush_by_config-Holding :
    (c : LogConfig) (pre : LogFiles) (text : Text) (s : Stream) (files : LogFiles)
    → Holding pre text s files
    → Holding pre text (flush_by_config c s files).0 (flush_by_config c s files).1
unfolding flush_by_config flush_stream
flush_by_config-Holding c pre text s files h =
    elim (Bool-cases (c.flush_log == 1 || c.flush_log == 2)) [
      | inl e ↦ rw e flushed
      | inr e ↦ rw e h
    ]
  where
    flushed : Holding pre text (record s { buffered = [] }) (append_log s.name s.buffered files)
    flushed =
        subst
          (λ (t : Text).
            Holding pre t (record s { buffered = [] }) (append_log s.name s.buffered files))
          (append-nil text) (append_log-Holding pre text s.buffered [] s files h [] refl)

pub close_stream-Holding :
    (pre : LogFiles) (text : Text) (s : Stream) (files : LogFiles)
    → Holding pre text s files
    → close_stream s files ≡ pre ++ (s.name, text) ∷ []
unfolding close_stream
close_stream-Holding pre text s files h =
    rw h.at_end (append_log-last s.name s.buffered h.content pre h.unused)
    ∙ ap (λ (t : Text). pre ++ (s.name, t) ∷ []) h.whole

pub open_append-Holding :
    (d : Device) (name : Text) (pre : LogFiles)
    → TakesAll d
    → find_log name pre ≡ none
    → (open_append d name pre
        ≡ (some (record { name = name; buffered = [] }), append_log name [] pre))
      × Holding pre [] (record { name = name; buffered = [] }) (append_log name [] pre)
unfolding open_append
open_append-Holding d name pre all h = (
  rw (all.opens_all name) refl,
  record { content = []; at_end = append_log-fresh name [] pre h; unused = h; whole = refl },
)

pub name-write_flush :
    (c : LogConfig) (d : Device) (bytes : Text) (s : Stream) (files : LogFiles)
    → (flush_by_config c (write_stream d bytes s files).0 (write_stream d bytes s files).1).0.name
      ≡ s.name
unfolding flush_by_config write_stream flush_stream
name-write_flush c d bytes s files = ground arith

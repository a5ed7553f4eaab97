-- ===== src/Log/Flush/Opened.antt =====
-- A stream of log_system/log_src/LogFlush.hpp over a file that may have been there before.
use mathlib.Core.Path.{subst}
use async_log_cloud_storage.Base.{
  ◌≡◌, refl, sym, ap, ◌∙◌, false, [], ◌∷◌, ◌++◌, append_assoc, append-nil, if◌then◌else◌, Text,
  text_eq, text_eq_iff, text_eq_self, none, some, arith, Bool-cases, inl, inr,
}
use async_log_cloud_storage.Log.Flush.{LogFiles, Stream, find_log, append_log, flush_stream}

-- What a file holds, no file counting as an empty one.
unfoldable pub text_of : Text → LogFiles → Text
text_of p files = elim (find_log p files) [ none ↦ [] | some c ↦ c ]

pub find_log-append_log :
    (p q bytes : Text) (files : LogFiles)
    → find_log q (append_log p bytes files)
      ≡ (if text_eq p q then some (text_of p files ++ bytes) else find_log q files)
unfolding find_log append_log text_of
find_log-append_log p q bytes [] = refl
find_log-append_log p q bytes ((r, c) ∷ files) =
    ground (
      arith,
      text_eq_iff p q,
      text_eq_iff r p,
      text_eq_iff r q,
      find_log-append_log p q bytes files,
    )

pub text_of-some : (p c : Text) (files : LogFiles) → find_log p files ≡ some c → text_of p files ≡ c
unfolding text_of
text_of-some p c files e = rw (e, text_of) refl

-- The stream is open, its file holds `text` but for what the stream holds back, and the other files are
-- those of `old`.
pub record Open (old : LogFiles) (name text : Text) (s : Stream) (files : LogFiles) : Type 0 where
  pub content : Text
  pub named : s.name ≡ name
  pub there : find_log name files ≡ some content
  pub whole : content ++ s.buffered ≡ text
  pub others : (q : Text) → text_eq name q ≡ false → find_log q files ≡ find_log q old

pub append_log-Open :
    (old : LogFiles) (name text bytes rest more : Text) (s : Stream) (files : LogFiles)
    → Open old name text s files
    → s.buffered ++ more ≡ bytes ++ rest
    → Open old name (text ++ more) (record s { buffered = rest }) (append_log s.name bytes files)
append_log-Open old name text bytes rest more s files v e = record {
  content = v.content ++ bytes;
  named = v.named;
  there =
      found name
      ∙ rw (text_eq_self name)
          (ap (λ (t : Text). some (t ++ bytes)) (text_of-some name v.content files v.there));
  whole =
      append_assoc v.content bytes rest
      ∙ ap (◌++◌ v.content) (sym e)
      ∙ sym (append_assoc v.content s.buffered more)
      ∙ ap (λ (t : Text). t ++ more) v.whole;
  others = λ q o. found q ∙ rw o (v.others q o);
}
  where
    found :
        (q : Text)
        → find_log q (append_log s.name bytes files)
          ≡ (if text_eq name q then some (text_of name files ++ bytes) else find_log q files)
    found q =
        ap (λ n. find_log q (append_log n bytes files)) v.named
        ∙ find_log-append_log name q bytes files

pub flush_stream-Open :
    (old : LogFiles) (name text : Text) (s : Stream) (files : LogFiles)
    → Open old name text s files
    → Open old name text (flush_stream s files).0 (flush_stream s files).1
unfolding flush_stream
flush_stream-Open old name text s files v =
    subst
      (λ (t : Text).
        Open old name t (record s { buffered = [] }) (append_log s.name s.buffered files))
      (append-nil text) (append_log-Open old name text s.buffered [] [] s files v refl)

pub flush_stream-buffered : (s : Stream) (files : LogFiles) → (flush_stream s files).0.buffered ≡ []
unfolding flush_stream
flush_stream-buffered s files = refl

-- With nothing held back, the file holds all of the text.
pub seen :
    (old : LogFiles) (name text : Text) (s : Stream) (files : LogFiles) (q : Text)
    → s.buffered ≡ []
    → Open old name text s files
    → find_log q files ≡ (if text_eq name q then some text else find_log q old)
seen old name text s files q nothing v = elim (Bool-cases (text_eq name q)) [
  | inl e ↦
      rw e
        (ap (λ p. find_log p files) (sym ((text_eq_iff name q).0 e)) ∙ v.there ∙ ap some all_there)
  | inr e ↦ rw e (v.others q e)
]
  where
    all_there : v.content ≡ text
    all_there = sym (append-nil v.content) ∙ ap (◌++◌ v.content) (sym nothing) ∙ v.whole

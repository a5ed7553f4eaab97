-- ===== src/Log/Message/Lines.antt =====
-- The log of log_system/log_src/Message.hpp as lines.
use async_log_cloud_storage.Base.{
  ℕ, zero, suc, ◌+◌, ◌/◌, ◌%◌, ◌≡◌, refl, sym, ap, ◌∙◌, false, List, [], ◌∷◌, ◌++◌, map,
  append_assoc, flatten, if◌then◌else◌, ◌==◌, Text, codes, digits_onto, to_string, arith,
}
use async_log_cloud_storage.Log.Flush.{Tm}
use async_log_cloud_storage.Log.Message.{
  LogLevel, debug, info, warn, error, fatal, level_string, LogMessage, two_digits, date_time,
  header, format,
}

-- The byte is not in the text.
abbrev pub Absent : ℕ → Text → Type 0
Absent c [] = Unit {0}
Absent c (x ∷ s) = ((x == c) ≡ false) × Absent c s

Absent-append : (c : ℕ) (s t : Text) → Absent c s → Absent c t → Absent c (s ++ t)
Absent-append c [] t a b = b
Absent-append c (x ∷ s) t a b = (a.0, Absent-append c s t a.1 b)

digits_onto-Absent : (f n : ℕ) (acc : Text) → Absent b'\n' acc → Absent b'\n' (digits_onto f n acc)
unfolding digits_onto
digits_onto-Absent zero n acc h = h
digits_onto-Absent (suc f) n acc h =
    ground (arith, digits_onto-Absent f (n / 10) ((n % 10 + b'0') ∷ acc))

to_string-Absent : (n : ℕ) → Absent b'\n' (to_string n)
unfolding to_string
to_string-Absent n = digits_onto-Absent (suc n) n [] tt

two_digits-Absent : (n : ℕ) → Absent b'\n' (two_digits n)
unfolding two_digits
two_digits-Absent n = ground arith

level_string-Absent : (l : LogLevel) → Absent b'\n' (level_string l)
unfolding level_string
level_string-Absent debug = ground arith
level_string-Absent info = ground arith
level_string-Absent warn = ground arith
level_string-Absent error = ground arith
level_string-Absent fatal = ground arith

-- The texts that a message is made of have no line break.
pub record OneLine (m : LogMessage) : Type 0 where
  pub in_file : Absent b'\n' m.filename
  pub in_message : Absent b'\n' m.message
  pub in_name : Absent b'\n' m.logger_name
  pub in_tid : Absent b'\n' m.tid

date_time-Absent : (t : Tm) → Absent b'\n' (date_time t)
unfolding date_time
date_time-Absent t = Absent-append _ _ _ (to_string-Absent (t.tm_year + 1900)) (
  refl,
  Absent-append _ _ _ (two_digits-Absent (t.tm_mon + 1)) (
    refl,
    Absent-append _ _ _ (two_digits-Absent t.tm_mday) (
      refl,
      Absent-append _ _ _ (two_digits-Absent t.tm_hour) (
        refl,
        Absent-append _ _ _ (two_digits-Absent t.tm_min) (refl, two_digits-Absent t.tm_sec),
      ),
    ),
  ),
)

field :
    (s rest : Text) → Absent b'\n' s → Absent b'\n' rest → Absent b'\n' (codes "][" ++ (s ++ rest))
field s rest a b = (refl, (refl, Absent-append b'\n' s rest a b))

header-Absent : (m : LogMessage) → OneLine m → Absent b'\n' (header m)
unfolding header
header-Absent m v = (
  refl,
  Absent-append _ _ _ (date_time-Absent m.timestamp) (
      field m.tid _ v.in_tid (
        field (level_string m.level) _ (level_string-Absent m.level) (
          field m.logger_name _ v.in_name (
            field m.filename _ v.in_file
              (refl, Absent-append _ _ _ (to_string-Absent m.line) (refl, (refl, tt))))))),
)

-- A text cut behind each line break; a rest without one is left out.
unfoldable pub lines : Text → Text → List Text
lines start [] = []
lines start (x ∷ s) =
    let cut = lines [] s in
    let more = lines (start ++ x ∷ []) s in if x == b'\n' then (start ++ x ∷ []) ∷ cut else more

lines-line :
    (start line rest : Text)
    → Absent b'\n' line
    → lines start (line ++ b'\n' ∷ rest) ≡ (start ++ (line ++ codes "\n")) ∷ lines [] rest
unfolding lines
lines-line start [] rest a = refl
lines-line start (x ∷ line) rest a = rw a.0 (
    lines-line (start ++ x ∷ []) line rest a.1
    ∙ ap (λ (t : Text). t ∷ lines [] rest) (append_assoc start (x ∷ []) (line ++ codes "\n")))

abbrev pub AllOneLine : List LogMessage → Type 0
AllOneLine [] = Unit {0}
AllOneLine (m ∷ ms) = OneLine m × AllOneLine ms

lines-first :
    (m : LogMessage) (rest : Text)
    → OneLine m
    → lines [] (format m ++ rest) ≡ format m ∷ lines [] rest
unfolding format
lines-first m rest v =
    ap (λ (t : Text). lines [] (t ++ rest)) (sym whole)
    ∙ ap (λ (t : Text). lines [] t) (append_assoc (header m ++ m.message) (codes "\n") rest)
    ∙ lines-line [] (header m ++ m.message) rest
        (Absent-append _ _ _ (header-Absent m v) v.in_message)
    ∙ ap (λ (t : Text). t ∷ lines [] rest) whole
  where
    whole : (header m ++ m.message) ++ codes "\n" ≡ header m ++ (m.message ++ codes "\n")
    whole = append_assoc (header m) m.message (codes "\n")

-- A log of messages whose texts have no line break, cut behind each line break, is the messages
-- again: one line for each, in order.
pub lines-format :
    (ms : List LogMessage) → AllOneLine ms → lines [] (flatten (map format ms)) ≡ map format ms
unfolding lines
lines-format [] v = refl
lines-format (m ∷ ms) v =
    lines-first m (flatten (map format ms)) v.0 ∙ ap (◌∷◌ (format m)) (lines-format ms v.1)

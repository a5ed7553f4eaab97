-- ===== src/Log/Whole/Backlog.antt =====
-- The way of urgent log messages of log_system/log_src from the logger of AsyncLogger.hpp over
-- backlog_code/SendBackupLog.hpp to the log file of the server in backlog_code.
mod Examples
use async_log_cloud_storage.Base.{
  ℕ, ◌+◌, ◌<◌, ◌≡◌, refl, ap, ◌∙◌, Bool-cases, inl, inr, true, false, List, [], ◌∷◌, ◌++◌, map,
  flatten, length, take, take-length, if◌then◌else◌, Text, c_str, none, some, Outcome, ok, arith,
}
use async_log_cloud_storage.Log.Flush.{Tm}
use async_log_cloud_storage.Log.Message.{LogLevel, LogMessage, format}
use async_log_cloud_storage.Log.Logger.{Action, sends_backlog, pushes, is_backed_up, serialize}
use async_log_cloud_storage.Log.Backup.{
  Network, send_backlog, send_backlog-connected, BackupDisk, Client, serve, AreReadable,
  whole_reads, entries, serve-appends,
}

-- A call of one of `Debug` to `Fatal`, with what `vasprintf` made.
pub record Entry : Type 0 where
  pub now : Tm
  pub tid : Text
  pub level : LogLevel
  pub file : Text
  pub line : ℕ
  pub log : Text

abbrev pub actions_of : Text → Entry → List Action
actions_of name e = serialize name e.now e.tid e.level e.file e.line e.log

-- The line of a call.
abbrev pub text_of : Text → Entry → Text
text_of name e = format (record {
  level = e.level;
  filename = e.file;
  line = e.line;
  timestamp = e.now;
  message = c_str e.log;
  logger_name = name;
  tid = e.tid;
})

-- The texts that are written over connections to the backup server.
abbrev pub sent_over : Network → List Action → List Text
sent_over net [] = []
sent_over net (pushes t ∷ rest) = sent_over net rest
sent_over net (sends_backlog t ∷ rest) =
    let later = sent_over net rest in
    elim (send_backlog net t).sent [ none ↦ later | some bytes ↦ bytes ∷ later ]

-- The texts that are pushed to the worker.
abbrev pub pushed : List Action → List Text
pushed [] = []
pushed (pushes t ∷ rest) = t ∷ pushed rest
pushed (sends_backlog t ∷ rest) = pushed rest

-- The connections that calls make one after the other, each call from its own address, with what is
-- written over them.
abbrev pub connections : Network → Text → List (Client × Entry) → List (Client × Text)
connections net name [] = []
connections net name ((c, e) ∷ calls) =
    map (λ bytes. (c, bytes)) (sent_over net (actions_of name e)) ++ connections net name calls

-- The calls of the levels ERROR and FATAL, with their lines.
abbrev pub urgent : Text → List (Client × Entry) → List (Client × Text)
urgent name [] = []
urgent name ((c, e) ∷ calls) =
    let rest = urgent name calls in
    if is_backed_up e.level then (c, text_of name e) ∷ rest else rest

-- One of the first five calls of `connect` succeeds, and the socket takes every byte.
pub record Reaches (net : Network) : Type 0 where
  pub call : ℕ
  pub in_time : call < 5
  pub succeeds : net.connects call ≡ true
  pub first : (j : ℕ) → j < call → net.connects j ≡ false
  pub takes_all : (n : ℕ) → net.writes n ≡ n

sent_whole :
    (net : Network) (message : Text) → Reaches net → (send_backlog net message).sent ≡ some message
sent_whole net message v =
    ap (λ s. s.sent) (send_backlog-connected net message v.call v.in_time v.succeeds v.first)
    ∙ rw (v.takes_all (length message), take-length message) refl

sent_over-both :
    (net : Network) (t : Text)
    → Reaches net
    → sent_over net (sends_backlog t ∷ pushes t ∷ []) ≡ t ∷ []
sent_over-both net t v = rw (sent_whole net t v, sent_over) refl

sent_over-actions_of :
    (net : Network) (name : Text) (e : Entry)
    → Reaches net
    → sent_over net (actions_of name e) ≡ (if is_backed_up e.level then text_of name e ∷ [] else [])
unfolding serialize
sent_over-actions_of net name e v = elim (Bool-cases (is_backed_up e.level)) [
  | inl y ↦ rw y (sent_over-both net (text_of name e) v)
  | inr n ↦ rw n refl
]

connections-urgent :
    (net : Network) (name : Text) (calls : List (Client × Entry))
    → Reaches net
    → connections net name calls ≡ urgent name calls
connections-urgent net name [] v = refl
connections-urgent net name ((c, e) ∷ calls) v =
    rw (sent_over-actions_of net name e v, connections-urgent net name calls v)
      (elim (Bool-cases (is_backed_up e.level)) [ inl y ↦ rw y refl | inr n ↦ rw n refl ])

pushed-actions_of : (name : Text) (e : Entry) → pushed (actions_of name e) ≡ text_of name e ∷ []
unfolding serialize
pushed-actions_of name e = elim (Bool-cases (is_backed_up e.level)) [
  | inl y ↦ rw y refl
  | inr n ↦ rw n refl
]

pushed-calls :
    (name : Text) (calls : List (Client × Entry))
    → flatten (map (λ e. pushed (actions_of name e.1)) calls) ≡ map (λ e. text_of name e.1) calls
pushed-calls name [] = refl
pushed-calls name ((c, e) ∷ calls) =
    rw (pushed-actions_of name e) (ap (◌∷◌ (text_of name e)) (pushed-calls name calls))

-- Calls of a logger one after the other, where one of five attempts to connect succeeds, the socket and the
-- server's disk take every byte, the server reads each connection whole and in this order, and the lines
-- of the urgent calls have 1 to 1023 bytes and no null byte: the server's log grows by the lines
-- of the calls of the levels ERROR and FATAL, in order, each behind its address, and the worker is
-- given the lines of all calls.
pub backed_up :
    (net : Network) (d : BackupDisk) (name : Text) (calls : List (Client × Entry)) (log : Text)
    → Reaches net
    → d.opens ≡ true
    → ((n : ℕ) → d.takes n ≡ n)
    → AreReadable (urgent name calls)
    → (serve d (whole_reads (connections net name calls)) log
        ≡ ok (log ++ flatten (entries (urgent name calls))))
      × (flatten (map (λ e. pushed (actions_of name e.1)) calls)
          ≡ map (λ e. text_of name e.1) calls)
backed_up net d name calls log v opens takes readable = (
  rw (connections-urgent net name calls v)
      (serve-appends d (urgent name calls) log opens takes readable),
  pushed-calls name calls,
)

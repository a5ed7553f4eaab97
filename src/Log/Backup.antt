-- ===== src/Log/Backup.antt =====
-- The backup of log messages: `send_backlog` of log_system/log_src/backlog_code/SendBackupLog.hpp, and
-- the server's side in ServerBackupLog.hpp and ServerBackupLog.cpp beside it.
mod Examples
pub mod Program
use mathlib.Core.Path.{subst}
use async_log_cloud_storage.Base.{
  ℕ, zero, suc, ◌+◌, ◌≤◌, ◌<◌, ◌≡◌, refl, sym, ap, ◌∙◌, Bool, true, false, List, [], ◌∷◌, ◌++◌,
  append_assoc, append-nil, map, flatten, length, take, take-length, ltb, ◌==◌, if◌then◌else◌, Text,
  codes, c_str, to_string, Option, none, some, Outcome, ok, fail, assertion, out_of_bounds, ◌>>=◌,
  arith,
}

-- How the network answers the sender.
pub record Network : Type 0 where
  -- whether the call of `connect` with this number succeeds
  pub connects : ℕ → Bool
  -- how many of so many bytes `write` takes; 0 where it fails
  pub writes : ℕ → ℕ

-- What came of a call: how often it called `connect`, and what it wrote if it was connected.
pub record Sent : Type 0 where
  pub attempts : ℕ
  pub sent : Option Text

-- The loop, with `cnt` at `left`, at the call with number `i`: how many calls there were, and whether
-- the last succeeded. It is entered with 5.
unfoldable pub connect_from : Network → ℕ → ℕ → ℕ × Bool
connect_from net zero i = (i, false)
connect_from net (suc left) i =
    let rest = connect_from net left (i + 1) in
    if net.connects i then (i + 1, true) else if left == 0 then (i + 1, false) else rest

unfoldable pub send_backlog : Network → Text → Sent
send_backlog net message =
    let (attempts, connected) = connect_from net 5 0 in
    record {
      attempts = attempts;
      sent = if connected then some (take (net.writes (length message)) message) else none;
    }

-- The disk of the server.
pub record BackupDisk : Type 0 where
  pub opens : Bool
  pub takes : ℕ → ℕ

-- `backup_log`, on the content of the log file.
unfoldable pub backup_log : BackupDisk → Text → Text → Outcome Text
backup_log d message log =
    if d.opens
    then if d.takes (length message) == length message then ok (log ++ message) else fail assertion
    else fail assertion

-- What `read` into the 1024 bytes of `buf` gives.
pub data ReadResult : Type 0 where
  read_error : ReadResult
  received : Text → ReadResult

-- `buf[r_ret] = 0` is a write outside of `buf` when it is full.
unfoldable pub service : BackupDisk → Text → ReadResult → Text → Outcome Text
service d client_info read_error log = ok log
service d client_info (received bytes) log =
    if length bytes == 0
    then ok log
    else if ltb (length bytes) 1024
    then backup_log d (client_info ++ c_str bytes) log
    else fail out_of_bounds

pub record Client : Type 0 where
  pub client_ip : Text
  pub client_port : ℕ

unfoldable pub client_info : Client → Text
client_info c = c.client_ip ++ (codes ":" ++ to_string c.client_port)

unfoldable pub thread_routine : BackupDisk → Client → ReadResult → Text → Outcome Text
thread_routine d c r log = service d (client_info c) r log

-- Clients in the order in which their threads append to the log.
unfoldable pub serve : BackupDisk → List (Client × ReadResult) → Text → Outcome Text
serve d [] log = ok log
serve d ((c, r) ∷ clients) log = thread_routine d c r log >>= λ log'. serve d clients log'

zero-right : (i : ℕ) → i + 0 ≡ i
zero-right i = omega arith

zero-left : (i : ℕ) → i ≡ 0 + i
zero-left i = omega arith

shift : (i k : ℕ) → i + suc k ≡ i + 1 + k
shift i k = omega arith

positive : (n : ℕ) → 0 < n → (n == 0) ≡ false
positive n h = ground arith

connect_from-first :
    (net : Network) (left k i : ℕ)
    → k < left
    → net.connects (i + k) ≡ true
    → ((j : ℕ) → j < k → net.connects (i + j) ≡ false)
    → connect_from net left i ≡ (i + k + 1, true)
unfolding connect_from
connect_from-first net zero k i h up down = absurd (omega arith)
connect_from-first net (suc left) zero i h up down =
    rw (subst (λ n. net.connects n ≡ true) (zero-right i) up)
      (ap (λ (n : ℕ). (n + 1, true)) (sym (zero-right i)))
connect_from-first net (suc left) (suc k) i h up down =
    rw (subst (λ n. net.connects n ≡ false) (zero-right i) (down 0 (omega arith))) (
      rw (positive left (omega arith)) (
        connect_from-first net left k (i + 1) (omega arith)
          (subst (λ n. net.connects n ≡ true) (shift i k) up)
          (λ j l. subst (λ n. net.connects n ≡ false) (shift i j) (down (suc j) (omega arith)))
        ∙ ap (λ (n : ℕ). (n + 1, true)) (sym (shift i k))))

-- If the k-th of the first five calls of `connect` is the first that succeeds, `send_backlog` calls it
-- k times and writes the message, as far as the socket takes it.
pub send_backlog-connected :
    (net : Network) (message : Text) (k : ℕ)
    → k < 5
    → net.connects k ≡ true
    → ((j : ℕ) → j < k → net.connects j ≡ false)
    → send_backlog net message
      ≡ record { attempts = k + 1; sent = some (take (net.writes (length message)) message) }
unfolding send_backlog
send_backlog-connected net message k h up down =
    ap
      (λ (r : ℕ × Bool). record {
        attempts = r.0;
        sent = if r.1 then some (take (net.writes (length message)) message) else none;
      })
      (connect_from-first net 5 k 0 h (subst (λ n. net.connects n ≡ true) (zero-left k) up)
          (λ j l. subst (λ n. net.connects n ≡ false) (zero-left j) (down j l))
        ∙ ap (λ (n : ℕ). (n + 1, true)) (sym (zero-left k)))

-- What a log is made of: messages that a read gives whole.
abbrev pub AreReadable : List (Client × Text) → Type 0
AreReadable [] = Unit {0}
AreReadable ((c, m) ∷ messages) =
    (0 < length m) × (length m < 1024) × (c_str m ≡ m) × AreReadable messages

abbrev pub whole_reads : List (Client × Text) → List (Client × ReadResult)
whole_reads messages = map (λ e. (e.0, received e.1)) messages

abbrev pub entries : List (Client × Text) → List Text
entries messages = map (λ e. client_info e.0 ++ e.1) messages

received_whole :
    (d : BackupDisk) (c : Client) (m log : Text)
    → d.opens ≡ true
    → ((n : ℕ) → d.takes n ≡ n)
    → 0 < length m
    → length m < 1024
    → c_str m ≡ m
    → thread_routine d c (received m) log ≡ ok (log ++ (client_info c ++ m))
unfolding thread_routine service backup_log
received_whole d c m log opens takes some_bytes short clean =
    rw (clean, opens, takes (length (client_info c ++ m))) (ground (arith, short, some_bytes))

-- Messages of 1 to 1023 bytes without a null byte, each read whole, are appended to the log in the order
-- of their threads, each behind its client's address, where the disk takes them.
pub serve-appends :
    (d : BackupDisk) (messages : List (Client × Text)) (log : Text)
    → d.opens ≡ true
    → ((n : ℕ) → d.takes n ≡ n)
    → AreReadable messages
    → serve d (whole_reads messages) log ≡ ok (log ++ flatten (entries messages))
unfolding serve
serve-appends d [] log opens takes v = ap ok (sym (append-nil log))
serve-appends d ((c, m) ∷ messages) log opens takes v =
    rw (received_whole d c m log opens takes v.0 v.1 v.2) (
      serve-appends d messages (log ++ (client_info c ++ m)) opens takes v.3
      ∙ ap ok (append_assoc log (client_info c ++ m) (flatten (entries messages))))

-- ===== src/Log/Backup/Program.antt =====
-- The backup server as a program: `main` of log_system/log_src/backlog_code/ServerBackupLog.cpp, with
-- `TcpServer::init_service` and `start_service` of ServerBackupLog.hpp beside it.
pub mod Port
use async_log_cloud_storage.Base.{
  ℕ, is_digit, zero, suc, ◌+◌, ◌-◌, ◌*◌, ◌/◌, ◌%◌, ◌^◌, ◌≤◌, ◌<◌, ◌≡◌, refl, sym, ap, ◌∙◌, Bool,
  true, false, Bool-cases, ltb→lt, lt→ltb, inl, inr, not, ◌&&◌, ◌||◌, List, [], ◌∷◌, ◌++◌, length,
  ltb, leb, ◌==◌, if◌then◌else◌, Text, codes, to_string, digits_onto, Outcome, ok, fail,
  int_overflow, null_pointer, ◌>>=◌, arith,
}
use async_log_cloud_storage.Log.Backup.{BackupDisk, Client, ReadResult, thread_routine, serve}

abbrev pub is_space : ℕ → Bool
is_space c = c == b' ' || (leb 9 c && leb c 13)

unfoldable pub skip_spaces : Text → Text
skip_spaces [] = []
skip_spaces (c ∷ s) = if is_space c then skip_spaces s else c ∷ s

-- The number that the digits at the front make, behind `v`.
unfoldable pub digits_value : ℕ → Text → ℕ
digits_value v [] = v
digits_value v (c ∷ s) =
    let more = digits_value (10 * v + (c - b'0')) s in if is_digit c then more else v

-- An int, by its 32-bit pattern; outside of its range the behaviour of `atoi` is undefined.
unfoldable pub to_int : Bool → ℕ → Outcome ℕ
to_int negative n =
    if negative
    then if leb n (2 ^ 31) then ok ((2 ^ 32 - n) % 2 ^ 32) else fail int_overflow
    else if ltb n (2 ^ 31)
    then ok n
    else fail int_overflow

unfoldable pub atoi_signed : Text → Outcome ℕ
atoi_signed [] = to_int false 0
atoi_signed (c ∷ s) =
    if c == b'-'
    then to_int true (digits_value 0 s)
    else if c == b'+'
    then to_int false (digits_value 0 s)
    else to_int false (digits_value 0 (c ∷ s))

-- `atoi` of the C library
unfoldable pub atoi : Text → Outcome ℕ
atoi s = atoi_signed (skip_spaces s)

-- How the system answers the calls that set the server up.
pub record Sockets : Type 0 where
  pub makes_socket : Bool
  pub binds : ℕ → Bool
  pub listens : Bool

pub data SetupError : Type 0 where
  create_socket_error bind_socket_error listen_error : SetupError

-- `init_service` of a server with this port: the errors that it prints. It goes on after each.
unfoldable pub init_service : Sockets → ℕ → List SetupError
init_service net port =
    (if net.makes_socket then [] else create_socket_error ∷ [])
    ++ ((if net.binds port then [] else bind_socket_error ∷ [])
        ++ (if net.listens then [] else listen_error ∷ []))

-- A round of `start_service`, with what the thread of the client reads.
pub data Accept : Type 0 where
  accept_error : Accept
  -- the thread could not be made, which nothing looks at
  no_thread : Client → Accept
  accepted : Client → ReadResult → Accept

-- The rounds so far, with the threads in the order in which they append to the log.
unfoldable pub start_service : BackupDisk → List Accept → Text → Outcome Text
start_service d [] log = ok log
start_service d (accept_error ∷ rounds) log = start_service d rounds log
start_service d (no_thread c ∷ rounds) log = start_service d rounds log
start_service d (accepted c r ∷ rounds) log =
    thread_routine d c r log >>= λ log'. start_service d rounds log'

-- What comes of a run of the program.
pub data Run : Type 0 where
  -- `exit(code)`, behind the line of `usage`
  exits : (code : ℕ) → Text → Run
  -- it serves at this port, after these errors
  serves : (port : ℕ) → List SetupError → Text → Run

unfoldable pub usage : Text → Text
usage program = codes "usage error:" ++ (program ++ codes "port\n")

-- `main`; the port becomes a uint16_t.
unfoldable pub backup_main : Sockets → BackupDisk → List Accept → List Text → Text → Outcome Run
backup_main net d rounds [] log = fail null_pointer
backup_main net d rounds (program ∷ []) log = ok (exits 255 (usage program))
backup_main net d rounds (program ∷ (argument ∷ [])) log = do
  number ← atoi argument
  let port = number % 2 ^ 16
  log' ← start_service d rounds log
  ok (serves port (init_service net port) log')
backup_main net d rounds (program ∷ (argument ∷ (more ∷ arguments))) log =
    ok (exits 255 (usage program))

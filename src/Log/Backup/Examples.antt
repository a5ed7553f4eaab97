-- ===== src/Log/Backup/Examples.antt =====
-- Runs of the two sides of the backup.
use async_log_cloud_storage.Base.{
  ◌≡◌, refl, true, false, [], ◌∷◌, leb, codes, replicate, none, ok, fail, out_of_bounds, c_str,
  to_string, Text, arith,
}
use async_log_cloud_storage.Log.Backup.{
  Network, send_backlog, BackupDisk, Client, received, service, serve, whole_reads, connect_from,
  client_info, thread_routine, backup_log,
}
use async_log_cloud_storage.Log.Backup.Program.{
  Sockets, atoi, atoi_signed, skip_spaces, digits_value, to_int, init_service, bind_socket_error,
  accept_error, accepted, serves, exits, usage, backup_main, start_service,
}
use async_log_cloud_storage.Log.Backup.Program.Port.{backup_main-to_string}

-- The third call of `connect` succeeds.
abbrev slow : Network
slow = record { connects = λ i. leb 2 i; writes = λ n. n }

abbrev down : Network
down = record { connects = λ i. false; writes = λ n. n }

gives_up : send_backlog down (codes "ab") ≡ record { attempts = 5; sent = none }
unfolding send_backlog connect_from
gives_up = refl

abbrev ready : BackupDisk
ready = record { opens = true; takes = λ n. n }

abbrev local : Client
local = record { client_ip = codes "127.0.0.1"; client_port = 45712 }

-- A read that fills the buffer.
overrun : service ready (codes "x") (received (replicate 1024 b'a')) [] ≡ fail out_of_bounds
unfolding service
overrun = refl

appended :
    serve ready (whole_reads ((local, codes "ab") ∷ (local, codes "c") ∷ [])) (codes ">")
    ≡ ok (codes ">127.0.0.1:45712ab127.0.0.1:45712c")
unfolding serve thread_routine service backup_log c_str client_info to_string
appended = refl

-- A machine on which the port is taken.
abbrev taken_port : Sockets
taken_port = record { makes_socket = true; binds = λ port. false; listens = true }

port_wraps : atoi (codes " 65617x") ≡ ok 65617
unfolding atoi atoi_signed skip_spaces digits_value to_int
port_wraps = refl

starts :
    backup_main taken_port ready
      (accept_error ∷ accepted local (received (codes "ab")) ∷ [])
      (codes "./server" ∷ codes "8080" ∷ [])
      []
    ≡ ok (serves 8080 (bind_socket_error ∷ []) (codes "127.0.0.1:45712ab"))
unfolding to_string init_service serve thread_routine service backup_log c_str client_info
    backup_main atoi atoi_signed skip_spaces digits_value to_int start_service
starts = refl

backup_main-to_string_example :
    (backup_main taken_port ready
        (accept_error ∷ accepted local (received (codes "ab")) ∷ [])
        (codes "./server" ∷ (codes "8080" ∷ []))
        []
      ≡ ok (serves 8080 (bind_socket_error ∷ []) (codes "127.0.0.1:45712ab")))
    × (backup_main taken_port ready
          (accept_error ∷ accepted local (received (codes "ab")) ∷ [])
          (codes "./server" ∷ [])
          []
        ≡ ok (exits 255 (usage (codes "./server"))))
    × ((a b : Text)
        → backup_main taken_port ready
            (accept_error ∷ accepted local (received (codes "ab")) ∷ [])
            (codes "./server" ∷ (a ∷ (b ∷ [])))
            []
          ≡ ok (exits 255 (usage (codes "./server"))))
unfolding to_string init_service serve thread_routine service backup_log c_str client_info
backup_main-to_string_example =
    backup_main-to_string taken_port ready
      (accept_error ∷ accepted local (received (codes "ab")) ∷ []) (codes "./server") 8080 [] []
      (codes "127.0.0.1:45712ab") (omega arith) refl

-- ===== src/Log/Whole/Backlog/Examples.antt =====
-- Two calls of a logger of log_system/log_src, one of them urgent, and the log of the backup server.
use async_log_cloud_storage.Base.{
  ◌≡◌, refl, true, leb, List, [], ◌∷◌, map, flatten, codes, ok, arith, c_str, to_string,
}
use async_log_cloud_storage.Log.Flush.{Tm}
use async_log_cloud_storage.Log.Message.{
  info, error, format, header, date_time, two_digits, level_string,
}
use async_log_cloud_storage.Log.Logger.{is_backed_up}
use async_log_cloud_storage.Log.Backup.{
  Network, BackupDisk, Client, serve, whole_reads, client_info,
}
use async_log_cloud_storage.Log.Whole.Backlog.{Entry, actions_of, pushed, connections, backed_up}

-- The third call of `connect` succeeds.
abbrev slow : Network
slow = record { connects = λ i. leb 2 i; writes = λ n. n }

abbrev ready : BackupDisk
ready = record { opens = true; takes = λ n. n }

abbrev local : Client
local = record { client_ip = codes "127.0.0.1"; client_port = 45712 }

abbrev noon : Tm
noon = record { tm_year = 125; tm_mon = 8; tm_mday = 4; tm_hour = 12; tm_min = 0; tm_sec = 0 }

abbrev greeting : Entry
greeting = record {
  now = noon;
  tid = codes "1";
  level = info;
  file = codes "f";
  line = 1;
  log = codes "hi";
}

abbrev alarm : Entry
alarm = record greeting { level = error; log = codes "oh" }

abbrev calls : List (Client × Entry)
calls = (local, greeting) ∷ (local, alarm) ∷ []

backed_up_example :
    (serve ready (whole_reads (connections slow (codes "a") calls)) (codes ">")
      ≡ ok (codes ">127.0.0.1:45712[2025-09-04 12:00:00][1][ERROR][a][f:1]\toh\n"))
    × (flatten (map (λ e. pushed (actions_of (codes "a") e.1)) calls)
        ≡ codes "[2025-09-04 12:00:00][1][INFO][a][f:1]\thi\n"
          ∷ codes "[2025-09-04 12:00:00][1][ERROR][a][f:1]\toh\n"
          ∷ [])
unfolding format header date_time two_digits level_string c_str to_string client_info is_backed_up
backed_up_example =
    backed_up slow ready (codes "a") calls (codes ">")
      (record {
        call = 2;
        in_time = omega arith;
        succeeds = refl;
        first = λ j h. ground arith;
        takes_all = λ n. refl;
      })
      refl (λ n. refl) (omega arith, omega arith, refl, tt)

-- ===== src/Server/Examples/Locks.antt =====
-- Two threads that call `Insert` of src/server/DataManager.hpp at once.
use async_log_cloud_storage.Base.{ℕ, text_eq, ◌≡◌, refl, [], ◌∷◌, codes}
use async_log_cloud_storage.Json.Example.{example_json}
use async_log_cloud_storage.Server.Files.{file, Files, find_node}
use async_log_cloud_storage.Server.Files.Stored.{Holds, holds}
use async_log_cloud_storage.Server.Data.{StorageInfo, assign_info, storage_body}
use async_log_cloud_storage.Server.Data.Locks.{
  idle, System, locked_insert, locked_get_all, Reach, quiet,
}
use async_log_cloud_storage.Server.Data.Locks.Linear.{IsLinear, manager_with, one_order}
use async_log_cloud_storage.Server.Data.Locks.Lost.{
  persisting, first_taken, first_taken-Reach, lost_update,
}
use async_log_cloud_storage.Server.Examples.{open_disk, file_info}

abbrev other_info : StorageInfo
other_info = record file_info { url = codes "/download/g" }

abbrev stored_files : Files
stored_files = record { nodes = (codes "./storage.data", file [] 5 6) ∷ []; now = 7 }

abbrev running : System
running =
    first_taken example_json open_disk (codes "./storage.data") [] stored_files file_info other_info

-- One record is in, and its thread has the list with it.
one_order_example :
    (running.manager ≡ manager_with (file_info ∷ []) (persisting (codes "./storage.data") []))
    × ((t : ℕ)
        → IsLinear (persisting (codes "./storage.data") []) (file_info ∷ []) (running.stage t))
unfolding assign_info locked_insert locked_get_all
one_order_example =
    one_order example_json open_disk (persisting (codes "./storage.data") []) stored_files running (
      first_taken-Reach example_json open_disk (codes "./storage.data") [] stored_files file_info
        other_info)

stored_files-Holds : Holds (codes "./storage.data") [] stored_files
unfolding find_node text_eq
stored_files-Holds = holds 5 6 refl

lost_update_example :
    (s : System) × Reach example_json open_disk
      (quiet (persisting (codes "./storage.data") []) stored_files)
      s
    × (s.inserted ≡ file_info ∷ other_info ∷ [])
    × ((t : ℕ) → s.stage t ≡ idle)
    × (s.manager
        ≡ manager_with (file_info ∷ other_info ∷ []) (persisting (codes "./storage.data") []))
    × Holds
        (codes "./storage.data")
        (storage_body example_json
          (manager_with (file_info ∷ []) (persisting (codes "./storage.data") [])))
        s.files
lost_update_example =
    lost_update example_json open_disk (codes "./storage.data") [] stored_files file_info other_info
      refl (λ content. refl) [] stored_files-Holds

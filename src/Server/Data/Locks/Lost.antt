-- ===== src/Server/Data/Locks/Lost.antt =====
-- Two threads that call `Insert` of src/server/DataManager.hpp at once: the file is written behind the
-- lock.
use async_log_cloud_storage.Base.{replaced, ℕ, ◌≡◌, refl, true, [], ◌∷◌, Text, length, arith}
use async_log_cloud_storage.Json.{Json}
use async_log_cloud_storage.Server.Files.{Files, Disk, set_content}
use async_log_cloud_storage.Server.Files.Stored.{Holds, holds, set_content-Holds}
use async_log_cloud_storage.Server.Data.{StorageInfo, InfoTable, DataManager, get_all, storage_body}
use async_log_cloud_storage.Server.Data.Locks.{
  idle, System, locked_assign, locked_insert, locked_get_all, write_infos, calls, inserts,
  inserting, gets_all, writes, Reach, begins, later, quiet,
}
use async_log_cloud_storage.Server.Data.Locks.Linear.{manager_with}

-- A manager that persists.
abbrev pub persisting : Text → InfoTable → DataManager
persisting storage_file table = record {
  storage_file = storage_file;
  table = table;
  need_persist = true;
}

module _ (j : Json) (d : Disk) (storage_file : Text) where
  set_content-stays :
      (content old : Text) (fs : Files)
      → d.can_write storage_file ≡ true
      → Holds storage_file old fs
      → (set_content d content storage_file fs).0 ≡ true
  unfolding set_content
  set_content-stays content old fs can_write (holds a t e) = ground (arith, can_write)

  module _ (table : InfoTable) (fs : Files) (a b : StorageInfo) where
    abbrev called : ℕ → StorageInfo → System → System
    called t info s = record s { stage = replaced t (inserting info) s.stage }

    -- Thread 0 has taken the list with `a`.
    abbrev pub first_taken : System
    first_taken =
        locked_get_all 0 a
          (locked_insert 0 a (called 0 a (quiet (persisting storage_file table) fs)))

    -- Thread 1 has taken the list with both.
    abbrev both_taken : System
    both_taken = locked_get_all 1 b (locked_insert 1 b (called 1 b first_taken))

    abbrev with_first : DataManager
    with_first = manager_with (a ∷ []) (persisting storage_file table)

    abbrev with_both : DataManager
    with_both = manager_with (a ∷ b ∷ []) (persisting storage_file table)

    -- Thread 1 has written, and then thread 0.
    abbrev both_written : System
    both_written =
        write_infos j d 0 (get_all with_first) (write_infos j d 1 (get_all with_both) both_taken)

    pub first_taken-Reach : Reach j d (quiet (persisting storage_file table) fs) first_taken
    unfolding locked_insert locked_assign locked_get_all
    first_taken-Reach =
        later (later (later begins (calls 0 a refl)) (inserts 0 a refl)) (gets_all 0 a refl)

    both_written-Reach : Reach j d (quiet (persisting storage_file table) fs) both_written
    unfolding locked_insert locked_assign locked_get_all write_infos
    both_written-Reach =
        later
          (later
            (later (later (later first_taken-Reach (calls 1 b refl)) (inserts 1 b refl))
              (gets_all 1 b refl))
            (writes 1 b (get_all with_both) refl))
          (writes 0 a (get_all with_first) refl)

    module _ (can_write : d.can_write storage_file ≡ true)
        (whole : (content : Text) → d.writes storage_file (length content) ≡ length content)
        (old : Text) (stored : Holds storage_file old fs) where
      both_written-Holds : Holds storage_file (storage_body j with_first) both_written.files
      unfolding locked_insert locked_assign locked_get_all write_infos storage_body
      both_written-Holds =
          let last = storage_body j with_both in
          let opened = set_content-stays last old fs can_write stored in
          let held = (set_content-Holds d storage_file last fs opened (whole last)).0 in
          let again = (set_content d last storage_file fs).1 in
          let first = storage_body j with_first in
          let reopened = set_content-stays first last again can_write held in
          (set_content-Holds d storage_file first again reopened (whole first)).0

      -- Over a manager that persists to a file that is there and is written whole: for any two records
      -- there is a run of two calls of `Insert` from which both have returned, with both records in the
      -- table, while the file holds the table with only the first of them.
      pub lost_update :
          (s : System) × Reach j d (quiet (persisting storage_file table) fs) s
          × (s.inserted ≡ a ∷ b ∷ [])
          × ((t : ℕ) → s.stage t ≡ idle)
          × (s.manager ≡ with_both)
          × Holds storage_file (storage_body j with_first) s.files
      unfolding locked_insert locked_assign locked_get_all write_infos
      lost_update =
          (both_written, both_written-Reach, refl, (λ t. ground arith), refl, both_written-Holds)

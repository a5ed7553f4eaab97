-- ===== src/Server/Data/Locks.antt =====
-- Calls of `Insert` and of `Update` of src/server/DataManager.hpp by several threads. What stands under the read-write lock
-- is one step. The write of the file, which stands under no lock, is one step too: other orders of its
-- parts are left out.
pub mod Linear
pub mod Lost
use async_log_cloud_storage.Base.{
  ℕ, replaced, ◌≡◌, true, false, List, [], ◌∷◌, ◌++◌, if◌then◌else◌, Text,
}
use async_log_cloud_storage.Json.{Json}
use async_log_cloud_storage.Server.Files.{Files, Disk, set_content}
use async_log_cloud_storage.Server.JsonUtil.{serialize}
use async_log_cloud_storage.Server.Data.{
  StorageInfo, DataManager, assign_info, get_all, append_infos,
}

-- Where a thread stands in `Insert` or in `Update`.
pub data Stage : Type 0 where
  -- in no call
  idle : Stage
  -- before `pthread_rwlock_wrlock`
  inserting : StorageInfo → Stage
  updating : StorageInfo → Stage
  -- before `GetAll` of `Storage`
  storing : StorageInfo → Stage
  -- before `SetContent`, with what `GetAll` gave
  writing : StorageInfo → List StorageInfo → Stage

-- What the threads share, where each stands, and what was put into the table, in order.
pub record System : Type 0 where
  pub manager : DataManager
  pub files : Files
  pub stage : ℕ → Stage
  pub inserted : List StorageInfo

-- Under the lock of `Insert` and of `Update`; then the thread stands at `next`.
unfoldable pub locked_assign : ℕ → StorageInfo → Stage → System → System
locked_assign t info next s = record {
  manager = record (s.manager) { table = assign_info info.url info s.manager.table };
  files = s.files;
  stage = replaced t next s.stage;
  inserted = s.inserted ++ info ∷ [];
}

unfoldable pub locked_insert : ℕ → StorageInfo → System → System
unfolding locked_assign
locked_insert t info s =
    locked_assign t info (if s.manager.need_persist then storing info else idle) s

unfoldable pub locked_update : ℕ → StorageInfo → System → System
unfolding locked_assign
locked_update t info s = locked_assign t info (storing info) s

-- Under the lock of `GetAll`.
unfoldable pub locked_get_all : ℕ → StorageInfo → System → System
locked_get_all t info s = record s { stage = replaced t (writing info (get_all s.manager)) s.stage }

module _ (j : Json) (d : Disk) where
  -- The rest of `Storage`, and the end of its caller.
  unfoldable pub write_infos : ℕ → List StorageInfo → System → System
  write_infos t arr s =
      let body = (serialize j (append_infos j j.null arr)).1 in
      record s {
        files = (set_content d body s.manager.storage_file s.files).1;
        stage = replaced t idle s.stage;
      }

  pub data Step (s : System) : System → Type 0 where
    calls :
        (t : ℕ) (info : StorageInfo)
        → s.stage t ≡ idle
        → Step s (record s { stage = replaced t (inserting info) s.stage })
    inserts :
        (t : ℕ) (info : StorageInfo) → s.stage t ≡ inserting info → Step s (locked_insert t info s)
    calls_update :
        (t : ℕ) (info : StorageInfo)
        → s.stage t ≡ idle
        → Step s (record s { stage = replaced t (updating info) s.stage })
    updates :
        (t : ℕ) (info : StorageInfo) → s.stage t ≡ updating info → Step s (locked_update t info s)
    gets_all :
        (t : ℕ) (info : StorageInfo) → s.stage t ≡ storing info → Step s (locked_get_all t info s)
    writes :
        (t : ℕ) (info : StorageInfo) (arr : List StorageInfo)
        → s.stage t ≡ writing info arr
        → Step s (write_infos t arr s)

  pub data Reach (start : System) : System → Type 0 where
    begins : Reach start start
    later : {s t : System} → Reach start s → Step s t → Reach start t

-- Over a manager and its files, with no call under way.
abbrev pub quiet : DataManager → Files → System
quiet m fs = record { manager = m; files = fs; stage = λ t. idle; inserted = [] }

-- ===== src/Server/Data.antt =====
-- `StorageInfo` and `DataManager` of src/server/DataManager.hpp. The table is an association list by
-- URL. Its order is only one that the unordered map may have, which gives none and may change it at each
-- start: what is stated is by URL, or holds for the entries in any order, unless it says that it is about the
-- list. Each call runs alone: the lock is left out.
pub mod Table
pub mod Items
pub mod Load
pub mod Persist
pub mod Order
pub mod Locks
use async_log_cloud_storage.Base.{
  ℕ, zero, suc, ◌+◌, Bool, true, false, not, ◌&&◌, ◌||◌, List, [], ◌∷◌, ◌++◌, map, if◌then◌else◌,
  Text, codes, text_eq, c_str, Option, none, some, Outcome, ok, fail, ◌>>=◌,
}
use async_log_cloud_storage.Json.{Json}
use async_log_cloud_storage.Server.Files.{
  Files, Disk, exists, file_name, file_size, last_access_time, last_modify_time, get_content,
  set_content,
}
use async_log_cloud_storage.Server.JsonUtil.{serialize, unserialize}
use async_log_cloud_storage.Server.Config.{Config}

-- The numbers are 64-bit patterns.
pub record StorageInfo : Type 0 where
  pub mtime : ℕ
  pub atime : ℕ
  pub fsize : ℕ
  pub storage_path : Text
  pub url : Text

-- `none` is the result false, with the fields as they were.
unfoldable pub new_storage_info : Config → Disk → Text → Files → Option StorageInfo
new_storage_info c d path fs =
    if not (exists path fs)
    then none
    else some (record {
      mtime = last_access_time path fs;
      atime = last_modify_time path fs;
      fsize = file_size d path fs;
      storage_path = path;
      url = c.download_prefix ++ file_name path;
    })

abbrev pub InfoTable : Type 0
InfoTable = List (Text × StorageInfo)

pub record DataManager : Type 0 where
  pub storage_file : Text
  pub table : InfoTable
  pub need_persist : Bool

-- `table_[key] = info`
unfoldable pub assign_info : Text → StorageInfo → InfoTable → InfoTable
assign_info key info [] = (key, info) ∷ []
assign_info key info ((k, i) ∷ table) =
    if text_eq k key then (k, info) ∷ table else (k, i) ∷ assign_info key info table

unfoldable pub find_info : Text → InfoTable → Option StorageInfo
find_info key [] = none
find_info key ((k, i) ∷ table) = if text_eq k key then some i else find_info key table

unfoldable pub get_one_by_url : Text → DataManager → Option StorageInfo
get_one_by_url key m = find_info key m.table

unfoldable pub find_path : Text → InfoTable → Option StorageInfo
find_path path [] = none
find_path path ((k, i) ∷ table) =
    if text_eq i.storage_path path then some i else find_path path table

unfoldable pub get_one_by_storage_path : Text → DataManager → Option StorageInfo
get_one_by_storage_path path m = find_path path m.table

unfoldable pub get_all : DataManager → List StorageInfo
get_all m = map (λ e. e.1) m.table

module _ (j : Json) where
  -- The strings pass through `c_str()`.
  unfoldable pub info_value : StorageInfo → j.Value
  info_value i =
      let v = j.assign j.null (codes "mtime_") (j.int i.mtime) in
      let w = j.assign v (codes "atime_") (j.int i.atime) in
      let x = j.assign w (codes "fsize_") (j.int i.fsize) in
      let y = j.assign x (codes "url_") (j.string (c_str i.url)) in
      j.assign y (codes "storage_path_") (j.string (c_str i.storage_path))

  unfoldable pub append_infos : j.Value → List StorageInfo → j.Value
  append_infos root [] = root
  append_infos root (i ∷ arr) = append_infos (j.append root (info_value i)) arr

  -- The body that `Storage` writes.
  unfoldable pub storage_body : DataManager → Text
  storage_body m = (serialize j (append_infos j.null (get_all m))).1

  unfoldable pub read_info : j.Value → Outcome StorageInfo
  read_info v = do
    fsize ← j.as_int (j.member v (codes "fsize_"))
    atime ← j.as_int (j.member v (codes "atime_"))
    mtime ← j.as_int (j.member v (codes "mtime_"))
    storage_path ← j.as_string (j.member v (codes "storage_path_"))
    url ← j.as_string (j.member v (codes "url_"))
    ok (record {
      mtime = mtime;
      atime = atime;
      fsize = fsize;
      storage_path = storage_path;
      url = url;
    })

module _ (j : Json) (d : Disk) where
  -- A write that fails is logged, and the result is true all the same.
  unfoldable pub storage : DataManager → Files → Bool × Files
  storage m fs =
      let (written, fs') = set_content d (storage_body j m) m.storage_file fs in (true, fs')

  unfoldable pub insert : StorageInfo → DataManager → Files → Bool × DataManager × Files
  unfolding storage
  insert info m fs =
      let m' : DataManager = record m { table = assign_info info.url info m.table } in
      if m'.need_persist
      then (let (stored, fs') = storage m' fs in (stored, m', fs'))
      else (true, m', fs)

  unfoldable pub update : StorageInfo → DataManager → Files → Bool × DataManager × Files
  unfolding storage
  update info m fs =
      let m' : DataManager = record m { table = assign_info info.url info m.table } in
      let (stored, fs') = storage m' fs in (stored, m', fs')

  -- The loop of `InitLoad`, from index `i` on, with `left` rounds to go.
  unfoldable pub load_items : ℕ → ℕ → j.Value → DataManager → Files → Outcome (DataManager × Files)
  load_items zero i root m fs = ok (m, fs)
  load_items (suc left) i root m fs = elim (read_info j (j.item root i)) [
    | fail e ↦ fail e
    | ok info ↦ let (_, m', fs') = insert info m fs in load_items left (i + 1) root m' fs'
  ]

  unfoldable pub init_load : DataManager → Files → Outcome (Bool × DataManager × Files)
  init_load m fs =
      if not (exists m.storage_file fs)
      then ok (true, m, fs)
      else get_content d m.storage_file fs >>= λ body. elim body [
        | none ↦ ok (false, m, fs)
        | some text ↦
            let root = (unserialize j text).1 in
            load_items (j.size root) 0 root m fs >>= λ r. ok (true, r.0, r.1)
      ]

  -- The constructor; the result of `InitLoad` is not looked at.
  unfoldable pub new_data_manager : Config → Files → Outcome (DataManager × Files)
  new_data_manager c fs = do
    r ← init_load (record { storage_file = c.storage_info; table = []; need_persist = false }) fs
    ok (record (r.1) { need_persist = true }, r.2)

-- ===== src/Server/Data/Persist.antt =====
-- `Storage` of src/server/DataManager.hpp followed by the constructor: the table survives a restart.
use mathlib.Core.Path.{subst}
use async_log_cloud_storage.Base.{
  suc, ◌≤◌, ◌≡◌, refl, sym, ap, true, List, [], ◌∷◌, ◌++◌, length, Text, some, Outcome, ok, fail,
  json_error, Failure, ◌>>=◌, arith,
}
use async_log_cloud_storage.Json.{Json, FitsInt, no_items, JsonLaws}
use async_log_cloud_storage.Server.Files.{Files, Disk, exists, set_content}
use async_log_cloud_storage.Server.Files.Stored.{Holds, holds, get_content-Holds, set_content-Holds}
use async_log_cloud_storage.Server.Zstd.{string_max}
use async_log_cloud_storage.Server.JsonUtil.{unserialize}
use async_log_cloud_storage.Server.Config.{Config}
use async_log_cloud_storage.Server.Data.{
  StorageInfo, InfoTable, DataManager, get_all, append_infos, storage_body, storage, load_items,
  init_load, new_data_manager,
}
use async_log_cloud_storage.Server.Data.Table.{IsKeyed, Apart-nil, infos}
use async_log_cloud_storage.Server.Data.Load.{
  loading, load_items-append_infos, load_items-too_large,
}
use async_log_cloud_storage.Server.Data.Items.{AllStorable, size-append_infos}

module _ (j : Json) (laws : JsonLaws j) where
  open j use {Value, null, append, size, item}

  module _ (d : Disk) where
    -- What `Storage` wrote, if the file was written whole and can be read.
    pub record IsStored (m : DataManager) (fs : Files) : Type 0 where
      pub body_written : j.write (append_infos j null (get_all m)) ≡ some (storage_body j m)
      pub small : length (storage_body j m) ≤ string_max
      pub opened : (set_content d (storage_body j m) m.storage_file fs).0 ≡ true
      pub whole : d.writes m.storage_file (length (storage_body j m)) ≡ length (storage_body j m)
      pub readable : d.can_read m.storage_file ≡ true

    exists-Holds : (p content : Text) (fs : Files) → Holds p content fs → exists p fs ≡ true
    unfolding exists
    exists-Holds p content fs (holds a m e) = rw (e, exists) refl

    unserialize-write : (v : Value) (s : Text) → j.write v ≡ some s → (unserialize j s).1 ≡ v
    unfolding unserialize
    unserialize-write v s e = rw (laws.parse-write v s e, unserialize) refl

    -- The constructor over a file with a body that was written ends as its loop does.
    module _ (c : Config) (root : Value) (body : Text) (fs : Files)
        (stored : Holds c.storage_info body fs) (small : length body ≤ string_max)
        (readable : d.can_read c.storage_info ≡ true) (e : j.write root ≡ some body) where
      init_load-Holds :
          (r : Outcome (DataManager × Files))
          → load_items j d (size root) 0 root (loading j laws d c.storage_info []) fs ≡ r
          → init_load j d (loading j laws d c.storage_info []) fs ≡ (r >>= λ q. ok (true, q.0, q.1))
      unfolding init_load
      init_load-Holds r ran =
          rw
            (
              exists-Holds c.storage_info body fs stored,
              get_content-Holds d c.storage_info body fs stored small readable,
              unserialize-write root body e,
              ran,
            )
            refl

      new_data_manager-ok :
          (m : DataManager)
          → load_items j d (size root) 0 root (loading j laws d c.storage_info []) fs ≡ ok (m, fs)
          → new_data_manager j d c fs ≡ ok (record m { need_persist = true }, fs)
      unfolding new_data_manager
      new_data_manager-ok m ran = rw (init_load-Holds (ok (m, fs)) ran) refl

      new_data_manager-fail :
          (f : Failure)
          → load_items j d (size root) 0 root (loading j laws d c.storage_info []) fs ≡ fail f
          → new_data_manager j d c fs ≡ fail f
      unfolding new_data_manager
      new_data_manager-fail f ran = rw (init_load-Holds (fail f) ran) refl

      start-load :
          (arr : List StorageInfo) (m : DataManager)
          → size root ≡ length arr
          → {r : Outcome (DataManager × Files)}
          → load_items j d (length arr) (size null) root m fs ≡ r
          → load_items j d (size root) 0 root m fs ≡ r
      start-load arr m n h = rw n (rw (laws.size-null) at h)

    length-infos : (table : InfoTable) → length (infos table) ≡ length table
    length-infos [] = refl
    length-infos ((k, i) ∷ table) = ap suc (length-infos table)

    size-root : (m : DataManager) → size (append_infos j null (get_all m)) ≡ length m.table
    unfolding get_all
    size-root m = omega (
      arith,
      size-append_infos j laws null (infos m.table) no_items,
      laws.size-null,
      length-infos m.table,
    )

    stored-Holds :
        (sf : Text) (m : DataManager) (fs : Files)
        → m.storage_file ≡ sf
        → IsStored m fs
        → Holds sf (storage_body j m) (storage j d m fs).1
    unfolding storage
    stored-Holds sf m fs same v =
        subst
          (λ p. Holds p (storage_body j m) (set_content d (storage_body j m) m.storage_file fs).1)
          same (set_content-Holds d m.storage_file (storage_body j m) fs v.opened v.whole).0

    -- The constructor over a file with the body of a table.
    pub new_data_manager-Holds :
        (c : Config) (m : DataManager) (fs : Files)
        → IsKeyed m.table
        → AllStorable m.table
        → j.write (append_infos j null (get_all m)) ≡ some (storage_body j m)
        → length (storage_body j m) ≤ string_max
        → d.can_read c.storage_info ≡ true
        → Holds c.storage_info (storage_body j m) fs
        → new_data_manager j d c fs
          ≡ ok (record { storage_file = c.storage_info; table = m.table; need_persist = true }, fs)
    unfolding get_all
    new_data_manager-Holds c m fs v s written small readable held =
        new_data_manager-ok c (append_infos j null (get_all m)) (storage_body j m) fs held small
          readable written (loading j laws d c.storage_info m.table)
          (rw (size-root m) (
            rw laws.size-null at (
              load_items-append_infos j laws d m.table [] null c.storage_info fs no_items s v
                (Apart-nil m.table))))

    -- A table keyed by URL that `Storage` wrote whole to the file of the configuration is the table of
    -- the manager that the next start constructs, entry for entry, if the numbers of its records fit an
    -- int and their texts hold no NUL.
    pub new_data_manager-storage :
        (c : Config) (m : DataManager) (fs : Files)
        → m.storage_file ≡ c.storage_info
        → IsKeyed m.table
        → AllStorable m.table
        → IsStored m fs
        → new_data_manager j d c (storage j d m fs).1
          ≡ ok (
            record { storage_file = c.storage_info; table = m.table; need_persist = true },
            (storage j d m fs).1,
          )
    new_data_manager-storage c m fs same v s w =
        new_data_manager-Holds c m (storage j d m fs).1 v s w.body_written w.small
          (rw (← same) w.readable) (stored-Holds c.storage_info m fs same w)

    -- A table with a record whose size does not fit an int, behind records that do, which `Storage`
    -- wrote whole, is not read back: the constructor throws.
    pub new_data_manager-too_large :
        (c : Config) (m : DataManager) (fs : Files) (before after : InfoTable) (k : Text)
        (i : StorageInfo)
        → m.storage_file ≡ c.storage_info
        → m.table ≡ before ++ (k, i) ∷ after
        → AllStorable before
        → ¬ FitsInt i.fsize
        → IsStored m fs
        → new_data_manager j d c (storage j d m fs).1 ≡ fail json_error
    unfolding get_all
    new_data_manager-too_large c m fs before after k i same table s h w =
        new_data_manager-fail c (append_infos j null (get_all m)) (storage_body j m)
          (storage j d m fs).1 (stored-Holds c.storage_info m fs same w) w.small
          (rw (← same) w.readable) w.body_written json_error
          (rw (size-root m) (
            subst
              (λ (t : InfoTable).
                load_items j d (length t) 0 (append_infos j null (infos t))
                  (loading j laws d c.storage_info []) (storage j d m fs).1
                ≡ fail json_error)
              (sym table)
              (rw laws.size-null at (
                load_items-too_large j laws d before after [] k i null c.storage_info
                  (storage j d m fs).1 no_items s h))))

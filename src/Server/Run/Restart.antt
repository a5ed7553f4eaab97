-- ===== src/Server/Run/Restart.antt =====
-- The file of the table follows the table through every request of src/server, so that a server that is
-- started again goes on where the last one stopped.
use mathlib.Core.Path.{subst}
use async_log_cloud_storage.Base.{
  ℕ, ◌≤◌, ◌≡◌, ◌≢◌, refl, sym, ◌∙◌, ap, Bool, true, false, ◌⊎◌, inl, inr, [], length, Text, none,
  some, ok, arith,
}
use async_log_cloud_storage.Json.{JsonLaws}
use async_log_cloud_storage.Server.Zstd.{string_max}
use async_log_cloud_storage.Server.Files.{directory, Files, find_node, exists, set_content}
use async_log_cloud_storage.Server.Files.Stored.{Holds, holds, set_content-Holds}
use async_log_cloud_storage.Server.Frame.{SameAt}
use async_log_cloud_storage.Server.Data.{
  StorageInfo, InfoTable, DataManager, get_all, append_infos, storage_body, insert, assign_info,
  init_load, new_data_manager,
}
use async_log_cloud_storage.Server.Data.Table.{IsKeyed, insert-IsKeyed}
use async_log_cloud_storage.Server.Data.Items.{AllStorable}
use async_log_cloud_storage.Server.Data.Persist.{new_data_manager-Holds}
use async_log_cloud_storage.Server.Service.{Response, Server, World}
use async_log_cloud_storage.Server.Effect.{Effect, kept, recorded}

module _ (w : World) where
  open w use {json, disk, config}

  -- The disk takes every write to the table's file whole, and reads it.
  pub record KeepsTable : Type 0 where
    pub can_write : disk.can_write config.storage_info ≡ true
    pub can_read : disk.can_read config.storage_info ≡ true
    pub whole : (n : ℕ) → disk.writes config.storage_info n ≡ n

  -- The file has the table; there is none as long as nothing is stored.
  abbrev pub IsOnDisk : Server → Type 0
  IsOnDisk s =
      (find_node config.storage_info s.files.nodes ≡ none) × (s.manager.table ≡ [])
      ⊎ Holds config.storage_info (storage_body json s.manager) s.files

  pub record IsDurable (s : Server) : Type 0 where
    pub at_file : s.manager.storage_file ≡ config.storage_info
    pub persists : s.manager.need_persist ≡ true
    pub keyed : IsKeyed s.manager.table
    pub on_disk : IsOnDisk s

  -- The table is one that its file can carry.
  pub record IsKeepable (s : Server) : Type 0 where
    pub storable : AllStorable s.manager.table
    pub written :
        json.write (append_infos json json.null (get_all s.manager))
        ≡ some (storage_body json s.manager)
    pub small : length (storage_body json s.manager) ≤ string_max

  Holds-SameAt :
      (q content : Text) (fs fs' : Files)
      → SameAt q fs fs'
      → Holds q content fs
      → Holds q content fs'
  Holds-SameAt q content fs fs' same (holds a m e) = holds a m (same ∙ e)

  set_content-did :
      (k : KeepsTable) (content : Text) (fs : Files)
      → find_node config.storage_info fs.nodes ≢ some directory
      → (set_content disk content config.storage_info fs).0 ≡ true
  unfolding set_content
  set_content-did k content fs not_directory = ground (arith, k.can_write)

  not_directory :
      (s : Server) → IsOnDisk s → find_node config.storage_info s.files.nodes ≢ some directory
  not_directory s (inl (e, z)) d = cc
  not_directory s (inr (holds a m e)) d = cc

  written-Holds :
      (k : KeepsTable) (content p : Text) (fs : Files)
      → p ≡ config.storage_info
      → find_node config.storage_info fs.nodes ≢ some directory
      → Holds config.storage_info content (set_content disk content p fs).1
  written-Holds k content p fs at usable =
      subst (λ q. Holds config.storage_info content (set_content disk content q fs).1) (sym at)
        (set_content-Holds disk config.storage_info content fs (set_content-did k content fs usable)
          (k.whole (length content))).0

  -- The entry is put into the table, and the file has the new table.
  insert-IsDurable :
      (k : KeepsTable) (info : StorageInfo) (m : DataManager) (fs : Files)
      → m.storage_file ≡ config.storage_info
      → m.need_persist ≡ true
      → IsKeyed m.table
      → find_node config.storage_info fs.nodes ≢ some directory
      → IsDurable (record {
        files = (insert json disk info m fs).2;
        manager = (insert json disk info m fs).1;
      })
  unfolding insert storage_body get_all
  insert-IsDurable k info m fs at persists keyed usable =
      let after : DataManager = record m { table = assign_info info.url info m.table } in
      let stays : (insert json disk info m fs).1 ≡ after = ground arith in
      record {
        at_file = ap (λ (n : DataManager). n.storage_file) stays ∙ at;
        persists = ap (λ (n : DataManager). n.need_persist) stays ∙ persists;
        keyed = (insert-IsKeyed json disk info m fs keyed).0;
        on_disk =
            inr
              (rw persists (written-Holds k (storage_body json after) m.storage_file fs at usable));
      }

  IsOnDisk-kept :
      (s s' : Server)
      → s'.manager ≡ s.manager
      → SameAt config.storage_info s.files s'.files
      → IsOnDisk s
      → IsOnDisk s'
  IsOnDisk-kept s s' same files (inl (e, z)) =
      inl (files ∙ e, ap (λ (m : DataManager). m.table) same ∙ z)
  IsOnDisk-kept s s' same files (inr h) = inr (
      subst (λ (m : DataManager). Holds config.storage_info (storage_body json m) s'.files)
        (sym same)
        (Holds-SameAt config.storage_info (storage_body json s.manager) s.files s'.files files h))

  pub Effect-IsDurable :
      (k : KeepsTable) (uploads : Bool) (s : Server) (r : Response) (s' : Server)
      → IsDurable s
      → Effect w uploads s r s'
      → IsDurable s'
  Effect-IsDurable k uploads s r s' v (kept same files sent) = record {
    at_file = ap (λ (m : DataManager). m.storage_file) same ∙ v.at_file;
    persists = ap (λ (m : DataManager). m.need_persist) same ∙ v.persists;
    keyed = subst (λ (m : DataManager). IsKeyed m.table) (sym same) v.keyed;
    on_disk = IsOnDisk-kept s s' same files v.on_disk;
  }
  Effect-IsDurable k uploads s r s' v (recorded path fs info same made manager files up sent) =
      subst IsDurable (λ i. record { files = files' i; manager = manager' i })
        (insert-IsDurable k info s.manager fs v.at_file v.persists v.keyed
          (λ d. not_directory s v.on_disk (sym same ∙ d)))
    where
      files' : (insert json disk info s.manager fs).2 ≡ s'.files
      files' = sym files

      manager' : (insert json disk info s.manager fs).1 ≡ s'.manager
      manager' = sym manager

  exists-none : (q : Text) (fs : Files) → find_node q fs.nodes ≡ none → exists q fs ≡ false
  unfolding exists
  exists-none q fs e = rw (e, exists) refl

  -- A manager that finds no file starts with an empty table.
  pub started :
      (fs : Files) (table : InfoTable)
      → find_node config.storage_info fs.nodes ≡ none
      → table ≡ []
      → new_data_manager json disk config fs
        ≡ ok (record { storage_file = config.storage_info; table = table; need_persist = true }, fs)
  unfolding new_data_manager init_load
  started fs table e z = rw (exists-none config.storage_info fs e, z) refl

  -- The constructor over the files of a durable server makes its table again.
  pub restarted :
      (laws : JsonLaws json) (k : KeepsTable) (s : Server)
      → IsDurable s
      → IsKeepable s
      → new_data_manager json disk config s.files ≡ ok (s.manager, s.files)
  restarted laws k s v u = again v.on_disk ∙ ap (λ (m : DataManager). ok (m, s.files)) same
    where
      loaded : DataManager
      loaded = record {
        storage_file = config.storage_info;
        table = s.manager.table;
        need_persist = true;
      }

      same : loaded ≡ s.manager
      same = ground (arith, v.at_file, v.persists)

      again : IsOnDisk s → new_data_manager json disk config s.files ≡ ok (loaded, s.files)
      again (inl (e, z)) = started s.files s.manager.table e z
      again (inr h) =
          new_data_manager-Holds json laws disk config s.manager s.files v.keyed u.storable
            u.written u.small k.can_read h

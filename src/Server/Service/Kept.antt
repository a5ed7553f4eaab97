-- ===== src/Server/Service/Kept.antt =====
-- What `Upload` of src/server/Service.hpp leaves alone: a path that is neither that of its file nor that of the
-- table.
use async_log_cloud_storage.Base.{
  ◌≡◌, ◌∙◌, false, Text, text_eq, Ensures, Ensures-option, Ensures-if, arith,
}
use async_log_cloud_storage.Server.Files.{Files}
use async_log_cloud_storage.Server.Files.Stored.{set_content-other}
use async_log_cloud_storage.Server.Frame.{SameAt, compress-SameAt}
use async_log_cloud_storage.Server.Data.{
  StorageInfo, DataManager, new_storage_info, insert, storage_body, assign_info,
}
use async_log_cloud_storage.Server.Service.{
  Response, Server, World, write_upload, record_upload, store_upload,
}

module _ (w : World) where
  open w use {config, disk, zstd}

  pub insert-SameAt :
      (info : StorageInfo) (m : DataManager) (fs : Files) (q : Text)
      → text_eq m.storage_file q ≡ false
      → SameAt q fs (insert w.json disk info m fs).2
  unfolding insert
  insert-SameAt info m fs q other = ground (
    arith,
    set_content-other disk m.storage_file q
        (storage_body w.json (record m { table = assign_info info.url info m.table })) fs other,
  )

  pub write_upload-SameAt :
      (content path q : Text) (fs : Files)
      → text_eq path q ≡ false
      → SameAt q fs (write_upload w content path fs).1
  unfolding write_upload
  write_upload-SameAt content path q fs other = ground (
    arith,
    set_content-other disk path q content fs other,
    compress-SameAt disk zstd content path q fs other,
  )

  -- What `Upload` does behind the directory leaves other paths alone.
  pub store_upload-SameAt :
      (content path q : Text) (s : Server)
      → text_eq path q ≡ false
      → text_eq s.manager.storage_file q ≡ false
      → Ensures
          (λ (x : Response × Server). SameAt q s.files x.1.files)
          (store_upload w content path s)
  unfolding store_upload record_upload
  store_upload-SameAt content path q s other table =
      let wrote = write_upload w content path s.files in
      let same : SameAt q s.files wrote.1 = write_upload-SameAt content path q s.files other in
      Ensures-if (λ (x : Response × Server). SameAt q s.files x.1.files) wrote.0 _ _
        (λ did.
          Ensures-option (λ (x : Response × Server). SameAt q s.files x.1.files)
            (new_storage_info config disk path wrote.1) _ _ (λ e. tt)
            (λ info e. insert-SameAt info s.manager wrote.1 q table ∙ same))
        (λ failed. same)

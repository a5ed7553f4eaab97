-- ===== src/Server/Service/Store.antt =====
-- `Upload` of src/server/Service.hpp of a file that the disk takes: what the server has afterwards.
use async_log_cloud_storage.Base.{
  length-ne_nil, ◌≡◌, refl, sym, ap, ◌∙◌, ◌≢◌, Bool, true, false, [], ◌∷◌, ◌++◌, length,
  if◌then◌else◌, Text, codes, text_eq, text_eq_self, contains, some, ok, arith,
}
use async_log_cloud_storage.Server.Zstd.{pack}
use async_log_cloud_storage.Server.Files.{
  Files, exists, file_name, file_size, last_access_time, last_modify_time, create_directory,
  set_content,
}
use async_log_cloud_storage.Server.Files.Stored.{Holds, holds, set_content-Holds, compress_did}
use async_log_cloud_storage.Server.Data.{
  StorageInfo, DataManager, get_one_by_url, new_storage_info, insert,
}
use async_log_cloud_storage.Server.Data.Table.{get_one_by_url-insert}
use async_log_cloud_storage.Server.Service.{
  Request, Response, Server, World, send_reply, write_upload, record_upload, store_upload,
  storage_dir, upload_into, upload_named, upload_content, upload,
}
use async_log_cloud_storage.Server.Service.Kept.{insert-SameAt}
use async_log_cloud_storage.Server.Service.Replies.{reply_codes}

module _ (w : World) where
  -- What `Upload` writes to a path.
  unfoldable pub stored_form : Text → Text → Text
  stored_form path content =
      if contains (codes "low_storage") path then content else pack w.zstd content

  write_upload-stored :
      (content path : Text) (fs : Files)
      → (write_upload w content path fs).0 ≡ true
      → write_upload w content path fs ≡ set_content w.disk (stored_form path content) path fs
  unfolding write_upload stored_form
  write_upload-stored content path fs did =
      ground (arith, compress_did w.disk w.zstd content path fs)

  write_upload-Holds :
      (content path : Text) (fs : Files)
      → (write_upload w content path fs).0 ≡ true
      → w.disk.writes path (length (stored_form path content)) ≡ length (stored_form path content)
      → Holds path (stored_form path content) (write_upload w content path fs).1
  write_upload-Holds content path fs did whole =
      let ran = write_upload-stored content path fs did in
      rw ran
        (set_content-Holds w.disk path (stored_form path content) fs
          (ap (λ (r : Bool × Files). r.0) (sym ran) ∙ did) whole).0

  exists-Holds : (path content : Text) (fs : Files) → Holds path content fs → exists path fs ≡ true
  unfolding exists
  exists-Holds path content fs (holds a m e) = rw (e, exists) refl

  insert-files :
      (info : StorageInfo) (m : DataManager) (fs : Files) (path content : Text)
      → text_eq m.storage_file path ≡ false
      → Holds path content fs
      → Holds path content (insert w.json w.disk info m fs).2
  insert-files info m fs path content other (holds a t e) =
      holds a t (insert-SameAt w info m fs path other ∙ e)

  new_storage_info-Holds :
      (path content : Text) (fs : Files)
      → Holds path content fs
      → (info : StorageInfo) × (new_storage_info w.config w.disk path fs ≡ some info)
        × (info.storage_path ≡ path)
        × (info.url ≡ w.config.download_prefix ++ file_name path)
  unfolding new_storage_info
  new_storage_info-Holds path content fs h = (
    record {
      mtime = last_access_time path fs;
      atime = last_modify_time path fs;
      fsize = file_size w.disk path fs;
      storage_path = path;
      url = w.config.download_prefix ++ file_name path;
    },
    ground (arith, exists-Holds path content fs h),
    refl,
    refl,
  )

  -- The server has the file: under its path, and by the URL that its name gives.
  pub record Has (path content : Text) (s : Server) : Type 0 where
    pub info : StorageInfo
    pub recorded : get_one_by_url (w.config.download_prefix ++ file_name path) s.manager ≡ some info
    pub path_of : info.storage_path ≡ path
    pub held : Holds path (stored_form path content) s.files

  record_upload-Has :
      (path content : Text) (s : Server)
      → Holds path (stored_form path content) s.files
      → text_eq s.manager.storage_file path ≡ false
      → (r : Response) × (s' : Server) × (record_upload w path s ≡ ok (r, s'))
        × (reply_codes r ≡ 200 ∷ [])
        × Has path content s'
  unfolding record_upload send_reply
  record_upload-Has path content s h other =
      let (info, made, place, named) =
        new_storage_info-Holds path (stored_form path content) s.files h in
      let done = insert w.json w.disk info s.manager s.files in
      (
        record {
          replies = record { code = 200; reason = some (codes "Success") } ∷ [];
          headers = [];
          output = [];
        },
        record { files = done.2; manager = done.1 },
        rw (made, record_upload) refl,
        refl,
        record {
          info = info;
          recorded =
              (get_one_by_url-insert w.json w.disk info s.manager s.files
                (w.config.download_prefix ++ file_name path)).0
              ∙ rw (named, text_eq_self (w.config.download_prefix ++ file_name path)) refl;
          path_of = place;
          held = insert-files info s.manager s.files path (stored_form path content) other h;
        },
      )

  pub upload-steps :
      (req : Request) (s : Server) (content encoded name kind dir : Text) (b : Bool) (made : Files)
      → req.body ≡ some content
      → content ≢ []
      → w.copies_out content ≡ true
      → req.file_name_header ≡ some encoded
      → w.base64_decode encoded ≡ ok name
      → req.storage_type_header ≡ some kind
      → storage_dir w kind ≡ some dir
      → create_directory w.disk dir s.files ≡ ok (b, made)
      → upload w req s ≡ store_upload w content (dir ++ name) (record s { files = made })
  unfolding upload upload_content upload_named upload_into
  upload-steps req s content encoded name kind dir b made has_body nonempty copied named decoded
        typed placed created =
      rw (has_body, length-ne_nil content nonempty, copied, named, decoded, typed, placed, created)
        refl

  store_upload-did :
      (content path : Text) (s : Server)
      → (write_upload w content path s.files).0 ≡ true
      → store_upload w content path s
        ≡ record_upload w path (record s { files = (write_upload w content path s.files).1 })
  unfolding store_upload
  store_upload-did content path s did = rw did refl

  -- The upload is answered, and the server has the file.
  abbrev pub Stores : Request → Server → Text → Text → Type 0
  Stores req s path content =
      (r : Response) × (s' : Server) × (upload w req s ≡ ok (r, s'))
      × (reply_codes r ≡ 200 ∷ [])
      × Has path content s'

  -- A request that names the file, its storage type and its content, where the directory can be
  -- made and the disk takes the write whole, is answered with the one code 200. Afterwards the file
  -- stands under the directory by its name, as it is or packed by the storage path, and the
  -- table finds it by its URL.
  pub upload-Has :
      (req : Request) (s : Server) (content encoded name kind dir : Text) (b : Bool) (made : Files)
      → req.body ≡ some content
      → content ≢ []
      → w.copies_out content ≡ true
      → req.file_name_header ≡ some encoded
      → w.base64_decode encoded ≡ ok name
      → req.storage_type_header ≡ some kind
      → storage_dir w kind ≡ some dir
      → create_directory w.disk dir s.files ≡ ok (b, made)
      → (write_upload w content (dir ++ name) made).0 ≡ true
      → w.disk.writes (dir ++ name) (length (stored_form (dir ++ name) content))
        ≡ length (stored_form (dir ++ name) content)
      → text_eq s.manager.storage_file (dir ++ name) ≡ false
      → Stores req s (dir ++ name) content
  upload-Has req s content encoded name kind dir b made has_body nonempty copied named decoded typed
        placed created did whole other =
      let path = dir ++ name in
      let fs = (write_upload w content path made).1 in
      let (r, s', ran, sent, has) =
        record_upload-Has path content (record s { files = fs })
          (write_upload-Holds content path made did whole) other in
      (
        r,
        s',
        upload-steps req s content encoded name kind dir b made has_body nonempty copied named
              decoded typed placed created
            ∙ store_upload-did content path (record s { files = made }) did
            ∙ ran,
        sent,
        has,
      )

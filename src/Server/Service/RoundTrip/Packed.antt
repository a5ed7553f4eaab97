-- ===== src/Server/Service/RoundTrip/Packed.antt =====
-- `Upload` and then `Download` of src/server/Service.hpp, of one file that is stored packed.
use async_log_cloud_storage.Base.{
  ◌≤◌, ◌≡◌, refl, sym, ◌∙◌, ◌≢◌, Bool, true, false, [], ◌++◌, length, Text, codes, text_eq,
  contains, some, ok, inl, inr, Bool-cases, Ensures-ok, arith,
}
use async_log_cloud_storage.Server.Url.{url_decode}
use async_log_cloud_storage.Server.Zstd.{ZstdLaws, string_max, pack}
use async_log_cloud_storage.Server.Files.{
  directory, Files, find_node, set_node, file_name, exists, create_directory, set_content,
}
use async_log_cloud_storage.Server.Files.Laws.{find_node-set_node}
use async_log_cloud_storage.Server.Files.Stored.{Holds, holds, compress_did}
use async_log_cloud_storage.Server.Frame.{SameAt}
use async_log_cloud_storage.Server.Data.{StorageInfo}
use async_log_cloud_storage.Server.Service.{
  Request, Response, Server, World, storage_dir, write_upload, store_upload, upload, download,
}
use async_log_cloud_storage.Server.Service.Kept.{store_upload-SameAt}
use async_log_cloud_storage.Server.Service.Fetch.{AddsFiles, Sends, download-packed}
use async_log_cloud_storage.Server.Service.Store.{stored_form, Has, upload-Has, upload-steps}

module _ (w : World) where
  open w use {config, disk, zstd}

  -- What a download of a packed file asks for: of zstd, of the packed file at `path`, and of the copy that
  -- the download makes of it, over the files that the upload starts from.
  pub record Unpacks (storage_file path copy content : Text) (fs : Files) : Type 0 where
    pub laws : ZstdLaws zstd
    pub small : length content ≤ string_max
    pub small_packed : length (pack zstd content) ≤ string_max
    pub readable : disk.can_read path ≡ true
    pub creates : disk.can_create config.low_storage_dir ≡ true
    pub free : find_node copy fs.nodes ≢ some directory
    pub writable : disk.can_write copy ≡ true
    pub whole : disk.writes copy (length content) ≡ length content
    pub copy_readable : disk.can_read copy ≡ true
    pub path_other : text_eq path copy ≡ false
    pub table_other : text_eq storage_file copy ≡ false
    pub dir_other : text_eq config.low_storage_dir copy ≡ false
    pub dir_other_path : text_eq config.low_storage_dir path ≡ false

  create_directory-made :
      (dir : Text) (fs : Files)
      → disk.can_create dir ≡ true
      → (b : Bool) × (made : Files) × (create_directory disk dir fs ≡ ok (b, made))
        × ((q : Text) → text_eq dir q ≡ false → SameAt q fs made)
  unfolding create_directory
  create_directory-made dir fs creates = elim (Bool-cases (exists dir fs)) [
    | inl there ↦ (true, fs, rw there refl, λ q other. refl)
    | inr missing ↦ (
      true,
      record fs { nodes = set_node dir directory fs.nodes },
      rw (missing, creates) refl,
      λ q other. find_node-set_node dir q directory fs.nodes ∙ rw other refl,
    )
  ]

  Holds-SameAt :
      (p content : Text) (before after : Files)
      → SameAt p before after
      → Holds p content before
      → Holds p content after
  Holds-SameAt p content before after same (holds a m e) = holds a m (same ∙ e)

  set_content-free :
      (content p : Text) (fs : Files)
      → find_node p fs.nodes ≢ some directory
      → disk.can_write p ≡ true
      → (set_content disk content p fs).0 ≡ true
  unfolding set_content
  set_content-free content p fs free writable = ground (arith, free, writable)

  write_upload-ne_nil :
      (content path : Text) (fs : Files)
      → contains (codes "low_storage") path ≡ false
      → (write_upload w content path fs).0 ≡ true
      → pack zstd content ≢ []
  unfolding write_upload
  write_upload-ne_nil content path fs deep did =
      (compress_did disk zstd content path fs (ground (arith, deep, did))).0

  stored_form-packed :
      (path content : Text)
      → contains (codes "low_storage") path ≡ false
      → stored_form w path content ≡ pack zstd content
  unfolding stored_form
  stored_form-packed path content deep = rw deep refl

  -- The upload is answered, and then the download sends the content.
  abbrev pub Unpacked : Request → Request → Server → Text → Type 0
  Unpacked up down s content =
      (r : Response) × (s' : Server) × (info : StorageInfo) × (answer : Response) × (t : Server)
      × (upload w up s ≡ ok (r, s'))
      × (download w down s' ≡ ok (answer, t))
      × Sends w down info content answer

  -- The download of a file that was stored packed.
  download-Has :
      (up down : Request) (s s' : Server) (made : Files) (path content : Text) (r : Response)
      → AddsFiles w
      → Unpacks s.manager.storage_file path (config.low_storage_dir ++ file_name path) content made
      → contains (codes "low_storage") path ≡ false
      → contains config.low_storage_dir path ≡ false
      → pack zstd content ≢ []
      → url_decode down.path ≡ ok (config.download_prefix ++ file_name path)
      → SameAt (config.low_storage_dir ++ file_name path) made s'.files
      → upload w up s ≡ ok (r, s')
      → Has w path content s'
      → Unpacked up down s content
  download-Has up down s s' made path content r adds can deep away packed url same ran has =
      let (b, ready, created, kept) =
        create_directory-made config.low_storage_dir s'.files can.creates in
      let copy = config.low_storage_dir ++ file_name path in
      let form : stored_form w path content ≡ pack zstd content =
        stored_form-packed path content deep in
      let held : Holds path (pack zstd content) ready =
        Holds-SameAt path (pack zstd content) s'.files ready (kept path can.dir_other_path)
          (rw (sym form) has.held) in
      let free : find_node copy ready.nodes ≢ some directory =
        λ e. can.free (sym (kept copy can.dir_other ∙ same) ∙ e) in
      let opened = set_content-free content copy ready free can.writable in
      let (answer, t, did, sends) =
        download-packed w down s' (config.download_prefix ++ file_name path) content has.info ready
          b adds can.laws url has.recorded (rw has.path_of away) created (rw has.path_of held)
          packed can.small can.small_packed (rw has.path_of can.readable) (rw has.path_of opened)
          (rw has.path_of can.whole) (rw has.path_of can.copy_readable) in
      (r, s', has.info, answer, t, ran, did, sends)

  -- A file that is uploaded for the deep storage, and so is stored packed, is what a download by its URL
  -- sends, unpacked into the directory for plain files. The directory of the deep storage has not
  -- "low_storage" in its path, zstd keeps its laws and both forms fit a string, the disk takes the
  -- writes and gives the files, and the paths are apart.
  pub download-upload_packed :
      (up down : Request) (s : Server) (content encoded name kind : Text) (b : Bool) (made : Files)
      → AddsFiles w
      → contains (codes "low_storage") (config.deep_storage_dir ++ name) ≡ false
      → contains config.low_storage_dir (config.deep_storage_dir ++ name) ≡ false
      → up.body ≡ some content
      → content ≢ []
      → w.copies_out content ≡ true
      → up.file_name_header ≡ some encoded
      → w.base64_decode encoded ≡ ok name
      → up.storage_type_header ≡ some kind
      → storage_dir w kind ≡ some config.deep_storage_dir
      → create_directory disk config.deep_storage_dir s.files ≡ ok (b, made)
      → (write_upload w content (config.deep_storage_dir ++ name) made).0 ≡ true
      → disk.writes (config.deep_storage_dir ++ name) (length (pack zstd content))
        ≡ length (pack zstd content)
      → text_eq s.manager.storage_file (config.deep_storage_dir ++ name) ≡ false
      → Unpacks s.manager.storage_file
          (config.deep_storage_dir ++ name)
          (config.low_storage_dir ++ file_name (config.deep_storage_dir ++ name))
          content
          made
      → url_decode down.path
        ≡ ok (config.download_prefix ++ file_name (config.deep_storage_dir ++ name))
      → Unpacked up down s content
  download-upload_packed up down s content encoded name kind b made adds deep away has_body nonempty
        copied named decoded typed placed created did whole other can url =
      let path = config.deep_storage_dir ++ name in
      let copy = config.low_storage_dir ++ file_name path in
      let form = stored_form-packed path content deep in
      let (r, s', ran, sent, has) =
        upload-Has w up s content encoded name kind config.deep_storage_dir b made has_body nonempty
          copied named decoded typed placed created did (rw form whole) other in
      let stored : store_upload w content path (record s { files = made }) ≡ ok (r, s') =
        sym (
          upload-steps w up s content encoded name kind config.deep_storage_dir b made has_body
            nonempty copied named decoded typed placed created)
        ∙ ran in
      let same : SameAt copy made s'.files =
        Ensures-ok (λ (x : Response × Server). SameAt copy made x.1.files) _
          (store_upload-SameAt w content path copy (record s { files = made }) can.path_other
            can.table_other)
          stored in
      download-Has up down s s' made path content r adds can deep away
        (write_upload-ne_nil content path made deep did) url same ran has

-- ===== src/Server/Service/RoundTrip.antt =====
-- `Upload` and then `Download` of src/server/Service.hpp, of one file.
pub mod Packed
use async_log_cloud_storage.Base.{
  ◌≡◌, refl, ◌≢◌, Bool, true, false, [], ◌++◌, length, Text, codes, text_eq, contains,
  contains-prefix, contains-append, some, ok,
}
use async_log_cloud_storage.Server.Url.{url_decode}
use async_log_cloud_storage.Server.Files.{Files, file_name, create_directory}
use async_log_cloud_storage.Server.Files.Stored.{Holds}
use async_log_cloud_storage.Server.Data.{StorageInfo}
use async_log_cloud_storage.Server.Service.{
  Request, Response, Server, World, storage_dir, write_upload, upload, download,
}
use async_log_cloud_storage.Server.Service.Fetch.{AddsFiles, Sends, download-plain}
use async_log_cloud_storage.Server.Service.Store.{stored_form, Stores, upload-Has}

module _ (w : World) where
  stored_form-plain :
      (path content : Text)
      → contains (codes "low_storage") path ≡ true
      → stored_form w path content ≡ content
  unfolding stored_form
  stored_form-plain path content low = rw low refl

  -- The upload ends in a server whose download of the URL sends the content.
  abbrev pub Returns : Request → Request → Server → Text → Type 0
  Returns up down s content =
      (r : Response) × (s' : Server) × (info : StorageInfo) × (answer : Response) × (upload w up s
        ≡ ok (r, s'))
      × (download w down s' ≡ ok (answer, s'))
      × Sends w down info content answer

  download-Has :
      (up down : Request) (s : Server) (path content : Text)
      → AddsFiles w
      → contains (codes "low_storage") path ≡ true
      → contains w.config.low_storage_dir path ≡ true
      → w.disk.can_read path ≡ true
      → url_decode down.path ≡ ok (w.config.download_prefix ++ file_name path)
      → Stores w up s path content
      → Returns up down s content
  download-Has up down s path content adds low plain readable decoded (r, s', ran, sent, has) =
      let held : Holds has.info.storage_path content s'.files =
        rw (has.path_of, ← stored_form-plain path content low) has.held in
      let (answer, did, sends) =
        download-plain w down s' (w.config.download_prefix ++ file_name path) content has.info adds
          decoded has.recorded (rw has.path_of plain) held (rw has.path_of readable) in
      (r, s', has.info, answer, ran, did, sends)

  -- A file that is uploaded for the plain storage is what a download by its URL sends, and the
  -- download leaves the server as the upload left it. The directory of the plain storage has
  -- "low_storage" in its name, the disk takes the writes and gives the file, and the file is not the one
  -- of the table.
  pub download-upload :
      (up down : Request) (s : Server) (content encoded name kind : Text) (b : Bool) (made : Files)
      → AddsFiles w
      → contains (codes "low_storage") w.config.low_storage_dir ≡ true
      → up.body ≡ some content
      → content ≢ []
      → w.copies_out content ≡ true
      → up.file_name_header ≡ some encoded
      → w.base64_decode encoded ≡ ok name
      → up.storage_type_header ≡ some kind
      → storage_dir w kind ≡ some w.config.low_storage_dir
      → create_directory w.disk w.config.low_storage_dir s.files ≡ ok (b, made)
      → (write_upload w content (w.config.low_storage_dir ++ name) made).0 ≡ true
      → w.disk.writes (w.config.low_storage_dir ++ name) (length content) ≡ length content
      → text_eq s.manager.storage_file (w.config.low_storage_dir ++ name) ≡ false
      → w.disk.can_read (w.config.low_storage_dir ++ name) ≡ true
      → url_decode down.path
        ≡ ok (w.config.download_prefix ++ file_name (w.config.low_storage_dir ++ name))
      → Returns up down s content
  download-upload up down s content encoded name kind b made adds low has_body nonempty copied named
        decoded typed placed created did whole other readable url =
      download-Has up down s (w.config.low_storage_dir ++ name) content adds low_path
        (contains-prefix w.config.low_storage_dir name) readable url
        (upload-Has w up s content encoded name kind w.config.low_storage_dir b made has_body
          nonempty copied named decoded typed placed created did
          (rw (stored_form-plain (w.config.low_storage_dir ++ name) content low_path) whole) other)
    where
      low_path : contains (codes "low_storage") (w.config.low_storage_dir ++ name) ≡ true
      low_path = contains-append (codes "low_storage") w.config.low_storage_dir name low

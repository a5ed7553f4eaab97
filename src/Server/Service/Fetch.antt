-- ===== src/Server/Service/Fetch.antt =====
-- `Download` of src/server/Service.hpp for a file that the server has.
use async_log_cloud_storage.Base.{
  ℕ, ◌≤◌, ◌≡◌, refl, ap, ◌∙◌, ◌≢◌, Bool, true, false, [], ◌∷◌, ◌++◌, length, if◌then◌else◌, Text,
  codes, text_eq_self, contains, some, ok, arith,
}
use async_log_cloud_storage.Server.Url.{url_decode}
use async_log_cloud_storage.Server.Zstd.{ZstdLaws, string_max, pack, unpack-pack}
use async_log_cloud_storage.Server.Files.{
  file, Files, exists, file_name, create_directory, set_content, uncompress,
}
use async_log_cloud_storage.Server.Files.Stored.{
  Holds, holds, get_content-Holds, set_content-Holds, uncompress-read,
}
use async_log_cloud_storage.Server.Data.{StorageInfo, DataManager, get_one_by_url}
use async_log_cloud_storage.Server.Service.{
  Request, Response, Server, World, send_reply, add_header, wants_rest, get_etag, info_or_stray,
  prepare_download, reply_missing, send_file, finish_download, download,
}
use async_log_cloud_storage.Server.Service.Replies.{reply_codes}
use async_log_cloud_storage.Server.Service.Missing.{download-steps}

module _ (w : World) where
  -- `evbuffer_add_file` sends a file whole.
  abbrev pub AddsFiles : Type 0
  AddsFiles = (content : Text) (a m : ℕ) → w.add_file (file content a m) ≡ some content

  -- One reply, with the content, and the code by the request's If-Range header.
  pub record Sends (req : Request) (info : StorageInfo) (content : Text) (r : Response)
      : Type 0 where
    pub codes_sent : reply_codes r ≡ (if wants_rest w req info then 206 ∷ [] else 200 ∷ [])
    pub output_sent : r.output ≡ content
    pub headers_sent :
        r.headers
        ≡ (codes "Accept-Ranges", codes "bytes")
          ∷ (codes "ETag", get_etag info)
          ∷ (codes "Content-Type", codes "application/octet-stream")
          ∷ []

  finish_download-Sends :
      (req : Request) (info : StorageInfo) (path content : Text) (fs : Files)
      → AddsFiles
      → Holds path content fs
      → w.disk.can_read path ≡ true
      → Sends req info content (finish_download w req info path fs).0
  unfolding finish_download reply_missing exists send_file add_header send_reply
  finish_download-Sends req info path content fs adds (holds a m e) readable = record {
    codes_sent = ground (arith, e, readable);
    output_sent = ground (arith, e, readable, adds content a m);
    headers_sent = ground (arith, e, readable);
  }

  finish_download-same :
      (req : Request) (info : StorageInfo) (content : Text) (fs : Files)
      → Holds info.storage_path content fs
      → (finish_download w req info info.storage_path fs).1 ≡ fs
  unfolding finish_download
  finish_download-same req info content fs (holds a m e) =
      ground (arith, e, text_eq_self info.storage_path)

  info_or_stray-some :
      (url : Text) (m : DataManager) (info : StorageInfo)
      → get_one_by_url url m ≡ some info
      → info_or_stray w url m ≡ info
  unfolding info_or_stray
  info_or_stray-some url m info e = rw (e, info_or_stray) refl

  prepare_download-plain :
      (info : StorageInfo) (fs : Files)
      → contains w.config.low_storage_dir info.storage_path ≡ true
      → prepare_download w info fs ≡ ok (info.storage_path, fs)
  unfolding prepare_download
  prepare_download-plain info fs plain = rw plain refl

  -- A file of the table under the directory for plain files, which can be read, is sent as it is, and
  -- the server stays as it was. The whole file is sent also where the code is 206.
  pub download-plain :
      (req : Request) (s : Server) (url content : Text) (info : StorageInfo)
      → AddsFiles
      → url_decode req.path ≡ ok url
      → get_one_by_url url s.manager ≡ some info
      → contains w.config.low_storage_dir info.storage_path ≡ true
      → Holds info.storage_path content s.files
      → w.disk.can_read info.storage_path ≡ true
      → (r : Response) × (download w req s ≡ ok (r, s)) × Sends req info content r
  download-plain req s url content info adds decoded found plain held readable =
      let known : info_or_stray w url s.manager ≡ info =
        info_or_stray-some url s.manager info found in
      let path = info.storage_path in
      (
        (finish_download w req info path s.files).0,
        download-steps w req s url path s.files decoded (
              ap (λ i. prepare_download w i s.files) known
              ∙ prepare_download-plain info s.files plain)
            ∙ ap
                (λ i. ok (
                  (finish_download w req i path s.files).0,
                  record s { files = (finish_download w req i path s.files).1 },
                ))
                known
            ∙ ap
                (λ (t : Files).
                  ok ((finish_download w req info path s.files).0, record s { files = t }))
                (finish_download-same req info content s.files held),
        finish_download-Sends req info path content s.files adds held readable,
      )

  prepare_download-packed :
      (info : StorageInfo) (content : Text) (fs made : Files) (b : Bool)
      → ZstdLaws w.zstd
      → contains w.config.low_storage_dir info.storage_path ≡ false
      → create_directory w.disk w.config.low_storage_dir fs ≡ ok (b, made)
      → Holds info.storage_path (pack w.zstd content) made
      → pack w.zstd content ≢ []
      → length content ≤ string_max
      → length (pack w.zstd content) ≤ string_max
      → w.disk.can_read info.storage_path ≡ true
      → prepare_download w info fs
        ≡ ok (
          w.config.low_storage_dir ++ file_name info.storage_path,
          (set_content w.disk content
              (w.config.low_storage_dir ++ file_name info.storage_path)
              made).1,
        )
  unfolding prepare_download
  prepare_download-packed info content fs made b laws packed created held nonempty small
        small_packed readable =
      rw packed (rw created (rw unpacked refl))
    where
      path : Text
      path = w.config.low_storage_dir ++ file_name info.storage_path

      unpacked :
          uncompress w.disk w.zstd path info.storage_path made
          ≡ ok (set_content w.disk content path made)
      unpacked =
          uncompress-read w.disk w.zstd path info.storage_path (pack w.zstd content) content made
            (get_content-Holds w.disk info.storage_path (pack w.zstd content) made held small_packed
              readable)
            (unpack-pack w.zstd laws content (pack w.zstd content) small refl nonempty)

  -- A file outside of the directory for plain files, packed, is sent unpacked, where zstd keeps its
  -- laws, both forms fit a string, and the disk takes the unpacked copy whole and gives both files.
  pub download-packed :
      (req : Request) (s : Server) (url content : Text) (info : StorageInfo) (made : Files)
      (b : Bool)
      → AddsFiles
      → ZstdLaws w.zstd
      → url_decode req.path ≡ ok url
      → get_one_by_url url s.manager ≡ some info
      → contains w.config.low_storage_dir info.storage_path ≡ false
      → create_directory w.disk w.config.low_storage_dir s.files ≡ ok (b, made)
      → Holds info.storage_path (pack w.zstd content) made
      → pack w.zstd content ≢ []
      → length content ≤ string_max
      → length (pack w.zstd content) ≤ string_max
      → w.disk.can_read info.storage_path ≡ true
      → (set_content w.disk content
          (w.config.low_storage_dir ++ file_name info.storage_path)
          made).0
        ≡ true
      → w.disk.writes (w.config.low_storage_dir ++ file_name info.storage_path) (length content)
        ≡ length content
      → w.disk.can_read (w.config.low_storage_dir ++ file_name info.storage_path) ≡ true
      → (r : Response) × (s' : Server) × (download w req s ≡ ok (r, s')) × Sends req info content r
  download-packed req s url content info made b adds laws decoded found packed created held nonempty
        small small_packed readable opened whole readable' =
      let known : info_or_stray w url s.manager ≡ info =
        info_or_stray-some url s.manager info found in
      let path = w.config.low_storage_dir ++ file_name info.storage_path in
      let fs = (set_content w.disk content path made).1 in
      (
        (finish_download w req info path fs).0,
        record s { files = (finish_download w req info path fs).1 },
        download-steps w req s url path fs decoded (
              ap (λ i. prepare_download w i s.files) known
              ∙ prepare_download-packed info content s.files made b laws packed created held
                  nonempty small small_packed readable)
            ∙ ap
                (λ i. ok (
                  (finish_download w req i path fs).0,
                  record s { files = (finish_download w req i path fs).1 },
                ))
                known,
        finish_download-Sends req info path content fs adds
            (set_content-Holds w.disk path content made opened whole).0 readable',
      )

-- ===== src/Server/Service.antt =====
-- `storage::Service` of src/server/Service.hpp: the handlers of a request, over
-- the parameters of Server.World. Log calls are left out.
pub mod Replies
pub mod Missing
pub mod Fetch
pub mod Store
pub mod Kept
pub mod RoundTrip
use async_log_cloud_storage.Base.{
  ℕ, ◌+◌, Bool, true, false, not, ◌&&◌, ◌||◌, List, [], ◌∷◌, ◌++◌, length, ◌==◌, if◌then◌else◌,
  Text, codes, text_eq, contains, to_string, to_string_signed, Option, none, some, Outcome, ok,
  fail, null_pointer, uninitialised, ◌>>=◌,
}
pub use async_log_cloud_storage.Server.World.{Request, Reply, Response, Server, World}
unfoldable pub use async_log_cloud_storage.Server.World.{
  no_response, send_reply, add_header, http_ok, http_bad_request, http_not_found, http_internal,
  Handled,
}
use async_log_cloud_storage.Json.{Json}
use async_log_cloud_storage.Server.Zstd.{Zstd}
use async_log_cloud_storage.Server.Url.{url_decode}
use async_log_cloud_storage.Server.Files.{
  Node, Files, Disk, find_node, exists, file_name, set_content, compress, uncompress,
  create_directory, remove_path,
}
use async_log_cloud_storage.Server.Config.{Config}
use async_log_cloud_storage.Server.Data.{
  StorageInfo, DataManager, new_storage_info, insert, get_one_by_url,
}

-- filename-fsize-mtime
unfoldable pub get_etag : StorageInfo → Text
get_etag info =
    file_name info.storage_path
    ++ (codes "-" ++ (to_string info.fsize ++ (codes "-" ++ to_string_signed info.mtime)))

module _ (w : World) where
  open w use {json, disk, zstd, config, base64_decode, copies_out, add_file, open_error, stray}

  -- The directory of a storage type.
  unfoldable pub storage_dir : Text → Option Text
  storage_dir kind =
      if text_eq kind (codes "low")
      then some config.low_storage_dir
      else if text_eq kind (codes "deep")
      then some config.deep_storage_dir
      else none

  -- By the path, the content is written as it is, or compressed.
  unfoldable pub write_upload : Text → Text → Files → Bool × Files
  write_upload content storage_path fs =
      if contains (codes "low_storage") storage_path
      then set_content disk content storage_path fs
      else compress disk zstd content storage_path fs

  -- `NewStorageInfo`, `Insert` and the reply.
  unfoldable pub record_upload : Text → Server → Handled
  record_upload storage_path s = elim (new_storage_info config disk storage_path s.files) [
    | none ↦ fail uninitialised
    | some info ↦
        let (_, m, fs) = insert json disk info s.manager s.files in
        ok (
          send_reply http_ok (some (codes "Success")) no_response,
          record { files = fs; manager = m },
        )
  ]

  -- `Upload` from the write on.
  unfoldable pub store_upload : Text → Text → Server → Handled
  store_upload content storage_path s =
      let (stored, fs) = write_upload content storage_path s.files in
      if stored
      then record_upload storage_path (record s { files = fs })
      else ok (
        send_reply http_internal (some (codes "server error")) no_response,
        record s { files = fs },
      )

  -- `Upload` once the directory and the name are known.
  unfoldable pub upload_into : Text → Text → Text → Server → Handled
  upload_into content dir filename s = do
    made ← create_directory disk dir s.files
    store_upload content (dir ++ filename) (record s { files = made.1 })

  -- `Upload` from the storage type on.
  unfoldable pub upload_named : Request → Text → Text → Server → Handled
  upload_named req content filename s = elim req.storage_type_header [
    | none ↦ fail null_pointer
    | some kind ↦ elim (storage_dir kind) [
      | none ↦ ok (send_reply http_bad_request (some (codes "Illegal storage type")) no_response, s)
      | some dir ↦ upload_into content dir filename s
    ]
  ]

  -- `Upload` from the headers on.
  unfoldable pub upload_content : Request → Text → Server → Handled
  upload_content req content s = elim req.file_name_header [
    | none ↦ fail null_pointer
    | some encoded ↦ base64_decode encoded >>= λ filename. upload_named req content filename s
  ]

  unfoldable pub upload : Request → Server → Handled
  upload req s = elim req.body [
    | none ↦ ok (no_response, s)
    | some content ↦
        if length content == 0
        then ok (send_reply http_bad_request (some (codes "file empty")) no_response, s)
        else if copies_out content
        then upload_content req content s
        else ok (send_reply http_internal none no_response, s)
  ]

  -- The info of `Download`, before `GetOneByURL` fills it.
  unfoldable pub stray_info : StorageInfo
  stray_info = record {
    mtime = stray.0;
    atime = stray.1;
    fsize = stray.2;
    storage_path = [];
    url = [];
  }

  unfoldable pub info_or_stray : Text → DataManager → StorageInfo
  info_or_stray url m = elim (get_one_by_url url m) [ none ↦ stray_info | some info ↦ info ]

  -- The path to send: that of the storage, or of the copy that is unpacked for it.
  unfoldable pub prepare_download : StorageInfo → Files → Outcome (Text × Files)
  prepare_download info fs =
      if contains config.low_storage_dir info.storage_path
      then ok (info.storage_path, fs)
      else (let path = config.low_storage_dir ++ file_name info.storage_path in
          create_directory disk config.low_storage_dir fs >>= λ made.
          uncompress disk zstd path info.storage_path made.1 >>= λ unpacked. ok (path, unpacked.1))

  -- The replies for a file that is not there. Neither ends the handler.
  unfoldable pub reply_missing : StorageInfo → Text → Files → Response
  reply_missing info path fs =
      if not (exists path fs) && contains (codes "deep_storage") info.storage_path
      then send_reply http_internal none no_response
      else if not (exists path fs) && not (contains (codes "low_storage") info.storage_path)
      then send_reply http_bad_request (some (codes "file not exists")) no_response
      else no_response

  unfoldable pub wants_rest : Request → StorageInfo → Bool
  wants_rest req info = elim req.if_range_header [
    | none ↦ false
    | some old_etag ↦ text_eq old_etag (get_etag info)
  ]

  -- The response with the file.
  unfoldable pub send_file : Request → StorageInfo → Node → Response → Response
  send_file req info n r =
      let filled = record r {
        output = r.output ++ elim (add_file n) [ none ↦ [] | some bytes ↦ bytes ];
      } in
      let r1 = add_header (codes "Accept-Ranges") (codes "bytes") filled in
      let r2 = add_header (codes "ETag") (get_etag info) r1 in
      let r3 = add_header (codes "Content-Type") (codes "application/octet-stream") r2 in
      if wants_rest req info
      then send_reply 206 (some (codes "breakpoint continuous transmission")) r3
      else send_reply http_ok (some (codes "Success")) r3

  -- `Download` once the path is known.
  unfoldable pub finish_download : Request → StorageInfo → Text → Files → Response × Files
  finish_download req info path fs = elim (find_node path fs.nodes) [
    | none ↦ (
      send_reply http_not_found (some (path ++ codes "not exists")) (reply_missing info path fs),
      fs,
    )
    | some n ↦
        if disk.can_read path
        then (
          send_file req info n (reply_missing info path fs),
          if text_eq path info.storage_path then fs else remove_path path fs,
        )
        else (send_reply http_internal (some open_error) (reply_missing info path fs), fs)
  ]

  unfoldable pub download : Request → Server → Handled
  download req s = url_decode req.path >>= λ url.
      let info = info_or_stray url s.manager in
      prepare_download info s.files >>= λ prepared.
      let (r, fs) = finish_download req info prepared.0 prepared.1 in
      ok (r, record s { files = fs })

  -- `GenHandler`, with the handler of the page as an argument.
  unfoldable pub gen_handler : (Request → Server → Handled) → Request → Server → Handled
  gen_handler list_show req s = url_decode req.path >>= λ path.
      if contains (codes "/download/") path
      then download req s
      else if text_eq path (codes "/upload")
      then upload req s
      else if text_eq path (codes "/")
      then list_show req s
      else ok (send_reply http_not_found (some (codes "Not Found")) no_response, s)

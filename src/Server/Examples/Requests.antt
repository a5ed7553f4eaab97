-- ===== src/Server/Examples/Requests.antt =====
-- Runs of the handlers of src/server/Service.hpp.
use async_log_cloud_storage.Base.{
  refl, ◌≡◌, true, [], ◌∷◌, codes, some, ok, length, arith, text_eq, contains, starts_with,
  after_last,
}
use async_log_cloud_storage.Server.Url.{url_decode}
use async_log_cloud_storage.Server.Zstd.{pack}
use async_log_cloud_storage.Server.Files.{
  directory, Files, create_directory, set_content, compress, uncompress, find_node, set_node,
  exists, file_name, get_content,
}
use async_log_cloud_storage.Server.Data.{get_one_by_url, find_info}
use async_log_cloud_storage.Server.Service.{
  Response, Server, storage_dir, write_upload, upload, download, prepare_download, info_or_stray,
  upload_content, upload_named, send_reply,
}
use async_log_cloud_storage.Server.Service.Replies.{reply_codes, upload-replies}
use async_log_cloud_storage.Server.Service.Missing.{download-missing, download-unknown}
use async_log_cloud_storage.Server.Service.RoundTrip.Packed.{
  Unpacks, Unpacked, download-upload_packed,
}
use async_log_cloud_storage.Server.Service.RoundTrip.{Returns, download-upload}
use async_log_cloud_storage.Server.Examples.{
  tagged_zstd-laws, small_world, empty_server, full_server, get, post,
}

abbrev deep_made : Files
deep_made = record {
  nodes = (codes "./low_storage/", directory) ∷ (codes "./deep_storage/", directory) ∷ [];
  now = 7;
}

deep_made-Unpacks :
    Unpacks small_world
      (codes "./storage.data")
      (codes "./deep_storage/f")
      (codes "./low_storage/f")
      (codes "abc")
      deep_made
unfolding text_eq find_node pack
deep_made-Unpacks = record {
  laws = tagged_zstd-laws;
  small = omega arith;
  small_packed = omega arith;
  readable = refl;
  creates = refl;
  free = λ e. absurd (ground arith);
  writable = refl;
  whole = refl;
  copy_readable = refl;
  path_other = refl;
  table_other = refl;
  dir_other = refl;
  dir_other_path = refl;
}

download-upload_packed_example :
    Unpacked small_world
      (post (codes "f") (codes "deep") (codes "abc"))
      (get (codes "/download/f"))
      empty_server
      (codes "abc")
unfolding storage_dir text_eq create_directory exists find_node set_node write_upload contains
    starts_with compress pack set_content url_decode file_name after_last
download-upload_packed_example =
    download-upload_packed small_world (post (codes "f") (codes "deep") (codes "abc"))
      (get (codes "/download/f")) empty_server (codes "abc") (codes "f") (codes "f") (codes "deep")
      true deep_made (λ c a m. refl) refl refl refl (λ e. absurd (ground arith)) refl refl refl refl
      refl refl refl refl refl deep_made-Unpacks refl

download-upload_example :
    Returns small_world
      (post (codes "f") (codes "low") (codes "abc"))
      (get (codes "/download/f"))
      empty_server
      (codes "abc")
unfolding contains starts_with storage_dir text_eq create_directory exists find_node write_upload
    set_content url_decode file_name after_last
download-upload_example =
    download-upload small_world (post (codes "f") (codes "low") (codes "abc"))
      (get (codes "/download/f")) empty_server (codes "abc") (codes "f") (codes "f") (codes "low")
      true empty_server.files (λ c a m. refl) refl refl (λ e. absurd (ground arith)) refl refl refl
      refl refl refl refl refl refl refl refl

download-missing_example :
    (r : Response) × (download small_world
        (get (codes "/download/f"))
        (record full_server { files = empty_server.files })
      ≡ ok (r, record full_server { files = empty_server.files }))
    × (reply_codes r ≡ 500 ∷ 404 ∷ [])
unfolding url_decode prepare_download contains info_or_stray get_one_by_url find_info text_eq
    starts_with create_directory exists find_node uncompress get_content file_name after_last
download-missing_example =
    download-missing small_world (get (codes "/download/f"))
      (record full_server { files = empty_server.files }) (codes "/download/f")
      (codes "./low_storage/f") empty_server.files refl refl refl

download-unknown_example :
    (r : Response) × (s' : Server) × (download small_world (get (codes "/download/g")) full_server
      ≡ ok (r, s'))
    × (reply_codes r ≡ 200 ∷ [])
unfolding url_decode get_one_by_url find_info text_eq contains starts_with exists find_node
download-unknown_example =
    download-unknown small_world (get (codes "/download/g")) full_server (codes "/download/g") refl
      refl refl refl refl refl refl

abbrev refusal : Response
refusal = record {
  replies = record { code = 400; reason = some (codes "Illegal storage type") } ∷ [];
  headers = [];
  output = [];
}

upload-replies_example : length refusal.replies ≡ 1
unfolding upload upload_content upload_named storage_dir text_eq send_reply
upload-replies_example =
    upload-replies small_world (post (codes "f") (codes "other") (codes "abc")) empty_server
      empty_server refusal refl

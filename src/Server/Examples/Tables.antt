-- ===== src/Server/Examples/Tables.antt =====
-- Runs of the files and of the table of src/server.
use async_log_cloud_storage.Base.{
  c_str, refl, ◌≡◌, ◌^◌, true, [], ◌∷◌, codes, ok, fail, arith, inl, json_error, text_eq, c_str,
}
use async_log_cloud_storage.Json.Example.{encode, example_json, example_json-laws}
use async_log_cloud_storage.Server.JsonUtil.{serialize}
use async_log_cloud_storage.Server.Files.{set_content, find_node, compress, uncompress}
use async_log_cloud_storage.Server.Files.Stored.{uncompress-compress}
use async_log_cloud_storage.Server.Zstd.{pack}
use async_log_cloud_storage.Server.Data.{
  append_infos, info_value, get_all, StorageInfo, DataManager, storage, storage_body,
  new_data_manager,
}
use async_log_cloud_storage.Server.Data.Items.{IsStorable}
use async_log_cloud_storage.Server.Data.Persist.{
  IsStored, new_data_manager-storage, new_data_manager-too_large,
}
use async_log_cloud_storage.Server.Examples.{
  tagged_zstd, tagged_zstd-laws, open_disk, small_config, empty_server, full_server, file_info,
}

abbrev large_info : StorageInfo
large_info = record {
  mtime = 5;
  atime = 6;
  fsize = 2 ^ 31;
  storage_path = codes "./deep_storage/g";
  url = codes "/download/g";
}

abbrev large_manager : DataManager
large_manager = record {
  storage_file = codes "./storage.data";
  table = (codes "/download/f", file_info) ∷ (codes "/download/g", large_info) ∷ [];
  need_persist = true;
}

file_info-IsStorable : IsStorable file_info
unfolding c_str
file_info-IsStorable = record {
  mtime_fits = inl (omega arith);
  atime_fits = inl (omega arith);
  fsize_fits = inl (omega arith);
  path_clean = refl;
  url_clean = refl;
}

full_server-IsStored :
    IsStored example_json example_json-laws open_disk full_server.manager full_server.files
unfolding storage_body serialize get_all append_infos info_value encode set_content find_node c_str
    text_eq
full_server-IsStored = record {
  body_written = refl;
  small = omega arith;
  opened = refl;
  whole = refl;
  readable = refl;
}

new_data_manager-storage_example :
    new_data_manager example_json open_disk small_config
      (storage example_json open_disk full_server.manager full_server.files).1
    ≡ ok (
      full_server.manager,
      (storage example_json open_disk full_server.manager full_server.files).1,
    )
new_data_manager-storage_example =
    new_data_manager-storage example_json example_json-laws open_disk small_config
      full_server.manager full_server.files refl (refl, tt, tt) (file_info-IsStorable, tt)
      full_server-IsStored

large_manager-IsStored :
    IsStored example_json example_json-laws open_disk large_manager full_server.files
unfolding storage_body serialize get_all append_infos info_value encode set_content find_node c_str
    text_eq
large_manager-IsStored = record {
  body_written = refl;
  small = omega arith;
  opened = refl;
  whole = refl;
  readable = refl;
}

new_data_manager-too_large_example :
    new_data_manager example_json open_disk small_config
      (storage example_json open_disk large_manager full_server.files).1
    ≡ fail json_error
new_data_manager-too_large_example =
    new_data_manager-too_large example_json example_json-laws open_disk small_config large_manager
      full_server.files ((codes "/download/f", file_info) ∷ []) [] (codes "/download/g") large_info
      refl refl (file_info-IsStorable, tt) (λ h. omega arith) large_manager-IsStored

uncompress-compress_example :
    uncompress open_disk tagged_zstd
      (codes "g")
      (codes "f")
      (compress open_disk tagged_zstd (codes "abc") (codes "f") empty_server.files).1
    ≡ ok (
        set_content open_disk
          (codes "abc")
          (codes "g")
          (compress open_disk tagged_zstd (codes "abc") (codes "f") empty_server.files).1)
unfolding compress pack set_content find_node text_eq
uncompress-compress_example =
    uncompress-compress open_disk tagged_zstd (codes "abc") (codes "f") (codes "g")
      empty_server.files tagged_zstd-laws (omega arith) (omega arith) refl refl refl

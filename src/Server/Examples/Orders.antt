-- ===== src/Server/Examples/Orders.antt =====
-- A table of src/server whose entries are written the other way round.
use mathlib.Core.List.Perm
use async_log_cloud_storage.Base.{
  c_str, refl, ◌≡◌, true, [], ◌∷◌, codes, ok, arith, inl, text_eq, Text,
}
use async_log_cloud_storage.Json.Example.{encode, example_json, example_json-laws}
use async_log_cloud_storage.Server.JsonUtil.{serialize}
use async_log_cloud_storage.Server.Files.{set_content, find_node}
use async_log_cloud_storage.Server.Data.{
  append_infos, info_value, get_all, StorageInfo, DataManager, storage, storage_body,
  new_data_manager, get_one_by_url,
}
use async_log_cloud_storage.Server.Data.Items.{IsStorable}
use async_log_cloud_storage.Server.Data.Persist.{IsStored}
use async_log_cloud_storage.Server.Data.Order.{reloaded}
use async_log_cloud_storage.Server.Examples.{open_disk, small_config, full_server, file_info}

abbrev other_info : StorageInfo
other_info = record {
  mtime = 5;
  atime = 6;
  fsize = 9;
  storage_path = codes "./deep_storage/g";
  url = codes "/download/g";
}

abbrev one_way : DataManager
one_way = record {
  storage_file = codes "./storage.data";
  table = (codes "/download/f", file_info) ∷ (codes "/download/g", other_info) ∷ [];
  need_persist = true;
}

abbrev other_way : DataManager
other_way = record one_way {
  table = (codes "/download/g", other_info) ∷ (codes "/download/f", file_info) ∷ [];
}

file_info-IsStorable : IsStorable file_info
unfolding c_str
file_info-IsStorable = record {
  mtime_fits = inl (omega arith);
  atime_fits = inl (omega arith);
  fsize_fits = inl (omega arith);
  path_clean = refl;
  url_clean = refl;
}

other_info-IsStorable : IsStorable other_info
unfolding c_str
other_info-IsStorable = record {
  mtime_fits = inl (omega arith);
  atime_fits = inl (omega arith);
  fsize_fits = inl (omega arith);
  path_clean = refl;
  url_clean = refl;
}

other_way-IsStored : IsStored example_json example_json-laws open_disk other_way full_server.files
unfolding storage_body serialize get_all append_infos info_value encode set_content find_node c_str
    text_eq
other_way-IsStored = record {
  body_written = refl;
  small = omega arith;
  opened = refl;
  whole = refl;
  readable = refl;
}

reloaded_example :
    (loaded : DataManager) × (new_data_manager example_json open_disk small_config
        (storage example_json open_disk other_way full_server.files).1
      ≡ ok (loaded, (storage example_json open_disk other_way full_server.files).1))
    × ((url : Text) → get_one_by_url url loaded ≡ get_one_by_url url one_way)
unfolding text_eq
reloaded_example =
    reloaded example_json example_json-laws open_disk small_config one_way other_way
      full_server.files
      (Perm.swap (codes "/download/g", other_info) (codes "/download/f", file_info) [])
      (refl, (refl, tt), (refl, tt, tt)) refl (other_info-IsStorable, (file_info-IsStorable, tt))
      other_way-IsStored

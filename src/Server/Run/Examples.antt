-- ===== src/Server/Run/Examples.antt =====
-- A run of the server of src/server/main.cpp with one upload, and the start after it.
use async_log_cloud_storage.Base.{
  ◌≡◌, refl, List, [], ◌∷◌, Outcome, ok, fail, inl, arith, codes, text_eq, c_str, contains,
  starts_with, after_last,
}
use async_log_cloud_storage.Json.Example.{example_json, example_json-laws, encode}
use async_log_cloud_storage.Server.Url.{url_decode}
use async_log_cloud_storage.Server.Files.{
  exists, written, written_node, find_node, set_node, create_directory, set_content, file_name,
  file_size, last_access_time, last_modify_time,
}
use async_log_cloud_storage.Server.JsonUtil.{serialize}
use async_log_cloud_storage.Server.Data.{
  DataManager, new_storage_info, assign_info, insert, storage_body, get_all, append_infos,
  info_value, new_data_manager,
}
use async_log_cloud_storage.Server.Service.{
  Request, Response, Server, storage_dir, write_upload, record_upload, store_upload, upload_into,
  upload_named, upload_content, upload, gen_handler,
}
use async_log_cloud_storage.Server.Examples.{
  open_disk, small_world, small_config, empty_server, post,
}
use async_log_cloud_storage.Server.Run.{handle, dispatch}
use async_log_cloud_storage.Server.Run.Catalogue.{Moves, view, dispatch-Moves}
use async_log_cloud_storage.Server.Run.Restart.{KeepsTable, IsDurable, IsKeepable}
use async_log_cloud_storage.Server.Run.Continue.{found_by, next_start-Moves}

abbrev an_upload : Request
an_upload = post (codes "f") (codes "low") (codes "abc")

-- `dispatch` of the small server, with all that its runs compute through.
run_small : List Request → Server → Outcome (List Response × Server)
unfolding dispatch handle gen_handler url_decode contains starts_with text_eq upload upload_content
    upload_named storage_dir upload_into create_directory exists find_node store_upload write_upload
    set_content written set_node record_upload new_storage_info insert storage_body
run_small reqs s = dispatch small_world reqs s

abbrev first_run : Outcome (List Response × Server)
first_run = dispatch small_world (an_upload ∷ []) empty_server

abbrev first_responses : List Response
first_responses = elim first_run [ ok q ↦ q.0 | fail e ↦ [] ]

abbrev first_server : Server
first_server = elim first_run [ ok q ↦ q.1 | fail e ↦ empty_server ]

first_ran : dispatch small_world (an_upload ∷ []) empty_server ≡ ok (first_responses, first_server)
unfolding run_small
first_ran = refl

dispatch-Moves_example :
    Moves
      (codes "/download/")
      (an_upload ∷ [])
      first_responses
      (view empty_server)
      (view first_server)
unfolding starts_with
dispatch-Moves_example =
    dispatch-Moves small_world refl refl (an_upload ∷ []) empty_server first_responses first_server
      first_ran

table_kept : KeepsTable small_world
table_kept = record { can_write = refl; can_read = refl; whole = λ n. refl }

empty_server-IsDurable : IsDurable small_world empty_server
unfolding find_node text_eq
empty_server-IsDurable = record {
  at_file = refl;
  persists = refl;
  keyed = tt;
  on_disk = inl (refl, refl);
}

first_server-IsKeepable : IsKeepable small_world first_server
unfolding run_small serialize get_all append_infos info_value encode assign_info c_str file_name
    after_last file_size last_access_time last_modify_time written_node
first_server-IsKeepable = record {
  storable = (
    record {
      mtime_fits = inl (omega arith);
      atime_fits = inl (omega arith);
      fsize_fits = inl (omega arith);
      path_clean = refl;
      url_clean = refl;
    },
    tt,
  );
  written = refl;
  small = omega arith;
}

next_start-Moves_example :
    (m : DataManager) × (new_data_manager example_json open_disk small_config first_server.files
      ≡ ok (m, first_server.files))
    × Moves (codes "/download/") (an_upload ∷ []) first_responses (view empty_server) (found_by m)
unfolding starts_with
next_start-Moves_example =
    next_start-Moves small_world refl refl table_kept example_json-laws (an_upload ∷ [])
      empty_server first_responses first_server empty_server-IsDurable first_ran
      first_server-IsKeepable

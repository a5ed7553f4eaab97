-- ===== src/Server/Examples.antt =====
-- A small server to run the definitions of src/server on.
mod Tables
mod Locks
mod Orders
mod Requests
use mathlib.Core.Option.{some-injective}
use async_log_cloud_storage.Base.{
  ℕ, ◌+◌, true, false, [], ◌∷◌, Text, codes, Option, none, some, ok, length, ◌==◌, if◌then◌else◌,
  refl, ◌≡◌, arith,
}
use async_log_cloud_storage.Json.Example.{example_json}
use async_log_cloud_storage.Server.Zstd.{
  Zstd, ZstdLaws, FrameSize, size_error, size_unknown, size_known,
}
use async_log_cloud_storage.Server.Files.{Node, file, directory, Files, Disk}
use async_log_cloud_storage.Server.Config.{Config}
use async_log_cloud_storage.Server.Data.{StorageInfo, DataManager}
use async_log_cloud_storage.Server.Service.{World, Server, Request}

abbrev pub open_disk : Disk
open_disk = record {
  can_write = λ p. true;
  can_read = λ p. true;
  writes = λ p n. n;
  can_create = λ p. true;
  directory_size = 4096;
}

-- The content behind one code.
abbrev pub tagged_zstd : Zstd
tagged_zstd = record {
  compress = λ c. some (1 ∷ c);
  frame_content_size = λ p. elim p [ [] ↦ size_error | x ∷ c ↦ size_known (length c) ];
  decompress = λ p n. elim p [ [] ↦ none | x ∷ c ↦ some c ];
}

pub tagged_zstd-laws : ZstdLaws tagged_zstd
tagged_zstd-laws = record {
  compress-ne_nil = λ c p e. ground arith;
  frame_content_size-compress = λ c p e. rw (← some-injective _ _ e) refl;
  decompress-compress = λ c p e. rw (← some-injective _ _ e) refl;
}

abbrev pub small_config : Config
small_config = record {
  server_port = 8081;
  server_ip = codes "127.0.0.1";
  download_prefix = codes "/download/";
  deep_storage_dir = codes "./deep_storage/";
  low_storage_dir = codes "./low_storage/";
  storage_info = codes "./storage.data";
}

abbrev pub small_world : World
small_world = record {
  json = example_json;
  disk = open_disk;
  zstd = tagged_zstd;
  config = small_config;
  base64_decode = λ s. ok s;
  copies_out = λ s. true;
  add_file = λ n. elim n [ file c a m ↦ some c | directory ↦ none ];
  ctime = λ t. some (codes "Thu Jan  1 00:00:00 1970\n");
  open_error = codes "Permission denied";
  stray = (0, 0, 0);
}

abbrev pub empty_server : Server
empty_server = record {
  files = record { nodes = (codes "./low_storage/", directory) ∷ []; now = 7 };
  manager = record { storage_file = codes "./storage.data"; table = []; need_persist = true };
}

abbrev pub file_info : StorageInfo
file_info = record {
  mtime = 5;
  atime = 6;
  fsize = 3;
  storage_path = codes "./deep_storage/f";
  url = codes "/download/f";
}

abbrev pub full_server : Server
full_server = record {
  files = record {
    nodes =
        (codes "./low_storage/", directory)
        ∷ (codes "./deep_storage/f", file (1 ∷ codes "abc") 5 6)
        ∷ [];
    now = 7;
  };
  manager = record {
    storage_file = codes "./storage.data";
    table = (codes "/download/f", file_info) ∷ [];
    need_persist = true;
  };
}

abbrev pub get : Text → Request
get path = record {
  path = path;
  body = none;
  file_name_header = none;
  storage_type_header = none;
  if_range_header = none;
}

abbrev pub post : Text → Text → Text → Request
post name kind content = record {
  path = codes "/upload";
  body = some content;
  file_name_header = some name;
  storage_type_header = some kind;
  if_range_header = none;
}

-- ===== src/Server/Config.antt =====
-- `storage::Config` of src/server/Config.hpp. The getters are the fields, and the singleton is the one
-- value of `Config` that the rest of the server takes.
pub mod Missing
use async_log_cloud_storage.Base.{ℕ, [], Text, codes, Option, none, some, Outcome, ok, ◌>>=◌}
use async_log_cloud_storage.Json.{Json}
use async_log_cloud_storage.Server.Files.{Files, Disk, get_content}
use async_log_cloud_storage.Server.JsonUtil.{unserialize}

pub record Config : Type 0 where
  pub server_port : ℕ
  pub server_ip : Text
  pub download_prefix : Text
  pub deep_storage_dir : Text
  pub low_storage_dir : Text
  pub storage_info : Text

abbrev pub config_file : Text
config_file = codes "Storage.conf"

-- The fields before they are read: the port is what the memory holds, the texts are empty.
abbrev pub unread : ℕ → Config
unread port = record {
  server_port = port;
  server_ip = [];
  download_prefix = [];
  deep_storage_dir = [];
  low_storage_dir = [];
  storage_info = [];
}

module _ (j : Json) (d : Disk) where
  -- `none` is the result false, with the fields as they were.
  unfoldable pub read_config : Files → Outcome (Option Config)
  read_config fs = do
    content ← get_content d config_file fs
    elim content [
      | none ↦ ok none
      | some text ↦
          let root = (unserialize j text).1 in
          (do
            port ← j.as_int (j.member root (codes "server_port"))
            ip ← j.as_string (j.member root (codes "server_ip"))
            prefix ← j.as_string (j.member root (codes "download_prefix"))
            info ← j.as_string (j.member root (codes "storage_info"))
            deep ← j.as_string (j.member root (codes "deep_storage_dir"))
            low ← j.as_string (j.member root (codes "low_storage_dir"))
            ok (
                some (record {
                  server_port = port;
                  server_ip = ip;
                  download_prefix = prefix;
                  deep_storage_dir = deep;
                  low_storage_dir = low;
                  storage_info = info;
                })))
    ]

  -- The constructor, with the port before it is read: a false result is only logged.
  unfoldable pub new_config : ℕ → Files → Outcome Config
  new_config port fs = do done ← read_config fs; ok (elim done [ none ↦ unread port | some c ↦ c ])

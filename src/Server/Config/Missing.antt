-- ===== src/Server/Config/Missing.antt =====
-- The server of src/server without its file Storage.conf: the constructor of `Config` leaves the texts empty,
-- and `Upload` makes a directory by the empty path.
mod Examples
use async_log_cloud_storage.Base.{ℕ, ◌≡◌, refl, Text, none, ok, arith}
use async_log_cloud_storage.Server.Files.{Files, find_node, file_size, get_content, get_pos_len}
use async_log_cloud_storage.Server.Config.{Config, config_file, unread, read_config, new_config}
use async_log_cloud_storage.Server.World.{Server, World}

module _ (w : World) where
  open w use {json, disk, base64_decode, copies_out}

  -- The same world once the configuration is made.
  abbrev pub configured : Config → World
  configured c = record w { config = c }

  get_content-missing :
      (p : Text) (fs : Files) → find_node p fs.nodes ≡ none → get_content disk p fs ≡ ok none
  unfolding get_content get_pos_len file_size
  get_content-missing p fs e = ground arith

  pub new_config-missing :
      (port : ℕ) (fs : Files)
      → find_node config_file fs.nodes ≡ none
      → new_config json disk port fs ≡ ok (unread port)
  unfolding new_config read_config
  new_config-missing port fs e = rw (get_content-missing config_file fs e) refl

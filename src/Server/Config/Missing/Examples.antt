-- ===== src/Server/Config/Missing/Examples.antt =====
-- An upload to the server of src/server without its file Storage.conf.
use async_log_cloud_storage.Base.{true, not, [], ◌==◌, length}
use async_log_cloud_storage.Server.Files.{Files, Disk}
use async_log_cloud_storage.Server.World.{Server, World}
use async_log_cloud_storage.Server.Examples.{open_disk, small_world}

-- A system that makes no directory by the empty path.
abbrev strict_disk : Disk
strict_disk = record open_disk { can_create = λ p. not (length p == 0) }

abbrev strict_world : World
strict_world = record small_world { disk = strict_disk }

abbrev bare_files : Files
bare_files = record { nodes = []; now = 7 }

abbrev bare_server : Server
bare_server = record {
  files = bare_files;
  manager = record { storage_file = []; table = []; need_persist = true };
}

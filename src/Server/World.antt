-- ===== src/Server/World.antt =====
-- What the handlers of src/server/Service.hpp read and put out, and what the server runs on: the system,
-- JsonCpp, zstd and the vendored base64 are parameters.
use async_log_cloud_storage.Base.{ℕ, List, [], ◌∷◌, ◌++◌, Bool, Text, Option, Outcome}
use async_log_cloud_storage.Json.{Json}
use async_log_cloud_storage.Server.Zstd.{Zstd}
use async_log_cloud_storage.Server.Files.{Node, Files, Disk}
use async_log_cloud_storage.Server.Config.{Config}
use async_log_cloud_storage.Server.Data.{DataManager}

-- The part of an `evhttp_request` that the handlers read.
pub record Request : Type 0 where
  -- The path of the URI, as it was sent.
  pub path : Text
  -- The input buffer; `none` if there is no buffer.
  pub body : Option Text
  pub file_name_header : Option Text
  pub storage_type_header : Option Text
  pub if_range_header : Option Text

-- A call of `evhttp_send_reply`.
pub record Reply : Type 0 where
  pub code : ℕ
  pub reason : Option Text

-- What the handlers put out: the replies in order, the headers and the output buffer.
pub record Response : Type 0 where
  pub replies : List Reply
  pub headers : List (Text × Text)
  pub output : Text

abbrev pub no_response : Response
no_response = record { replies = []; headers = []; output = [] }

unfoldable pub send_reply : ℕ → Option Text → Response → Response
send_reply code reason r = record r {
  replies = r.replies ++ record { code = code; reason = reason } ∷ [];
}

unfoldable pub add_header : Text → Text → Response → Response
add_header name value r = record r { headers = r.headers ++ (name, value) ∷ [] }

pub record Server : Type 0 where
  pub files : Files
  pub manager : DataManager

-- What the server runs on.
pub record World : Type 1 where
  pub json : Json
  pub disk : Disk
  pub zstd : Zstd
  pub config : Config
  -- `base64_decode`, which may throw.
  pub base64_decode : Text → Outcome Text
  -- Whether `evbuffer_copyout` succeeds on a body.
  pub copies_out : Text → Bool
  -- What `evbuffer_add_file` puts into the output buffer of an open file; `none` for -1.
  pub add_file : Node → Option Text
  -- `strerror(errno)` after a failed `open`.
  pub open_error : Text
  -- `ctime` of a time by its 64-bit pattern; `none` for a null pointer.
  pub ctime : ℕ → Option Text
  -- The values of the members of a `StorageInfo` that nothing initialised.
  pub stray : ℕ × ℕ × ℕ

abbrev pub http_ok : ℕ
http_ok = 200

abbrev pub http_bad_request : ℕ
http_bad_request = 400

abbrev pub http_not_found : ℕ
http_not_found = 404

abbrev pub http_internal : ℕ
http_internal = 500

abbrev pub Handled : Type 0
Handled = Outcome (Response × Server)

-- ===== src/Log/Util.antt =====
-- `File`, and `Serialize` of `JsonUtil`, of log_system/log_src/Util.hpp. How the file system answers is a
-- parameter.
pub mod Parent
use async_log_cloud_storage.Base.{
  ℕ, ◌+◌, ◌-◌, ◌^◌, ◌≡◌, ◌≢◌, refl, Bool, true, false, not, ◌&&◌, ◌||◌, List, [], ◌∷◌, ◌++◌, ◌==◌,
  ltb, if◌then◌else◌, Text, Option, none, some, arith,
}
use async_log_cloud_storage.Json.{Json}

pub record Paths : Type 0 where
  pub exists : Text → Bool
  -- What `create_directories` returns; `none` if it sets the error code.
  pub creates : Text → Option Bool
  -- `file_size`; `none` if it sets the error code.
  pub size : Text → Option ℕ

-- The text before the last slash.
unfoldable pub before_last_slash : Text → Option Text
before_last_slash [] = none
before_last_slash (c ∷ s) = elim (before_last_slash s) [
  | some t ↦ some (c ∷ t)
  | none ↦ if c == b'/' then some [] else none
]

unfoldable pub all_slashes : Text → Bool
all_slashes [] = true
all_slashes (c ∷ s) = c == b'/' && all_slashes s

-- Without the slashes at the end.
unfoldable pub strip_slashes : Text → Text
strip_slashes [] = []
strip_slashes (c ∷ s) =
    let rest = strip_slashes s in if all_slashes s && c == b'/' then [] else c ∷ rest

-- `Path`: `parent_path` of a path. The slashes in front are the root directory, which stays.
unfoldable pub path : Text → Text
path p = elim (before_last_slash p) [
  | none ↦ []
  | some q ↦ if all_slashes p then p else if all_slashes q then q ++ b'/' ∷ [] else strip_slashes q
]

module _ (fs : Paths) where
  unfoldable pub exists : Text → Bool
  exists p = fs.exists p

  -- The result is an int64_t by its pattern: -1 for a failure and for a size that it does not hold.
  unfoldable pub file_size : Text → ℕ
  file_size p = elim (fs.size p) [
    | none ↦ 2 ^ 64 - 1
    | some n ↦ if ltb (2 ^ 63 - 1) n then 2 ^ 64 - 1 else n
  ]

  unfoldable pub create_directory : Text → Bool
  create_directory [] = false
  create_directory (c ∷ p) =
      if fs.exists (c ∷ p)
      then true
      else elim (fs.creates (c ∷ p)) [ none ↦ false | some made ↦ made ]

-- `Serialize`, with the text as it was.
unfoldable pub serialize : (j : Json) → j.Value → Text → Bool × Text
serialize j v str = elim (j.write v) [ none ↦ (false, str) | some s ↦ (true, s) ]

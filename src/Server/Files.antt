-- ===== src/Server/Files.antt =====
-- `storage::FileUtil` of src/server/Util.hpp, over a file system that is a parameter.
pub mod Laws
pub mod Stored
use async_log_cloud_storage.Base.{
  ℕ, ◌+◌, ◌-◌, ◌^◌, ◌≤◌, ◌≡◌, Bool, true, false, not, ◌&&◌, ◌||◌, List, [], ◌∷◌, length, take, drop,
  ltb, leb, ◌==◌, if◌then◌else◌, Text, text_eq, starts_with, after_last, ◌%◌, Option, none, some,
  Outcome, ok, fail, length_error, filesystem_error, ◌>>=◌,
}
use async_log_cloud_storage.Server.Zstd.{Zstd, string_max, pack, unpack}

-- What a path names. Paths are told apart by their text: `a` and `./a` are two paths.
pub data Node : Type 0 where
  file : (content : Text) (atime mtime : ℕ) → Node
  directory : Node

pub record Files : Type 0 where
  pub nodes : List (Text × Node)
  -- The clock.
  pub now : ℕ

-- How the system answers the calls that may fail.
pub record Disk : Type 0 where
  pub can_write : Text → Bool
  pub can_read : Text → Bool
  -- How many of so many bytes a write puts into the file.
  pub writes : Text → ℕ → ℕ
  pub can_create : Text → Bool
  pub directory_size : ℕ

unfoldable pub find_node : Text → List (Text × Node) → Option Node
find_node p [] = none
find_node p ((q, n) ∷ nodes) = if text_eq q p then some n else find_node p nodes

unfoldable pub set_node : Text → Node → List (Text × Node) → List (Text × Node)
set_node p n [] = (p, n) ∷ []
set_node p n ((q, m) ∷ nodes) = if text_eq q p then (q, n) ∷ nodes else (q, m) ∷ set_node p n nodes

unfoldable pub remove_node : Text → List (Text × Node) → List (Text × Node)
remove_node p [] = []
remove_node p ((q, m) ∷ nodes) =
    let rest = remove_node p nodes in if text_eq q p then rest else (q, m) ∷ rest

-- -1 as a 64-bit pattern.
abbrev pub minus_one : ℕ
minus_one = 2 ^ 64 - 1

unfoldable pub exists : Text → Files → Bool
exists p fs = elim (find_node p fs.nodes) [ none ↦ false | some _ ↦ true ]

-- The text behind the last slash.
unfoldable pub file_name : Text → Text
file_name p = elim (after_last b'/' p) [ none ↦ p | some name ↦ name ]

unfoldable pub last_access_time : Text → Files → ℕ
last_access_time p fs = elim (find_node p fs.nodes) [
  | none ↦ minus_one
  | some (file content atime mtime) ↦ atime
  | some directory ↦ fs.now
]

unfoldable pub last_modify_time : Text → Files → ℕ
last_modify_time p fs = elim (find_node p fs.nodes) [
  | none ↦ minus_one
  | some (file content atime mtime) ↦ mtime
  | some directory ↦ fs.now
]

module _ (d : Disk) where
  -- The result is an int64_t, by its pattern.
  unfoldable pub file_size : Text → Files → ℕ
  file_size p fs = elim (find_node p fs.nodes) [
    | none ↦ minus_one
    | some (file content atime mtime) ↦ length content
    | some directory ↦ d.directory_size
  ]

  -- What is read of `len` bytes from `pos` on, once the file is open.
  unfoldable pub read_at : ℕ → ℕ → Node → Outcome (Option Text)
  read_at pos len directory = if ltb string_max len then fail length_error else ok none
  read_at pos len (file content atime mtime) =
      if ltb string_max len
      then fail length_error
      else if leb (pos + len) (length content)
      then ok (some (take len (drop pos content)))
      else ok none

  -- `some` is the content of a call that returns true.
  unfoldable pub get_pos_len : ℕ → ℕ → Text → Files → Outcome (Option Text)
  unfolding file_size read_at
  get_pos_len pos len p fs =
      if ltb (file_size p fs) ((pos + len) % 2 ^ 64) then ok none else elim (find_node p fs.nodes) [
        | none ↦ ok none
        | some n ↦ if d.can_read p then read_at pos len n else ok none
      ]

  unfoldable pub get_content : Text → Files → Outcome (Option Text)
  unfolding get_pos_len
  get_content p fs = get_pos_len 0 (file_size p fs) p fs

  -- The file of `p` with this content, as the open with truncation and the write leave it.
  unfoldable pub written_node : Text → Text → Files → Node
  written_node p content fs =
      file (take (d.writes p (length content)) content)
        (elim (find_node p fs.nodes) [ some (file c atime mtime) ↦ atime | _ ↦ fs.now ]) fs.now

  unfoldable pub written : Text → Text → Files → Files
  written content p fs = record fs { nodes = set_node p (written_node p content fs) fs.nodes }

  -- A write that stops short is logged, and true is returned all the same.
  unfoldable pub set_content : Text → Text → Files → Bool × Files
  set_content content p fs = elim (find_node p fs.nodes) [
    | some directory ↦ (false, fs)
    | _ ↦ if d.can_write p then (true, written content p fs) else (false, fs)
  ]

  unfoldable pub compress : Zstd → Text → Text → Files → Bool × Files
  compress z content p fs =
      let packed = pack z content in
      if length packed == 0 then (false, fs) else set_content packed p fs

  unfoldable pub uncompress : Zstd → Text → Text → Files → Outcome (Bool × Files)
  uncompress z download_path p fs = do
    body ← get_content p fs
    elim body [
      | none ↦ ok (false, fs)
      | some bytes ↦ unpack z bytes >>= λ unpacked. ok (set_content unpacked download_path fs)
    ]

  unfoldable pub create_directory : Text → Files → Outcome (Bool × Files)
  create_directory p fs =
      if exists p fs
      then ok (true, fs)
      else if d.can_create p
      then ok (true, record fs { nodes = set_node p directory fs.nodes })
      else fail filesystem_error

-- `remove(path)` of the C library; a directory is removed like `rmdir` does when it is empty.
abbrev pub is_under : Text → Text → Bool
is_under p q = starts_with p q && not (text_eq p q)

unfoldable pub any_under : Text → List (Text × Node) → Bool
any_under p [] = false
any_under p ((q, n) ∷ nodes) = is_under p q || any_under p nodes

unfoldable pub remove_path : Text → Files → Files
remove_path p fs = elim (find_node p fs.nodes) [
  | none ↦ fs
  | some directory ↦
      if any_under p fs.nodes then fs else record fs { nodes = remove_node p fs.nodes }
  | some (file c a m) ↦ record fs { nodes = remove_node p fs.nodes }
]

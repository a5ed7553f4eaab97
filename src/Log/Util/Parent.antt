-- ===== src/Log/Util/Parent.antt =====
-- The directory that `Path` of log_system/log_src/Util.hpp finds for a file.
use async_log_cloud_storage.Base.{◌≡◌, ◌≢◌, refl, false, [], ◌∷◌, ◌++◌, Text, none, some, arith}
use async_log_cloud_storage.Log.Util.{before_last_slash, all_slashes, strip_slashes, path}

before_last_slash-append :
    (dir name : Text)
    → before_last_slash name ≡ none
    → before_last_slash (dir ++ b'/' ∷ name) ≡ some dir
unfolding before_last_slash
before_last_slash-append [] name plain = rw (plain, before_last_slash) refl
before_last_slash-append (c ∷ dir) name plain = rw (before_last_slash-append dir name plain) refl

all_slashes-append : (dir rest : Text) → all_slashes dir ≡ false → all_slashes (dir ++ rest) ≡ false
unfolding all_slashes
all_slashes-append [] rest e = absurd (ground arith)
all_slashes-append (c ∷ dir) rest e = ground (arith, all_slashes-append dir rest)

strip_slashes-not_all : (dir : Text) → strip_slashes dir ≡ dir → dir ≢ [] → all_slashes dir ≡ false
unfolding all_slashes strip_slashes
strip_slashes-not_all [] e some_dir = absurd (some_dir refl)
strip_slashes-not_all (c ∷ dir) e some_dir = ground arith

-- The directory of a file in it, where the directory's name does not end in a slash.
pub path-append :
    (dir name : Text)
    → strip_slashes dir ≡ dir
    → dir ≢ []
    → before_last_slash name ≡ none
    → path (dir ++ b'/' ∷ name) ≡ dir
unfolding path
path-append dir name clean some_dir plain =
    let away = strip_slashes-not_all dir clean some_dir in
    rw
      (
        before_last_slash-append dir name plain,
        all_slashes-append dir (b'/' ∷ name) away,
        away,
        path,
      )
      clean

-- ===== src/Server/Page/Examples.antt =====
-- The page of a server with one file, and sizes as it shows them.
use async_log_cloud_storage.Base.{
  ℕ, ◌^◌, ◌-◌, fail, text_eq, ◌≡◌, refl, Bool, true, not, ◌&&◌, [], ◌∷◌, ◌++◌, ◌==◌, Text, codes,
  starts_with, contains, after_last, to_string, to_string_signed, none, ok, arith,
}
use async_log_cloud_storage.Server.Files.{file, find_node, file_name}
use async_log_cloud_storage.Server.Data.{get_all}
use async_log_cloud_storage.Server.Service.{Server}
use async_log_cloud_storage.Server.Examples.{small_world, file_info, get}
use async_log_cloud_storage.Server.Page.Format.{regex_replace, replace_from}
use async_log_cloud_storage.Server.Page.Size.{
  format_size, format_size-IsNearest, fixed_2, unit_name, IsUnitOf, IsNearest,
}
use async_log_cloud_storage.Server.Page.Replace.{Avoids, Clear}
use async_log_cloud_storage.Server.Page.Shown.{list_show-page}
use async_log_cloud_storage.Server.Page.{
  file_list_mark, backend_url_mark, generate_modern_file_list, file_items, file_item, read_template,
  backend_url, list_show,
}

-- The two predicates as tests.
avoids : ℕ → Text → Bool
avoids c [] = true
avoids c (x ∷ s) = not (x == c) && avoids c s

is_clear : Text → Text → Text → Bool
is_clear needle [] rest = true
is_clear needle (c ∷ a) rest = not (starts_with needle (c ∷ (a ++ rest))) && is_clear needle a rest

avoids-Avoids : (c : ℕ) (s : Text) → avoids c s ≡ true → Avoids c s
unfolding avoids
avoids-Avoids c [] h = tt
avoids-Avoids c (x ∷ s) h = ground (arith, avoids-Avoids c s)

is_clear-Clear : (needle a rest : Text) → is_clear needle a rest ≡ true → Clear needle a rest
unfolding is_clear
is_clear-Clear needle [] rest h = tt
is_clear-Clear needle (c ∷ a) rest h = ground (arith, is_clear-Clear needle a rest)

shown_in_kilobytes : format_size 1536 ≡ codes "1.50 KB"
unfolding format_size to_string
shown_in_kilobytes = refl

shown_above_its_unit : format_size 1048575 ≡ codes "1024.00 KB"
unfolding format_size to_string
shown_above_its_unit = refl

shown_at_most : format_size (2 ^ 64 - 1) ≡ codes "17179869184.00 GB"
unfolding format_size to_string
shown_at_most = refl

-- A `$&` in the list puts the placeholder back.
dollar_shows_placeholder :
    regex_replace file_list_mark (codes "$&.txt") (codes "<{{FILE_LIST}}>")
    ≡ codes "<{{FILE_LIST}}.txt>"
unfolding regex_replace replace_from starts_with
dollar_shows_placeholder = refl

format_size-IsNearest_example :
    (i h : ℕ) × (format_size 1536 ≡ fixed_2 h ++ (codes " " ++ unit_name i))
    × IsUnitOf 1536 i
    × IsNearest 1536 i h
format_size-IsNearest_example = format_size-IsNearest 1536 (omega arith)

abbrev page_server : Server
page_server = record {
  files = record {
    nodes = (codes "index.html", file (codes "<{{FILE_LIST}}'{{BACKEND_URL}}'>") 1 2) ∷ [];
    now = 7;
  };
  manager = record {
    storage_file = codes "./storage.data";
    table = (codes "/download/f", file_info) ∷ [];
    need_persist = true;
  };
}

-- What the list of that file is made.
abbrev one_file_list : Text
one_file_list = elim (generate_modern_file_list small_world (get_all page_server.manager)) [
  | ok list ↦ list
  | fail e ↦ []
]

list_show-page_example :
    list_show small_world (get (codes "/")) page_server
    ≡ ok (
      record {
        replies = record { code = 200; reason = none } ∷ [];
        headers = (codes "Content-Type", codes "text/html;charset=utf-8") ∷ [];
        output =
            codes "<" ++ (one_file_list ++ (codes "'" ++ (backend_url small_world ++ codes "'>")));
      },
      page_server,
    )
unfolding starts_with avoids is_clear read_template generate_modern_file_list file_items file_item
    get_all find_node text_eq contains file_name after_last to_string backend_url to_string_signed
    format_size
list_show-page_example =
    list_show-page small_world (get (codes "/")) page_server (codes "<") (codes "'") (codes "'>")
      one_file_list refl refl
      (is_clear-Clear file_list_mark (codes "<")
        (file_list_mark ++ (codes "'" ++ (backend_url_mark ++ codes "'>"))) refl)
      (is_clear-Clear file_list_mark (codes "'" ++ (backend_url_mark ++ codes "'>")) [] refl)
      (avoids-Avoids b'$' one_file_list refl)
      (is_clear-Clear backend_url_mark (codes "<" ++ (one_file_list ++ codes "'"))
        (backend_url_mark ++ codes "'>") refl)
      (is_clear-Clear backend_url_mark (codes "'>") [] refl)
      (avoids-Avoids b'$' (backend_url small_world) refl)

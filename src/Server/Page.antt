-- ===== src/Server/Page.antt =====
-- The page of `ListShow` of src/server/Service.hpp.
pub mod Format
pub mod Size
pub mod Replace
pub mod Shown
mod Examples
use async_log_cloud_storage.Base.{
  ℕ, ◌++◌, List, [], ◌∷◌, if◌then◌else◌, Text, codes, utf8, contains, to_string_signed, Option,
  none, some, Outcome, ok, fail, null_pointer, ios_failure, ◌>>=◌,
}
use async_log_cloud_storage.Server.Files.{file, directory, Files, find_node, file_name}
use async_log_cloud_storage.Server.Data.{StorageInfo, get_all}
use async_log_cloud_storage.Server.Service.{
  Request, Response, Server, World, Handled, no_response, send_reply, add_header, http_ok,
}
use Format.{regex_replace}
use Size.{format_size}

-- Code points are put out in UTF-8, as the compiler stores the literals.
unfoldable pub storage_label : Text → Text
unfolding utf8
storage_label storage_path =
    if contains (codes "deep") storage_path then utf8 "深度存储" else utf8 "普通存储"

unfoldable pub file_list_begin : Text
unfolding utf8
file_list_begin = utf8 "<div class='file-list'><h3>已上传文件</h3>"

-- The character U+FE0F, in UTF-8.
abbrev pub variation_selector : Text
variation_selector = 0xef ∷ 0xb8 ∷ 0x8f ∷ []

-- The placeholders of the template.
abbrev pub file_list_mark : Text
file_list_mark = codes "{{FILE_LIST}}"

abbrev pub backend_url_mark : Text
backend_url_mark = codes "{{BACKEND_URL}}"

module _ (w : World) where
  open w use {disk, config, ctime}

  -- A string is made of what `ctime` gives, a null pointer included.
  unfoldable pub timeto_str : ℕ → Outcome Text
  timeto_str t = elim (ctime t) [ none ↦ fail null_pointer | some text ↦ ok text ]

  -- What the loop puts out for a file.
  unfoldable pub file_item : StorageInfo → Outcome Text
  unfolding timeto_str storage_label utf8
  file_item f = do
    time ← timeto_str f.mtime
    ok (
        codes "<div class='file-item'>"
        ++ (codes "<div class='file-info'>"
            ++ (utf8 "<span>📄"
                ++ (file_name f.storage_path
                    ++ (codes "</span>"
                        ++ (codes "<span class='file-type'>"
                            ++ (storage_label f.storage_path
                                ++ (codes "</span>"
                                    ++ (codes "<span>"
                                        ++ (format_size f.fsize
                                            ++ (codes "</span>"
                                                ++ (codes "<span>"
                                                    ++ (time
                                                        ++ (codes "</span>"
                                                            ++ (codes "</div>"
                                                            ++ (codes
                                                            "<button onclick=\"window.location='"
                                                            ++ (f.url
                                                            ++ (utf8 "'\">⬇"
                                                            ++ (variation_selector
                                                            ++ (utf8 " 下载</button>"
                                                            ++ codes "</div>"))))))))))))))))))))

  unfoldable pub file_items : List StorageInfo → Outcome Text
  file_items [] = ok []
  file_items (f ∷ files) = do item ← file_item f; items ← file_items files; ok (item ++ items)

  unfoldable pub generate_modern_file_list : List StorageInfo → Outcome Text
  unfolding file_list_begin
  generate_modern_file_list files = do
    items ← file_items files
    ok (file_list_begin ++ (items ++ codes "</div>"))

  -- The whole of index.html, or nothing if it cannot be opened.
  unfoldable pub read_template : Files → Outcome Text
  read_template fs = elim (find_node (codes "index.html") fs.nodes) [
    | none ↦ ok []
    | some n ↦
        if disk.can_read (codes "index.html")
        then elim n [ file content atime mtime ↦ ok content | directory ↦ fail ios_failure ]
        else ok []
  ]

  unfoldable pub backend_url : Text
  backend_url =
      codes "http://" ++ (config.server_ip ++ (codes ":" ++ to_string_signed config.server_port))

  unfoldable pub list_show : Request → Server → Handled
  list_show req s = do
    template ← read_template s.files
    list ← generate_modern_file_list (get_all s.manager)
    let listed = regex_replace file_list_mark list template
    let body = regex_replace backend_url_mark backend_url listed
    let filled : Response = record no_response { output = body }
    ok (
      send_reply http_ok none
          (add_header (codes "Content-Type") (codes "text/html;charset=utf-8") filled),
      s,
    )

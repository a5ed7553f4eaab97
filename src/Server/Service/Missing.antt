-- ===== src/Server/Service/Missing.antt =====
-- `Download` of src/server/Service.hpp where there is nothing to send.
use async_log_cloud_storage.Base.{
  ◌≡◌, refl, ap, ◌∙◌, true, false, [], ◌∷◌, ◌++◌, append-nil, if◌then◌else◌, Text, codes, contains,
  after_last, none, ok, arith,
}
use async_log_cloud_storage.Server.Url.{url_decode}
use async_log_cloud_storage.Server.Files.{
  Files, find_node, exists, file_name, create_directory, get_content, uncompress,
}
use async_log_cloud_storage.Server.Data.{StorageInfo, DataManager, get_one_by_url}
use async_log_cloud_storage.Server.Service.{
  Request, Response, Server, World, send_reply, add_header, wants_rest, info_or_stray, stray_info,
  prepare_download, reply_missing, send_file, finish_download, download,
}
use async_log_cloud_storage.Server.Service.Replies.{reply_codes}

module _ (w : World) where
  -- The steps of a download, put together.
  pub download-steps :
      (req : Request) (s : Server) (url path : Text) (fs : Files)
      → url_decode req.path ≡ ok url
      → prepare_download w (info_or_stray w url s.manager) s.files ≡ ok (path, fs)
      → download w req s
        ≡ ok (
          (finish_download w req (info_or_stray w url s.manager) path fs).0,
          record s { files = (finish_download w req (info_or_stray w url s.manager) path fs).1 },
        )
  unfolding download
  download-steps req s url path fs decoded prepared = rw decoded (rw prepared refl)

  missing-replies :
      (req : Request) (info : StorageInfo) (path : Text) (fs : Files)
      → find_node path fs.nodes ≡ none
      → (reply_codes (finish_download w req info path fs).0 ≡ (
          if contains (codes "deep_storage") info.storage_path
          then 500 ∷ 404 ∷ []
          else if contains (codes "low_storage") info.storage_path
          then 404 ∷ []
          else 400 ∷ 404 ∷ []))
        × ((finish_download w req info path fs).1 ≡ fs)
  unfolding finish_download reply_missing send_reply exists
  missing-replies req info path fs e = ground (arith, e)

  -- A download whose file is not there, packed or plain, replies 404; before that it has replied 500 to
  -- the same request for a path with "deep_storage" in it, and 400 for one with neither
  -- "deep_storage" nor "low_storage".
  pub download-missing :
      (req : Request) (s : Server) (url path : Text) (fs : Files)
      → url_decode req.path ≡ ok url
      → prepare_download w (info_or_stray w url s.manager) s.files ≡ ok (path, fs)
      → find_node path fs.nodes ≡ none
      → (r : Response) × (download w req s ≡ ok (r, record s { files = fs }))
        × (reply_codes r ≡ (
            if contains (codes "deep_storage") (info_or_stray w url s.manager).storage_path
            then 500 ∷ 404 ∷ []
            else if contains (codes "low_storage") (info_or_stray w url s.manager).storage_path
            then 404 ∷ []
            else 400 ∷ 404 ∷ []))
  download-missing req s url path fs decoded prepared e =
      let info = info_or_stray w url s.manager in
      let (codes_of, same) = missing-replies req info path fs e in
      (
        (finish_download w req info path fs).0,
        download-steps req s url path fs decoded prepared
            ∙ ap
                (λ (t : Files). ok ((finish_download w req info path fs).0, record s { files = t }))
                same,
        codes_of,
      )

  -- The empty path is read without a failure and without a content.
  uncompress-empty_path :
      (path : Text) (fs : Files)
      → find_node [] fs.nodes ≡ none
      → uncompress w.disk w.zstd path [] fs ≡ ok (false, fs)
  unfolding uncompress get_content
  uncompress-empty_path path fs e = ground (arith, e)

  -- For a URL that is in no record, the directory itself is taken for the file.
  prepare_download-stray :
      (fs : Files)
      → contains w.config.low_storage_dir [] ≡ false
      → exists w.config.low_storage_dir fs ≡ true
      → find_node [] fs.nodes ≡ none
      → prepare_download w (stray_info w) fs ≡ ok (w.config.low_storage_dir ++ [], fs)
  unfolding prepare_download stray_info create_directory file_name after_last
  prepare_download-stray fs nonempty there nothing =
      ground
        (arith, nonempty, there, uncompress-empty_path (w.config.low_storage_dir ++ []) fs nothing)

  info_or_stray-none :
      (url : Text) (m : DataManager)
      → get_one_by_url url m ≡ none
      → info_or_stray w url m ≡ stray_info w
  unfolding info_or_stray
  info_or_stray-none url m e = rw (e, info_or_stray) refl

  prepare_download-unknown :
      (url : Text) (s : Server)
      → get_one_by_url url s.manager ≡ none
      → contains w.config.low_storage_dir [] ≡ false
      → exists w.config.low_storage_dir s.files ≡ true
      → find_node [] s.files.nodes ≡ none
      → prepare_download w (info_or_stray w url s.manager) s.files
        ≡ ok (w.config.low_storage_dir, s.files)
  prepare_download-unknown url s missing nonempty there nothing =
      ap (λ i. prepare_download w i s.files) (info_or_stray-none url s.manager missing)
      ∙ prepare_download-stray s.files nonempty there nothing
      ∙ ap (λ (p : Text). ok (p, s.files)) (append-nil w.config.low_storage_dir)

  found-replies :
      (req : Request) (info : StorageInfo) (path : Text) (fs : Files)
      → exists path fs ≡ true
      → w.disk.can_read path ≡ true
      → reply_codes (finish_download w req info path fs).0
        ≡ (if wants_rest w req info then 206 ∷ [] else 200 ∷ [])
  unfolding finish_download reply_missing send_reply send_file add_header exists
  found-replies req info path fs there readable = ground arith

  -- A download without If-Range of a URL that is in no record replies 200, and nothing else, once the
  -- directory for plain files is there and can be opened; nothing stands under the empty path, and the
  -- directory's name is not empty.
  pub download-unknown :
      (req : Request) (s : Server) (url : Text)
      → url_decode req.path ≡ ok url
      → get_one_by_url url s.manager ≡ none
      → contains w.config.low_storage_dir [] ≡ false
      → exists w.config.low_storage_dir s.files ≡ true
      → w.disk.can_read w.config.low_storage_dir ≡ true
      → find_node [] s.files.nodes ≡ none
      → req.if_range_header ≡ none
      → (r : Response) × (s' : Server) × (download w req s ≡ ok (r, s'))
        × (reply_codes r ≡ 200 ∷ [])
  unfolding wants_rest
  download-unknown req s url decoded missing nonempty there readable nothing whole =
      let info = info_or_stray w url s.manager in
      let dir = w.config.low_storage_dir in
      let plain : wants_rest w req info ≡ false = ground arith in
      (
        (finish_download w req info dir s.files).0,
        record s { files = (finish_download w req info dir s.files).1 },
        download-steps req s url dir s.files decoded
            (prepare_download-unknown url s missing nonempty there nothing),
        found-replies req info dir s.files there readable ∙ rw plain refl,
      )

-- ===== src/Server/Effect/Requests.antt =====
-- What a download, a request for the page and any request of src/server/Service.hpp does to the table and to
-- the file that keeps it.
use async_log_cloud_storage.Base.{
  ◌≡◌, refl, ◌∙◌, inl, inr, Bool, true, false, ◌++◌, ◌⊎◌, Text, codes, text_eq, text_eq_self,
  contains, starts_with, ok, ◌>>=◌, Ensures, Ensures-bind, Ensures-any, Ensures-if, arith,
}
use async_log_cloud_storage.Server.Url.{url_decode}
use async_log_cloud_storage.Server.Files.{Files, file_name, create_directory, uncompress}
use async_log_cloud_storage.Server.Frame.{
  SameAt, text_eq-below, text_eq-directory, create_directory-SameAt, uncompress-SameAt,
  remove_path-SameAt,
}
use async_log_cloud_storage.Server.Data.{StorageInfo, get_all}
use async_log_cloud_storage.Server.Service.{
  Request, Server, World, send_reply, info_or_stray, prepare_download, finish_download, download,
  gen_handler,
}
use async_log_cloud_storage.Server.Page.{read_template, generate_modern_file_list, list_show}
use async_log_cloud_storage.Server.Effect.{kept, Goes, HasEffect, is_upload, upload-Effect}

module _ (w : World) (low_away : starts_with w.config.low_storage_dir w.config.storage_info ≡ false)
    (deep_away : starts_with w.config.deep_storage_dir w.config.storage_info ≡ false) where
  open w use {json, disk, zstd, config}

  -- The path that is sent is the record's own, or one that the table's file does not have.
  abbrev IsSendable : StorageInfo → Files → Text × Files → Type 0
  IsSendable info fs prepared =
      (text_eq prepared.0 info.storage_path ≡ true)
      ⊎ (text_eq prepared.0 config.storage_info ≡ false)

  prepare_download-IsSendable :
      (info : StorageInfo) (fs : Files)
      → Ensures
          (λ (p : Text × Files). IsSendable info fs p × SameAt config.storage_info fs p.1)
          (prepare_download w info fs)
  unfolding prepare_download
  prepare_download-IsSendable info fs =
      Ensures-if (λ (p : Text × Files). IsSendable info fs p × SameAt config.storage_info fs p.1)
        (contains config.low_storage_dir info.storage_path) _ _
        (λ plain_file. (inl (text_eq_self info.storage_path), refl))
        (λ packed.
          Ensures-bind (λ (made : Bool × Files). SameAt config.storage_info fs made.1)
            (λ (p : Text × Files). IsSendable info fs p × SameAt config.storage_info fs p.1)
            (create_directory disk config.low_storage_dir fs) _
            (create_directory-SameAt disk config.low_storage_dir config.storage_info fs
              (text_eq-directory config.low_storage_dir config.storage_info low_away))
            (λ made same.
              Ensures-bind (λ (r : Bool × Files). SameAt config.storage_info made.1 r.1)
                (λ (p : Text × Files). IsSendable info fs p × SameAt config.storage_info fs p.1)
                (uncompress disk zstd (config.low_storage_dir ++ file_name info.storage_path)
                  info.storage_path made.1)
                _
                (uncompress-SameAt disk zstd (config.low_storage_dir ++ file_name info.storage_path)
                  info.storage_path config.storage_info made.1 (elsewhere info))
                (λ r same'. (inr (elsewhere info), same' ∙ same))))
    where
      elsewhere :
          (i : StorageInfo)
          → text_eq (config.low_storage_dir ++ file_name i.storage_path) config.storage_info ≡ false
      elsewhere i =
          text_eq-below config.low_storage_dir (file_name i.storage_path) config.storage_info
            low_away

  finish_download-SameAt :
      (req : Request) (info : StorageInfo) (path : Text) (fs : Files)
      → IsSendable info fs (path, fs)
      → SameAt config.storage_info fs (finish_download w req info path fs).1
  unfolding finish_download
  finish_download-SameAt req info path fs (inl own) = ground (arith, own)
  finish_download-SameAt req info path fs (inr other) =
      ground (arith, remove_path-SameAt path config.storage_info fs other)

  download-Effect : (req : Request) (s : Server) → HasEffect w false s (download w req s)
  unfolding download
  download-Effect req s =
      Ensures-bind (λ _. Unit {0}) (Goes w false s) (url_decode req.path) _
        (Ensures-any (url_decode req.path)) (λ url _. sent (info_or_stray w url s.manager))
    where
      sent :
          (info : StorageInfo)
          → HasEffect w false s (
              prepare_download w info s.files >>= λ prepared.
              let (r, fs) = finish_download w req info prepared.0 prepared.1 in
              ok (r, record s { files = fs }))
      sent info =
          Ensures-bind
            (λ (p : Text × Files).
              IsSendable info s.files p × SameAt config.storage_info s.files p.1)
            (Goes w false s) (prepare_download w info s.files) _
            (prepare_download-IsSendable info s.files)
            (λ p q. kept refl (finish_download-SameAt req info p.0 p.1 q.0 ∙ q.1) (λ u. cc))

  list_show-Effect : (req : Request) (s : Server) → HasEffect w false s (list_show w req s)
  unfolding list_show
  list_show-Effect req s =
      Ensures-bind (λ _. Unit {0}) (Goes w false s) (read_template w s.files) _
        (Ensures-any (read_template w s.files))
        (λ template _.
          Ensures-bind (λ _. Unit {0}) (Goes w false s)
            (generate_modern_file_list w (get_all s.manager)) _
            (Ensures-any (generate_modern_file_list w (get_all s.manager)))
            (λ list _. kept refl refl (λ u. cc)))

  -- Every request that is answered leaves the table and its file alone, or is an upload that puts
  -- one record into them and is answered with the one code 200; an upload that does not is not so
  -- answered.
  pub gen_handler-Effect :
      (req : Request) (s : Server) (path : Text)
      → url_decode req.path ≡ ok path
      → HasEffect w (is_upload path) s (gen_handler w (list_show w) req s)
  unfolding gen_handler send_reply
  gen_handler-Effect req s path e = rw e (
      Ensures-if (Goes w (is_upload path) s) (contains (codes "/download/") path) _ _
        (λ y. rw y (download-Effect req s))
        (λ n.
          Ensures-if (Goes w (is_upload path) s) (text_eq path (codes "/upload")) _ _
            (λ y. rw (n, y) (upload-Effect w low_away deep_away req s))
            (λ m.
              Ensures-if (Goes w (is_upload path) s) (text_eq path (codes "/")) _ _
                (λ y. rw (n, m) (list_show-Effect req s)) (λ o. kept refl refl (λ u. cc)))))

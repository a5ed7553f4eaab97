-- ===== src/Server/Effect.antt =====
-- What a request of src/server/Service.hpp does to the table and to the file that keeps it: nothing, or
-- one call of `Insert` by an upload. Here the uploads, in Requests all of them.
pub mod Requests
use async_log_cloud_storage.Base.{
  ◌≡◌, refl, ◌∙◌, inl, inr, Bool, true, false, Bool-cases, [], ◌∷◌, ◌++◌, length, ◌==◌, ◌⊎◌, ◌≢◌,
  not, ◌&&◌, Text, codes, text_eq, text_eq_self, contains, starts_with, some, ok, ◌>>=◌, Ensures,
  Ensures-bind, Ensures-any, Ensures-option, Ensures-if, arith,
}
use async_log_cloud_storage.Server.Url.{url_decode}
use async_log_cloud_storage.Server.Files.{Files, file_name, create_directory, uncompress}
use async_log_cloud_storage.Server.Files.Stored.{set_content-other}
use async_log_cloud_storage.Server.Frame.{
  SameAt, text_eq-below, text_eq-directory, create_directory-SameAt, compress-SameAt,
  uncompress-SameAt, remove_path-SameAt,
}
use async_log_cloud_storage.Server.Data.{StorageInfo, new_storage_info, insert, get_all}
use async_log_cloud_storage.Server.Service.{
  Request, Response, Server, World, Handled, send_reply, storage_dir, write_upload, record_upload,
  store_upload, upload_into, upload_named, upload_content, upload, info_or_stray, prepare_download,
  finish_download, download, gen_handler,
}
use async_log_cloud_storage.Server.Service.Kept.{write_upload-SameAt}
use async_log_cloud_storage.Server.Service.Replies.{reply_codes}
use async_log_cloud_storage.Server.Page.{read_template, generate_modern_file_list, list_show}

-- Whether `GenHandler` hands the decoded path to `Upload`.
abbrev pub is_upload : Text → Bool
is_upload path = not (contains (codes "/download/") path) && text_eq path (codes "/upload")

module _ (w : World) where
  open w use {json, disk, zstd, config, base64_decode}

  -- Before and after a request that is answered; `uploads` says whether it is an upload.
  pub data Effect (uploads : Bool) (s : Server) (r : Response) (s' : Server) : Type 0 where
    kept :
        s'.manager ≡ s.manager
        → SameAt config.storage_info s.files s'.files
        → (uploads ≡ true → reply_codes r ≢ 200 ∷ [])
        → Effect uploads s r s'
    recorded :
        (path : Text) (fs : Files) (info : StorageInfo)
        → SameAt config.storage_info s.files fs
        → new_storage_info config disk path fs ≡ some info
        → s'.manager ≡ (insert json disk info s.manager fs).1
        → s'.files ≡ (insert json disk info s.manager fs).2
        → uploads ≡ true
        → reply_codes r ≡ 200 ∷ []
        → Effect uploads s r s'

  abbrev pub Goes : Bool → Server → Response × Server → Type 0
  Goes uploads s q = Effect uploads s q.0 q.1

  -- Of a run from `s`.
  abbrev pub HasEffect : Bool → Server → Handled → Type 0
  HasEffect uploads s run = Ensures (Goes uploads s) run

  record_upload-Effect :
      (path : Text) (s : Server) (fs : Files)
      → SameAt config.storage_info s.files fs
      → HasEffect true s (record_upload w path (record s { files = fs }))
  unfolding record_upload send_reply
  record_upload-Effect path s fs same =
      Ensures-option (Goes true s) (new_storage_info config disk path fs) _ _ (λ e. tt)
        (λ info e. recorded path fs info same e refl refl refl refl)

  module _ (low_away : starts_with config.low_storage_dir config.storage_info ≡ false)
      (deep_away : starts_with config.deep_storage_dir config.storage_info ≡ false) where
    store_upload-Effect :
        (content path : Text) (s : Server) (fs : Files)
        → text_eq path config.storage_info ≡ false
        → SameAt config.storage_info s.files fs
        → HasEffect true s (store_upload w content path (record s { files = fs }))
    unfolding store_upload send_reply
    store_upload-Effect content path s fs other same =
        let same' : SameAt config.storage_info s.files (write_upload w content path fs).1 =
          write_upload-SameAt w content path config.storage_info fs other ∙ same in
        elim (Bool-cases (write_upload w content path fs).0) [
          | inl did ↦ rw did (record_upload-Effect path s (write_upload w content path fs).1 same')
          | inr failed ↦ rw failed (kept refl same' (λ u sent. absurd (ground arith)))
        ]

    upload_into-Effect :
        (content dir filename : Text) (s : Server)
        → starts_with dir config.storage_info ≡ false
        → HasEffect true s (upload_into w content dir filename s)
    unfolding upload_into
    upload_into-Effect content dir filename s away =
        Ensures-bind (λ (made : Bool × Files). SameAt config.storage_info s.files made.1)
          (Goes true s) (create_directory disk dir s.files) _
          (create_directory-SameAt disk dir config.storage_info s.files
            (text_eq-directory dir config.storage_info away))
          (λ made same.
            store_upload-Effect content (dir ++ filename) s made.1
              (text_eq-below dir filename config.storage_info away) same)

    storage_dir-away :
        (kind dir : Text)
        → storage_dir w kind ≡ some dir
        → starts_with dir config.storage_info ≡ false
    unfolding storage_dir
    storage_dir-away kind dir e = ground arith

    upload_named-Effect :
        (req : Request) (content filename : Text) (s : Server)
        → HasEffect true s (upload_named w req content filename s)
    unfolding upload_named send_reply
    upload_named-Effect req content filename s =
        Ensures-option (Goes true s) req.storage_type_header _ _ (λ e. tt)
          (λ kind e.
            Ensures-option (Goes true s) (storage_dir w kind) _ _
              (λ f. kept refl refl (λ u sent. absurd (ground arith)))
              (λ dir f. upload_into-Effect content dir filename s (storage_dir-away kind dir f)))

    upload_content-Effect :
        (req : Request) (content : Text) (s : Server)
        → HasEffect true s (upload_content w req content s)
    unfolding upload_content
    upload_content-Effect req content s =
        Ensures-option (Goes true s) req.file_name_header _ _ (λ e. tt)
          (λ encoded e.
            Ensures-bind (λ _. Unit {0}) (Goes true s) (base64_decode encoded) _
              (Ensures-any (base64_decode encoded))
              (λ filename _. upload_named-Effect req content filename s))

    pub upload-Effect : (req : Request) (s : Server) → HasEffect true s (upload w req s)
    unfolding upload send_reply
    upload-Effect req s =
        Ensures-option (Goes true s) req.body _ _
          (λ e. kept refl refl (λ u sent. absurd (ground arith)))
          (λ content e.
            Ensures-if (Goes true s) (length content == 0) _ _
              (λ empty. kept refl refl (λ u sent. absurd (ground arith)))
              (λ more.
                Ensures-if (Goes true s) (w.copies_out content) _ _
                  (λ copied. upload_content-Effect req content s)
                  (λ failed. kept refl refl (λ u sent. absurd (ground arith)))))

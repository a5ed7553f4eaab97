-- ===== src/Server/Run/Catalogue.antt =====
-- What the server of src/server promises of its table: a catalogue of records by URL, to which an upload
-- that is answered with 200 adds one record, and which nothing else changes.
use mathlib.Core.Path.{subst}
use async_log_cloud_storage.Base.{
  ◌≡◌, ◌≢◌, ◌∙◌, ap, Bool, true, false, List, [], ◌∷◌, ◌++◌, ℕ, if◌then◌else◌, Text, text_eq,
  starts_with, Option, some, ok, >>=-eq-ok, Ensures-ok, ok-injective, arith,
}
use async_log_cloud_storage.Server.Url.{url_decode}
use async_log_cloud_storage.Server.Files.{Files, file_name}
use async_log_cloud_storage.Server.Data.{StorageInfo, get_one_by_url, new_storage_info}
use async_log_cloud_storage.Server.Data.Table.{get_one_by_url-insert}
use async_log_cloud_storage.Server.Service.{Request, Response, Server, World, gen_handler}
use async_log_cloud_storage.Server.Service.Replies.{reply_codes}
use async_log_cloud_storage.Server.Page.{list_show}
use async_log_cloud_storage.Server.Effect.{is_upload, Effect, kept, recorded, Goes}
use async_log_cloud_storage.Server.Effect.Requests.{gen_handler-Effect}
use async_log_cloud_storage.Server.Run.{handle, dispatch}

-- The specification's state.
abbrev pub Catalogue : Type 0
Catalogue = Text → Option StorageInfo

abbrev pub view : Server → Catalogue
view s = λ url. get_one_by_url url s.manager

-- A step of the specification: for a request that is an upload or not, with the codes of its replies.
pub data Move (prefix : Text) (uploads : Bool) (codes_sent : List ℕ) (c c' : Catalogue)
    : Type 0 where
  stays :
      ((url : Text) → c' url ≡ c url)
      → (uploads ≡ true → codes_sent ≢ 200 ∷ [])
      → Move prefix uploads codes_sent c c'
  adds :
      (info : StorageInfo)
      → info.url ≡ prefix ++ file_name info.storage_path
      → ((url : Text) → c' url ≡ (if text_eq info.url url then some info else c url))
      → uploads ≡ true
      → codes_sent ≡ 200 ∷ []
      → Move prefix uploads codes_sent c c'

-- The steps of a sequence of requests, each with its path decoded and with its response.
pub data Moves (prefix : Text) : List Request → List Response → Catalogue → Catalogue → Type 0 where
  ends : (c : Catalogue) → Moves prefix [] [] c c
  moves :
      (req : Request) (r : Response) (path : Text) (reqs : List Request) (rs : List Response)
      (c d e : Catalogue)
      → url_decode req.path ≡ ok path
      → Move prefix (is_upload path) (reply_codes r) c d
      → Moves prefix reqs rs d e
      → Moves prefix (req ∷ reqs) (r ∷ rs) c e

module _ (w : World) where
  open w use {json, disk, config}

  new_storage_info-named :
      (path : Text) (fs : Files) (info : StorageInfo)
      → new_storage_info config disk path fs ≡ some info
      → info.url ≡ config.download_prefix ++ file_name info.storage_path
  unfolding new_storage_info
  new_storage_info-named path fs info e = ground arith

  Effect-Move :
      (uploads : Bool) (s : Server) (r : Response) (s' : Server)
      → Effect w uploads s r s'
      → Move config.download_prefix uploads (reply_codes r) (view s) (view s')
  Effect-Move uploads s r s' (kept same files not_sent) =
      stays (λ url. ap (get_one_by_url url) same) not_sent
  Effect-Move uploads s r s' (recorded path fs info same made manager files up sent) =
      adds info (new_storage_info-named path fs info made)
        (λ url.
          ap (get_one_by_url url) manager
          ∙ (get_one_by_url-insert json disk info s.manager fs url).0)
        up sent

  module _ (low_away : starts_with config.low_storage_dir config.storage_info ≡ false)
      (deep_away : starts_with config.deep_storage_dir config.storage_info ≡ false) where
    pub decoded :
        (req : Request) (s : Server) {q : Response × Server}
        → handle w req s ≡ ok q
        → (path : Text) × (url_decode req.path ≡ ok path)
    unfolding handle gen_handler
    decoded req s e = let (path, d, _) = >>=-eq-ok (url_decode req.path) _ e in (path, d)

    pub handle-Effect :
        (req : Request) (s : Server) (path : Text) (q : Response × Server)
        → url_decode req.path ≡ ok path
        → handle w req s ≡ ok q
        → Effect w (is_upload path) s q.0 q.1
    unfolding handle
    handle-Effect req s path q d ran =
        Ensures-ok (Goes w (is_upload path) s) (gen_handler w (list_show w) req s)
          (gen_handler-Effect w low_away deep_away req s path d) ran

    -- The path of the table's file begins with neither storage directory. Then the server refines its
    -- specification: for requests that are all answered, its table, seen as a catalogue by URL, makes
    -- one step for each. An upload that is answered with the one code 200 adds one record, under the
    -- URL of the file's name; any other request changes no record, and no upload among them is so
    -- answered.
    pub dispatch-Moves :
        (reqs : List Request) (s : Server) (rs : List Response) (s' : Server)
        → dispatch w reqs s ≡ ok (rs, s')
        → Moves config.download_prefix reqs rs (view s) (view s')
    unfolding dispatch
    dispatch-Moves [] s rs s' e =
        subst
          (λ (q : List Response × Server). Moves config.download_prefix [] q.0 (view s) (view q.1))
          (ok-injective ([], s) (rs, s') e) (ends (view s))
    dispatch-Moves (req ∷ reqs) s rs s' e =
        let (r, ran, e1) = >>=-eq-ok (handle w req s) _ e in
        let (rest, ran_rest, e2) = >>=-eq-ok (dispatch w reqs r.1) _ e1 in
        let (path, d) = decoded req s ran in
        subst
          (λ (q : List Response × Server).
            Moves config.download_prefix (req ∷ reqs) q.0 (view s) (view q.1))
          (ok-injective (r.0 ∷ rest.0, rest.1) (rs, s') e2)
          (moves req r.0 path reqs rest.0 (view s) (view r.1) (view rest.1) d
            (Effect-Move (is_upload path) s r.0 r.1 (handle-Effect req s path r d ran))
            (dispatch-Moves reqs r.1 rest.0 rest.1 ran_rest))

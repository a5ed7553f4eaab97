-- ===== src/Server/Run/Continue.antt =====
-- What the next start of the server of src/server/main.cpp finds of the uploads of the last run.
use mathlib.Core.Path.{subst}
use async_log_cloud_storage.Base.{
  ◌≡◌, false, List, [], ◌∷◌, starts_with, ok, >>=-eq-ok, ok-injective,
}
use async_log_cloud_storage.Json.{JsonLaws}
use async_log_cloud_storage.Server.Data.{DataManager, get_one_by_url, new_data_manager}
use async_log_cloud_storage.Server.Service.{Request, Response, Server, World}
use async_log_cloud_storage.Server.Effect.{is_upload}
use async_log_cloud_storage.Server.Run.{handle, dispatch}
use async_log_cloud_storage.Server.Run.Catalogue.{
  Catalogue, Moves, view, decoded, handle-Effect, dispatch-Moves,
}
use async_log_cloud_storage.Server.Run.Restart.{
  KeepsTable, IsDurable, IsKeepable, Effect-IsDurable, restarted,
}

-- The records that a manager finds by URL.
abbrev pub found_by : DataManager → Catalogue
found_by m = λ url. get_one_by_url url m

module _ (w : World) where
  open w use {json, disk, config}

  module _ (low_away : starts_with config.low_storage_dir config.storage_info ≡ false)
      (deep_away : starts_with config.deep_storage_dir config.storage_info ≡ false)
      (keeps : KeepsTable w) where
    -- Whatever requests a durable server answers, it stays durable.
    dispatch-IsDurable :
        (reqs : List Request) (s : Server) (rs : List Response) (s' : Server)
        → IsDurable w s
        → dispatch w reqs s ≡ ok (rs, s')
        → IsDurable w s'
    unfolding dispatch
    dispatch-IsDurable [] s rs s' v e =
        subst (λ (q : List Response × Server). IsDurable w q.1) (ok-injective ([], s) (rs, s') e) v
    dispatch-IsDurable (req ∷ reqs) s rs s' v e =
        let (r, ran, e1) = >>=-eq-ok (handle w req s) _ e in
        let (rest, ran_rest, e2) = >>=-eq-ok (dispatch w reqs r.1) _ e1 in
        let (path, d) = decoded w low_away deep_away req s ran in
        subst (λ (q : List Response × Server). IsDurable w q.1)
          (ok-injective (r.0 ∷ rest.0, rest.1) (rs, s') e2)
          (dispatch-IsDurable reqs r.1 rest.0 rest.1
            (Effect-IsDurable w keeps (is_upload path) s r.0 r.1 v
              (handle-Effect w low_away deep_away req s path r d ran))
            ran_rest)

    -- The table's file follows the table: when a durable server has answered some requests and its table is
    -- one that the file can carry, then the next start over the files that it left makes a manager that
    -- finds, by URL, the records of the first server with what the requests did to them: each upload
    -- answered with the one code 200 has added its record, and no other request has changed any. The path
    -- of the table's file begins with neither storage directory, and the disk takes writes to that file
    -- whole.
    pub next_start-Moves :
        (laws : JsonLaws json) (reqs : List Request) (s : Server) (rs : List Response) (s' : Server)
        → IsDurable w s
        → dispatch w reqs s ≡ ok (rs, s')
        → IsKeepable w s'
        → (m : DataManager) × (new_data_manager json disk config s'.files ≡ ok (m, s'.files))
          × Moves config.download_prefix reqs rs (view s) (found_by m)
    next_start-Moves laws reqs s rs s' v ran u = (
      s'.manager,
      restarted w laws keeps s' (dispatch-IsDurable reqs s rs s' v ran) u,
      dispatch-Moves w low_away deep_away reqs s rs s' ran,
    )

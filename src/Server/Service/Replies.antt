-- ===== src/Server/Service/Replies.antt =====
-- How often the handlers of src/server/Service.hpp reply to a request, and with which codes.
use async_log_cloud_storage.Base.{
  ℕ, ◌≡◌, refl, sym, ◌∙◌, List, ◌++◌, map, length, Text, Option, none, some, ok, >>=-eq-ok, ◌>>=◌,
  arith,
}
use async_log_cloud_storage.Server.Files.{create_directory}
use async_log_cloud_storage.Server.Service.{
  Request, Response, Server, World, send_reply, write_upload, record_upload, store_upload,
  storage_dir, upload_into, upload_named, upload_content, upload,
}

-- The reply codes of a response, in order.
abbrev pub reply_codes : Response → List ℕ
reply_codes r = map (λ q. q.code) r.replies

module _ (w : World) where
  record_upload-replies :
      (path : Text) (s s' : Server) (r : Response)
      → record_upload w path s ≡ ok (r, s')
      → length r.replies ≡ 1
  unfolding record_upload send_reply
  record_upload-replies path s s' r h = ground arith

  store_upload-replies :
      (content path : Text) (s s' : Server) (r : Response)
      → store_upload w content path s ≡ ok (r, s')
      → length r.replies ≡ 1
  unfolding store_upload send_reply
  store_upload-replies content path s s' r h = ground (
    arith,
    record_upload-replies path (record s { files = (write_upload w content path s.files).1 }) s' r,
  )

  upload_into-replies :
      (content dir filename : Text) (s s' : Server) (r : Response)
      → upload_into w content dir filename s ≡ ok (r, s')
      → length r.replies ≡ 1
  unfolding upload_into
  upload_into-replies content dir filename s s' r h =
      let (made, _, rest) = >>=-eq-ok (create_directory w.disk dir s.files) _ h in
      store_upload-replies content (dir ++ filename) (record s { files = made.1 }) s' r rest

  upload_named-replies :
      (req : Request) (content filename : Text) (s s' : Server) (r : Response)
      → upload_named w req content filename s ≡ ok (r, s')
      → length r.replies ≡ 1
  unfolding upload_named send_reply storage_dir
  upload_named-replies req content filename s s' r h = ground (
    arith,
    upload_into-replies content w.config.low_storage_dir filename s s' r,
    upload_into-replies content w.config.deep_storage_dir filename s s' r,
  )

  upload_content-named :
      (req : Request) (content encoded : Text) (s : Server)
      → req.file_name_header ≡ some encoded
      → upload_content w req content s
        ≡ (w.base64_decode encoded >>= λ f. upload_named w req content f s)
  unfolding upload_content
  upload_content-named req content encoded s e = simp (e, upload_content) refl

  upload_content-replies :
      (req : Request) (content : Text) (s s' : Server) (r : Response)
      → upload_content w req content s ≡ ok (r, s')
      → length r.replies ≡ 1
  unfolding upload_content
  upload_content-replies req content s s' r h = go req.file_name_header refl
    where
      go : (n : Option Text) → req.file_name_header ≡ n → length r.replies ≡ 1
      go none e = absurd (ground arith)
      go (some encoded) e =
          let opened : (w.base64_decode encoded >>= λ f. upload_named w req content f s)
              ≡ ok (r, s') =
            sym (upload_content-named req content encoded s e) ∙ h in
          let (filename, _, rest) =
            >>=-eq-ok (w.base64_decode encoded) (λ f. upload_named w req content f s) opened in
          upload_named-replies req content filename s s' r rest

  -- An upload that comes back has replied once, on every branch; without an input buffer it has not
  -- replied.
  pub upload-replies :
      (req : Request) (s s' : Server) (r : Response)
      → upload w req s ≡ ok (r, s')
      → length r.replies ≡ elim req.body [ none ↦ 0 | some _ ↦ 1 ]
  unfolding upload send_reply
  upload-replies req s s' r h = go req.body refl
    where
      go : (b : Option Text) → req.body ≡ b → length r.replies ≡ elim b [ none ↦ 0 | some _ ↦ 1 ]
      go none e = ground arith
      go (some content) e = ground (arith, upload_content-replies req content s s' r)

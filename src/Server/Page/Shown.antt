-- ===== src/Server/Page/Shown.antt =====
-- The page that `ListShow` of src/server/Service.hpp answers with.
use async_log_cloud_storage.Base.{
  ℕ, ◌≡◌, refl, ap, sym, ◌∙◌, [], ◌∷◌, ◌++◌, append_assoc, Text, codes, none, ok,
}
use async_log_cloud_storage.Server.Data.{get_all}
use async_log_cloud_storage.Server.Service.{Request, Server, World, send_reply, add_header}
use async_log_cloud_storage.Server.Page.Format.{regex_replace}
use async_log_cloud_storage.Server.Page.Replace.{
  Avoids, Clear, format_from-Avoids, regex_replace-once,
}
use async_log_cloud_storage.Server.Page.{
  file_list_mark, backend_url_mark, generate_modern_file_list, read_template, backend_url,
  list_show,
}

-- A text that stands in the place of a pattern that the text around it does not hold.
fill :
    (d : ℕ) (ds fmt a b : Text)
    → Clear (d ∷ ds) a (d ∷ ds ++ b)
    → Clear (d ∷ ds) b []
    → Avoids b'$' fmt
    → regex_replace (d ∷ ds) fmt (a ++ (d ∷ (ds ++ b))) ≡ a ++ (fmt ++ b)
fill d ds fmt a b before after plain_text =
    regex_replace-once d ds fmt a b before after ∙ rw (format_from-Avoids _ fmt plain_text) refl

regroup : (a l b t : Text) → a ++ (l ++ (b ++ t)) ≡ (a ++ (l ++ b)) ++ t
regroup a l b t = simp append_assoc

module _ (w : World) where
  list_show-steps :
      (req : Request) (s : Server) (template list : Text)
      → read_template w s.files ≡ ok template
      → generate_modern_file_list w (get_all s.manager) ≡ ok list
      → list_show w req s
        ≡ ok (
          record {
            replies = record { code = 200; reason = none } ∷ [];
            headers = (codes "Content-Type", codes "text/html;charset=utf-8") ∷ [];
            output =
                regex_replace backend_url_mark
                  (backend_url w)
                  (regex_replace file_list_mark list template);
          },
          s,
        )
  unfolding list_show send_reply add_header
  list_show-steps req s template list read made = rw (read, made) refl

  -- The answer to a request for the page is 200 with the template in which the two placeholders, each
  -- standing once, are replaced by the list of the files and by the address, and the server is as it
  -- was; if neither text has a `$`, and the placeholder of the address does not stand in the list.
  pub list_show-page :
      (req : Request) (s : Server) (a b c list : Text)
      → read_template w s.files ≡ ok (a ++ (file_list_mark ++ (b ++ (backend_url_mark ++ c))))
      → generate_modern_file_list w (get_all s.manager) ≡ ok list
      → Clear file_list_mark a (file_list_mark ++ (b ++ (backend_url_mark ++ c)))
      → Clear file_list_mark (b ++ (backend_url_mark ++ c)) []
      → Avoids b'$' list
      → Clear backend_url_mark (a ++ (list ++ b)) (backend_url_mark ++ c)
      → Clear backend_url_mark c []
      → Avoids b'$' (backend_url w)
      → list_show w req s
        ≡ ok (
          record {
            replies = record { code = 200; reason = none } ∷ [];
            headers = (codes "Content-Type", codes "text/html;charset=utf-8") ∷ [];
            output = a ++ (list ++ (b ++ (backend_url w ++ c)));
          },
          s,
        )
  list_show-page req s a b c list read made clear_a clear_b no_dollar clear_ab clear_c plain_url =
      list_show-steps req s _ list read made
      ∙ ap
          (λ (page : Text). ok (
            record {
              replies = record { code = 200; reason = none } ∷ [];
              headers = (codes "Content-Type", codes "text/html;charset=utf-8") ∷ [];
              output = page;
            },
            s,
          ))
          filled
    where
      listed :
          regex_replace file_list_mark list
            (a ++ (file_list_mark ++ (b ++ (backend_url_mark ++ c))))
          ≡ (a ++ (list ++ b)) ++ (backend_url_mark ++ c)
      listed =
          fill b'{' (codes "{FILE_LIST}}") list a (b ++ (backend_url_mark ++ c)) clear_a clear_b
            no_dollar
          ∙ regroup a list b (backend_url_mark ++ c)

      filled :
          regex_replace backend_url_mark (backend_url w) (
            regex_replace file_list_mark list
              (a ++ (file_list_mark ++ (b ++ (backend_url_mark ++ c)))))
          ≡ a ++ (list ++ (b ++ (backend_url w ++ c)))
      filled =
          ap (regex_replace backend_url_mark (backend_url w)) listed
          ∙ fill b'{' (codes "{BACKEND_URL}}") (backend_url w) (a ++ (list ++ b)) c clear_ab clear_c
              plain_url
          ∙ sym (regroup a list b (backend_url w ++ c))

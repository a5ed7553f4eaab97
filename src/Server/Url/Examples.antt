-- ===== src/Server/Url/Examples.antt =====
-- Decoding of small paths.
use async_log_cloud_storage.Base.{◌≡◌, refl, [], ◌∷◌, codes, ok, fail, assertion, arith, ◌==◌}
use async_log_cloud_storage.Server.Url.{url_decode}
use async_log_cloud_storage.Server.Url.RoundTrip.{url_encode, url_decode-url_encode}

space_decoded : url_decode (codes "/a%20b") ≡ ok (codes "/a b")
unfolding url_decode
space_decoded = refl

cut_off : url_decode (codes "/a%2") ≡ fail assertion
unfolding url_decode
cut_off = refl

-- Letters above F are taken for digits.
not_hexadecimal : url_decode (codes "%GZ") ≡ ok (0x23 ∷ [])
unfolding url_decode
not_hexadecimal = refl

url_decode-url_encode_example :
    url_decode (url_encode (λ c. c == b' ') (codes "a b%")) ≡ ok (codes "a b%")
url_decode-url_encode_example = url_decode-url_encode (λ c. c == b' ') (codes "a b%") (omega arith)

-- ===== src/Server/Url/RoundTrip.antt =====
-- `UrlDecode` undoes percent-encoding, whichever bytes an encoder chooses to escape.
use async_log_cloud_storage.Base.{
  ℕ, ◌+◌, ◌*◌, ◌/◌, ◌%◌, ◌<◌, ◌≡◌, refl, ap, ◌∙◌, Bool, false, ◌||◌, [], ◌∷◌, Text, ok, ◌==◌,
  if◌then◌else◌, arith, inl, inr, Bool-cases,
}
use async_log_cloud_storage.Server.Url.{to_hex, from_hex, hex_byte, emit, url_decode}

-- Percent-encoding, as RFC 3986 describes it: a byte is copied, or written as `%` and its two digits.
-- `%` itself is always escaped.
unfoldable pub url_encode : (ℕ → Bool) → Text → Text
url_encode escape [] = []
url_encode escape (c ∷ s) =
    if escape c || c == b'%'
    then b'%' ∷ to_hex (c / 16) ∷ to_hex (c % 16) ∷ url_encode escape s
    else c ∷ url_encode escape s

abbrev pub AreBytes : Text → Type 0
AreBytes [] = Unit {0}
AreBytes (c ∷ s) = (c < 256) × AreBytes s

from_hex-to_hex : (x : ℕ) → x < 16 → from_hex (to_hex x) ≡ ok x
unfolding from_hex to_hex
from_hex-to_hex x h = ground arith

hex_byte-to_hex : (c : ℕ) → c < 256 → hex_byte (to_hex (c / 16)) (to_hex (c % 16)) ≡ ok c
unfolding hex_byte
hex_byte-to_hex c h =
    rw (from_hex-to_hex (c / 16) (omega arith), from_hex-to_hex (c % 16) (omega arith))
      (ap ok whole)
  where
    whole : (c / 16 * 16 + c % 16) % 256 ≡ c
    whole = omega arith

-- A byte that is no `%` is copied.
url_decode-plain :
    (c : ℕ) (s : Text) → (c == b'%') ≡ false → url_decode (c ∷ s) ≡ emit (ok c) (url_decode s)
unfolding url_decode
url_decode-plain c [] e = rw e refl
url_decode-plain c (d ∷ []) e = rw e refl
url_decode-plain c (d ∷ x ∷ s) e = rw e refl

-- Decoding an encoded text of bytes gives it back, for every choice of the bytes that are escaped.
pub url_decode-url_encode :
    (escape : ℕ → Bool) (s : Text) → AreBytes s → url_decode (url_encode escape s) ≡ ok s
unfolding url_encode url_decode
url_decode-url_encode escape [] b = refl
url_decode-url_encode escape (c ∷ s) b = elim (Bool-cases (escape c || c == b'%')) [
  | inl e ↦ rw (e, hex_byte-to_hex c b.0, url_decode-url_encode escape s b.1) refl
  | inr e ↦ rw e (
      url_decode-plain c (url_encode escape s) (ground arith)
      ∙ ap (emit (ok c)) (url_decode-url_encode escape s b.1))
]

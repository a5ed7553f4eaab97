-- ===== src/Server/Url.antt =====
-- `ToHex`, `FromHex` and `UrlDecode` of src/server/Util.hpp.
pub mod RoundTrip
mod Examples
use async_log_cloud_storage.Base.{
  ℕ, ◌+◌, ◌-◌, ◌*◌, ◌%◌, Bool, ◌&&◌, List, [], ◌∷◌, Text, Outcome, ok, fail, assertion, ◌>>=◌, ltb,
  leb, ◌==◌, if◌then◌else◌,
}

-- The results are of type unsigned char.
unfoldable pub to_hex : ℕ → ℕ
to_hex x = if ltb 9 x then (x + 55) % 256 else (x + 48) % 256

unfoldable pub from_hex : ℕ → Outcome ℕ
from_hex x =
    if leb b'A' x && leb x b'Z'
    then ok (x - b'A' + 10)
    else if leb b'a' x && leb x b'z'
    then ok (x - b'a' + 10)
    else if leb b'0' x && leb x b'9'
    then ok (x - b'0')
    else fail assertion

-- `strTemp += high * 16 + low` keeps the low byte of an int.
unfoldable pub hex_byte : ℕ → ℕ → Outcome ℕ
unfolding from_hex
hex_byte h l = do high ← from_hex h; low ← from_hex l; ok ((high * 16 + low) % 256)

abbrev pub emit : Outcome ℕ → Outcome Text → Outcome Text
emit c rest = do byte ← c; more ← rest; ok (byte ∷ more)

unfoldable pub url_decode : Text → Outcome Text
unfolding hex_byte
url_decode [] = ok []
url_decode (c ∷ []) = if c == b'%' then fail assertion else ok (c ∷ [])
url_decode (c ∷ d ∷ []) =
    let rest = url_decode (d ∷ []) in if c == b'%' then fail assertion else emit (ok c) rest
url_decode (c ∷ d ∷ e ∷ s) =
    let escaped = emit (hex_byte d e) (url_decode s) in
    let plain = emit (ok c) (url_decode (d ∷ e ∷ s)) in if c == b'%' then escaped else plain

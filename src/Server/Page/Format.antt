-- ===== src/Server/Page/Format.antt =====
-- `std::regex_replace` of C++, over a pattern that matches one fixed text, as `ListShow` of
-- src/server/Service.hpp calls it. In the replacement a `$` has a meaning of its own.
use async_log_cloud_storage.Base.{
  ℕ, is_digit, zero, suc, ◌+◌, ◌-◌, ◌*◌, true, false, [], ◌∷◌, ◌++◌, length, drop, ◌==◌,
  if◌then◌else◌, Text, starts_with,
}

-- What the format has read and not yet put out.
pub data Pending : Type 0 where
  plain : Pending
  dollar : Pending
  -- a `$` and a first digit of this value
  group : ℕ → Pending

-- The match, and the text around it: from the end of the match before, and to the end of the whole.
pub record Match : Type 0 where
  pub found : Text
  pub prefix : Text
  pub suffix : Text

-- The pattern has no groups: only the match itself, number 0, puts out a text.
unfoldable pub group_text : Match → ℕ → Text
group_text m n = if n == 0 then m.found else []

unfoldable pub feed_plain : ℕ → Text × Pending
feed_plain c = if c == b'$' then ([], dollar) else (c ∷ [], plain)

-- One character of the format: what is put out, and what is pending after it.
unfoldable pub feed : Match → Pending → ℕ → Text × Pending
unfolding group_text feed_plain
feed m plain c = feed_plain c
feed m dollar c =
    if c == b'$'
    then (b'$' ∷ [], plain)
    else if c == b'&'
    then (m.found, plain)
    else if c == b'`'
    then (m.prefix, plain)
    else if c == b'\''
    then (m.suffix, plain)
    else if is_digit c
    then ([], group (c - b'0'))
    else (b'$' ∷ c ∷ [], plain)
feed m (group d) c =
    if is_digit c
    then (group_text m (10 * d + (c - b'0')), plain)
    else (group_text m d ++ (feed_plain c).0, (feed_plain c).1)

unfoldable pub flush : Match → Pending → Text
unfolding group_text
flush m plain = []
flush m dollar = b'$' ∷ []
flush m (group d) = group_text m d

-- `match_results::format`
unfoldable pub format_from : Match → Pending → Text → Text
unfolding feed flush
format_from m p [] = flush m p
format_from m p (c ∷ s) = let (out, p') = feed m p c in out ++ format_from m p' s

-- `regex_replace`, with the text since the last match, the characters of a match that are still to be
-- skipped, and the rest.
unfoldable pub replace_from : Text → Text → Text → ℕ → Text → Text
unfolding format_from
replace_from needle fmt since skip [] = []
replace_from needle fmt since (suc skip) (c ∷ s) = replace_from needle fmt [] skip s
replace_from needle fmt since zero (c ∷ s) = elim (starts_with needle (c ∷ s)) [
  | true ↦
      (format_from
          (record { found = needle; prefix = since; suffix = drop (length needle) (c ∷ s) }) plain
          fmt
        ++ replace_from needle fmt [] (length needle - 1) s)
  | false ↦ c ∷ replace_from needle fmt (since ++ c ∷ []) zero s
]

unfoldable pub regex_replace : Text → Text → Text → Text
regex_replace needle fmt s = replace_from needle fmt [] 0 s

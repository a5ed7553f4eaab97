-- ===== src/Server/Page/Replace.antt =====
-- What the `std::regex_replace` of the page does to a text that holds the pattern once, or not at all.
use async_log_cloud_storage.Base.{
  ℕ, suc, ◌-◌, ◌≡◌, refl, ap, sym, ◌∙◌, true, false, [], ◌∷◌, ◌++◌, append_assoc, append-nil,
  length, drop, drop_append, ◌==◌, Text, starts_with, starts_with-append, arith,
}
use async_log_cloud_storage.Server.Page.Format.{
  Match, plain, format_from, replace_from, regex_replace,
}

-- No character of the text is `c`.
abbrev pub Avoids : ℕ → Text → Type 0
Avoids c [] = Unit {0}
Avoids c (x ∷ s) = ((x == c) ≡ false) × Avoids c s

-- The pattern starts nowhere in the first text, when the second stands behind it.
abbrev pub Clear : Text → Text → Text → Type 0
Clear needle [] rest = Unit {0}
Clear needle (c ∷ a) rest = (starts_with needle (c ∷ (a ++ rest)) ≡ false) × Clear needle a rest

-- A replacement without `$` is put out as it is.
pub format_from-Avoids : (m : Match) (fmt : Text) → Avoids b'$' fmt → format_from m plain fmt ≡ fmt
unfolding format_from
format_from-Avoids m [] h = refl
format_from-Avoids m (c ∷ fmt) h = rw h.0 (ap (◌∷◌ c) (format_from-Avoids m fmt h.1))

replace_from-miss :
    (needle fmt since s : Text) (c : ℕ)
    → starts_with needle (c ∷ s) ≡ false
    → replace_from needle fmt since 0 (c ∷ s) ≡ c ∷ replace_from needle fmt (since ++ c ∷ []) 0 s
unfolding replace_from
replace_from-miss needle fmt since s c h = rw (h, replace_from) refl

replace_from-hit :
    (needle fmt since s : Text) (c : ℕ)
    → starts_with needle (c ∷ s) ≡ true
    → replace_from needle fmt since 0 (c ∷ s)
      ≡ format_from
          (record { found = needle; prefix = since; suffix = drop (length needle) (c ∷ s) })
          plain
          fmt
        ++ replace_from needle fmt [] (length needle - 1) s
unfolding replace_from
replace_from-hit needle fmt since s c h = rw (h, replace_from) refl

replace_from-Clear :
    (needle fmt since a rest : Text)
    → Clear needle a rest
    → replace_from needle fmt since 0 (a ++ rest) ≡ a ++ replace_from needle fmt (since ++ a) 0 rest
unfolding replace_from
replace_from-Clear needle fmt since [] rest h = rw (append-nil since) refl
replace_from-Clear needle fmt since (c ∷ a) rest h =
    replace_from-miss needle fmt since (a ++ rest) c h.0
    ∙ ap (◌∷◌ c) (
        replace_from-Clear needle fmt (since ++ c ∷ []) a rest h.1
        ∙ rw (append_assoc since (c ∷ []) a) refl)

replace_from-skip :
    (needle fmt xs s : Text)
    → replace_from needle fmt [] (length xs) (xs ++ s) ≡ replace_from needle fmt [] 0 s
unfolding replace_from
replace_from-skip needle fmt [] s = refl
replace_from-skip needle fmt (c ∷ xs) s = replace_from-skip needle fmt xs s

replace_from-found :
    (d : ℕ) (ds fmt since s : Text)
    → replace_from (d ∷ ds) fmt since 0 (d ∷ (ds ++ s))
      ≡ format_from (record { found = d ∷ ds; prefix = since; suffix = s }) plain fmt
        ++ replace_from (d ∷ ds) fmt [] 0 s
unfolding replace_from
replace_from-found d ds fmt since s =
    replace_from-hit (d ∷ ds) fmt since (ds ++ s) d (starts_with-append (d ∷ ds) s)
    ∙ rw (one_less, drop_append ds s)
        (ap (◌++◌ (format_from (record { found = d ∷ ds; prefix = since; suffix = s }) plain fmt))
          (replace_from-skip (d ∷ ds) fmt ds s))
  where
    one_less : suc (length ds) - 1 ≡ length ds
    one_less = omega arith

replace_from-nil :
    (needle fmt since s : Text) → Clear needle s [] → replace_from needle fmt since 0 s ≡ s
unfolding replace_from
replace_from-nil needle fmt since s h =
    ap (replace_from needle fmt since 0) (sym (append-nil s))
    ∙ replace_from-Clear needle fmt since s [] h
    ∙ append-nil s

-- A text without the pattern stays as it is.
pub regex_replace-none : (needle fmt s : Text) → Clear needle s [] → regex_replace needle fmt s ≡ s
unfolding regex_replace
regex_replace-none needle fmt s h = replace_from-nil needle fmt [] s h

-- Where the pattern stands once, the format stands in its place.
pub regex_replace-once :
    (d : ℕ) (ds fmt a b : Text)
    → Clear (d ∷ ds) a (d ∷ ds ++ b)
    → Clear (d ∷ ds) b []
    → regex_replace (d ∷ ds) fmt (a ++ (d ∷ (ds ++ b)))
      ≡ a ++ (format_from (record { found = d ∷ ds; prefix = a; suffix = b }) plain fmt ++ b)
unfolding regex_replace
regex_replace-once d ds fmt a b before after =
    replace_from-Clear (d ∷ ds) fmt [] a (d ∷ (ds ++ b)) before
    ∙ ap (◌++◌ a) (
        replace_from-found d ds fmt a b
        ∙ ap (◌++◌ (format_from (record { found = d ∷ ds; prefix = a; suffix = b }) plain fmt))
            (replace_from-nil (d ∷ ds) fmt [] b after))

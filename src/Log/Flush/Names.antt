-- ===== src/Log/Flush/Names.antt =====
-- The names that `CreateLogFileName` of log_system/log_src/LogFlush.hpp makes.
use async_log_cloud_storage.Base.{
  ℕ, zero, suc, ◌+◌, ◌-◌, ◌*◌, ◌/◌, ◌%◌, ◌<◌, ◌≡◌, ◌≢◌, refl, sym, ap, ◌∙◌, false, ◌&&◌, [], ◌∷◌,
  ◌++◌, if◌then◌else◌, ltb, leb, Text, codes, text_eq, text_eq_iff, after_last, digits_onto,
  to_string, none, some, arith, Bool-cases, inl, inr,
}
use async_log_cloud_storage.Log.Flush.{Tm, stamped, log_name}

-- The number that a text begins with, behind the digits that `a` stands for.
read_digits : ℕ → Text → ℕ
read_digits a [] = a
read_digits a (x ∷ s) =
    let more = read_digits (a * 10 + (x - b'0')) s in if leb b'0' x && leb x b'9' then more else a

read_digits-digit :
    (a x n : ℕ) (s : Text)
    → x < 10
    → a * 10 + x ≡ n
    → read_digits a ((x + b'0') ∷ s) ≡ read_digits n s
unfolding read_digits
read_digits-digit a x n s h e =
    let same : a * 10 + (x + b'0' - b'0') ≡ n = omega arith in
    ground (arith, ap (λ m. read_digits m s) same)

read_digits-digits_onto :
    (f n : ℕ) (acc : Text) → n < f → read_digits 0 (digits_onto f n acc) ≡ read_digits n acc
unfolding digits_onto
read_digits-digits_onto zero n acc h = absurd (omega arith)
read_digits-digits_onto (suc f) n acc h = elim (Bool-cases (ltb n 10)) [
  | inl e ↦ rw e (read_digits-digit 0 n n acc (ground arith) (omega arith))
  | inr e ↦ rw e (
      read_digits-digits_onto f (n / 10) ((n % 10 + b'0') ∷ acc) (ground arith)
      ∙ read_digits-digit (n / 10) (n % 10) n acc (omega arith) (omega arith))
]

digits_onto-append :
    (f n : ℕ) (acc s : Text) → digits_onto f n acc ++ s ≡ digits_onto f n (acc ++ s)
unfolding digits_onto
digits_onto-append zero n acc s = refl
digits_onto-append (suc f) n acc s =
    ground (arith, digits_onto-append f (n / 10) ((n % 10 + b'0') ∷ acc) s)

after_last-digits_onto :
    (f n : ℕ) (acc : Text)
    → after_last b'-' acc ≡ none
    → after_last b'-' (digits_onto f n acc) ≡ none
unfolding digits_onto after_last
after_last-digits_onto zero n acc h = h
after_last-digits_onto (suc f) n acc h =
    ground (arith, after_last-digits_onto f (n / 10) ((n % 10 + b'0') ∷ acc))

after_last-append :
    (c : ℕ) (p q : Text) → after_last c q ≡ none → after_last c (p ++ c ∷ q) ≡ some q
unfolding after_last
after_last-append c [] q h = ground arith
after_last-append c (x ∷ p) q h = rw (after_last-append c p q h) refl

no_dash : after_last b'-' (codes ".log") ≡ none
unfolding after_last
no_dash = refl

no_digit : (n : ℕ) → read_digits n (codes ".log") ≡ n
unfolding read_digits
no_digit n = refl

-- What stands behind the last dash, as a number.
counted : Text → ℕ
counted s = elim (after_last b'-' s) [ none ↦ 0 | some t ↦ read_digits 0 t ]

counted-append : (p q : Text) → after_last b'-' q ≡ none → counted (p ++ b'-' ∷ q) ≡ read_digits 0 q
unfolding counted
counted-append p q h = rw (after_last-append b'-' p q h, counted) refl

counted-log_name : (b : Text) (t : Tm) (k : ℕ) → counted (log_name b t k) ≡ k
unfolding log_name to_string
counted-log_name b t k =
    ap (λ q. counted (stamped b t ++ b'-' ∷ q)) (digits_onto-append (suc k) k [] (codes ".log"))
    ∙ counted-append (stamped b t) (digits_onto (suc k) k (codes ".log"))
        (after_last-digits_onto (suc k) k (codes ".log") no_dash)
    ∙ read_digits-digits_onto (suc k) k (codes ".log") (omega arith)
    ∙ no_digit k

-- Two names of one base differ when their counters do, whatever the times.
pub log_name_ne :
    (b : Text) (t u : Tm) (k l : ℕ) → k ≢ l → text_eq (log_name b t k) (log_name b u l) ≡ false
log_name_ne b t u k l other = elim (Bool-cases (text_eq (log_name b t k) (log_name b u l))) [
  | inl e ↦ absurd (
      other (
        sym (counted-log_name b t k) ∙ ap counted ((text_eq_iff _ _).0 e) ∙ counted-log_name b u l))
  | inr e ↦ e
]

-- ===== src/Log/Backup/Program/Port.antt =====
-- The port that the backup server is called with, and the rounds that it serves.
use async_log_cloud_storage.Base.{
  ℕ, is_digit, zero, suc, ◌+◌, ◌-◌, ◌*◌, ◌/◌, ◌%◌, ◌^◌, ◌<◌, ◌≡◌, refl, ap, ◌∙◌, true, false,
  Bool-cases, ltb→lt, lt→ltb, inl, inr, List, [], ◌∷◌, ltb, ◌==◌, Text, to_string, digits_onto,
  Outcome, ok, ◌>>=◌, arith,
}
use async_log_cloud_storage.Log.Backup.{BackupDisk, Client, ReadResult, thread_routine, serve}
use async_log_cloud_storage.Log.Backup.Program.{
  is_space, skip_spaces, digits_value, to_int, atoi_signed, atoi, Sockets, init_service, Accept,
  accept_error, no_thread, accepted, start_service, exits, serves, usage, backup_main,
}

abbrev pub served : List Accept → List (Client × ReadResult)
served [] = []
served (accept_error ∷ rounds) = served rounds
served (no_thread c ∷ rounds) = served rounds
served (accepted c r ∷ rounds) = (c, r) ∷ served rounds

start_service-serve :
    (d : BackupDisk) (rounds : List Accept) (log : Text)
    → start_service d rounds log ≡ serve d (served rounds) log
unfolding start_service serve
start_service-serve d [] log = refl
start_service-serve d (accept_error ∷ rounds) log = start_service-serve d rounds log
start_service-serve d (no_thread c ∷ rounds) log = start_service-serve d rounds log
start_service-serve d (accepted c r ∷ rounds) log =
    ap (λ (next : Text → Outcome Text). thread_routine d c r log >>= next)
      (λ i log'. start_service-serve d rounds log' i)

digit_is_digit : (d : ℕ) → d < 10 → is_digit (d + b'0') ≡ true
digit_is_digit d h = ground arith

digit_value : (v d : ℕ) → 10 * v + (d + b'0' - b'0') ≡ 10 * v + d
digit_value v d = omega arith

digits_value-digit :
    (v d : ℕ) (acc : Text)
    → d < 10
    → digits_value v ((d + b'0') ∷ acc) ≡ digits_value (10 * v + d) acc
unfolding digits_value
digits_value-digit v d acc h =
    rw (digit_is_digit d h) (ap (λ (n : ℕ). digits_value n acc) (digit_value v d))

digits_value-digits_onto :
    (f n : ℕ) (acc : Text) → n < f → digits_value 0 (digits_onto f n acc) ≡ digits_value n acc
unfolding digits_value digits_onto
digits_value-digits_onto zero n acc h = absurd (omega arith)
digits_value-digits_onto (suc f) n acc h = elim (Bool-cases (ltb n 10)) [
  | inl last ↦ rw last (
      digits_value-digit 0 n acc (ltb→lt n 10 last)
      ∙ ap (λ (m : ℕ). digits_value m acc) (let z : 10 * 0 + n ≡ n = omega arith in z))
  | inr more ↦ rw more (
      digits_value-digits_onto f (n / 10) ((n % 10 + b'0') ∷ acc) (ground arith)
      ∙ digits_value-digit (n / 10) (n % 10) acc (omega arith)
      ∙ ap (λ (m : ℕ). digits_value m acc) (let z : 10 * (n / 10) + n % 10 ≡ n = omega arith in z))
]

digits_value-to_string : (n : ℕ) → digits_value 0 (to_string n) ≡ n
unfolding to_string digits_value
digits_value-to_string n = digits_value-digits_onto (suc n) n [] (omega arith)

-- The first character of a number is a digit, and no more than that is asked of it.
abbrev StartsWithDigit : Text → Type 0
StartsWithDigit [] = Unit {0}
StartsWithDigit (c ∷ s) = is_digit c ≡ true

digits_onto-StartsWithDigit :
    (f n : ℕ) (acc : Text) → StartsWithDigit acc → StartsWithDigit (digits_onto f n acc)
unfolding digits_onto
digits_onto-StartsWithDigit zero n acc h = h
digits_onto-StartsWithDigit (suc f) n acc h = elim (Bool-cases (ltb n 10)) [
  | inl last ↦ rw last (digit_is_digit n (ltb→lt n 10 last))
  | inr more ↦ rw more (
      digits_onto-StartsWithDigit f (n / 10) ((n % 10 + b'0') ∷ acc)
        (digit_is_digit (n % 10) (omega arith)))
]

digit_is_plain : (c : ℕ) → is_digit c ≡ true → is_space c ≡ false
digit_is_plain c h = ground arith

digit_has_no_sign : (c : ℕ) → is_digit c ≡ true → ((c == b'-') ≡ false) × ((c == b'+') ≡ false)
digit_has_no_sign c h = ground arith

-- Of a text that starts with a digit `atoi` reads the number.
atoi-StartsWithDigit : (s : Text) → StartsWithDigit s → atoi s ≡ to_int false (digits_value 0 s)
unfolding atoi atoi_signed skip_spaces digits_value
atoi-StartsWithDigit [] h = refl
atoi-StartsWithDigit (c ∷ s) h =
    rw (digit_is_plain c h, atoi_signed)
      (rw ((digit_has_no_sign c h).0, (digit_has_no_sign c h).1) refl)

to_int-small : (n : ℕ) → n < 2 ^ 31 → to_int false n ≡ ok n
unfolding to_int
to_int-small n h = rw (lt→ltb n (2 ^ 31) h) refl

atoi-to_string : (n : ℕ) → n < 2 ^ 31 → atoi (to_string n) ≡ ok n
unfolding to_string
atoi-to_string n h =
    atoi-StartsWithDigit (to_string n) (digits_onto-StartsWithDigit (suc n) n [] tt)
    ∙ ap (to_int false) (digits_value-to_string n)
    ∙ to_int-small n h

-- Called with a port in decimal, the program serves at that port, and its log grows by what the threads
-- of the clients append; called with no argument or with more than one, it says how it is used and exits
-- with 255.
pub backup_main-to_string :
    (net : Sockets) (d : BackupDisk) (rounds : List Accept) (program : Text) (port : ℕ)
    (more : List Text) (log log' : Text)
    → port < 2 ^ 16
    → serve d (served rounds) log ≡ ok log'
    → (backup_main net d rounds (program ∷ (to_string port ∷ [])) log
        ≡ ok (serves port (init_service net port) log'))
      × (backup_main net d rounds (program ∷ []) log ≡ ok (exits 255 (usage program)))
      × ((a b : Text)
          → backup_main net d rounds (program ∷ (a ∷ (b ∷ more))) log
            ≡ ok (exits 255 (usage program)))
unfolding backup_main
backup_main-to_string net d rounds program port more log log' small ran = (
  rw
      (
        atoi-to_string port (omega arith),
        start_service-serve d rounds log,
        ran,
        let z : port % 2 ^ 16 ≡ port = omega arith in z,
      )
      refl,
  refl,
  λ a b. refl,
)

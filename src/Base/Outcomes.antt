-- ===== src/Base/Outcomes.antt =====
-- Code that may fail: a value, or what stops the program or leaves the function by an exception.
use mathlib.Core.Path.{◌≡◌, refl}
use mathlib.Core.Bool.{Bool, true, false}
use mathlib.Core.Option.{Option, none, some}
use async_log_cloud_storage.Base.Tests.{if◌then◌else◌}

pub data Failure : Type 0 where
  -- a failed `assert`
  assertion : Failure
  -- a read or a write outside of an array: undefined behaviour
  out_of_bounds : Failure
  -- a null pointer that is read: undefined behaviour, or `std::logic_error`
  null_pointer : Failure
  -- an uninitialised variable that is read: undefined behaviour
  uninitialised : Failure
  -- a number that an int does not hold: undefined behaviour
  int_overflow : Failure
  -- `std::length_error`
  length_error : Failure
  -- `std::filesystem::filesystem_error`
  filesystem_error : Failure
  -- `Json::LogicError`
  json_error : Failure
  -- `std::ios_base::failure`
  ios_failure : Failure

pub data Outcome {ℓ} (A : Type ℓ) : Type ℓ where
  ok : A → Outcome A
  fail : Failure → Outcome A

infixl 5 ◌>>=◌
abbrev pub ◌>>=◌ {ℓ κ} :
    {A : Type ℓ} {B : Type κ} (run : Outcome A) (next : A → Outcome B) → Outcome B
fail e >>= next = fail e
ok a >>= next = next a

-- Two calls in a row that end well: the first ended well, and so did the second on its result.
pub >>=-eq-ok {ℓ κ} :
    {A : Type ℓ} {B : Type κ} {b : B} (run : Outcome A) (next : A → Outcome B)
    → (run >>= next) ≡ ok b
    → (a : A) × (run ≡ ok a) × (next a ≡ ok b)
>>=-eq-ok (fail e) next h = cc
>>=-eq-ok (ok a) next h = (a, refl, h)

-- What a run that ends well ends with.
abbrev pub Ensures {ℓ κ} : {A : Type ℓ} → (A → Type κ) → Outcome A → Type κ
Ensures P (ok a) = P a
Ensures P (fail e) = Unit

pub Ensures-bind {ℓ κ μ ν} :
    {A : Type ℓ} {B : Type κ} (Q : A → Type μ) (P : B → Type ν) (run : Outcome A)
    (next : A → Outcome B)
    → Ensures Q run
    → ((a : A) → Q a → Ensures P (next a))
    → Ensures P (run >>= next)
Ensures-bind Q P (ok a) next h k = k a h
Ensures-bind Q P (fail e) next h k = tt

-- A run of which nothing is said.
pub Ensures-any {ℓ} : {A : Type ℓ} (run : Outcome A) → Ensures (λ _. Unit {0}) run
Ensures-any (ok a) = tt
Ensures-any (fail e) = tt

pub Ensures-ok {ℓ κ} :
    {A : Type ℓ} (P : A → Type κ) (run : Outcome A) {a : A} → Ensures P run → run ≡ ok a → P a
Ensures-ok P run h e = rw e at h

pub Ensures-option {ℓ κ μ} :
    {A : Type ℓ} {B : Type κ} (P : B → Type μ) (o : Option A) (without : Outcome B)
    (next : A → Outcome B)
    → (o ≡ none → Ensures P without)
    → ((a : A) → o ≡ some a → Ensures P (next a))
    → Ensures P (elim o [ none ↦ without | some a ↦ next a ])
Ensures-option P none without next h k = h refl
Ensures-option P (some a) without next h k = k a refl

pub Ensures-if {ℓ κ} :
    {A : Type ℓ} (P : A → Type κ) (b : Bool) (yes_run no_run : Outcome A)
    → (b ≡ true → Ensures P yes_run)
    → (b ≡ false → Ensures P no_run)
    → Ensures P (if b then yes_run else no_run)
Ensures-if P true yes_run no_run h k = h refl
Ensures-if P false yes_run no_run h k = k refl

pub ok-injective {ℓ} : {A : Type ℓ} (a b : A) → ok a ≡ ok b → a ≡ b
ok-injective a b e = cc

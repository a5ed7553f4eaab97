-- ===== src/Base/Decimal.antt =====
-- `std::to_string` on the unsigned numbers, and on 64-bit patterns read as signed.
use Prim.Native.Nat.{ℕ, zero, suc, ◌+◌, ◌-◌, ◌*◌, ◌/◌, ◌%◌, ◌^◌, ◌≤◌, ◌<◌}
use mathlib.Core.Path.{◌≡◌, refl}
use mathlib.Core.List.{[], ◌∷◌}
use native.Mathlib.Omega.{arith}
use async_log_cloud_storage.Base.Tests.{ltb, if◌then◌else◌}
use async_log_cloud_storage.Base.Lists.{length}
use async_log_cloud_storage.Base.Texts.{Text, c_str}

-- The digits of `n` in front of `acc`, with fuel for the divisions.
unfoldable pub digits_onto : ℕ → ℕ → Text → Text
digits_onto zero n acc = acc
digits_onto (suc f) n acc =
    let more = digits_onto f (n / 10) ((n % 10 + b'0') ∷ acc) in
    if ltb n 10 then (n + b'0') ∷ acc else more

-- `n + 1` divisions are enough.
unfoldable pub to_string : ℕ → Text
unfolding digits_onto
to_string n = digits_onto (suc n) n []

-- `std::to_string(time_t)`.
unfoldable pub to_string_signed : ℕ → Text
unfolding to_string
to_string_signed n = if ltb n (2 ^ 63) then to_string n else b'-' ∷ to_string (2 ^ 64 - n)

abbrev tens : ℕ → ℕ
tens zero = 1
tens (suc k) = 10 * tens k

c_str-digits_onto :
    (f n : ℕ) (acc : Text) → c_str acc ≡ acc → c_str (digits_onto f n acc) ≡ digits_onto f n acc
unfolding digits_onto c_str
c_str-digits_onto zero n acc e = e
c_str-digits_onto (suc f) n acc e =
    ground (arith, c_str-digits_onto f (n / 10) ((n % 10 + b'0') ∷ acc))

-- No digit is a null byte.
pub c_str-to_string : (n : ℕ) → c_str (to_string n) ≡ to_string n
unfolding to_string c_str
c_str-to_string n = c_str-digits_onto (suc n) n [] refl

length-digits_onto :
    (f n k : ℕ) (acc : Text) → n < tens (suc k) → length (digits_onto f n acc) ≤ suc k + length acc
unfolding digits_onto
length-digits_onto zero n k acc h = omega arith
length-digits_onto (suc f) n zero acc h = ground arith
length-digits_onto (suc f) n (suc k) acc h =
    ground (arith, length-digits_onto f (n / 10) k ((n % 10 + b'0') ∷ acc) (omega arith))

-- An int has at most ten digits.
pub length-to_string : (n : ℕ) → n < 10000000000 → length (to_string n) ≤ 10
unfolding to_string
length-to_string n h = omega (arith, length-digits_onto (suc n) n 9 [] (omega arith))

-- ===== src/Server/Page/Size.antt =====
-- `formatSize` of src/server/Service.hpp. A double that holds a size divided by a power of 1024 is the
-- number before the division and the exponent: these divisions are exact.
use native.Mathlib.Nat.{div-add-mod', mod-lt, one-le-pow}
use async_log_cloud_storage.Base.{
  ℕ, zero, suc, ◌+◌, ◌*◌, ◌/◌, ◌%◌, ◌^◌, ◌≤◌, ◌<◌, ◌≡◌, ◌⊎◌, inl, inr, refl, lt→ltb, ◌≢◌, [], ◌∷◌,
  ◌++◌, ltb, leb, if◌then◌else◌, Text, codes, to_string, arith,
}

-- n / d, rounded to the nearest, and half way to the even one.
unfoldable pub round_even : ℕ → ℕ → ℕ
round_even d n =
    if ltb (2 * (n % d)) d
    then n / d
    else if ltb d (2 * (n % d))
    then n / d + 1
    else n / d + n / d % 2

-- By how many bits a number is too long for the 53 of a double; `left` bounds them.
unfoldable pub excess_bits : ℕ → ℕ → ℕ
excess_bits zero n = 0
excess_bits (suc left) n =
    let more = excess_bits left (n / 2) in if ltb n (2 ^ 53) then 0 else suc more

-- `double size = bytes`; a uint64_t has 11 bits more.
unfoldable pub to_double : ℕ → ℕ
unfolding excess_bits round_even
to_double n = let unit : ℕ = 2 ^ excess_bits 11 n in round_even unit n * unit

-- The loop, with `left` units behind the one of index `i`; the index it ends with.
unfoldable pub unit_index : ℕ → ℕ → ℕ → ℕ
unit_index zero i size = i
unit_index (suc left) i size =
    let next = unit_index left (i + 1) size in if leb (1024 * 1024 ^ i) size then next else i

unfoldable pub unit_name : ℕ → Text
unit_name zero = codes "B"
unit_name (suc zero) = codes "KB"
unit_name (suc (suc zero)) = codes "MB"
unit_name (suc (suc (suc i))) = codes "GB"

-- A number of hundredths, as `fixed` with two digits prints it.
unfoldable pub fixed_2 : ℕ → Text
fixed_2 h = to_string (h / 100) ++ b'.' ∷ (h / 10 % 10 + b'0') ∷ (h % 10 + b'0') ∷ []

unfoldable pub hundredths : ℕ → ℕ → ℕ
unfolding round_even
hundredths i size = round_even (1024 ^ i) (size * 100)

unfoldable pub format_size : ℕ → Text
unfolding to_double unit_index hundredths unit_name fixed_2
format_size bytes =
    let size = to_double bytes in
    let i = unit_index 3 0 size in fixed_2 (hundredths i size) ++ (codes " " ++ unit_name i)

excess_bits-zero : (n : ℕ) → n < 2 ^ 53 → excess_bits 11 n ≡ 0
unfolding excess_bits
excess_bits-zero n h = rw (lt→ltb n (2 ^ 53) h) refl

round_even-one : (n : ℕ) → round_even (2 ^ 0) n * 2 ^ 0 ≡ n
unfolding round_even
round_even-one n = ground arith

to_double-exact : (n : ℕ) → n < 2 ^ 53 → to_double n ≡ n
unfolding to_double
to_double-exact n h = rw (excess_bits-zero n h) (round_even-one n)

-- What the loop has found out when it stops: the size is at least one of its unit, and less than one of
-- the next unit, if there is one.
abbrev pub IsUnitOf : ℕ → ℕ → Type 0
IsUnitOf size i = (i ≤ 3) × (i ≢ 0 → 1024 ^ i ≤ size) × (i ≢ 3 → size < 1024 * 1024 ^ i)

-- h hundredths of 1024 ^ i are the size up to half a hundredth.
abbrev pub IsNearest : ℕ → ℕ → ℕ → Type 0
IsNearest size i h =
    (2 * (h * 1024 ^ i) ≤ 200 * size + 1024 ^ i) × (200 * size ≤ 2 * (h * 1024 ^ i) + 1024 ^ i)

-- The quotient and the remainder as variables; `up` is what is added to the quotient.
nearest :
    (d n q r up : ℕ)
    → q * d + r ≡ n
    → (up ≡ 0) × (2 * r ≤ d) ⊎ (up ≡ 1) × (d ≤ 2 * r)
    → r < d
    → (2 * ((q + up) * d) ≤ 2 * n + d) × (2 * n ≤ 2 * ((q + up) * d) + d)
nearest d n q r up e (inl (z, h)) small = rw z (omega arith)
nearest d n q r up e (inr (z, h)) small = rw z (omega arith)

-- What is added to the quotient.
rounded_up : ℕ → ℕ → ℕ
rounded_up d n = if ltb (2 * (n % d)) d then 0 else if ltb d (2 * (n % d)) then 1 else n / d % 2

round_even-add : (d n : ℕ) → round_even d n ≡ n / d + rounded_up d n
unfolding round_even rounded_up
round_even-add d n = ground arith

rounded_up-cases :
    (d n : ℕ) → (rounded_up d n ≡ 0) × (2 * (n % d) ≤ d) ⊎ (rounded_up d n ≡ 1) × (d ≤ 2 * (n % d))
unfolding rounded_up
rounded_up-cases d n = ground arith

round_even-IsNearest :
    (d n : ℕ)
    → 0 < d
    → (2 * (round_even d n * d) ≤ 2 * n + d) × (2 * n ≤ 2 * (round_even d n * d) + d)
round_even-IsNearest d n h = rw (round_even-add d n) (
    nearest d n (n / d) (n % d) (rounded_up d n) (div-add-mod' n d) (rounded_up-cases d n)
      (mod-lt n h))

hundredths-IsNearest : (i size : ℕ) → IsNearest size i (hundredths i size)
unfolding hundredths
hundredths-IsNearest i size =
    omega (arith, round_even-IsNearest (1024 ^ i) (size * 100) (one-le-pow i 1024 (omega arith)))

unit_index-IsUnitOf : (size : ℕ) → IsUnitOf size (unit_index 3 0 size)
unfolding unit_index
unit_index-IsUnitOf size = ground arith

-- The text of a size below 2 ^ 53 is a number of hundredths of a unit: of the largest unit that is not
-- larger than the size, bytes for a size below 1024, and the number is the size up to half a
-- hundredth.
pub format_size-IsNearest :
    (size : ℕ)
    → size < 2 ^ 53
    → (i h : ℕ) × (format_size size ≡ fixed_2 h ++ (codes " " ++ unit_name i))
      × IsUnitOf size i
      × IsNearest size i h
unfolding format_size
format_size-IsNearest size small = (
  unit_index 3 0 size,
  hundredths (unit_index 3 0 size) size,
  rw (to_double-exact size small) refl,
  unit_index-IsUnitOf size,
  hundredths-IsNearest (unit_index 3 0 size) size,
)

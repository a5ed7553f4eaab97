-- ===== src/Json.antt =====
-- What the code uses of the library JsonCpp, which is not part of the repository: values that are
-- built by `append` and `operator[]`, read by `asInt`, `asInt64` and `asString`, written and parsed.

pub mod Example
use async_log_cloud_storage.Base.{
  ℕ, suc, ◌-◌, ◌^◌, ◌<◌, ◌≤◌, ◌≡◌, ◌≢◌, ◌⊎◌, Text, Option, some, Outcome, ok, fail, json_error,
  text_eq, text_eq_iff, Bool-cases, inl, inr, arith, leb, ltb, if◌then◌else◌,
}

pub record Json : Type 1 where
  pub Value : Type 0
  -- `Json::Value root;`
  pub null : Value
  -- From a `Json::Int64`, by its bit pattern.
  pub int : ℕ → Value
  -- From a `const char *`.
  pub string : Text → Value
  -- `v.append(x)`
  pub append : Value → Value → Value
  -- `v[key] = x`
  pub assign : Value → Text → Value → Value
  -- `v[key]`, as a value that is read
  pub member : Value → Text → Value
  pub size : Value → ℕ
  -- `v[i]`
  pub item : Value → ℕ → Value
  -- The result of `asInt`, converted to 64 bits, by its bit pattern.
  pub as_int : Value → Outcome ℕ
  pub as_int64 : Value → Outcome ℕ
  pub as_string : Value → Outcome Text
  -- `StreamWriter::write` to a string.
  pub write : Value → Option Text
  -- `CharReader::parse`
  pub parse : Text → Option Value

-- The values that an int can have, as 64-bit patterns.
abbrev pub FitsInt : ℕ → Type 0
FitsInt n = (n < 2 ^ 31) ⊎ ((2 ^ 64 - 2 ^ 31 ≤ n) × (n < 2 ^ 64))

module _ (j : Json) where
  open j use {
    Value, null, int, string, append, assign, member, size, item, as_int, as_string, write, parse,
  }

  -- The values that are arrays and objects by how they were built.
  pub data IsArray : Value → Type 0 where
    no_items : IsArray null
    appended : (v x : Value) → IsArray v → IsArray (append v x)

  pub data IsObject : Value → Type 0 where
    no_members : IsObject null
    assigned : (v : Value) (k : Text) (x : Value) → IsObject v → IsObject (assign v k x)

  -- What the code relies on, as the library documents it.
  pub record JsonLaws : Type 0 where
    pub size-null : size null ≡ 0
    pub size-append : (v x : Value) → IsArray v → size (append v x) ≡ suc (size v)
    pub item-append_last : (v x : Value) → IsArray v → item (append v x) (size v) ≡ x
    pub item-append :
        (v x : Value) (i : ℕ) → IsArray v → i < size v → item (append v x) i ≡ item v i
    pub member-assign_same : (v x : Value) (k : Text) → IsObject v → member (assign v k x) k ≡ x
    pub member-assign :
        (v x : Value) (k l : Text) → IsObject v → k ≢ l → member (assign v k x) l ≡ member v l
    pub as_int-int : (n : ℕ) → FitsInt n → as_int (int n) ≡ ok n
    pub as_int-int_large : (n : ℕ) → ¬ FitsInt n → as_int (int n) ≡ fail json_error
    pub as_string-string : (s : Text) → as_string (string s) ≡ ok s
    pub parse-write : (v : Value) (s : Text) → write v ≡ some s → parse s ≡ some v

  -- A member of an object, in one equation.
  pub member-assign_if :
      JsonLaws
      → (v x : Value) (k l : Text) → IsObject v
      → member (assign v k x) l ≡ (if text_eq k l then x else member v l)
  member-assign_if laws v x k l o = elim (Bool-cases (text_eq k l)) [
    | inl e ↦ rw (e, (text_eq_iff k l).0 e) (laws.member-assign_same v x l o)
    | inr e ↦ rw e (laws.member-assign v x k l o (λ same. ground (arith, text_eq_iff k l)))
  ]

-- ===== src/Json/Example.antt =====
-- A concrete library that the laws of `Json` hold of: values by how they were built, written in
-- prefix order.
use mathlib.Core.Path.{subst}
use mathlib.Core.Option.{some-injective}
use async_log_cloud_storage.Base.{
  ℕ, zero, suc, ◌+◌, ◌-◌, ◌^◌, ◌≤◌, ◌≡◌, refl, ◌⊎◌, inl, inr, Bool, true, false, ◌&&◌, ◌||◌, [],
  ◌∷◌, ◌++◌, append_assoc, append-nil, Text, Option, none, some, Outcome, ok, fail, json_error, leb,
  ltb, Bool-cases, ◌==◌, if◌then◌else◌, length, take, drop, text_eq, text_eq_self, text_eq_iff,
  arith, length-append, take_append, drop_append,
}
use async_log_cloud_storage.Json.{Json, FitsInt, JsonLaws}

pub data Value : Type 0 where
  null : Value
  int : ℕ → Value
  string : Text → Value
  append : Value → Value → Value
  assign : Value → Text → Value → Value

-- Each value starts with its kind and a number.
unfoldable pub encode : Value → Text
encode null = 0 ∷ 0 ∷ []
encode (int n) = 1 ∷ n ∷ []
encode (string s) = 2 ∷ length s ∷ s
encode (append v x) = 3 ∷ 0 ∷ encode v ++ encode x
encode (assign v k x) = 4 ∷ length k ∷ k ++ (encode v ++ encode x)

depth : Value → ℕ
depth null = 1
depth (int n) = 1
depth (string s) = 1
depth (append v x) = suc (depth v + depth x)
depth (assign v k x) = suc (depth v + depth x)

abbrev Parsed : Type 0
Parsed = Option (Value × Text)

abbrev then_parse : Parsed → (Value → Text → Parsed) → Parsed
then_parse none k = none
then_parse (some (v, rest)) k = k v rest

-- Two values behind one another, each parsed by `p`.
abbrev two : (Text → Parsed) → (Value → Value → Value) → Text → Parsed
two p make s = then_parse (p s) λ v r. then_parse (p r) λ x rest. some (make v x, rest)

abbrev node : (Text → Parsed) → ℕ → ℕ → Text → Parsed
node p kind n s =
    if kind == 0
    then some (null, s)
    else if kind == 1
    then some (int n, s)
    else if kind == 2
    then some (string (take n s), drop n s)
    else if kind == 3
    then two p append s
    else two p (λ v x. assign v (take n s) x) (drop n s)

unfoldable pub decode : ℕ → Text → Parsed
decode zero s = none
decode (suc f) [] = none
decode (suc f) (kind ∷ []) = none
decode (suc f) (kind ∷ n ∷ s) = node (decode f) kind n s

two-encode :
    (p : Text → Parsed) (make : Value → Value → Value) (v x : Value) (rest : Text)
    → p (encode v ++ (encode x ++ rest)) ≡ some (v, encode x ++ rest)
    → p (encode x ++ rest) ≡ some (x, rest)
    → two p make ((encode v ++ encode x) ++ rest) ≡ some (make v x, rest)
two-encode p make v x rest first second =
    rw (append_assoc (encode v) (encode x) rest, first, second) refl

decode-encode :
    (f : ℕ) (v : Value) (rest : Text) → depth v ≤ f → decode f (encode v ++ rest) ≡ some (v, rest)
unfolding decode encode depth
decode-encode zero null rest h = absurd (omega arith)
decode-encode zero (int n) rest h = absurd (omega arith)
decode-encode zero (string s) rest h = absurd (omega arith)
decode-encode zero (append v x) rest h = absurd (omega arith)
decode-encode zero (assign v k x) rest h = absurd (omega arith)
decode-encode (suc f) null rest h = refl
decode-encode (suc f) (int n) rest h = refl
decode-encode (suc f) (string s) rest h = rw (take_append s rest, drop_append s rest) refl
decode-encode (suc f) (append v x) rest h =
    two-encode (decode f) append v x rest (decode-encode f v (encode x ++ rest) (omega arith))
      (decode-encode f x rest (omega arith))
decode-encode (suc f) (assign v k x) rest h =
    rw
      (
        append_assoc k (encode v ++ encode x) rest,
        take_append k ((encode v ++ encode x) ++ rest),
        drop_append k ((encode v ++ encode x) ++ rest),
      )
      (two-encode (decode f) (λ a b. assign a k b) v x rest
        (decode-encode f v (encode x ++ rest) (omega arith)) (decode-encode f x rest (omega arith)))

depth-le-length : (v : Value) → depth v ≤ length (encode v)
unfolding depth encode
depth-le-length null = omega arith
depth-le-length (int n) = omega arith
depth-le-length (string s) = omega arith
depth-le-length (append v x) =
    omega (arith, depth-le-length v, depth-le-length x, length-append (encode v) (encode x))
depth-le-length (assign v k x) = omega (
  arith,
  depth-le-length v,
  depth-le-length x,
  length-append k (encode v ++ encode x),
  length-append (encode v) (encode x),
)

pub size : Value → ℕ
size (append v x) = suc (size v)
size _ = 0

pub item : Value → ℕ → Value
item (append v x) i = if i == size v then x else item v i
item v i = null

unfoldable pub member : Value → Text → Value
member (assign v k x) l = if text_eq k l then x else member v l
member v l = null

abbrev fits_int : ℕ → Bool
fits_int n = ltb n (2 ^ 31) || leb (2 ^ 64 - 2 ^ 31) n && ltb n (2 ^ 64)

fits : (n : ℕ) → fits_int n ≡ true → FitsInt n
fits n h = ground arith

unfoldable pub as_int : Value → Outcome ℕ
as_int (int n) = if fits_int n then ok n else fail json_error
as_int null = ok 0
as_int _ = fail json_error

unfoldable pub as_int64 : Value → Outcome ℕ
as_int64 (int n) = ok n
as_int64 null = ok 0
as_int64 _ = fail json_error

unfoldable pub as_string : Value → Outcome Text
as_string (string s) = ok s
as_string null = ok []
as_string _ = fail json_error

unfoldable pub parse : Text → Option Value
parse s = elim (decode (length s) s) [ none ↦ none | some (v, rest) ↦ some v ]

abbrev pub example_json : Json
example_json = record {
  Value = Value;
  null = null;
  int = int;
  string = string;
  append = append;
  assign = assign;
  member = member;
  size = size;
  item = item;
  as_int = as_int;
  as_int64 = as_int64;
  as_string = as_string;
  write = λ v. some (encode v);
  parse = parse;
}

parse-encode : (v : Value) → parse (encode v) ≡ some v
unfolding parse
parse-encode v = ground (arith, read)
  where
    read : decode (length (encode v)) (encode v) ≡ some (v, [])
    read =
        subst (λ t. decode (length (encode v)) t ≡ some (v, [])) (append-nil (encode v))
          (decode-encode (length (encode v)) v [] (depth-le-length v))

large :
    (n : ℕ)
    → (fits_int n ≡ true) ⊎ (fits_int n ≡ false)
    → ¬ FitsInt n
    → as_int (int n) ≡ fail json_error
unfolding as_int
large n (inl e) h = absurd (h (fits n e))
large n (inr e) h = rw e refl

pub example_json-laws : JsonLaws example_json
unfolding size item member as_int as_string
example_json-laws = record {
  size-null = refl;
  size-append = λ v x _. refl;
  item-append_last = λ v x _. ground arith;
  item-append = λ v x i _ h. ground arith;
  member-assign_same = λ v x k _. rw (text_eq_self k) refl;
  member-assign = λ v x k l _ h. ground (arith, text_eq_iff k l);
  as_int-int = λ n h. ground arith;
  as_int-int_large = λ n h. large n (Bool-cases (fits_int n)) h;
  as_string-string = λ s. refl;
  parse-write = λ v s h. rw (← some-injective _ _ h) (parse-encode v);
}

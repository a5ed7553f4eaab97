-- ===== src/Base/Lists.antt =====
-- Lists measured and cut by native numbers, under the library's names, and `std::vector`'s resize
-- and `std::copy` over them.
use Prim.Native.Nat.{ℕ, zero, suc, ◌+◌, ◌-◌, ◌≤◌, min}
use mathlib.Core.Path.{◌≡◌, refl, ap, ◌∙◌}
use mathlib.Core.List.{List, [], ◌∷◌, ◌++◌, append_assoc, append-nil}
use native.Mathlib.Omega.{arith}

module _ {ℓ} {A : Type ℓ} where
  abbrev pub length : List A → ℕ
  length [] = 0
  length (x ∷ xs) = suc (length xs)

  abbrev pub take : ℕ → List A → List A
  take zero xs = []
  take (suc n) [] = []
  take (suc n) (x ∷ xs) = x ∷ take n xs

  abbrev pub drop : ℕ → List A → List A
  drop zero xs = xs
  drop (suc n) [] = []
  drop (suc n) (x ∷ xs) = drop n xs

  abbrev pub replicate : ℕ → A → List A
  replicate zero a = []
  replicate (suc n) a = a ∷ replicate n a

  abbrev pub flatten : List (List A) → List A
  flatten [] = []
  flatten (xs ∷ xss) = xs ++ flatten xss

  pub flatten-append : (xss yss : List (List A)) → flatten (xss ++ yss) ≡ flatten xss ++ flatten yss
  flatten-append [] yss = refl
  flatten-append (xs ∷ xss) yss = simp (flatten-append xss yss, append_assoc)

  pub flatten-snoc :
      (xss : List (List A)) (ys : List A) → flatten (xss ++ ys ∷ []) ≡ flatten xss ++ ys
  flatten-snoc xss ys = flatten-append xss (ys ∷ []) ∙ ap (◌++◌ (flatten xss)) (append-nil ys)

  pub take-drop : (k : ℕ) (xs : List A) → xs ≡ take k xs ++ drop k xs
  take-drop zero xs = refl
  take-drop (suc k) [] = refl
  take-drop (suc k) (x ∷ xs) = ap (◌∷◌ x) (take-drop k xs)

  pub length-append : (xs ys : List A) → length (xs ++ ys) ≡ length xs + length ys
  length-append [] ys = omega arith
  length-append (x ∷ xs) ys = omega (arith, length-append xs ys)

  pub length-take : (n : ℕ) (xs : List A) → length (take n xs) ≡ min n (length xs)
  length-take zero xs = omega arith
  length-take (suc n) [] = omega arith
  length-take (suc n) (x ∷ xs) = omega (arith, length-take n xs)

  pub length-drop : (n : ℕ) (xs : List A) → length (drop n xs) ≡ length xs - n
  length-drop zero xs = omega arith
  length-drop (suc n) [] = omega arith
  length-drop (suc n) (x ∷ xs) = omega (arith, length-drop n xs)

  pub length-replicate : (n : ℕ) (a : A) → length (replicate n a) ≡ n
  length-replicate zero a = refl
  length-replicate (suc n) a = ap suc (length-replicate n a)

  pub take-append_of_le : (n : ℕ) (xs ys : List A) → n ≤ length xs → take n (xs ++ ys) ≡ take n xs
  take-append_of_le zero xs ys h = refl
  take-append_of_le (suc n) [] ys h = absurd (omega arith)
  take-append_of_le (suc n) (x ∷ xs) ys h = ap (◌∷◌ x) (take-append_of_le n xs ys (omega arith))

  pub take-take : (m n : ℕ) (xs : List A) → m ≤ n → take m (take n xs) ≡ take m xs
  take-take zero n xs h = refl
  take-take (suc m) zero xs h = absurd (omega arith)
  take-take (suc m) (suc n) [] h = refl
  take-take (suc m) (suc n) (x ∷ xs) h = ap (◌∷◌ x) (take-take m n xs (omega arith))

  pub take-append_add :
      (n k : ℕ) (xs ys : List A) → length xs ≡ n → take (n + k) (xs ++ ys) ≡ xs ++ take k ys
  take-append_add n k [] ys h = rw (e, z) refl
    where
      e : n ≡ 0
      e = omega arith

      z : 0 + k ≡ k
      z = omega arith
  take-append_add zero k (x ∷ xs) ys h = absurd (omega arith)
  take-append_add (suc n) k (x ∷ xs) ys h =
      rw (s) (ap (◌∷◌ x) (take-append_add n k xs ys (omega arith)))
    where
      s : suc n + k ≡ suc (n + k)
      s = omega arith

  pub drop_append : (xs ys : List A) → drop (length xs) (xs ++ ys) ≡ ys
  drop_append [] ys = refl
  drop_append (x ∷ xs) ys = drop_append xs ys

  pub take_append : (xs ys : List A) → take (length xs) (xs ++ ys) ≡ xs
  take_append [] ys = refl
  take_append (x ∷ xs) ys = ap (◌∷◌ x) (take_append xs ys)

  pub take-length : (xs : List A) → take (length xs) xs ≡ xs
  take-length [] = refl
  take-length (x ∷ xs) = ap (◌∷◌ x) (take-length xs)

  pub take_all : (n : ℕ) (xs : List A) → length xs ≤ n → take n xs ≡ xs
  take_all zero [] h = refl
  take_all zero (x ∷ xs) h = absurd (omega arith)
  take_all (suc n) [] h = refl
  take_all (suc n) (x ∷ xs) h = ap (◌∷◌ x) (take_all n xs (omega arith))

  pub drop-append_of_le :
      (n : ℕ) (xs ys : List A) → n ≤ length xs → drop n (xs ++ ys) ≡ drop n xs ++ ys
  drop-append_of_le zero xs ys h = refl
  drop-append_of_le (suc n) [] ys h = absurd (omega arith)
  drop-append_of_le (suc n) (x ∷ xs) ys h = drop-append_of_le n xs ys (omega arith)

  pub drop-take : (n m : ℕ) (xs : List A) → drop n (take m xs) ≡ take (m - n) (drop n xs)
  drop-take zero m xs = rw (z) refl
    where
      z : m - 0 ≡ m
      z = omega arith
  drop-take (suc n) zero xs = rw (z) refl
    where
      z : 0 - suc n ≡ 0
      z = omega arith
  drop-take (suc n) (suc m) [] = rw (take-nil (suc m - suc n)) refl
    where
      take-nil : (k : ℕ) → take k (let e : List A = [] in e) ≡ []
      take-nil zero = refl
      take-nil (suc k) = refl
  drop-take (suc n) (suc m) (x ∷ xs) = rw (s) (drop-take n m xs)
    where
      s : suc m - suc n ≡ m - n
      s = omega arith

  pub drop_all : (n : ℕ) (xs : List A) → length xs ≤ n → drop n xs ≡ []
  drop_all zero [] h = refl
  drop_all zero (x ∷ xs) h = absurd (omega arith)
  drop_all (suc n) [] h = refl
  drop_all (suc n) (x ∷ xs) h = drop_all n xs (omega arith)

  -- `std::vector::resize`: cut, or padded with the value-initialised element.
  unfoldable pub resize : A → ℕ → List A → List A
  resize pad n xs = take n xs ++ replicate (n - length xs) pad

  -- `std::copy` of `ys` to the position `at`, inside the bounds of `xs`.
  unfoldable pub overwrite : ℕ → List A → List A → List A
  overwrite at ys xs = take at xs ++ (ys ++ drop (at + length ys) xs)

  pub length-resize : (pad : A) (n : ℕ) (xs : List A) → length (resize pad n xs) ≡ n
  unfolding resize
  length-resize pad n xs = omega (
    arith,
    length-append (take n xs) (replicate (n - length xs) pad),
    length-take n xs,
    length-replicate (n - length xs) pad,
  )

  pub take-resize :
      (pad : A) (k n : ℕ) (xs : List A)
      → k ≤ n
      → k ≤ length xs
      → take k (resize pad n xs) ≡ take k xs
  unfolding resize
  take-resize pad k n xs h g =
      rw
        (take-append_of_le k (take n xs) (replicate (n - length xs) pad)
          (omega (arith, length-take n xs)))
        (take-take k n xs h)

  pub length-overwrite :
      (at : ℕ) (ys xs : List A)
      → at + length ys ≤ length xs
      → length (overwrite at ys xs) ≡ length xs
  unfolding overwrite
  length-overwrite at ys xs h = omega (
    arith,
    length-append (take at xs) (ys ++ drop (at + length ys) xs),
    length-append ys (drop (at + length ys) xs),
    length-take at xs,
    length-drop (at + length ys) xs,
  )

  -- The first bytes after a copy: the old ones up to its start, then the copied ones.
  pub take-overwrite :
      (at : ℕ) (ys xs : List A)
      → at ≤ length xs
      → take (at + length ys) (overwrite at ys xs) ≡ take at xs ++ ys
  unfolding overwrite
  take-overwrite at ys xs h =
      rw
        (take-append_add at (length ys) (take at xs) (ys ++ drop (at + length ys) xs)
          (omega (arith, length-take at xs)))
        (ap (◌++◌ (take at xs)) whole)
    where
      whole : take (length ys) (ys ++ drop (at + length ys) xs) ≡ ys
      whole =
          rw (take-append_of_le (length ys) ys (drop (at + length ys) xs) (omega arith))
            (take-length ys)

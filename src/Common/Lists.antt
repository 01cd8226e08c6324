-- ===== src/Common/Lists.antt =====
-- C arrays as lists measured and indexed by native numbers, under the library's names.
use Prim.Native.Nat.{ℕ, zero, suc, ◌+◌, ◌-◌, ◌<◌, ◌≤◌, min}
use mathlib.Core.Path.{◌≡◌, refl, ap, sym, ◌∙◌}
use mathlib.Core.List.{List, [], ◌∷◌, ◌++◌, append-nil}
use native.Mathlib.Omega.{arith}

module _ {ℓ} {A : Type ℓ} where
  abbrev pub length : List A → ℕ
  length [] = 0
  length (x ∷ xs) = suc (length xs)

  abbrev pub get_or : List A → ℕ → A → A
  get_or [] i d = d
  get_or (x ∷ xs) zero d = x
  get_or (x ∷ xs) (suc i) d = get_or xs i d

  -- A write out of bounds changes nothing.
  abbrev pub set : List A → ℕ → A → List A
  set [] i v = []
  set (x ∷ xs) zero v = v ∷ xs
  set (x ∷ xs) (suc i) v = x ∷ set xs i v

  abbrev pub take : ℕ → List A → List A
  take zero xs = []
  take (suc n) [] = []
  take (suc n) (x ∷ xs) = x ∷ take n xs

  abbrev pub drop : ℕ → List A → List A
  drop zero xs = xs
  drop (suc n) [] = []
  drop (suc n) (x ∷ xs) = drop n xs

  abbrev pub replicate : ℕ → A → List A
  replicate zero a = []
  replicate (suc n) a = a ∷ replicate n a

  pub length-append : (xs ys : List A) → length (xs ++ ys) ≡ length xs + length ys
  length-append [] ys = omega arith
  length-append (x ∷ xs) ys = omega (arith, length-append xs ys)

  pub length-set : (xs : List A) (i : ℕ) (v : A) → length (set xs i v) ≡ length xs
  length-set [] i v = refl
  length-set (x ∷ xs) zero v = refl
  length-set (x ∷ xs) (suc i) v = ap suc (length-set xs i v)

  pub get_or-set_self :
      (xs : List A) (i : ℕ) (v d : A) → i < length xs → get_or (set xs i v) i d ≡ v
  get_or-set_self [] i v d h = absurd (omega arith)
  get_or-set_self (x ∷ xs) zero v d h = refl
  get_or-set_self (x ∷ xs) (suc i) v d h = get_or-set_self xs i v d (omega arith)

  pub length-take : (n : ℕ) (xs : List A) → length (take n xs) ≡ min n (length xs)
  length-take zero xs = omega arith
  length-take (suc n) [] = omega arith
  length-take (suc n) (x ∷ xs) = omega (arith, length-take n xs)

  pub length-drop : (n : ℕ) (xs : List A) → length (drop n xs) ≡ length xs - n
  length-drop zero xs = omega arith
  length-drop (suc n) [] = omega arith
  length-drop (suc n) (x ∷ xs) = omega (arith, length-drop n xs)

  pub length-replicate : (n : ℕ) (a : A) → length (replicate n a) ≡ n
  length-replicate zero a = refl
  length-replicate (suc n) a = ap suc (length-replicate n a)

  pub take-append_self : (xs ys : List A) → take (length xs) (xs ++ ys) ≡ xs
  take-append_self [] ys = refl
  take-append_self (x ∷ xs) ys = ap (◌∷◌ x) (take-append_self xs ys)

  pub take_all : (n : ℕ) (xs : List A) → length xs ≤ n → take n xs ≡ xs
  take_all zero [] h = refl
  take_all zero (x ∷ xs) h = absurd (omega arith)
  take_all (suc n) [] h = refl
  take_all (suc n) (x ∷ xs) h = ap (◌∷◌ x) (take_all n xs (omega arith))

  pub drop-append : (n : ℕ) (xs ys : List A) → n ≤ length xs → drop n (xs ++ ys) ≡ drop n xs ++ ys
  drop-append zero xs ys h = refl
  drop-append (suc n) [] ys h = absurd (omega arith)
  drop-append (suc n) (x ∷ xs) ys h = drop-append n xs ys (omega arith)

  -- One element further down the list.
  pub drop-suc :
      (n : ℕ) (xs : List A) {y : A} {ys : List A} → drop n xs ≡ y ∷ ys → drop (suc n) xs ≡ ys
  drop-suc zero [] e = cc
  drop-suc zero (x ∷ xs) e = cc
  drop-suc (suc n) [] e = cc
  drop-suc (suc n) (x ∷ xs) e = drop-suc n xs e

  -- The element at which a suffix starts.
  pub get_or-drop :
      (n : ℕ) (xs : List A) (d : A) {y : A} {ys : List A} → drop n xs ≡ y ∷ ys → get_or xs n d ≡ y
  get_or-drop zero [] d e = cc
  get_or-drop zero (x ∷ xs) d e = cc
  get_or-drop (suc n) [] d e = cc
  get_or-drop (suc n) (x ∷ xs) d e = get_or-drop n xs d e

  pub get_or-take : (n i : ℕ) (xs : List A) (d : A) → i < n → get_or (take n xs) i d ≡ get_or xs i d
  get_or-take zero i xs d h = absurd (omega arith)
  get_or-take (suc n) i [] d h = refl
  get_or-take (suc n) zero (x ∷ xs) d h = refl
  get_or-take (suc n) (suc i) (x ∷ xs) d h = get_or-take n i xs d (omega arith)

  pub drop-cons_of_lt :
      (n : ℕ) (xs : List A) (d : A) → n < length xs → drop n xs ≡ get_or xs n d ∷ drop (suc n) xs
  drop-cons_of_lt n [] d h = absurd (omega arith)
  drop-cons_of_lt zero (x ∷ xs) d h = refl
  drop-cons_of_lt (suc n) (x ∷ xs) d h = drop-cons_of_lt n xs d (omega arith)

  pub drop-nil : (n : ℕ) → drop n [] ≡ []
  drop-nil zero = refl
  drop-nil (suc n) = refl

  pub drop-drop : (m n : ℕ) (xs : List A) → drop n (drop m xs) ≡ drop (m + n) xs
  drop-drop zero n xs = let e : n ≡ zero + n = omega arith in ap (λ k. drop k xs) e
  drop-drop (suc m) n [] = drop-nil n ∙ sym (drop-nil (suc m + n))
  drop-drop (suc m) n (x ∷ xs) =
      let e : suc (m + n) ≡ suc m + n = omega arith in
      drop-drop m n xs ∙ ap (λ k. drop k (x ∷ xs)) e

  pub drop_all : (n : ℕ) (xs : List A) → length xs ≤ n → drop n xs ≡ []
  drop_all zero [] h = refl
  drop_all zero (x ∷ xs) h = absurd (omega arith)
  drop_all (suc n) [] h = refl
  drop_all (suc n) (x ∷ xs) h = drop_all n xs (omega arith)

-- `memcpy` of `xs` to the cells from `off` on; cells out of bounds are not written.
module _ {ℓ} {A : Type ℓ} where
  abbrev pub store : List A → ℕ → List A → List A
  store cells off [] = cells
  store [] off (x ∷ xs) = []
  store (c ∷ cells) zero (x ∷ xs) = x ∷ store cells zero xs
  store (c ∷ cells) (suc off) (x ∷ xs) = c ∷ store cells off (x ∷ xs)

  pub length-store :
      (cells : List A) (off : ℕ) (xs : List A) → length (store cells off xs) ≡ length cells
  length-store cells off [] = refl
  length-store [] off (x ∷ xs) = refl
  length-store (c ∷ cells) zero (x ∷ xs) = ap suc (length-store cells zero xs)
  length-store (c ∷ cells) (suc off) (x ∷ xs) = ap suc (length-store cells off (x ∷ xs))

  -- The cells up to the end of the copied block.
  pub take-store :
      (cells : List A) (off n : ℕ) (xs : List A)
      → n ≡ off + length xs
      → n ≤ length cells
      → take n (store cells off xs) ≡ take off cells ++ xs
  take-store cells off n [] e h = rw (append-nil) (ap (λ k. take k cells) (omega arith))
  take-store [] off n (x ∷ xs) e h = absurd (omega arith)
  take-store (c ∷ cells) off zero (x ∷ xs) e h = absurd (omega arith)
  take-store (c ∷ cells) zero (suc n) (x ∷ xs) e h =
      ap (◌∷◌ x) (take-store cells zero n xs (omega arith) (omega arith))
  take-store (c ∷ cells) (suc off) (suc n) (x ∷ xs) e h =
      ap (◌∷◌ c) (take-store cells off n (x ∷ xs) (omega arith) (omega arith))

  -- Writing one cell is a copy of length one.
  pub set-eq-store : (cells : List A) (off : ℕ) (x : A) → set cells off x ≡ store cells off (x ∷ [])
  set-eq-store [] off x = refl
  set-eq-store (c ∷ cells) zero x = refl
  set-eq-store (c ∷ cells) (suc off) x = ap (◌∷◌ c) (set-eq-store cells off x)

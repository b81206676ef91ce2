-- ===== src/Base/Lists.antt =====
-- Lists measured and indexed by native numbers, under the library's names.
use Prim.Native.Nat.{ℕ, zero, suc, ◌+◌, ◌-◌, ◌≤◌, ◌<◌, min}
use mathlib.Core.Path.{◌≡◌, refl, ap, ap₂, sym, ◌∙◌}
use mathlib.Core.Logic.{◌≢◌}
use mathlib.Core.List.{List, [], ◌∷◌, ◌++◌}
use native.Mathlib.Omega.{arith}

module _ {ℓ} {A : Type ℓ} where
  abbrev pub length : List A → ℕ
  length [] = 0
  length (x ∷ xs) = suc (length xs)

  abbrev pub get_or : List A → ℕ → A → A
  get_or [] i d = d
  get_or (x ∷ xs) zero d = x
  get_or (x ∷ xs) (suc i) d = get_or xs i d

  -- A write out of bounds changes nothing.
  abbrev pub set : List A → ℕ → A → List A
  set [] i v = []
  set (x ∷ xs) zero v = v ∷ xs
  set (x ∷ xs) (suc i) v = x ∷ set xs i v

  abbrev pub take : ℕ → List A → List A
  take zero xs = []
  take (suc n) [] = []
  take (suc n) (x ∷ xs) = x ∷ take n xs

  abbrev pub drop : ℕ → List A → List A
  drop zero xs = xs
  drop (suc n) [] = []
  drop (suc n) (x ∷ xs) = drop n xs

  abbrev pub replicate : ℕ → A → List A
  replicate zero a = []
  replicate (suc n) a = a ∷ replicate n a

  pub length-append : (xs ys : List A) → length (xs ++ ys) ≡ length xs + length ys
  length-append [] ys = omega arith
  length-append (x ∷ xs) ys = omega (arith, length-append xs ys)

  pub length-set : (xs : List A) (i : ℕ) (v : A) → length (set xs i v) ≡ length xs
  length-set [] i v = refl
  length-set (x ∷ xs) zero v = refl
  length-set (x ∷ xs) (suc i) v = ap suc (length-set xs i v)

  pub get_or-set_self :
      (xs : List A) (i : ℕ) (v d : A) → i < length xs → get_or (set xs i v) i d ≡ v
  get_or-set_self [] i v d h = absurd (omega arith)
  get_or-set_self (x ∷ xs) zero v d h = refl
  get_or-set_self (x ∷ xs) (suc i) v d h = get_or-set_self xs i v d (omega arith)

  pub get_or-set_ne :
      (xs : List A) (i j : ℕ) (v d : A) → i ≢ j → get_or (set xs i v) j d ≡ get_or xs j d
  get_or-set_ne [] i j v d h = refl
  get_or-set_ne (x ∷ xs) zero zero v d h = absurd (h refl)
  get_or-set_ne (x ∷ xs) zero (suc j) v d h = refl
  get_or-set_ne (x ∷ xs) (suc i) zero v d h = refl
  get_or-set_ne (x ∷ xs) (suc i) (suc j) v d h = get_or-set_ne xs i j v d (λ e. h (ap suc e))

  pub length-take : (n : ℕ) (xs : List A) → length (take n xs) ≡ min n (length xs)
  length-take zero xs = omega arith
  length-take (suc n) [] = omega arith
  length-take (suc n) (x ∷ xs) = omega (arith, length-take n xs)

  pub length-drop : (n : ℕ) (xs : List A) → length (drop n xs) ≡ length xs - n
  length-drop zero xs = omega arith
  length-drop (suc n) [] = omega arith
  length-drop (suc n) (x ∷ xs) = omega (arith, length-drop n xs)

  pub length-replicate : (n : ℕ) (a : A) → length (replicate n a) ≡ n
  length-replicate zero a = refl
  length-replicate (suc n) a = ap suc (length-replicate n a)

  pub take-append-drop : (n : ℕ) (xs : List A) → take n xs ++ drop n xs ≡ xs
  take-append-drop zero xs = refl
  take-append-drop (suc n) [] = refl
  take-append-drop (suc n) (x ∷ xs) = rw (take-append-drop n xs)

  pub take_all : (n : ℕ) (xs : List A) → length xs ≤ n → take n xs ≡ xs
  take_all zero [] h = refl
  take_all zero (x ∷ xs) h = absurd (omega arith)
  take_all (suc n) [] h = refl
  take_all (suc n) (x ∷ xs) h = ap (λ t. x ∷ t) (take_all n xs (omega arith))

  pub take-append_le : (n : ℕ) (xs ys : List A) → n ≤ length xs → take n (xs ++ ys) ≡ take n xs
  take-append_le zero xs ys h = refl
  take-append_le (suc n) [] ys h = absurd (omega arith)
  take-append_le (suc n) (x ∷ xs) ys h = ap (λ t. x ∷ t) (take-append_le n xs ys (omega arith))

  pub get_or-append_lt :
      (xs ys : List A) (i : ℕ) (d : A) → i < length xs → get_or (xs ++ ys) i d ≡ get_or xs i d
  get_or-append_lt [] ys i d h = absurd (omega arith)
  get_or-append_lt (x ∷ xs) ys zero d h = refl
  get_or-append_lt (x ∷ xs) ys (suc i) d h = get_or-append_lt xs ys i d (omega arith)

  pub get_or-append_last : (xs : List A) (y d : A) → get_or (xs ++ (y ∷ [])) (length xs) d ≡ y
  get_or-append_last [] y d = refl
  get_or-append_last (x ∷ xs) y d = get_or-append_last xs y d

  -- The values of a sequence at `i`, `i + 1`, ..., `n` of them.
  abbrev pub range : (ℕ → A) → ℕ → ℕ → List A
  range f i zero = []
  range f i (suc n) = f i ∷ range f (i + 1) n

  pub range-append : (f : ℕ → A) (i m n : ℕ) → range f i m ++ range f (i + m) n ≡ range f i (m + n)
  range-append f i zero n =
      rw (let e : i + 0 ≡ i = omega arith in e, let e : 0 + n ≡ n = omega arith in e)
  range-append f i (suc m) n =
      rw
        (
          let e : i + suc m ≡ i + 1 + m = omega arith in e,
          let e : suc m + n ≡ suc (m + n) = omega arith in e,
        )
        (ap (λ t. f i ∷ t) (range-append f (i + 1) m n))

  pub range_ext :
      (f g : ℕ → A) (i j n : ℕ)
      → ((k : ℕ) → k < n → f (i + k) ≡ g (j + k))
      → range f i n ≡ range g j n
  range_ext f g i j zero h = refl
  range_ext f g i j (suc n) h =
      ap₂ ◌∷◌
        (let e : i + 0 ≡ i = omega arith in
          let e' : j + 0 ≡ j = omega arith in ap f (sym e) ∙ h 0 (omega arith) ∙ ap g e')
        (range_ext f g (i + 1) (j + 1) n λ k hk.
          let e : i + 1 + k ≡ i + suc k = omega arith in
          let e' : j + 1 + k ≡ j + suc k = omega arith in
          ap f e ∙ h (suc k) (omega arith) ∙ ap g (sym e'))

  -- Reading positions `i`, `i + 1`, ... of a list is a slice of it.
  pub range-get_or :
      (xs : List A) (d : A) (i n : ℕ)
      → i + n ≤ length xs
      → range (λ k. get_or xs k d) i n ≡ take n (drop i xs)
  range-get_or xs d i zero h = refl
  range-get_or [] d i (suc n) h = absurd (omega arith)
  range-get_or (x ∷ xs) d zero (suc n) h =
      ap (λ t. x ∷ t)
        (range_ext (λ k. get_or (x ∷ xs) k d) (λ k. get_or xs k d) 1 0 n (λ k hk. shift k)
          ∙ range-get_or xs d 0 n (omega arith))
    where
      shift : (k : ℕ) → get_or (x ∷ xs) (1 + k) d ≡ get_or xs (0 + k) d
      shift k =
          let e : 1 + k ≡ suc k = omega arith in let e' : 0 + k ≡ k = omega arith in rw (e, e')
  range-get_or (x ∷ xs) d (suc i) (suc n) h =
      range_ext (λ k. get_or (x ∷ xs) k d) (λ k. get_or xs k d) (suc i) i (suc n) (λ k hk. shift k)
      ∙ range-get_or xs d i (suc n) (omega arith)
    where
      shift : (k : ℕ) → get_or (x ∷ xs) (suc i + k) d ≡ get_or xs (i + k) d
      shift k = let e : suc i + k ≡ suc (i + k) = omega arith in rw e

-- A place of `a` in a list.
pub data In {ℓ} {A : Type ℓ} (a : A) : List A → Type ℓ where
  first : {xs : List A} → In a (a ∷ xs)
  later : {x : A} {xs : List A} → In a xs → In a (x ∷ xs)

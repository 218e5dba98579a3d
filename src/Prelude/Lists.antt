-- ===== src/Prelude/Lists.antt =====
-- Lists measured and indexed by native numbers, under the library's names.
use Prim.Native.Nat.{ℕ, zero, suc, ◌+◌, ◌-◌, ◌≤◌, ◌<◌, min}
use mathlib.Core.Path.{◌∙◌, ◌≡◌, refl, ap}
use mathlib.Core.Logic.{◌≢◌}
use mathlib.Core.List.{List, [], ◌∷◌, ◌++◌}
use native.Mathlib.Omega.{arith}

module _ {ℓ} {A : Type ℓ} where
  abbrev pub length : List A → ℕ
  length [] = 0
  length (x ∷ xs) = suc (length xs)

  abbrev pub get_or : List A → ℕ → A → A
  get_or [] i d = d
  get_or (x ∷ xs) zero d = x
  get_or (x ∷ xs) (suc i) d = get_or xs i d

  -- A write out of bounds changes nothing.
  abbrev pub set : List A → ℕ → A → List A
  set [] i v = []
  set (x ∷ xs) zero v = v ∷ xs
  set (x ∷ xs) (suc i) v = x ∷ set xs i v

  abbrev pub take : ℕ → List A → List A
  take zero xs = []
  take (suc n) [] = []
  take (suc n) (x ∷ xs) = x ∷ take n xs

  abbrev pub drop : ℕ → List A → List A
  drop zero xs = xs
  drop (suc n) [] = []
  drop (suc n) (x ∷ xs) = drop n xs

  abbrev pub replicate : ℕ → A → List A
  replicate zero a = []
  replicate (suc n) a = a ∷ replicate n a

module _ {ℓ} {A : Type ℓ} where
  pub length-append : (xs ys : List A) → length (xs ++ ys) ≡ length xs + length ys
  length-append [] ys = omega arith
  length-append (x ∷ xs) ys = omega (arith, length-append xs ys)

  pub length-set : (xs : List A) (i : ℕ) (v : A) → length (set xs i v) ≡ length xs
  length-set [] i v = refl
  length-set (x ∷ xs) zero v = refl
  length-set (x ∷ xs) (suc i) v = ap suc (length-set xs i v)

  pub get_or-set_self :
      (xs : List A) (i : ℕ) (v d : A) → i < length xs → get_or (set xs i v) i d ≡ v
  get_or-set_self [] i v d h = absurd (omega arith)
  get_or-set_self (x ∷ xs) zero v d h = refl
  get_or-set_self (x ∷ xs) (suc i) v d h = get_or-set_self xs i v d (omega arith)

  pub get_or-set_ne :
      (xs : List A) (i j : ℕ) (v d : A) → i ≢ j → get_or (set xs i v) j d ≡ get_or xs j d
  get_or-set_ne [] i j v d h = refl
  get_or-set_ne (x ∷ xs) zero zero v d h = absurd (h refl)
  get_or-set_ne (x ∷ xs) zero (suc j) v d h = refl
  get_or-set_ne (x ∷ xs) (suc i) zero v d h = refl
  get_or-set_ne (x ∷ xs) (suc i) (suc j) v d h = get_or-set_ne xs i j v d (λ e. h (ap suc e))

  pub length-take : (n : ℕ) (xs : List A) → length (take n xs) ≡ min n (length xs)
  length-take zero xs = omega arith
  length-take (suc n) [] = omega arith
  length-take (suc n) (x ∷ xs) = omega (arith, length-take n xs)

  pub length-drop : (n : ℕ) (xs : List A) → length (drop n xs) ≡ length xs - n
  length-drop zero xs = omega arith
  length-drop (suc n) [] = omega arith
  length-drop (suc n) (x ∷ xs) = omega (arith, length-drop n xs)

  pub length-replicate : (n : ℕ) (a : A) → length (replicate n a) ≡ n
  length-replicate zero a = refl
  length-replicate (suc n) a = ap suc (length-replicate n a)

  pub take-all : (n : ℕ) (xs : List A) → length xs ≤ n → take n xs ≡ xs
  take-all zero [] h = refl
  take-all zero (x ∷ xs) h = absurd (omega arith)
  take-all (suc n) [] h = refl
  take-all (suc n) (x ∷ xs) h = ap (◌∷◌ x) (take-all n xs (omega arith))

  pub take-append_exact : (n : ℕ) (xs ys : List A) → n ≡ length xs → take n (xs ++ ys) ≡ xs
  take-append_exact zero [] ys e = refl
  take-append_exact zero (x ∷ xs) ys e = absurd (omega arith)
  take-append_exact (suc n) [] ys e = absurd (omega arith)
  take-append_exact (suc n) (x ∷ xs) ys e = ap (◌∷◌ x) (take-append_exact n xs ys (omega arith))

  pub drop-append_exact : (n : ℕ) (xs ys : List A) → n ≡ length xs → drop n (xs ++ ys) ≡ ys
  drop-append_exact zero [] ys e = refl
  drop-append_exact zero (x ∷ xs) ys e = absurd (omega arith)
  drop-append_exact (suc n) [] ys e = absurd (omega arith)
  drop-append_exact (suc n) (x ∷ xs) ys e = drop-append_exact n xs ys (omega arith)

  -- The next `n` elements behind the first `k`
  pub take-drop_append :
      (m r : List A) (k n j : ℕ)
      → j ≡ k + n
      → j ≤ length m
      → drop k (m ++ r) ≡ take n (drop k m) ++ drop j (m ++ r)
  take-drop_append m r zero zero zero e le = refl
  take-drop_append m r zero zero (suc j) e le = absurd (omega arith)
  take-drop_append m r zero (suc n) zero e le = absurd (omega arith)
  take-drop_append [] r zero (suc n) (suc j) e le = absurd (omega arith)
  take-drop_append (x ∷ m) r zero (suc n) (suc j) e le =
      ap (λ xs. x ∷ xs) (take-drop_append m r zero n j (omega arith) (omega arith))
  take-drop_append [] r (suc k) n j e le = absurd (omega arith)
  take-drop_append (x ∷ m) r (suc k) n zero e le = absurd (omega arith)
  take-drop_append (x ∷ m) r (suc k) n (suc j) e le =
      take-drop_append m r k n j (omega arith) (omega arith)

  pub take-drop_append_exact :
      (m r : List A) (k n : ℕ) → k + n ≡ length m → drop k (m ++ r) ≡ take n (drop k m) ++ r
  take-drop_append_exact m r k n e =
      take-drop_append m r k n (k + n) refl (omega arith)
      ∙ ap (λ xs. take n (drop k m) ++ xs) (drop-append_exact (k + n) m r e)

  pub drop-nil : (n : ℕ) (xs : List A) → length xs ≤ n → drop n xs ≡ []
  drop-nil zero [] h = refl
  drop-nil zero (x ∷ xs) h = absurd (omega arith)
  drop-nil (suc n) [] h = refl
  drop-nil (suc n) (x ∷ xs) h = drop-nil n xs (omega arith)

  pub drop-drop : (n m k : ℕ) (xs : List A) → k ≡ m + n → drop n (drop m xs) ≡ drop k xs
  drop-drop n zero k xs e = ap (λ j. drop j xs) (omega arith)
  drop-drop zero (suc m) zero xs e = absurd (omega arith)
  drop-drop zero (suc m) (suc k) [] e = refl
  drop-drop (suc n) (suc m) zero [] e = refl
  drop-drop (suc n) (suc m) (suc k) [] e = refl
  drop-drop (suc n) (suc m) zero (x ∷ xs) e = absurd (omega arith)
  drop-drop n (suc m) (suc k) (x ∷ xs) e = drop-drop n m k xs (omega arith)

  pub drop-take : (n k j : ℕ) (xs : List A) → j ≡ n + k → drop n (take j xs) ≡ take k (drop n xs)
  drop-take zero k j xs e = ap (λ m. take m xs) (omega arith)
  drop-take (suc n) k zero xs e = absurd (omega arith)
  drop-take (suc n) zero (suc j) [] e = refl
  drop-take (suc n) (suc k) (suc j) [] e = refl
  drop-take (suc n) k (suc j) (x ∷ xs) e = drop-take n k j xs (omega arith)

  pub take-append-drop : (n : ℕ) (xs : List A) → take n xs ++ drop n xs ≡ xs
  take-append-drop zero xs = refl
  take-append-drop (suc n) [] = refl
  take-append-drop (suc n) (x ∷ xs) = ap (◌∷◌ x) (take-append-drop n xs)

  pub set-get_or : (xs : List A) (i : ℕ) (d : A) → set xs i (get_or xs i d) ≡ xs
  set-get_or [] i d = refl
  set-get_or (x ∷ xs) zero d = refl
  set-get_or (x ∷ xs) (suc i) d = ap (◌∷◌ x) (set-get_or xs i d)

  pub take-take : (k j : ℕ) (xs : List A) → k ≤ j → take k (take j xs) ≡ take k xs
  take-take zero j xs le = refl
  take-take (suc k) zero xs le = absurd (omega arith)
  take-take (suc k) (suc j) [] le = refl
  take-take (suc k) (suc j) (x ∷ xs) le = ap (λ ys. x ∷ ys) (take-take k j xs (omega arith))

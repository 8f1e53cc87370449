-- ===== src/Base/Lists.antt =====
-- Lists measured and indexed by native numbers, under the library's names, and the memory
-- operations of C on them.
use Prim.Native.Nat.{ℕ, zero, suc, ◌+◌, ◌-◌, ◌≤◌, ◌<◌, min}
use mathlib.Core.Path.{◌≡◌, refl, ap}
use mathlib.Core.List.{List, [], ◌∷◌, ◌++◌}
use mathlib.Core.Option.{Option, none, some}
use native.Mathlib.Omega.{arith}

module _ {ℓ} {A : Type ℓ} where
  abbrev pub length : List A → ℕ
  length [] = 0
  length (x ∷ xs) = suc (length xs)

  abbrev pub get_elem? : List A → ℕ → Option A
  get_elem? [] i = none
  get_elem? (x ∷ xs) zero = some x
  get_elem? (x ∷ xs) (suc i) = get_elem? xs i

  abbrev pub get_or : List A → ℕ → A → A
  get_or [] i d = d
  get_or (x ∷ xs) zero d = x
  get_or (x ∷ xs) (suc i) d = get_or xs i d

  -- A write out of bounds changes nothing.
  abbrev pub set : List A → ℕ → A → List A
  set [] i v = []
  set (x ∷ xs) zero v = v ∷ xs
  set (x ∷ xs) (suc i) v = x ∷ set xs i v

  abbrev pub take : ℕ → List A → List A
  take zero xs = []
  take (suc n) [] = []
  take (suc n) (x ∷ xs) = x ∷ take n xs

  abbrev pub drop : ℕ → List A → List A
  drop zero xs = xs
  drop (suc n) [] = []
  drop (suc n) (x ∷ xs) = drop n xs

  abbrev pub replicate : ℕ → A → List A
  replicate zero a = []
  replicate (suc n) a = a ∷ replicate n a

module _ {ℓ} {A : Type ℓ} where
  pub length-append : (xs ys : List A) → length (xs ++ ys) ≡ length xs + length ys
  length-append [] ys = omega arith
  length-append (x ∷ xs) ys = omega (arith, length-append xs ys)

  pub length-set : (xs : List A) (i : ℕ) (v : A) → length (set xs i v) ≡ length xs
  length-set [] i v = refl
  length-set (x ∷ xs) zero v = refl
  length-set (x ∷ xs) (suc i) v = ap suc (length-set xs i v)

  pub length-take : (n : ℕ) (xs : List A) → length (take n xs) ≡ min n (length xs)
  length-take zero xs = omega arith
  length-take (suc n) [] = omega arith
  length-take (suc n) (x ∷ xs) = omega (arith, length-take n xs)

  pub length-drop : (n : ℕ) (xs : List A) → length (drop n xs) ≡ length xs - n
  length-drop zero xs = omega arith
  length-drop (suc n) [] = omega arith
  length-drop (suc n) (x ∷ xs) = omega (arith, length-drop n xs)

  pub length-replicate : (n : ℕ) (a : A) → length (replicate n a) ≡ n
  length-replicate zero a = refl
  length-replicate (suc n) a = ap suc (length-replicate n a)

  pub take-append : (xs ys : List A) (n : ℕ) → n ≡ length xs → take n (xs ++ ys) ≡ xs
  take-append [] ys zero e = refl
  take-append [] ys (suc n) e = absurd (omega arith)
  take-append (x ∷ xs) ys zero e = absurd (omega arith)
  take-append (x ∷ xs) ys (suc n) e = ap (◌∷◌ x) (take-append xs ys n (omega arith))

  pub drop-append : (xs ys : List A) (n : ℕ) → n ≡ length xs → drop n (xs ++ ys) ≡ ys
  drop-append [] ys zero e = refl
  drop-append [] ys (suc n) e = absurd (omega arith)
  drop-append (x ∷ xs) ys zero e = absurd (omega arith)
  drop-append (x ∷ xs) ys (suc n) e = drop-append xs ys n (omega arith)

  pub take_all : (n : ℕ) (xs : List A) → length xs ≤ n → take n xs ≡ xs
  take_all zero [] h = refl
  take_all zero (x ∷ xs) h = absurd (omega arith)
  take_all (suc n) [] h = refl
  take_all (suc n) (x ∷ xs) h = ap (◌∷◌ x) (take_all n xs (omega arith))

  pub drop_all : (n : ℕ) (xs : List A) → length xs ≤ n → drop n xs ≡ []
  drop_all zero [] h = refl
  drop_all zero (x ∷ xs) h = absurd (omega arith)
  drop_all (suc n) [] h = refl
  drop_all (suc n) (x ∷ xs) h = drop_all n xs (omega arith)

  pub append_nil : (xs : List A) → xs ++ [] ≡ xs
  append_nil [] = refl
  append_nil (x ∷ xs) = ap (◌∷◌ x) (append_nil xs)

-- memcpy(dst, src, n)
abbrev pub memcpy : List ℕ → List ℕ → ℕ → List ℕ
memcpy dst src n = take n src ++ drop n dst

-- memset(dst, 0, n)
abbrev pub zero_fill : List ℕ → ℕ → List ℕ
zero_fill dst n = replicate n 0 ++ drop n dst

pub memcpy_whole :
    (dst src : List ℕ) (n : ℕ) → length dst ≡ n → length src ≡ n → memcpy dst src n ≡ src
memcpy_whole dst src n d s =
    rw (take_all n src (omega arith), drop_all n dst (omega arith)) (append_nil src)

pub zero_fill_whole : (dst : List ℕ) (n : ℕ) → length dst ≡ n → zero_fill dst n ≡ replicate n 0
zero_fill_whole dst n d = rw (drop_all n dst (omega arith)) (append_nil (replicate n 0))

module _ {ℓ} {A : Type ℓ} where
  pub take_split : (m n k : ℕ) (p : List A) → k ≡ m + n → take k p ≡ take m p ++ take n (drop m p)
  take_split zero n k p e = ap (λ (j : ℕ). take j p) (omega arith)
  take_split (suc m) n zero p e = absurd (omega arith)
  take_split (suc m) zero (suc k) [] e = refl
  take_split (suc m) (suc n) (suc k) [] e = refl
  take_split (suc m) n (suc k) (x ∷ p) e = ap (◌∷◌ x) (take_split m n k p (omega arith))

  pub drop_split : (m n k : ℕ) (p : List A) → k ≡ m + n → drop k p ≡ drop n (drop m p)
  drop_split zero n k p e = ap (λ (j : ℕ). drop j p) (omega arith)
  drop_split (suc m) n zero p e = absurd (omega arith)
  drop_split (suc m) zero (suc k) [] e = refl
  drop_split (suc m) (suc n) (suc k) [] e = refl
  drop_split (suc m) n (suc k) (x ∷ p) e = drop_split m n k p (omega arith)

module _ {ℓ} {A : Type ℓ} where
  pub get_or-append :
      (xs ys : List A) (i : ℕ) (d : A) → i < length xs → get_or (xs ++ ys) i d ≡ get_or xs i d
  get_or-append [] ys i d h = absurd (omega arith)
  get_or-append (x ∷ xs) ys zero d h = refl
  get_or-append (x ∷ xs) ys (suc i) d h = get_or-append xs ys i d (omega arith)

  pub drop_append_le :
      (xs ys : List A) (n : ℕ) → n ≤ length xs → drop n (xs ++ ys) ≡ drop n xs ++ ys
  drop_append_le xs ys zero h = refl
  drop_append_le [] ys (suc n) h = absurd (omega arith)
  drop_append_le (x ∷ xs) ys (suc n) h = drop_append_le xs ys n (omega arith)

  pub take_append_le : (xs ys : List A) (n : ℕ) → n ≤ length xs → take n (xs ++ ys) ≡ take n xs
  take_append_le xs ys zero h = refl
  take_append_le [] ys (suc n) h = absurd (omega arith)
  take_append_le (x ∷ xs) ys (suc n) h = ap (◌∷◌ x) (take_append_le xs ys n (omega arith))

pub length-memcpy :
    (dst src : List ℕ) (n : ℕ) → n ≤ length src → length (memcpy dst src n) ≡ n + (length dst - n)
length-memcpy dst src n h =
    omega (arith, length-append (take n src) (drop n dst), length-take n src, length-drop n dst)

pub take-memcpy :
    (dst src : List ℕ) (n : ℕ) → n ≤ length src → take n (memcpy dst src n) ≡ take n src
take-memcpy dst src n h = take-append (take n src) (drop n dst) n (omega (arith, length-take n src))

-- ===== src/Base/Results.antt =====
-- Results: the return value 0 with what the call fills in, or an error code.
use mathlib.Core.Bool.{Bool, true, false}
use mathlib.Core.List.{List, [], ◌∷◌}
use mathlib.Core.Path.{◌≡◌, refl, subst}

pub data Result {ℓ} (E : Type 0) (A : Type ℓ) : Type ℓ where
  success : A → Result E A
  failure : E → Result E A

infixl 5 ◌>>=◌ ◌>>◌
unfoldable pub ◌>>=◌ {ℓ κ} :
    {E : Type 0} {A : Type ℓ} {B : Type κ} → Result E A → (A → Result E B) → Result E B
success a >>= f = f a
failure e >>= f = failure e

abbrev pub ◌>>◌ {ℓ} : {E : Type 0} {B : Type ℓ} → Result E (Unit {0}) → Result E B → Result E B
m >> k = m >>= λ _. k

-- An early return with an error.
abbrev pub refuse_if : {E : Type 0} → Bool → E → Result E (Unit {0})
refuse_if true e = failure e
refuse_if false e = success tt

-- A loop that stops at the first error.
abbrev pub each {ℓ κ} :
    {E : Type 0} {A : Type ℓ} {B : Type κ} → (A → Result E B) → List A → Result E (List B)
each f [] = success []
each f (x ∷ xs) = do y ← f x; ys ← each f xs; success (y ∷ ys)

-- What holds of the value, if there is one.
pub data Ensures {E A : Type 0} (P : A → Type 0) : Result E A → Type 0 where
  holds : {a : A} → P a → Ensures P (success a)
  fails : {e : E} → Ensures P (failure e)

pub data All {A : Type 0} (P : A → Type 0) : List A → Type 0 where
  all_none : All P []
  all_more : {x : A} {xs : List A} → P x → All P xs → All P (x ∷ xs)

module _ {E : Type 0} where
  pub success_inj : {A : Type 0} {a b : A} (e : Result E A) → e ≡ success a → e ≡ success b → a ≡ b
  success_inj e h k = cc

  pub failure-success : {A : Type 0} {a : A} {e : E} → failure e ≡ success a → ⊥
  failure-success h = cc

  pub Ensures-bind :
      {A B : Type 0} {P : A → Type 0} {Q : B → Type 0} (m : Result E A) (f : A → Result E B)
      → Ensures P m
      → ((a : A) → P a → Ensures Q (f a))
      → Ensures Q (m >>= f)
  unfolding ◌>>=◌
  Ensures-bind (success a) f (holds p) k = k a p
  Ensures-bind (failure e) f p k = fails

  -- A part of which nothing needs to be known.
  pub Ensures-skip :
      {A B : Type 0} {Q : B → Type 0} (m : Result E A) (f : A → Result E B)
      → ((a : A) → Ensures Q (f a))
      → Ensures Q (m >>= f)
  unfolding ◌>>=◌
  Ensures-skip (success a) f k = k a
  Ensures-skip (failure e) f k = fails

  pub Ensures-refuse :
      {B : Type 0} {Q : B → Type 0} (b : Bool) (e : E) (f : Unit {0} → Result E B)
      → (b ≡ false → Ensures Q (f tt))
      → Ensures Q (refuse_if b e >>= f)
  unfolding ◌>>=◌
  Ensures-refuse true e f k = fails
  Ensures-refuse false e f k = k refl

  pub Ensures-each :
      {A B : Type 0} {P : B → Type 0} (f : A → Result E B) (xs : List A)
      → ((x : A) → Ensures P (f x))
      → Ensures (All P) (each f xs)
  Ensures-each f [] p = holds all_none
  Ensures-each f (x ∷ xs) p =
      Ensures-bind (f x) _ (p x)
        (λ y q. Ensures-bind (each f xs) _ (Ensures-each f xs p) (λ ys qs. holds (all_more q qs)))

  pub Ensures-success :
      {A : Type 0} {P : A → Type 0} (m : Result E A) (a : A) → m ≡ success a → Ensures P m → P a
  Ensures-success {P} m a e (holds p) = subst P (success_inj m refl e) p
  Ensures-success m a e fails = absurd (failure-success e)

  -- The inversion of a bind that succeeds, and of an early return that is not taken.
  pub >>=-success :
      {A B : Type 0} (m : Result E A) (f : A → Result E B) {b : B}
      → (m >>= f) ≡ success b
      → (a : A) × (m ≡ success a) × (f a ≡ success b)
  unfolding ◌>>=◌
  >>=-success (success a) f h = (a, refl, h)
  >>=-success (failure e) f h = absurd (failure-success h)

  pub refuse_if-success :
      {B : Type 0} (b : Bool) (e : E) (f : Unit {0} → Result E B) {x : B}
      → (refuse_if b e >>= f) ≡ success x
      → (b ≡ false) × (f tt ≡ success x)
  unfolding ◌>>=◌
  refuse_if-success true e f h = absurd (failure-success h)
  refuse_if-success false e f h = (refl, h)

  -- The same the other way round.
  pub success->>= :
      {A B : Type 0} (m : Result E A) (f : A → Result E B) {a : A} {r : Result E B}
      → m ≡ success a
      → f a ≡ r
      → (m >>= f) ≡ r
  unfolding ◌>>=◌
  success->>= m f h k = cc

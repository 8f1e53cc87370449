-- ===== src/Iface/Numbers.antt =====
-- src/iface_state.c: a number that is printed with "%d" and read back by atoi.
use ether_dog.Base.{
  ◌||◌, ℕ, zero, suc, ◌+◌, ◌*◌, ◌/◌, ◌%◌, ◌<◌, ◌≤◌, Bool, true, not, ◌&&◌, [], ◌∷◌, ◌++◌, ◌≡◌, refl,
  sym, ap, ◌∙◌, arith, ltb, ◌==◌, if◌then◌else◌, length, length-append, append_nil, Bool-cases, inl,
  inr,
}
use ether_dog.Base.Int.{ℤ, pos, negsuc, negate, pos_part, neg_part}
use ether_dog.Iface.Text.{Text, every, is_digit, read_digits, atoi, digits, decimal}
use mathlib.Core.List.{append_assoc}

-- The number that ten per digit bounds.
abbrev pub ten_to : ℕ → ℕ
ten_to zero = 1
ten_to (suc k) = 10 * ten_to k

-- A byte that is neither NUL nor a newline, and one that is not '='.
abbrev pub plain : ℕ → Bool
plain c = not (c == 10) && not (c == 0)

digits_step :
    (f n : ℕ)
    → digits (suc f) n
      ≡ (if ltb n 10 then (b'0' + n) ∷ [] else digits f (n / 10) ++ ((b'0' + n % 10) ∷ []))
unfolding digits
digits_step f n = refl

read_small : (n : ℕ) (rest : Text) → n < 10 → read_digits 0 ((b'0' + n) ∷ rest) ≡ read_digits n rest
unfolding read_digits
read_small n rest h = ground arith

read_last :
    (n : ℕ) (rest : Text) → read_digits (n / 10) ((b'0' + n % 10) ∷ rest) ≡ read_digits n rest
unfolding read_digits
read_last n rest = ground arith

read_digits-digits :
    (f n : ℕ) (rest : Text) → n < f → read_digits 0 (digits f n ++ rest) ≡ read_digits n rest
read_digits-digits zero n rest h = absurd (omega arith)
read_digits-digits (suc f) n rest h = elim (Bool-cases (ltb n 10)) [
  | inl small ↦ rw (digits_step f n, small) (read_small n rest (ground arith))
  | inr large ↦
      rw (digits_step f n, large)
        (rw (append_assoc (digits f (n / 10)) ((b'0' + n % 10) ∷ []) rest) (
          read_digits-digits f (n / 10) ((b'0' + n % 10) ∷ rest) (ground arith) ∙ read_last n rest))
]

-- The digits begin with a digit.
record Front (s : Text) : Type 0 where
  pub front : ℕ
  pub behind : Text
  pub parts : s ≡ front ∷ behind
  pub front_digit : is_digit front ≡ true

Front-append : (s t : Text) → Front s → Front (s ++ t)
Front-append s t p = record {
  front = p.front;
  behind = p.behind ++ t;
  parts = ap (λ (u : Text). u ++ t) p.parts;
  front_digit = p.front_digit;
}

digits-Front : (f n : ℕ) → n < f → Front (digits f n)
digits-Front zero n h = absurd (omega arith)
digits-Front (suc f) n h = elim (Bool-cases (ltb n 10)) [
  | inl small ↦
      rw (digits_step f n, small)
        (record { front = b'0' + n; behind = []; parts = refl; front_digit = ground arith })
  | inr large ↦
      rw (digits_step f n, large)
        (Front-append (digits f (n / 10)) ((b'0' + n % 10) ∷ [])
          (digits-Front f (n / 10) (ground arith)))
]

atoi_front : (c : ℕ) (s : Text) → is_digit c ≡ true → atoi (c ∷ s) ≡ pos (read_digits 0 (c ∷ s))
unfolding atoi
atoi_front c s h = ground arith

-- A text that ends a number.
abbrev pub stops : Text → Bool
stops [] = true
stops (c ∷ s) = not (is_digit c)

read_stops : (n : ℕ) (rest : Text) → stops rest ≡ true → read_digits n rest ≡ n
unfolding read_digits
read_stops n [] h = refl
read_stops n (c ∷ rest) h = ground arith

read_digits_all :
    (f n : ℕ) (rest : Text) → n < f → stops rest ≡ true → read_digits 0 (digits f n ++ rest) ≡ n
read_digits_all f n rest h st = read_digits-digits f n rest h ∙ read_stops n rest st

atoi-digits :
    (f n : ℕ) (rest : Text) → n < f → stops rest ≡ true → atoi (digits f n ++ rest) ≡ pos n
atoi-digits f n rest h st =
    let p = Front-append (digits f n) rest (digits-Front f n h) in
    ap atoi p.parts
    ∙ atoi_front p.front p.behind p.front_digit
    ∙ ap (λ (u : Text). pos (read_digits 0 u)) (sym p.parts)
    ∙ ap pos (read_digits_all f n rest h st)

atoi_minus : (s : Text) → atoi (b'-' ∷ s) ≡ negate (read_digits 0 s)
unfolding atoi
atoi_minus s = refl

pub atoi-decimal_rest : (z : ℤ) (rest : Text) → stops rest ≡ true → atoi (decimal z ++ rest) ≡ z
unfolding decimal
atoi-decimal_rest (pos n) rest st = atoi-digits (suc n) n rest (omega arith) st
atoi-decimal_rest (negsuc n) rest st =
    atoi_minus (digits (suc (suc n)) (suc n) ++ rest)
    ∙ ap negate (read_digits_all (suc (suc n)) (suc n) rest (omega arith) st)

pub atoi-decimal : (z : ℤ) → atoi (decimal z) ≡ z
atoi-decimal z = ap atoi (sym (append_nil (decimal z))) ∙ atoi-decimal_rest z [] refl

-- A printed number begins with its sign or a digit.
pub record Starts (s : Text) : Type 0 where
  pub first : ℕ
  pub others : Text
  pub splits : s ≡ first ∷ others
  pub first_number : ((first == b'-') || is_digit first) ≡ true

pub decimal-Starts : (z : ℤ) (rest : Text) → Starts (decimal z ++ rest)
unfolding decimal
decimal-Starts (pos n) rest =
    let p = Front-append (digits (suc n) n) rest (digits-Front (suc n) n (omega arith)) in
    record {
      first = p.front;
      others = p.behind;
      splits = p.parts;
      first_number = rw (p.front_digit) (ground arith);
    }
decimal-Starts (negsuc n) rest = record {
  first = b'-';
  others = digits (suc (suc n)) (suc n) ++ rest;
  splits = refl;
  first_number = refl;
}

pub every-append :
    (p : ℕ → Bool) (s t : Text) → every p s ≡ true → every p t ≡ true → every p (s ++ t) ≡ true
every-append p [] t hs ht = ht
every-append p (c ∷ s) t hs ht = ground (arith, every-append p s t)

-- What holds of each digit, and of the sign.
every-digits :
    (p : ℕ → Bool)
    → ((d : ℕ) → d < 10 → p (b'0' + d) ≡ true)
    → (f n : ℕ) → every p (digits f n) ≡ true
unfolding digits
every-digits p h zero n = refl
every-digits p h (suc f) n = elim (Bool-cases (ltb n 10)) [
  | inl small ↦ rw small (rw (h n (ground arith)) refl)
  | inr large ↦ rw large (
      every-append p (digits f (n / 10)) ((b'0' + n % 10) ∷ []) (every-digits p h f (n / 10))
        (rw (h (n % 10) (omega arith)) refl))
]

pub every-decimal :
    (p : ℕ → Bool)
    → ((d : ℕ) → d < 10 → p (b'0' + d) ≡ true)
    → p b'-' ≡ true
    → (z : ℤ) → every p (decimal z) ≡ true
unfolding decimal
every-decimal p h m (pos n) = every-digits p h (suc n) n
every-decimal p h m (negsuc n) = rw m (every-digits p h (suc (suc n)) (suc n))

pub decimal-plain : (z : ℤ) → every plain (decimal z) ≡ true
decimal-plain z = every-decimal plain (λ d h. ground arith) refl z

length-digits : (f n k : ℕ) → n < ten_to k → 0 < k → length (digits f n) ≤ k
unfolding digits
length-digits zero n k h p = omega arith
length-digits (suc f) n zero h p = absurd (omega arith)
length-digits (suc f) n (suc zero) h p = rw (digits_step f n) (ground arith)
length-digits (suc f) n (suc (suc k)) h p = elim (Bool-cases (ltb n 10)) [
  | inl small ↦ rw (digits_step f n, small) (omega arith)
  | inr large ↦
      rw (digits_step f n, large)
        (omega (
          arith,
          length-append (digits f (n / 10)) ((b'0' + n % 10) ∷ []),
          length-digits f (n / 10) (suc k) (omega arith) (omega arith),
        ))
]

-- An int of C.
abbrev pub IsInt : ℤ → Type 0
IsInt z = (pos_part z < 2147483648) × (neg_part z ≤ 2147483648)

pub length-decimal : (z : ℤ) → IsInt z → length (decimal z) ≤ 11
unfolding decimal
length-decimal (pos n) h = omega (arith, length-digits (suc n) n 10 (omega arith) (omega arith))
length-decimal (negsuc n) h =
    omega (arith, length-digits (suc (suc n)) (suc n) 10 (omega arith) (omega arith))

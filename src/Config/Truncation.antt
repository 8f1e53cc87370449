-- ===== src/Config/Truncation.antt =====
-- The conversion of a double to an integer keeps the bounds that src/config.c checks.
use ether_dog.Base.{
  ◌&&◌, ℕ, zero, suc, Bool, true, false, ◌≡◌, ◌≤◌, ◌<◌, ◌+◌, ◌*◌, ◌/◌, ◌^◌, refl, arith,
}
use native.Mathlib.Nat.{pow-suc, add-mul-div_right, le-div_iff_mul-le, div-lt_iff_lt-mul}
use ether_dog.Base.Int.{ℤ, negate, pos_part, neg_part, leb_ℤ}
use ether_dog.Config.Doubles.{
  Double, nan, infinite, finite, is_finite, at_least, at_most, between, truncate,
}

pow_pos : (k : ℕ) → 0 < 2 ^ k
pow_pos zero = omega arith
pow_pos (suc k) = omega (arith, pow_pos k, pow-suc 2 k)

div_up : (m a b p : ℕ) → 0 < p → m + a * p ≤ b * p → m / p + a ≤ b
div_up m a b p h l =
    let e = add-mul-div_right m a h in
    let q : (m + a * p) / p < b + 1 =
      (div-lt_iff_lt-mul {x = m + a * p} {y = b + 1} h).1 (omega arith) in
    omega arith

div_down : (m a b p : ℕ) → 0 < p → b * p ≤ m + a * p → b ≤ m / p + a
div_down m a b p h l =
    let e = add-mul-div_right m a h in
    let q : b ≤ (m + a * p) / p = (le-div_iff_mul-le {x = b} {y = m + a * p} h).1 l in omega arith

pos_part-negate : (n : ℕ) → pos_part (negate n) ≡ 0
pos_part-negate zero = refl
pos_part-negate (suc n) = refl

neg_part-negate : (n : ℕ) → neg_part (negate n) ≡ n
neg_part-negate zero = refl
neg_part-negate (suc n) = refl

at_least-truncate :
    (s : Bool) (m k : ℕ) (c : ℤ)
    → at_least (finite s m k) c ≡ true
    → leb_ℤ c (truncate (finite s m k)) ≡ true
at_least-truncate true m k c h = ground (
  arith,
  pos_part-negate m,
  neg_part-negate m,
  pos_part-negate (m / 2 ^ k),
  neg_part-negate (m / 2 ^ k),
  div_up m (pos_part c) (neg_part c) (2 ^ k) (pow_pos k),
)
at_least-truncate false m k c h =
    ground (arith, div_down m (neg_part c) (pos_part c) (2 ^ k) (pow_pos k))

at_most-truncate :
    (s : Bool) (m k : ℕ) (c : ℤ)
    → at_most (finite s m k) c ≡ true
    → leb_ℤ (truncate (finite s m k)) c ≡ true
at_most-truncate true m k c h = ground (
  arith,
  pos_part-negate m,
  neg_part-negate m,
  pos_part-negate (m / 2 ^ k),
  neg_part-negate (m / 2 ^ k),
  div_down m (pos_part c) (neg_part c) (2 ^ k) (pow_pos k),
)
at_most-truncate false m k c h =
    ground (arith, div_up m (neg_part c) (pos_part c) (2 ^ k) (pow_pos k))

-- A finite double between two integers is converted to an integer between them.
pub between-truncate :
    (v : Double) (low high : ℤ)
    → (is_finite v && between low high v) ≡ true
    → (leb_ℤ low (truncate v) ≡ true) × (leb_ℤ (truncate v) high ≡ true)
between-truncate nan low high h = cc
between-truncate (infinite s) low high h = cc
between-truncate (finite s m k) low high h =
    (at_least-truncate s m k low (ground arith), at_most-truncate s m k high (ground arith))

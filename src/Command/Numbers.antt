-- ===== src/Command/Numbers.antt =====
-- src/bus.c: the numbers that a request may name.
use native.Mathlib.Nat.{one-le-pow}
use ether_dog.Base.{
  subst, ap, ◌∙◌, ℕ, ◌+◌, ◌*◌, ◌^◌, ◌≤◌, ◌<◌, Bool, true, false, not, ◌&&◌, leb, Option, none, some,
  ◌≡◌, refl, arith,
}
use ether_dog.Base.Int.{ℤ, pos, negsuc, pos_part, neg_part, ◌≤ℤ◌}
use ether_dog.Base.Results.{Result, success, failure}
use ether_dog.Config.Doubles.{Double, nan, infinite, finite, at_least, at_most, between, signed}
use ether_dog.Command.State.{Refusal}
use ether_dog.Command.Requests.{
  less, greater, check_master, check_slave, check_numbers, with_master, with_slave,
}

le_of_scaled : (a b p : ℕ) → 0 < p → a * p ≤ b * p → a ≤ b
le_of_scaled a b p h l = grind arith

scaled : (a b p : ℕ) → (a + b) * p ≡ a * p + b * p
scaled a b p = grind arith

-- x - y lies from c up, and up to i, in units of p.
order_of_scaled :
    (c c' i i' x y p : ℕ)
    → 0 < p
    → c * p + y ≤ x + c' * p
    → x + i' * p ≤ i * p + y
    → c + i' ≤ i + c'
order_of_scaled c c' i i' x y p h l m =
    le_of_scaled (c + i') (i + c') p h (omega (arith, scaled c i' p, scaled i c' p))

leb→le : (a b : ℕ) → leb a b ≡ true → a ≤ b
leb→le a b h = ground arith

lt_of_scaled : (a b p : ℕ) → a * p < b * p → a < b
lt_of_scaled a b p l = grind arith

leb→lt : (a b : ℕ) → leb a b ≡ false → b < a
leb→lt a b h = ground arith

and_parts : (a b : Bool) → (a && b) ≡ true → (a ≡ true) × (b ≡ true)
and_parts true b h = (refl, h)
and_parts false b h = cc

-- The integer at which a number lies is within the bounds of the number.
between_ge : (v : Double) (i c : ℤ) → between i i v ≡ true → at_least v c ≡ true → c ≤ℤ i
between_ge nan i c h l = cc
between_ge (infinite true) i c h l = cc
between_ge (infinite false) i c h l = cc
between_ge (finite s m k) i c h l =
    order_of_scaled (pos_part c) (neg_part c) (pos_part i) (neg_part i) (pos_part (signed s m))
      (neg_part (signed s m)) (2 ^ k) (one-le-pow k 2 (omega arith)) (leb→le _ _ l)
      (leb→le _ _ (and_parts _ _ h).1)

between_le : (v : Double) (i c : ℤ) → between i i v ≡ true → at_most v c ≡ true → i ≤ℤ c
between_le nan i c h l = cc
between_le (infinite true) i c h l = cc
between_le (infinite false) i c h l = cc
between_le (finite s m k) i c h l =
    order_of_scaled (pos_part i) (neg_part i) (pos_part c) (neg_part c) (pos_part (signed s m))
      (neg_part (signed s m)) (2 ^ k) (one-le-pow k 2 (omega arith))
      (leb→le _ _ (and_parts _ _ h).0) (leb→le _ _ l)

between_lt :
    (v : Double) (i : ℤ) (c : ℕ)
    → between i i v ≡ true
    → at_least v (pos c) ≡ false
    → pos_part i < c + neg_part i
between_lt nan i c h l = cc
between_lt (infinite true) i c h l = cc
between_lt (infinite false) i c h l = cc
between_lt (finite s m k) i c h l =
    let below : pos_part i * 2 ^ k + neg_part (signed s m)
        ≤ pos_part (signed s m) + neg_part i * 2 ^ k =
      leb→le _ _ (and_parts _ _ h).0 in
    let above : pos_part (signed s m) + 0 * 2 ^ k < c * 2 ^ k + neg_part (signed s m) =
      leb→lt _ _ l in
    lt_of_scaled (pos_part i) (c + neg_part i) (2 ^ k)
      (omega (arith, below, above, scaled c (neg_part i) (2 ^ k)))

not_nan : (v : Double) (i : ℤ) (c : ℤ) → between i i v ≡ true → less v c ≡ not (at_least v c)
not_nan nan i c h = cc
not_nan (infinite s) i c h = refl
not_nan (finite s m k) i c h = refl

not_nan_above :
    (v : Double) (i : ℤ) (c : ℤ) → between i i v ≡ true → greater v c ≡ not (at_most v c)
not_nan_above nan i c h = cc
not_nan_above (infinite s) i c h = refl
not_nan_above (finite s m k) i c h = refl

pos_of_ge : (i : ℤ) (n : ℕ) → pos n ≤ℤ i → i ≡ pos (pos_part i)
pos_of_ge (pos m) n h = refl
pos_of_ge (negsuc m) n h = absurd (omega arith)

check_master-InRange :
    (count a : ℕ) (i : ℤ) (v : Double)
    → check_master count (i, v) ≡ success a
    → (i ≡ pos a) × (a < count) × (between i i v ≡ true)
unfolding check_master
check_master-InRange count a i v h =
    let inside : between i i v ≡ true = ground arith in
    let low : at_least v (pos 0) ≡ true = ground (arith, not_nan v i (pos 0) inside) in
    let p = pos_of_ge i 0 (between_ge v i (pos 0) inside low) in
    let q = between_lt v i count inside (ground arith) in
    let e : pos_part i ≡ a = ground arith in (p ∙ ap pos e, ground (arith, p, q, e), inside)

check_slave-InRange :
    (b : ℕ) (j : ℤ) (u : Double)
    → check_slave (j, u) ≡ success b
    → (j ≡ pos b) × (1 ≤ b) × (b ≤ 65535) × (between j j u ≡ true)
unfolding check_slave
check_slave-InRange b j u h =
    let inside : between j j u ≡ true = ground arith in
    let low : at_least u (pos 1) ≡ true = ground (arith, not_nan u j (pos 1) inside) in
    let high : at_most u (pos 65535) ≡ true =
      ground (arith, not_nan_above u j (pos 65535) inside) in
    let l = between_ge u j (pos 1) inside low in
    let p = pos_of_ge j 1 l in
    let q = between_le u j (pos 65535) inside high in
    let e : pos_part j ≡ b = ground arith in
    (p ∙ ap pos e, ground (arith, p, l, e), ground (arith, p, q, e), inside)

with_slave-success :
    (a a' b : ℕ) (r : Result Refusal ℕ)
    → with_slave a' r ≡ success (a, b)
    → (a' ≡ a) × (r ≡ success b)
with_slave-success a a' b (failure e) h = cc
with_slave-success a a' b (success b') h = ground arith

with_master-success :
    (a b : ℕ) (s : ℤ × Double) (r : Result Refusal ℕ)
    → with_master s r ≡ success (a, b)
    → (r ≡ success a) × (check_slave s ≡ success b)
with_master-success a b s (failure e) h = cc
with_master-success a b s (success a') h =
    let p = with_slave-success a a' b (check_slave s) h in (ap success p.0, p.1)

-- The master and the slave that a request is accepted for are the integers that it names, the master
-- one of those that are configured and the slave at a position from 1 to 65535. A number that is
-- not an integer, out of range or no number at all is refused.
pub check_numbers-InRange :
    (count a b : ℕ) (m s : Option (ℤ × Double))
    → check_numbers count m s ≡ success (a, b)
    → (v : Double) × (u : Double) × (m ≡ some (pos a, v))
      × (s ≡ some (pos b, u))
      × (between (pos a) (pos a) v ≡ true)
      × (between (pos b) (pos b) u ≡ true)
      × (a < count)
      × (1 ≤ b)
      × (b ≤ 65535)
unfolding check_numbers
check_numbers-InRange count a b none s h = cc
check_numbers-InRange count a b (some m) none h = cc
check_numbers-InRange count a b (some (i, v)) (some (j, u)) h =
    let r = with_master-success a b (j, u) (check_master count (i, v)) h in
    let p = check_master-InRange count a i v r.0 in
    let q = check_slave-InRange b j u r.1 in
    (
      v,
      u,
      ap (λ (z : ℤ). some (z, v)) p.0,
      ap (λ (z : ℤ). some (z, u)) q.0,
      subst (λ (z : ℤ). between z z v ≡ true) p.0 p.2,
      subst (λ (z : ℤ). between z z u ≡ true) q.0 q.3,
      p.1,
      q.1,
      q.2,
    )

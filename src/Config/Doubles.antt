-- ===== src/Config/Doubles.antt =====
-- src/config.c: the numbers of type `double` that an SDO carries. A finite one is m / 2 ^ k with a
-- sign, so that its comparison with an integer is exact.
use ether_dog.Base.{ℕ, Bool, true, false, ◌+◌, ◌*◌, ◌/◌, ◌^◌, leb, ◌&&◌}
use ether_dog.Base.Int.{ℤ, pos, negate, pos_part, neg_part}

-- The Boolean of an infinite or a finite number is its sign bit.
pub data Double : Type 0 where
  nan : Double
  infinite : Bool → Double
  finite : Bool → ℕ → ℕ → Double

-- The sign and the magnitude of an integer.
abbrev pub signed : Bool → ℕ → ℤ
signed true m = negate m
signed false m = pos m

abbrev pub is_finite : Double → Bool
is_finite nan = false
is_finite (infinite s) = false
is_finite (finite s m k) = true

-- `v >= c`
abbrev pub at_least : Double → ℤ → Bool
at_least nan c = false
at_least (infinite s) c = elim s [ true ↦ false | false ↦ true ]
at_least (finite s m k) c =
    leb (pos_part c * 2 ^ k + neg_part (signed s m)) (pos_part (signed s m) + neg_part c * 2 ^ k)

-- `v <= c`
abbrev pub at_most : Double → ℤ → Bool
at_most nan c = false
at_most (infinite s) c = s
at_most (finite s m k) c =
    leb (pos_part (signed s m) + neg_part c * 2 ^ k) (pos_part c * 2 ^ k + neg_part (signed s m))

-- `v >= low && v <= high`
abbrev pub between : ℤ → ℤ → Double → Bool
between low high v = at_least v low && at_most v high

-- A conversion to an integer type drops the fraction. It is undefined for the other doubles.
abbrev pub truncate : Double → ℤ
truncate nan = pos 0
truncate (infinite s) = pos 0
truncate (finite s m k) = signed s (m / 2 ^ k)

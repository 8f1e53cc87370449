-- ===== src/Master/Ranges.antt =====
-- src/master.c: when the conversion of an SDO value to an int64_t is defined.
use ether_dog.Master.Sdo.{encode_integer, to_int64}
use ether_dog.Base.{
  sym, ◌||◌, ℕ, Bool, true, false, ◌≡◌, ◌&&◌, refl, ◌∙◌, arith, none, some, inl, inr, Bool-cases,
}
use ether_dog.Base.Int.{ℤ, pos, negsuc, leb_ℤ}
use ether_dog.Config.Doubles.{Double, is_finite, between, truncate}
use ether_dog.Config.Truncation.{between-truncate}

pub leb_ℤ_trans : (a b c : ℤ) → leb_ℤ a b ≡ true → leb_ℤ b c ≡ true → leb_ℤ a c ≡ true
leb_ℤ_trans a b c h k = ground arith

pub bool_bounds :
    (v : Double)
    → (is_finite v && (between (pos 0) (pos 0) v || between (pos 1) (pos 1) v)) ≡ true
    → (leb_ℤ (pos 0) (truncate v) ≡ true) × (leb_ℤ (truncate v) (pos 1) ≡ true)
bool_bounds v h = elim (Bool-cases (is_finite v && between (pos 0) (pos 0) v)) [
  | inl e ↦
      let (l, u) = between-truncate v (pos 0) (pos 0) e in
      (l, leb_ℤ_trans (truncate v) (pos 0) (pos 1) u refl)
  | inr e ↦
      let (l, u) = between-truncate v (pos 1) (pos 1) (ground arith) in
      (leb_ℤ_trans (pos 0) (pos 1) (truncate v) refl l, u)
]

pub to_int64-some :
    (v : Double)
    → is_finite v ≡ true
    → leb_ℤ (negsuc 9223372036854775807) (truncate v) ≡ true
    → leb_ℤ (truncate v) (pos 9223372036854775807) ≡ true
    → to_int64 v ≡ some (truncate v)
unfolding to_int64
to_int64-some v f l u = ground arith

pub too_large :
    (n : ℕ) (v : Double)
    → leb_ℤ (truncate v) (pos 9223372036854775807) ≡ false
    → encode_integer n v ≡ none
unfolding encode_integer to_int64
too_large n v m = ground arith

pub below :
    (t high : ℤ)
    → leb_ℤ t high ≡ true
    → leb_ℤ high (pos 9223372036854775807) ≡ true
    → leb_ℤ t (pos 9223372036854775807) ≡ false
    → ⊥
below t high u h m = cc (sym m ∙ leb_ℤ_trans t high (pos 9223372036854775807) u h)

pub finite_part : (a b : Bool) → (a && b) ≡ true → a ≡ true
finite_part true b h = refl
finite_part false b h = cc

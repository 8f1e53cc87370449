-- ===== src/Config/Hex.antt =====
-- src/config.c: the hex numbers that `parse_hex_u32` accepts.
use ether_dog.Base.{
  ℕ, suc, true, ◌+◌, ◌*◌, ◌^◌, ◌%◌, ◌≤◌, ◌<◌, ◌≡◌, refl, sym, arith, inl, inr, Option, none, some,
  List, [], ◌∷◌, Option-cases, length, subst, ◌∙◌,
}
use native.Mathlib.Nat.{pow-le-pow_right, pow-suc}
use ether_dog.Config.Validate.{hex_digit, hex_value, parse_hex_u32, hex_prefix}

-- The number that a list of hex digits denotes, of any length.
unfoldable pub hex_number : ℕ → List ℕ → Option ℕ
unfolding hex_digit
hex_number v [] = some v
hex_number v (c ∷ cs) = elim (hex_digit c) [ none ↦ none | some d ↦ hex_number (v * 16 + d) cs ]

hex_digit_lt : (c d : ℕ) → hex_digit c ≡ some d → d < 16
unfolding hex_digit
hex_digit_lt c d h = ground arith

pow_step : (v k d : ℕ) → v < 16 ^ k → d < 16 → v * 16 + d < 16 ^ (suc k)
pow_step v k d h b = omega (arith, pow-suc 16 k)

below_top : (k : ℕ) → k < 8 → 16 ^ k ≤ 16 ^ 7
below_top k b = pow-le-pow_right {n = 16} (omega arith) {i = k} {j = 7} (omega arith)

shift_exact : (v k : ℕ) → v < 16 ^ k → k < 8 → (v * 16) % 2 ^ 32 ≡ v * 16
shift_exact v k h b = let top : 16 ^ k ≤ 16 ^ 7 = below_top k b in omega arith

-- `v << 4` on a uint32_t loses nothing as long as at most eight digits come.
hex_value_exact :
    (cs : List ℕ) (v k : ℕ) → v < 16 ^ k → k + length cs ≤ 8 → hex_value v cs ≡ hex_number v cs
unfolding hex_value hex_number
hex_value_exact [] v k h n = refl
hex_value_exact (c ∷ cs) v k h n = elim (Option-cases (hex_digit c)) [
  | inl e ↦ ground arith
  | inr (d, e) ↦ ground (
    arith,
    shift_exact v k h (omega arith),
    hex_value_exact cs (v * 16 + d) (suc k) (pow_step v k d h (hex_digit_lt c d e)) (omega arith),
  )
]

exponent : (w i j : ℕ) → i ≡ j → w < 16 ^ i → w < 16 ^ j
exponent w i j e h = subst (λ (x : ℕ). w < 16 ^ x) e h

hex_number_lt :
    (cs : List ℕ) (v k w : ℕ) → v < 16 ^ k → hex_number v cs ≡ some w → w < 16 ^ (k + length cs)
unfolding hex_number
hex_number_lt [] v k w h e = exponent w k (k + 0) (omega arith) (ground arith)
hex_number_lt (c ∷ cs) v k w h e = elim (Option-cases (hex_digit c)) [
  | inl e' ↦ absurd (ground arith)
  | inr (d, e') ↦ exponent w (suc k + length cs) (k + suc (length cs)) (omega arith) (
      hex_number_lt cs (v * 16 + d) (suc k) w (pow_step v k d h (hex_digit_lt c d e'))
        (ground arith))
]

hex_parts :
    (a b : ℕ) (digits : List ℕ) (v : ℕ)
    → parse_hex_u32 (a ∷ b ∷ digits) ≡ some v
    → (hex_prefix a b ≡ true) × (length digits ≤ 8) × (hex_value 0 digits ≡ some v)
unfolding parse_hex_u32
hex_parts a b digits v h = ground arith

-- A number that `parse_hex_u32` returns is the one that the digits behind the prefix denote, and
-- is below 16 to the number of digits: the shifts of the uint32_t lose nothing.
parse_hex_u32_exact :
    (a b : ℕ) (digits : List ℕ) (v : ℕ)
    → parse_hex_u32 (a ∷ b ∷ digits) ≡ some v
    → (hex_number 0 digits ≡ some v) × (v < 16 ^ length digits)
parse_hex_u32_exact a b digits v h =
    let (p, n, e) = hex_parts a b digits v h in
    let e' : hex_number 0 digits ≡ some v =
      sym (hex_value_exact digits 0 0 (omega arith) (omega arith)) ∙ e in
    (
      e',
      exponent v (0 + length digits) (length digits) (omega arith)
          (hex_number_lt digits 0 0 v (omega arith) e'),
    )

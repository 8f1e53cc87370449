-- ===== src/Master/Reported.antt =====
-- src/master.c: the bytes that the slaves report, against the size that is computed for them.
use ether_dog.Base.Results.{All, all_none, all_more}
use ether_dog.Base.{
  max, zero, suc, ◌&&◌, ◌^◌, ap, ap₂, ◌∙◌, if◌then◌else◌, ℕ, Bool, true, false, ◌≡◌, ◌≤◌, ◌<◌, ◌+◌,
  ◌/◌, refl, arith, not, Option, none, some, List, [], ◌∷◌,
}
use ether_dog.Master.Iomap.{
  Reported, mapped_bytes, coe_bits, is_empty, larger, slave_mapped_bits, bit_bytes,
}

-- The bits of the outputs and of the inputs that a slave reports: those of its CoE mapping, which is
-- read with complete access where it can be; where it shows none, those of its SoE mapping; and
-- where that shows none either, those of its SII.
abbrev pub coe_map : Bool → Bool → Option (ℕ × ℕ) → ℕ × ℕ → ℕ × ℕ
coe_map false ca access plain = (0, 0)
coe_map true false access plain = plain
coe_map true true none plain = plain
coe_map true true (some bits) plain = bits

abbrev pub or_else : ℕ × ℕ → ℕ × ℕ → ℕ × ℕ
or_else (zero, zero) other = other
or_else (zero, suc i) other = (zero, suc i)
or_else (suc o, i) other = (suc o, i)

abbrev pub soe_map : Bool → ℕ × ℕ → ℕ × ℕ
soe_map false bits = (0, 0)
soe_map true bits = bits

abbrev pub reported_bits : Reported → ℕ × ℕ
reported_bits r =
    or_else (coe_map r.has_coe r.has_sdoca r.pdo_map_ca r.pdo_map)
      (or_else (soe_map r.has_soe r.idn_map) r.sii)

-- The bits that a slave takes in each direction: what it reports, and no less than what was configured
-- before.
abbrev pub output_bits : Reported → ℕ
output_bits r = max (reported_bits r).0 r.obits

abbrev pub input_bits : Reported → ℕ
input_bits r = max (reported_bits r).1 r.ibits

-- The bytes of all slaves, in each direction from a byte on.
abbrev pub reported_bytes : List Reported → ℕ
reported_bytes [] = 0
reported_bytes (r ∷ rs) = (output_bits r + 7) / 8 + (input_bits r + 7) / 8 + reported_bytes rs

-- The bits of each slave stay in a uint32_t when they are rounded.
abbrev pub IsInWord : Reported → Type 0
IsInWord r = (output_bits r + 7 < 2 ^ 32) × (input_bits r + 7 < 2 ^ 32)

coe_bits_lem : (r : Reported) → coe_bits r ≡ coe_map r.has_coe r.has_sdoca r.pdo_map_ca r.pdo_map
coe_bits_lem r = by_case r.has_coe r.has_sdoca r.pdo_map_ca
  where
    by_case :
        (mailbox ca : Bool) (access : Option (ℕ × ℕ))
        → (if not mailbox
            then (0, 0)
            else if not ca
            then r.pdo_map
            else elim access [ none ↦ r.pdo_map | some bits ↦ bits ])
          ≡ coe_map mailbox ca access r.pdo_map
    by_case false ca access = refl
    by_case true false access = refl
    by_case true true none = refl
    by_case true true (some bits) = refl

inputs_only : (i : ℕ) → is_empty (0, suc i) ≡ false
inputs_only i = ground arith

some_outputs : (o i : ℕ) → is_empty (suc o, i) ≡ false
some_outputs o i = ground arith

or_else_if : (a b : ℕ × ℕ) → (if is_empty a then b else a) ≡ or_else a b
or_else_if (zero, zero) b = refl
or_else_if (zero, suc i) b = ap (λ (x : Bool). if x then b else (0, suc i)) (inputs_only i)
or_else_if (suc o, i) b = ap (λ (x : Bool). if x then b else (suc o, i)) (some_outputs o i)

or_else_if_soe :
    (a idn : ℕ × ℕ) (soe : Bool)
    → (if is_empty a && soe then idn else a) ≡ or_else a (soe_map soe idn)
or_else_if_soe (zero, zero) idn true = refl
or_else_if_soe (zero, zero) idn false = refl
or_else_if_soe (zero, suc i) idn soe =
    ap (λ (x : Bool). if x && soe then idn else (0, suc i)) (inputs_only i)
or_else_if_soe (suc o, i) idn soe =
    ap (λ (x : Bool). if x && soe then idn else (suc o, i)) (some_outputs o i)

or_else_assoc : (a b c : ℕ × ℕ) → or_else (or_else a b) c ≡ or_else a (or_else b c)
or_else_assoc (zero, zero) b c = refl
or_else_assoc (zero, suc i) b c = refl
or_else_assoc (suc o, i) b c = refl

next_source :
    (a idn sii : ℕ × ℕ) (soe : Bool)
    → (let b = if is_empty a && soe then idn else a in if is_empty b then sii else b)
      ≡ or_else a (or_else (soe_map soe idn) sii)
next_source a idn sii soe =
    or_else_if (if is_empty a && soe then idn else a) sii
    ∙ ap (λ (b : ℕ × ℕ). or_else b sii) (or_else_if_soe a idn soe)
    ∙ or_else_assoc a (soe_map soe idn) sii

larger-max : (a b : ℕ) → larger a b ≡ max a b
larger-max a b = ground arith

slave_mapped_bits_lem : (r : Reported) → slave_mapped_bits r ≡ (output_bits r, input_bits r)
unfolding slave_mapped_bits
slave_mapped_bits_lem r =
    let e : (let b = if is_empty (coe_bits r) && r.has_soe then r.idn_map else coe_bits r in
          if is_empty b then r.sii else b)
        ≡ reported_bits r =
      next_source (coe_bits r) r.idn_map r.sii r.has_soe
      ∙ ap (λ (a : ℕ × ℕ). or_else a (or_else (soe_map r.has_soe r.idn_map) r.sii))
          (coe_bits_lem r) in
    ap (λ (b : ℕ × ℕ). (larger b.0 r.obits, larger b.1 r.ibits)) e
    ∙ ap₂ (λ (x y : ℕ). (x, y)) (larger-max (reported_bits r).0 r.obits)
        (larger-max (reported_bits r).1 r.ibits)

bit_bytes_exact : (b : ℕ) → b + 7 < 2 ^ 32 → bit_bytes b ≡ (b + 7) / 8
bit_bytes_exact b h = omega arith

pub mapped_enough : (rs : List Reported) → All IsInWord rs → reported_bytes rs ≤ mapped_bytes rs
mapped_enough [] all_none = omega arith
mapped_enough (r ∷ rs) (all_more f fs) =
    let o : bit_bytes (slave_mapped_bits r).0 ≡ (output_bits r + 7) / 8 =
      ap (λ (b : ℕ × ℕ). bit_bytes b.0) (slave_mapped_bits_lem r)
      ∙ bit_bytes_exact (output_bits r) f.0 in
    let i : bit_bytes (slave_mapped_bits r).1 ≡ (input_bits r + 7) / 8 =
      ap (λ (b : ℕ × ℕ). bit_bytes b.1) (slave_mapped_bits_lem r)
      ∙ bit_bytes_exact (input_bits r) f.1 in
    omega (arith, o, i, mapped_enough rs fs)

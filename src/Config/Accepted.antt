-- ===== src/Config/Accepted.antt =====
-- src/config.c: what the validation accepts, as properties of the configuration.
use ether_dog.Base.{
  ℕ, true, false, ◌<◌, ◌≡◌, ◌↔◌, refl, arith, inl, inr, ◌==◌, List, [], ◌∷◌, Bool-cases, length,
  subst, ==_iff, ==_refl,
}
use ether_dog.Config.Types.{Modular, Slave, ok}
use ether_dog.Config.Relations.{
  Covers, has_bounds, station, Mem, here, there, Distinct, empty, apart,
}
use ether_dog.Config.Validate.{
  last_slot, validate_station, contains, has_repeat, contains_all, validate_pdos, pdo_values,
  mandatory_values, rising, check_minimums, place_slots,
}
use ether_dog.Config.Station.{place_slots-Covers}

station-accepted :
    (m : Modular)
    → validate_station m ≡ ok
    → 0 < length m.slots
    → (rising 0 m.modules ≡ true)
      × (check_minimums (place_slots (last_slot 0 m.modules) 1 m.modules (m.slots, 0)) ≡ ok)
unfolding validate_station
station-accepted m h n = ground arith

-- Where there are slot definitions, with the bounds that the parser requires, an accepted station
-- obeys them: its slots up to the last module fill the definitions in order, each with a number of
-- slots within its bounds and with modules that it accepts.
pub validate_station-Covers :
    (m : Modular)
    → has_bounds m.slots ≡ true
    → 0 < length m.slots
    → validate_station m ≡ ok
    → Covers 0 m.slots (station (last_slot 0 m.modules) 1 m.modules)
validate_station-Covers m b n h =
    let (r, e) = station-accepted m h n in
    place_slots-Covers (last_slot 0 m.modules) 1 0 m.modules m.slots 0 b r refl e

contains-Mem : (v : ℕ) (vs : List ℕ) → contains v vs ≡ true → Mem v vs
contains-Mem v [] h = absurd (ground arith)
contains-Mem v (w ∷ ws) h = elim (Bool-cases (v == w)) [
  | inl e ↦ subst (λ (x : ℕ). Mem v (x ∷ ws)) ((==_iff v w).0 e) here
  | inr e ↦ there (contains-Mem v ws (ground arith))
]

Mem-contains : (v : ℕ) (vs : List ℕ) → Mem v vs → contains v vs ≡ true
Mem-contains v [] i = elim i [ ]
Mem-contains v (_ ∷ vs) here = ground (arith, ==_refl v)
Mem-contains v (w ∷ vs) (there i) = ground (arith, Mem-contains v vs i)

has_repeat-Distinct : (vs : List ℕ) → has_repeat vs ≡ false → Distinct vs
has_repeat-Distinct [] h = empty
has_repeat-Distinct (v ∷ vs) h =
    apart (λ i. absurd (ground (arith, Mem-contains v vs i)))
      (has_repeat-Distinct vs (ground arith))

Distinct-has_repeat : (vs : List ℕ) → Distinct vs → has_repeat vs ≡ false
Distinct-has_repeat [] empty = refl
Distinct-has_repeat (v ∷ vs) (apart f d) = elim (Bool-cases (contains v vs)) [
  | inl e ↦ absurd (f (contains-Mem v vs e))
  | inr e ↦ ground (arith, Distinct-has_repeat vs d)
]

contains_all-Mem : (ws vs : List ℕ) → contains_all ws vs ≡ true → (v : ℕ) → Mem v ws → Mem v vs
contains_all-Mem [] vs h v i = elim i [ ]
contains_all-Mem (w ∷ ws) vs h _ here = contains-Mem w vs (ground arith)
contains_all-Mem (w ∷ ws) vs h v (there i) = contains_all-Mem ws vs (ground arith) v i

Mem-contains_all : (ws vs : List ℕ) → ((v : ℕ) → Mem v ws → Mem v vs) → contains_all ws vs ≡ true
Mem-contains_all [] vs f = refl
Mem-contains_all (w ∷ ws) vs f =
    ground (arith, Mem-contains w vs (f w here), Mem-contains_all ws vs (λ v i. f v (there i)))

pdos-tests :
    (s : Slave)
    → (validate_pdos s ≡ ok) ↔ (
        (has_repeat (pdo_values s) ≡ false)
        × (contains_all (mandatory_values s) (pdo_values s) ≡ true))
unfolding validate_pdos
pdos-tests s = ground arith

-- `validate_pdos` accepts a slave exactly if no two of its PDOs have the same index value, and each
-- of its mandatory PDOs has the index value of one of them.
pub validate_pdos_iff :
    (s : Slave)
    → (validate_pdos s ≡ ok)
      ↔ (Distinct (pdo_values s) × ((v : ℕ) → Mem v (mandatory_values s) → Mem v (pdo_values s)))
validate_pdos_iff s = (
  λ h.
      let (r, c) = (pdos-tests s).0 h in
      (
        has_repeat-Distinct (pdo_values s) r,
        contains_all-Mem (mandatory_values s) (pdo_values s) c,
      ),
  λ (d, f). (pdos-tests s).1 (
    Distinct-has_repeat (pdo_values s) d,
    Mem-contains_all (mandatory_values s) (pdo_values s) f,
  ),
)

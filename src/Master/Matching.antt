-- ===== src/Master/Matching.antt =====
-- src/master.c: what a bus that passes the check of its topology looks like.
use ether_dog.Config.Types.{Slave}
use ether_dog.Base.{
  ℕ, zero, suc, true, ◌≡◌, refl, sym, arith, inl, inr, some, List, [], ◌∷◌, length, get_elem?,
  Option-cases, ap, ◌∙◌, subst,
}
use ether_dog.Master.Topology.{Found, found_at, matches, all_match, validate_topology}

matches-fields :
    (e : Slave) (f : Found)
    → matches e (some f) ≡ true
    → (e.settings.check_vendor_id ≡ true → f.eep_man ≡ e.vendor_id)
      × (e.settings.check_product_code ≡ true → f.eep_id ≡ e.product_code)
unfolding matches
matches-fields e f h = ground arith

-- What the check requires of one slave of the configuration.
pub record IsPresent (bus : List Found) (e : Slave) : Type 0 where
  pub slave : Found
  pub is_found : found_at bus e.position ≡ some slave
  pub vendor : e.settings.check_vendor_id ≡ true → slave.eep_man ≡ e.vendor_id
  pub product : e.settings.check_product_code ≡ true → slave.eep_id ≡ e.product_code

present :
    (bus : List Found) (e : Slave) → matches e (found_at bus e.position) ≡ true → IsPresent bus e
unfolding matches
present bus e h = elim (Option-cases (found_at bus e.position)) [
  | inl n ↦ absurd (ground arith)
  | inr (f, s) ↦
      let (v, p) = matches-fields e f (ap (matches e) (sym s) ∙ h) in
      record { slave = f; is_found = s; vendor = v; product = p }
]

all_match-IsPresent :
    (bus : List Found) (es : List Slave)
    → all_match bus es ≡ true
    → (i : ℕ) (e : Slave) → get_elem? es i ≡ some e
    → IsPresent bus e
unfolding all_match
all_match-IsPresent bus [] h i e s = absurd (ground arith)
all_match-IsPresent bus (x ∷ es) h zero e s =
    subst (IsPresent bus) (some_inj s) (present bus x (ground arith))
  where
    some_inj : some x ≡ some e → x ≡ e
    some_inj q = cc
all_match-IsPresent bus (x ∷ es) h (suc i) e s = all_match-IsPresent bus es (ground arith) i e s

-- On a bus that passes, there are as many slaves as configured, and at the position of each
-- configured slave stands one with the vendor and the product that it asks to check.
pub validate_topology-IsPresent :
    (bus : List Found) (es : List Slave)
    → validate_topology bus es ≡ true
    → (length bus ≡ length es) × ((i : ℕ) (e : Slave) → get_elem? es i ≡ some e → IsPresent bus e)
unfolding validate_topology
validate_topology-IsPresent bus es h = (ground arith, all_match-IsPresent bus es (ground arith))

fields-matches :
    (e : Slave) (f : Found)
    → (e.settings.check_vendor_id ≡ true → f.eep_man ≡ e.vendor_id)
    → (e.settings.check_product_code ≡ true → f.eep_id ≡ e.product_code)
    → matches e (some f) ≡ true
unfolding matches
fields-matches e f v p = ground arith

IsPresent-all_match :
    (bus : List Found) (es : List Slave)
    → ((i : ℕ) (e : Slave) → get_elem? es i ≡ some e → IsPresent bus e)
    → all_match bus es ≡ true
unfolding all_match
IsPresent-all_match bus [] h = refl
IsPresent-all_match bus (x ∷ es) h =
    let p = h 0 x refl in
    let m : matches x (found_at bus x.position) ≡ true =
      ap (matches x) p.is_found ∙ fields-matches x p.slave p.vendor p.product in
    rw (m, IsPresent-all_match bus es (λ i e g. h (suc i) e g)) refl

-- A bus with as many slaves as configured, where each of them is present, passes.
pub IsPresent-validate_topology :
    (bus : List Found) (es : List Slave)
    → length bus ≡ length es
    → ((i : ℕ) (e : Slave) → get_elem? es i ≡ some e → IsPresent bus e)
    → validate_topology bus es ≡ true
unfolding validate_topology
IsPresent-validate_topology bus es n h = rw (IsPresent-all_match bus es h) (ground arith)

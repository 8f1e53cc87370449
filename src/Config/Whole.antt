-- ===== src/Config/Whole.antt =====
-- src/config.c: the slaves of a configuration that `ecat_config_validate` accepts.
use ether_dog.Base.{
  ℕ, zero, suc, false, ◌<◌, ◌≡◌, ◌≢◌, arith, subst, none, some, List, [], ◌∷◌, get_elem?,
}
use ether_dog.Base.Int.{ℤ}
use ether_dog.Config.Types.{Slave, Config, ok}
use ether_dog.Config.Relations.{Mem, Distinct}
use ether_dog.Config.Validate.{
  validate, validate_slaves, validate_slave, validate_pdos, validate_station, shares_position,
  equal_ints, pdo_values, mandatory_values,
}
use ether_dog.Config.Accepted.{validate_pdos_iff}

some_inj : {A : Type 0} {a b : A} → some a ≡ some b → a ≡ b
some_inj h = cc

none-some : {A : Type 0} {a : A} → none ≡ some a → ⊥
none-some h = cc

-- The conditions on one slave.
pub record IsAccepted (s : Slave) : Type 0 where
  pub vendor : s.vendor_id ≢ 0
  pub product : s.product_code ≢ 0
  pub distinct : Distinct (pdo_values s)
  pub mandatory : (v : ℕ) → Mem v (mandatory_values s) → Mem v (pdo_values s)
  pub station : validate_station s.modular ≡ ok

slave_checks :
    (s : Slave) (ss : List Slave)
    → validate_slave s ss ≡ ok
    → (s.vendor_id ≢ 0)
      × (s.product_code ≢ 0)
      × (shares_position s.position ss ≡ false)
      × (validate_pdos s ≡ ok)
      × (validate_station s.modular ≡ ok)
unfolding validate_slave
slave_checks s ss h = ground arith

head_checks :
    (s : Slave) (ss : List Slave)
    → validate_slaves (s ∷ ss) ≡ ok
    → (validate_slave s ss ≡ ok) × (validate_slaves ss ≡ ok)
unfolding validate_slaves
head_checks s ss h = ground arith

IsAccepted-slave : (s : Slave) (ss : List Slave) → validate_slave s ss ≡ ok → IsAccepted s
IsAccepted-slave s ss h =
    let (v, p, q, d, t) = slave_checks s ss h in
    let (distinct', mandatory') = (validate_pdos_iff s).0 d in
    record { vendor = v; product = p; distinct = distinct'; mandatory = mandatory'; station = t }

apart_from :
    (p : ℤ) (ss : List Slave)
    → shares_position p ss ≡ false
    → (j : ℕ) (t : Slave) → get_elem? ss j ≡ some t
    → equal_ints p t.position ≡ false
apart_from p [] h j t e = absurd (none-some e)
apart_from p (s ∷ ss) h zero t e =
    subst (λ (x : Slave). equal_ints p x.position ≡ false) (some_inj e) (ground arith)
apart_from p (s ∷ ss) h (suc j) t e = apart_from p ss (ground arith) j t e

slaves-IsAccepted :
    (ss : List Slave)
    → validate_slaves ss ≡ ok
    → (i : ℕ) (s : Slave) → get_elem? ss i ≡ some s
    → IsAccepted s
slaves-IsAccepted [] h i s e = absurd (none-some e)
slaves-IsAccepted (x ∷ ss) h zero s e =
    subst IsAccepted (some_inj e) (IsAccepted-slave x ss (head_checks x ss h).0)
slaves-IsAccepted (x ∷ ss) h (suc i) s e = slaves-IsAccepted ss (head_checks x ss h).1 i s e

slaves_apart :
    (ss : List Slave)
    → validate_slaves ss ≡ ok
    → (i j : ℕ) (s t : Slave) → i < j
    → get_elem? ss i ≡ some s
    → get_elem? ss j ≡ some t
    → equal_ints s.position t.position ≡ false
slaves_apart [] h i j s t l e f = absurd (none-some e)
slaves_apart (x ∷ ss) h i zero s t l e f = absurd (omega arith)
slaves_apart (x ∷ ss) h zero (suc j) s t l e f =
    subst (λ (y : Slave). equal_ints y.position t.position ≡ false) (some_inj e)
      (apart_from x.position ss (slave_checks x ss (head_checks x ss h).0).2 j t f)
slaves_apart (x ∷ ss) h (suc i) (suc j) s t l e f =
    slaves_apart ss (head_checks x ss h).1 i j s t (omega arith) e f

config_slaves : (c : Config) → validate c ≡ ok → validate_slaves c.slaves ≡ ok
unfolding validate
config_slaves c h = ground arith

-- In an accepted configuration each slave has a vendor and a product code that are not 0, PDOs with
-- different index values that include its mandatory ones, and a valid station; and no two slaves
-- have the same position.
pub validate-IsAccepted :
    (c : Config)
    → validate c ≡ ok
    → ((i : ℕ) (s : Slave) → get_elem? c.slaves i ≡ some s → IsAccepted s)
      × ((i j : ℕ) (s t : Slave)
          → i < j
          → get_elem? c.slaves i ≡ some s
          → get_elem? c.slaves j ≡ some t
          → equal_ints s.position t.position ≡ false)
validate-IsAccepted c h =
    (slaves-IsAccepted c.slaves (config_slaves c h), slaves_apart c.slaves (config_slaves c h))

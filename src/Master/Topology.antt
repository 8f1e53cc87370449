-- ===== src/Master/Topology.antt =====
-- src/master.c: the slaves on the bus against the configuration.
use ether_dog.Config.Types.{Slave}
use ether_dog.Base.{
  ℕ, suc, Bool, true, false, not, ◌&&◌, ◌==◌, if◌then◌else◌, Option, none, some, List, [], ◌∷◌,
  length, get_elem?,
}
use ether_dog.Base.Int.{ℤ, pos}

-- `eep_man` and `eep_id` of `ec_slavet`
pub record Found : Type 0 where
  pub eep_man : ℕ
  pub eep_id : ℕ

-- The slave at a position from 1 to the count of slaves.
unfoldable pub found_at : List Found → ℤ → Option Found
found_at bus (pos (suc i)) = get_elem? bus i
found_at bus _ = none

-- The checks of one slave.
unfoldable pub matches : Slave → Option Found → Bool
matches e none = false
matches e (some f) =
    if e.settings.check_vendor_id && not (f.eep_man == e.vendor_id)
    then false
    else not (e.settings.check_product_code && not (f.eep_id == e.product_code))

unfoldable pub all_match : List Found → List Slave → Bool
unfolding matches found_at
all_match bus [] = true
all_match bus (e ∷ es) =
    let rest = all_match bus es in if matches e (found_at bus e.position) then rest else false

-- `ecat_master_validate_topology`: whether the result is 0.
unfoldable pub validate_topology : List Found → List Slave → Bool
unfolding all_match
validate_topology bus es = if not (length bus == length es) then false else all_match bus es

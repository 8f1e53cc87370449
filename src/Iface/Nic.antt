-- ===== src/Iface/Nic.antt =====
-- src/iface_state.c: reading, tuning and restoring the settings of an interface by ethtool.
use Prim.Native.String.{String}
use ether_dog.Base.{Bool, true, false, ◌||◌, List, [], ◌∷◌, Option, none, some, if◌then◌else◌, take}
use ether_dog.Base.Int.{ℤ}
use ether_dog.Config.Host.{codes}
use ether_dog.Iface.Text.{Text, decimal, parse_ethtool_int, parse_ethtool_bool, until_nul}

-- `ecat_iface_state_t`
pub record IfaceState : Type 0 where
  pub iface : Text
  pub coalescing_saved : Bool
  pub rx_usecs : ℤ
  pub tx_usecs : ℤ
  pub offloads_saved : Bool
  pub gro : Bool
  pub gso : Bool
  pub tso : Bool

-- A program that `ecat_run_argv` runs: the system afterwards, and what it writes to its output where
-- its exit status is 0.
pub record Tool : Type 1 where
  pub System : Type 0
  pub run : List Text → System → System × Option Text

abbrev pub on_off : Bool → Text
on_off true = codes "on"
on_off false = codes "off"

abbrev pub ethtool : String → Text → List Text → List Text
ethtool option iface more = codes "ethtool" ∷ codes option ∷ iface ∷ more

abbrev pub coalescing_args : Text → Text → List Text
coalescing_args rx tx = codes "rx-usecs" ∷ rx ∷ codes "tx-usecs" ∷ tx ∷ []

abbrev pub offload_args : Bool → Bool → Bool → List Text
offload_args gro gso tso =
    codes "gro" ∷ on_off gro ∷ codes "gso" ∷ on_off gso ∷ codes "tso" ∷ on_off tso ∷ []

-- The buffer of 2048 bytes as a string.
abbrev pub captured : Text → Text
captured output = until_nul (take 2047 output)

abbrev is_some : {A : Type 0} → Option A → Bool
is_some none = false
is_some (some a) = true

abbrev or_else : {A : Type 0} → Option A → A → A
or_else none d = d
or_else (some a) d = a

-- The coalescing part of `capture_nic_settings`.
unfoldable pub save_coalescing : Option Text → IfaceState → IfaceState
save_coalescing none s = s
save_coalescing (some output) s =
    let rx = parse_ethtool_int (captured output) (codes "rx-usecs") in
    let tx = parse_ethtool_int (captured output) (codes "tx-usecs") in
    if is_some rx || is_some tx
    then record s {
      rx_usecs = or_else rx s.rx_usecs;
      tx_usecs = or_else tx s.tx_usecs;
      coalescing_saved = true;
    }
    else s

-- The offload part of `capture_nic_settings`.
unfoldable pub save_offloads : Option Text → IfaceState → IfaceState
save_offloads none s = s
save_offloads (some output) s =
    let gro = parse_ethtool_bool (captured output) (codes "generic-receive-offload") in
    let gso = parse_ethtool_bool (captured output) (codes "generic-segmentation-offload") in
    let tso = parse_ethtool_bool (captured output) (codes "tcp-segmentation-offload") in
    if is_some gro || is_some gso || is_some tso
    then record s {
      offloads_saved = true;
      gro = or_else gro false;
      gso = or_else gso false;
      tso = or_else tso false;
    }
    else s

module _ (t : Tool) where
  -- `capture_nic_settings`
  unfoldable pub capture_nic_settings : IfaceState → t.System → IfaceState × t.System
  unfolding save_coalescing save_offloads
  capture_nic_settings s sys =
      let (sys', coalescing) = t.run (ethtool "-c" s.iface []) sys in
      let (sys'', offloads) = t.run (ethtool "-k" s.iface []) sys' in
      (save_offloads offloads (save_coalescing coalescing s), sys'')

  abbrev pub set_coalescing : Text → Text → Text → t.System → t.System
  set_coalescing iface rx tx sys = (t.run (ethtool "-C" iface (coalescing_args rx tx)) sys).0

  abbrev pub set_offloads : Text → Bool → Bool → Bool → t.System → t.System
  set_offloads iface gro gso tso sys = (t.run (ethtool "-K" iface (offload_args gro gso tso)) sys).0

  -- `apply_low_latency_nic`
  unfoldable pub apply_low_latency_nic : Text → t.System → t.System
  apply_low_latency_nic iface sys =
      set_offloads iface false false false (set_coalescing iface (codes "0") (codes "0") sys)

  -- `restore_nic_settings`
  unfoldable pub restore_nic_settings : IfaceState → t.System → t.System
  restore_nic_settings s sys =
      let coalesced =
        if s.coalescing_saved
        then set_coalescing s.iface (decimal s.rx_usecs) (decimal s.tx_usecs) sys
        else sys in
      if s.offloads_saved then set_offloads s.iface s.gro s.gso s.tso coalesced else coalesced

-- ===== src/Iface/Tests.antt =====
-- src/iface_state.c: runs on small inputs.
use ether_dog.Base.{true, false, [], ◌∷◌, ◌++◌, none, some, ◌≡◌, refl, arith}
use ether_dog.Base.Int.{pos, negsuc}
use ether_dog.Config.Host.{codes}
use ether_dog.Iface.Text.{atoi, decimal, parse_ethtool_int}
use ether_dog.Iface.Nic.{IfaceState, save_coalescing}
use ether_dog.Iface.Saved.{Writing, print_state, load_state, blank}
use ether_dog.Iface.Reload.{load_state-print_state}
use ether_dog.Iface.Apply.{World, iface_validate, linux_strict, any_platform, apply_tuning, revert}
use ether_dog.Iface.Restored.{crashes, apply_tuning-revert}
use ether_dog.Iface.Manual.{manual_tool, manual_tool-IsEthtool}

irq_is_another_key :
    parse_ethtool_int (codes "rx-usecs-irq: 5" ++ (10 ∷ codes "rx-usecs: 3")) (codes "rx-usecs")
    ≡ some (pos 3)
unfolding parse_ethtool_int
irq_is_another_key = refl

not_a_number : parse_ethtool_int (codes "tx-usecs: n/a") (codes "tx-usecs") ≡ none
unfolding parse_ethtool_int
not_a_number = refl

negative : decimal (negsuc 41) ≡ codes "-42"
unfolding decimal
negative = refl

blanks : atoi (codes "  +17x") ≡ pos 17
unfolding atoi
blanks = refl

abbrev tuned_eth : IfaceState
tuned_eth = record {
  iface = codes "eth0";
  coalescing_saved = true;
  rx_usecs = pos 3;
  tx_usecs = negsuc 0;
  offloads_saved = true;
  gro = true;
  gso = false;
  tso = true;
}

-- Where only one of the two numbers is shown, 0 is saved for the other.
half_shown : (save_coalescing (some (codes "rx-usecs: 3")) (blank (codes "eth0"))).tx_usecs ≡ pos 0
unfolding save_coalescing parse_ethtool_int
half_shown = refl

names :
    (iface_validate (codes "eth0") linux_strict ≡ true)
    × (iface_validate (codes "0eth") linux_strict ≡ false)
    × (iface_validate (codes "eth0.100") linux_strict ≡ false)
    × (iface_validate (codes "eth0.100") any_platform ≡ true)
unfolding iface_validate
names = (refl, refl, refl, refl)

load_state-print_state_example :
    load_state (codes "eth0") (some (print_state tuned_eth)) ≡ some tuned_eth
load_state-print_state_example = load_state-print_state tuned_eth (record {
  name_plain = refl;
  name_short = omega arith;
  rx_int = omega arith;
  tx_int = omega arith;
  no_coalescing = λ e. absurd (cc);
  no_offloads = λ e. absurd (cc);
})

abbrev all_written : Writing
all_written = record { directory = true; opened = true; renamed = true }

abbrev before : World manual_tool
before = record {
  system = record { rx_usecs = pos 3; tx_usecs = pos 7; gro = true; gso = true; tso = false };
  file = none;
}

-- Two crashes, a start and a stop.
apply_tuning-revert_example :
    let started =
      apply_tuning manual_tool all_written
        (codes "eth0")
        (blank [])
        (crashes manual_tool all_written (codes "eth0") 2 before) in
    ((revert manual_tool started.0 started.1).1.system ≡ before.system)
    × ((revert manual_tool started.0 started.1).1.file ≡ none)
apply_tuning-revert_example =
    apply_tuning-revert manual_tool all_written (codes "eth0") (λ n. n)
      (manual_tool-IsEthtool (codes "eth0")) names.0 (refl, refl, refl) before (omega arith)
      (omega arith) refl 2 (blank [])

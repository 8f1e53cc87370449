-- ===== src/Command/Tests.antt =====
-- src/bus.c: tests of the commands, and the instances at which the theorems apply.
use ether_dog.Base.{arith}
use ether_dog.Base.{
  Option, none, ◌≤◌, ◌<◌, ℕ, zero, suc, Bool, true, false, [], ◌∷◌, some, ◌≡◌, refl,
}
use ether_dog.Config.Host.{codes}
use ether_dog.Base.Int.{ℤ, pos}
use ether_dog.Base.Results.{success, failure, all_none}
use ether_dog.Config.Doubles.{Double, finite, between}
use ether_dog.Config.Defaults.{init_defaults}
use ether_dog.Config.Parse.{NamedConfig, parse_all}
use ether_dog.Config.Sample.{host, document}
use ether_dog.Command.Sound.{AreSound, configured, bus_configure-AreSound}
use ether_dog.Bus.State.{error}
use ether_dog.Bus.Lifecycle.{Life, any_active}
use ether_dog.Command.State.{Masters, no_locks, master_out_of_range, bad_slave, name_length}
use ether_dog.Command.Configure.{Locks, Loading, loaded, bus_configure}
use ether_dog.Command.Requests.{check_numbers, validate_interface_name}
use ether_dog.Command.Atomic.{Replied, bus_configure-Replied}
use ether_dog.Command.Numbers.{check_numbers-InRange}

abbrev line : NamedConfig
line = record { name = codes "line"; config = init_defaults }

abbrev cell : NamedConfig
cell = record { name = codes "cell"; config = init_defaults }

abbrev locks : Bool → ℕ → Locks
locks b zero = record { slaves_mutex = true; acyclic_lock = true; data_init = true }
locks b (suc i) = record { slaves_mutex = true; acyclic_lock = true; data_init = b }

-- The locks of the second master are made where b says so.
abbrev loading : Bool → Loading
loading b = record { memory = true; parsed = λ path. success (line ∷ cell ∷ []); locks = locks b }

abbrev before : Masters
before = record { entries = loaded line ∷ []; config_path = codes "/etc/line.json"; leaked = [] }

abbrev after : Masters
after = record {
  entries = loaded line ∷ loaded cell ∷ [];
  config_path = codes "/etc/new.json";
  leaked = [];
}

configuration_replaces :
    bus_configure (loading true) (some (codes "/etc/new.json")) before ≡ (after, success tt)
unfolding bus_configure any_active
configuration_replaces = refl

failed_lock_keeps :
    bus_configure (loading false) (some (codes "/etc/new.json")) before ≡ (before, failure no_locks)
unfolding bus_configure any_active
failed_lock_keeps = refl

abbrev still_running : Life
still_running = record {
  bus_state = error;
  bus_running = true;
  monitor_running = true;
  bus_threads = 1;
  monitor_threads = 1;
}

-- A master whose recovery was given up: it counts as inactive, and its threads run.
abbrev given_up : Masters
given_up = record before { entries = record (loaded line) { life = still_running } ∷ [] }

still_running_leaks :
    bus_configure (loading true) none given_up
    ≡ (record { entries = []; config_path = []; leaked = given_up.entries }, success tt)
unfolding bus_configure any_active
still_running_leaks = refl

bus_configure-Replied_example :
    Replied
      (loading true)
      (codes "/etc/new.json")
      before
      (bus_configure (loading true) (some (codes "/etc/new.json")) before)
bus_configure-Replied_example =
    bus_configure-Replied (loading true) (some (codes "/etc/new.json")) before

abbrev number : ℕ → Double → Option (ℤ × Double)
number i v = some (pos i, v)

half :
    check_numbers 2 (number 1 (finite false 1 0)) (number 3 (finite false 7 1)) ≡ failure bad_slave
unfolding check_numbers
half = refl

third_master :
    check_numbers 2 (number 2 (finite false 2 0)) (number 3 (finite false 3 0))
    ≡ failure master_out_of_range
unfolding check_numbers
third_master = refl

second_master :
    check_numbers 2 (number 1 (finite false 1 0)) (number 3 (finite false 3 0)) ≡ success (1, 3)
unfolding check_numbers
second_master = refl

check_numbers-InRange_example :
    (v : Double) × (u : Double) × (number 1 (finite false 1 0) ≡ number 1 v)
    × (number 3 (finite false 3 0) ≡ number 3 u)
    × (between (pos 1) (pos 1) v ≡ true)
    × (between (pos 3) (pos 3) u ≡ true)
    × (1 < 2)
    × (1 ≤ 3)
    × (3 ≤ 65535)
check_numbers-InRange_example =
    check_numbers-InRange 2 1 3 (number 1 (finite false 1 0)) (number 3 (finite false 3 0))
      second_master

empty_name : validate_interface_name [] ≡ failure name_length
unfolding validate_interface_name
empty_name = refl

abbrev no_masters : Masters
no_masters = record { entries = []; config_path = []; leaked = [] }

-- Every file holds the document of the parser's tests.
abbrev from_document : Loading
from_document = record {
  memory = true;
  parsed = λ path. parse_all host 4 (some (some document));
  locks = locks true;
}

bus_configure-AreSound_example :
    AreSound 4
      (configured (bus_configure from_document (some (codes "/etc/new.json")) no_masters).0.entries)
bus_configure-AreSound_example =
    bus_configure-AreSound host 4 (λ path. some (some document)) from_document (λ path. refl)
      (some (codes "/etc/new.json")) no_masters (all_none, omega arith, refl)

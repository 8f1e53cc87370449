-- ===== src/Bus/Threads.antt =====
-- src/bus.c: how many threads a master has, over starts and stops.
use ether_dog.Base.{ℕ, Bool, true, false, ◌≡◌, arith, if◌then◌else◌}
use ether_dog.Bus.State.{error}
use ether_dog.Bus.Lifecycle.{
  Life, Startup, start_single_master, start_master, stop_single_master, phases_pass, create_threads,
  create_bus, join_bus, join_monitor, is_down, give_up, destroys,
}

abbrev pub one_if : Bool → ℕ
one_if b = if b then 1 else 0

-- One thread of each kind where its flag is set, none else; and none while the master is down.
pub record IsSingle (l : Life) : Type 0 where
  pub one_bus : l.bus_threads ≡ one_if l.bus_running
  pub one_monitor : l.monitor_threads ≡ one_if l.monitor_running
  pub down : is_down l.bus_state ≡ true → (l.bus_running ≡ false) × (l.monitor_running ≡ false)

-- A stop leaves a master that has single threads with none, down, and free to be destroyed.
pub stop_single_master-quiet :
    (l : Life)
    → IsSingle l
    → IsSingle (stop_single_master l)
      × ((stop_single_master l).bus_threads ≡ 0)
      × ((stop_single_master l).monitor_threads ≡ 0)
      × (is_down (stop_single_master l).bus_state ≡ true)
      × (destroys (stop_single_master l) ≡ true)
unfolding stop_single_master join_bus join_monitor
stop_single_master-quiet l v = ground arith

-- A start keeps the threads single, unless it is made in the error state with a thread running.
pub start_master-IsSingle :
    (u : Startup) (l : Life)
    → IsSingle l
    → (l.bus_state ≡ error → (l.bus_running ≡ false) × (l.monitor_running ≡ false))
    → IsSingle (start_master u l).0
unfolding start_master start_single_master create_threads create_bus phases_pass
start_master-IsSingle u l v e = ground arith

-- Where one thread of each kind runs and the monitor gives up, a start that succeeds makes two of
-- each, and a stop then leaves a bus thread that is not joined.
pub start_master-doubles :
    (u : Startup) (l : Life)
    → IsSingle l
    → l.bus_running ≡ true
    → l.monitor_running ≡ true
    → (start_master u (give_up l)).1 ≡ true
    → ((start_master u (give_up l)).0.bus_threads ≡ 2)
      × ((start_master u (give_up l)).0.monitor_threads ≡ 2)
      × ((stop_single_master (start_master u (give_up l)).0).bus_threads ≡ 1)
unfolding start_master start_single_master create_threads create_bus phases_pass stop_single_master
    join_bus join_monitor
start_master-doubles u l v b m e = ground arith

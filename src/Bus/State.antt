-- ===== src/Bus/State.antt =====
-- src/config.h and src/bus.c: the state of one master that its threads share. The counters that the
-- source bounds by its thresholds, and the 64-bit ones, are plain numbers.
use ether_dog.Base.{◌-◌, ℕ, Bool, true, false, ◌&&◌, ◌%◌, ◌^◌, ltb, ◌==◌}
use ether_dog.Base.Int.{ℤ, pos, leb_ℤ}

-- `ecat_bus_state_t`
pub data BusState : Type 0 where
  idle scanning configuring transitioning operational recovering error stopped : BusState

BusState-discrete : Discrete BusState
BusState-discrete = hlevel

-- ECAT_STATE_OPERATIONAL or ECAT_STATE_RECOVERING: the bus thread exchanges.
abbrev pub exchanges : BusState → Bool
exchanges operational = true
exchanges recovering = true
exchanges _ = false

abbrev pub is_operational : BusState → Bool
is_operational operational = true
is_operational _ = false

-- The test of `ecat_bus_any_active`.
abbrev pub is_active : BusState → Bool
is_active idle = false
is_active stopped = false
is_active error = false
is_active _ = true

abbrev pub wkc_error_threshold : ℕ
wkc_error_threshold = 3

abbrev pub al_fault_threshold : ℕ
al_fault_threshold = 3

-- `ecat_cycle_diag_t`, the part that the exchange updates. The sum of the moving average never
-- falls below 0, so it is a plain number.
pub record Diag : Type 0 where
  pub cycle_count : ℕ
  pub wkc_error_count : ℕ
  pub noframe_count : ℕ
  pub bus_cycle_ns : ℕ
  pub max_bus_cycle_ns : ℕ
  pub min_bus_cycle_ns : ℕ
  pub avg_bus_cycle_ns_sum : ℕ

-- `diag_reset`
unfoldable pub diag_reset : Diag
diag_reset = record {
  cycle_count = 0;
  wkc_error_count = 0;
  noframe_count = 0;
  bus_cycle_ns = 0;
  max_bus_cycle_ns = 0;
  min_bus_cycle_ns = 2 ^ 64 - 1;
  avg_bus_cycle_ns_sum = 0;
}

-- The fields of `ecat_master_instance_t` that the bus thread and the monitor work on.
pub record Master : Type 0 where
  pub bus_state : BusState
  pub iomap_allocated : Bool
  pub slavecount : ℕ
  pub expected_wkc : ℤ
  pub diag : Diag
  pub avg_window : ℕ
  pub cycle_counter : ℕ
  pub consecutive_wkc_errors : ℕ
  pub recovery_attempts : ℕ
  pub recovery_writestate_failures : ℕ
  pub consecutive_al_faults : ℕ
  pub al_status : ℕ
  pub al_wkc : ℤ
  pub al_replies : ℕ
  pub al_misses : ℕ
  pub al_faults : ℕ
  pub recovery_al_trigger : ℕ

-- EC_STATE_OPERATIONAL of SOEM
abbrev pub al_operational : ℕ
al_operational = 8

-- `ecat_al_poll_healthy`: the mask 0x0F | EC_STATE_ERROR is the low five bits.
unfoldable pub al_poll_healthy : ℕ → ℤ → ℕ → Bool
al_poll_healthy al_status wkc slave_count =
    ltb 0 slave_count && leb_ℤ (pos slave_count) wkc && (al_status % 32 == al_operational)

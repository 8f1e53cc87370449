-- ===== src/Master/Configure.antt =====
-- src/master.c: ecat_master_configure, with the watchdogs and the distributed clocks of the slaves.
use ether_dog.Base.{
  ℕ, suc, Bool, true, false, not, ◌||◌, ◌&&◌, ◌*◌, ◌^◌, if◌then◌else◌, Option, none, some, List, [],
  ◌∷◌, ◌++◌,
}
use ether_dog.Base.Int.{ℤ, pos, negsuc, negate, wrap, ltb_ℤ}
use ether_dog.Config.Types.{Slave, Config}
use ether_dog.Master.Timing.{Watchdog, configure_watchdog}
use ether_dog.Master.Iomap.{ImageBuffer, Reported, map_process_data}

-- `slave->watchdog`
abbrev pub watchdog_of : Slave → Watchdog
watchdog_of s = record {
  sm_watchdog_enabled = s.settings.sm_watchdog_enabled;
  sm_watchdog_ms = s.settings.sm_watchdog_ms;
  pdi_watchdog_enabled = s.settings.pdi_watchdog_enabled;
  pdi_watchdog_ms = s.settings.pdi_watchdog_ms;
}

-- `pos < 1 || pos > slavecount` does not hold.
abbrev pub on_bus : ℕ → ℤ → Bool
on_bus slavecount p = not (ltb_ℤ p (pos 1) || ltb_ℤ (pos slavecount) p)

-- A register write: the position of the slave, the register and its value.
pub record Write : Type 0 where
  pub slave : ℤ
  pub register : ℕ
  pub value : ℕ

abbrev pub writes_of : ℤ → List (ℕ × ℕ) → List Write
writes_of p [] = []
writes_of p ((r, v) ∷ ws) = record { slave = p; register = r; value = v } ∷ writes_of p ws

-- The loop over the watchdogs: the writes, and whether the loop comes to its end. `sm_written` tells
-- of each position whether the slave answers the write of its SM watchdog.
unfoldable pub configure_watchdogs : ℕ → (ℤ → Bool) → List Slave → List Write × Bool
unfolding configure_watchdog
configure_watchdogs slavecount sm_written [] = ([], true)
configure_watchdogs slavecount sm_written (s ∷ ss) =
    let rest = configure_watchdogs slavecount sm_written ss in
    let one = configure_watchdog s.settings.strict_sdo (sm_written s.position) (watchdog_of s) in
    if not (on_bus slavecount s.position)
    then rest
    else if not one.1
    then (writes_of s.position one.0, false)
    else (writes_of s.position one.0 ++ rest.0, rest.1)

-- `us * 1000` on ints, whose overflow is not modelled.
abbrev pub nanoseconds : ℤ → ℤ
nanoseconds (pos n) = pos (n * 1000)
nanoseconds (negsuc n) = negate (suc n * 1000)

-- A time of the slave in ns, as a uint32_t, or the other one where it is not positive.
abbrev pub cycle_or : ℤ → ℕ → ℕ
cycle_or us other = if ltb_ℤ (pos 0) us then wrap (nanoseconds us) (2 ^ 32) else other

-- The calls of ecx_dcsync01 and ecx_dcsync0.
pub data SyncCall : Type 0 where
  dcsync01 : ℤ → ℕ → ℕ → ℤ → SyncCall
  dcsync0 : ℤ → ℕ → ℤ → SyncCall

-- The body of the loop of `ecat_master_configure_dc` for a slave.
unfoldable pub configure_dc_slave : ℤ → ℕ → (ℤ → Bool) → Slave → Option SyncCall
configure_dc_slave master_us slavecount hasdc s =
    let dc = s.settings.dc in
    let cycle_ns = cycle_or dc.sync_unit_cycle_us (wrap (nanoseconds master_us) (2 ^ 32)) in
    let cycle0_ns = cycle_or dc.sync0_cycle_us cycle_ns in
    let shift_ns = nanoseconds dc.sync0_shift_us in
    if not dc.enabled || not (on_bus slavecount s.position) || not (hasdc s.position)
    then none
    else if dc.sync0_enabled && dc.sync1_enabled
    then some (dcsync01 s.position cycle0_ns (cycle_or dc.sync1_cycle_us cycle_ns) shift_ns)
    else if dc.sync0_enabled
    then some (dcsync0 s.position cycle0_ns shift_ns)
    else none

-- `ecat_master_configure_dc`, after ecx_configdc.
unfoldable pub configure_dc : ℤ → ℕ → (ℤ → Bool) → List Slave → List SyncCall
unfolding configure_dc_slave
configure_dc master_us slavecount hasdc [] = []
configure_dc master_us slavecount hasdc (s ∷ ss) =
    let rest = configure_dc master_us slavecount hasdc ss in
    elim (configure_dc_slave master_us slavecount hasdc s) [ none ↦ rest | some c ↦ c ∷ rest ]

-- What SOEM gives: the slaves and what they report, the bytes mapped, and the answers.
pub record Bus : Type 0 where
  pub soem_initialized : Bool
  pub memory : Bool
  pub slavecount : ℕ
  pub reported : List Reported
  pub io_size : ℤ
  pub sm_written : ℤ → Bool
  pub hasdc : ℤ → Bool

-- `ecat_master_configure`: the buffer, the register writes, the calls for the clocks, and whether the
-- result is 0.
unfoldable pub configure :
    Bus → Config → ImageBuffer → ImageBuffer × List Write × List SyncCall × Bool
unfolding map_process_data configure_watchdogs configure_dc
configure b c i =
    let (mapped, ok) = map_process_data b.soem_initialized b.memory b.reported b.io_size i in
    let (writes, written) = configure_watchdogs b.slavecount b.sm_written c.slaves in
    if not ok
    then (mapped, [], [], false)
    else if not written
    then (mapped, writes, [], false)
    else (mapped, writes, configure_dc c.cycle_time_us b.slavecount b.hasdc c.slaves, true)

-- ===== src/Bus/Cycle.antt =====
-- src/bus.c: one cycle of the bus thread. What SOEM and the clock deliver in a cycle is an argument.
use ether_dog.Base.{
  ℕ, Bool, true, false, not, ◌&&◌, ◌+◌, ◌-◌, ◌/◌, ◌^◌, leb, ltb, ◌==◌, if◌then◌else◌, Option, none,
  some, List,
}
use ether_dog.Base.Int.{ℤ, pos, negsuc, leb_ℤ, ltb_ℤ}
use ether_dog.Dgram.{Datagram}
use ether_dog.Data.Session.{Channel, Io}
use ether_dog.Data.Outputs.{apply_outputs}
use ether_dog.Data.Inputs.{Exchange, publish_inputs}
use ether_dog.Bus.State.{
  BusState, recovering, exchanges, is_operational, Master, Diag, al_poll_healthy,
  wkc_error_threshold, al_fault_threshold,
}

-- What one cycle observes: the datagrams of the client, the reply to the AL status poll with its
-- working counter (`none`: not sent or not answered), the working counter of the process data, the
-- input region after the exchange, its duration, and whether the session lock is free before and
-- after it and the send succeeds.
pub record Observed : Type 0 where
  pub queue : List Datagram
  pub al_reply : Option (ℕ × ℤ)
  pub wkc : ℤ
  pub inputs : Option (List ℕ)
  pub exchange_ns : ℕ
  pub lock_before : Bool
  pub lock_after : Bool
  pub sent : Bool

-- `collect_al_poll`
unfoldable pub collect_al_poll : Option (ℕ × ℤ) → Master → Master
collect_al_poll none m = record m { al_misses = m.al_misses + 1 }
collect_al_poll (some (al_status, al_wkc)) m =
    let m' : Master = record m {
      al_status = al_status;
      al_wkc = al_wkc;
      al_replies = m.al_replies + 1;
    } in
    if al_poll_healthy al_status al_wkc m.slavecount
    then record m' { consecutive_al_faults = 0 }
    else record m' {
      consecutive_al_faults = m.consecutive_al_faults + 1;
      al_faults = m.al_faults + 1;
    }

-- The moving average, kept as a sum: `sum += x - sum / n`.
unfoldable pub ewma : ℕ → ℕ → ℕ → ℕ
ewma n sum x = sum + x - sum / n

-- EC_NOFRAME of SOEM is -1.
abbrev is_noframe : ℤ → Bool
is_noframe (negsuc n) = n == 0
is_noframe (pos n) = false

abbrev pub is_wkc_error : Master → ℤ → Bool
is_wkc_error m wkc = ltb_ℤ wkc m.expected_wkc

-- The diagnostics of one exchange.
unfoldable pub record_exchange : ℕ → Bool → ℤ → ℕ → Diag → Diag
unfolding ewma
record_exchange window wkc_error wkc ns d = record {
  cycle_count = d.cycle_count + 1;
  wkc_error_count = if wkc_error then d.wkc_error_count + 1 else d.wkc_error_count;
  noframe_count = if wkc_error && is_noframe wkc then d.noframe_count + 1 else d.noframe_count;
  bus_cycle_ns = ns;
  max_bus_cycle_ns = if ltb d.max_bus_cycle_ns ns then ns else d.max_bus_cycle_ns;
  min_bus_cycle_ns = if ltb ns d.min_bus_cycle_ns then ns else d.min_bus_cycle_ns;
  avg_bus_cycle_ns_sum = ewma window d.avg_bus_cycle_ns_sum ns;
}

-- The end of the cycle: an operational master goes to recovery at either threshold. Here `m` has
-- this cycle's counters.
unfoldable pub check_thresholds : BusState → ℕ → Master → Master
check_thresholds state consec m =
    if is_operational state && leb wkc_error_threshold consec
    then record m { recovery_al_trigger = 0; bus_state = recovering }
    else if is_operational state && leb al_fault_threshold m.consecutive_al_faults
    then record m { recovery_al_trigger = 2 ^ 16 + m.al_status; bus_state = recovering }
    else m

-- The number of working counter errors in a row, this cycle's included.
unfoldable pub wkc_errors : Observed → Master → ℕ
wkc_errors x m = if is_wkc_error m x.wkc then m.consecutive_wkc_errors + 1 else 0

-- The counters after the exchange.
unfoldable pub count : Observed → Master → Master
count x m = record (collect_al_poll x.al_reply m) {
  cycle_counter = m.cycle_counter + 1;
  diag = record_exchange m.avg_window (is_wkc_error m x.wkc) x.wkc x.exchange_ns m.diag;
  consecutive_wkc_errors = wkc_errors x m;
}

-- The counters and the state after the exchange.
unfoldable pub account : Observed → Master → Master
account x m = check_thresholds m.bus_state (wkc_errors x m) (count x m)

-- The health that this cycle's input frame reports.
abbrev pub exchange_of : Observed → Master → Exchange
exchange_of x m = record {
  wkc = x.wkc;
  operational = is_operational m.bus_state;
  wkc_ok = leb_ℤ m.expected_wkc x.wkc;
}

pub record Instance : Type 0 where
  pub master : Master
  pub channel : Channel

-- The session after the exchange, and the input frame that goes out.
unfoldable pub publish : ℕ → Observed → Master → Channel → Channel × Option (List ℕ)
publish master_index x m c =
    let io : Io = record (c.io) { inputs = x.inputs } in
    let (d, out) =
      publish_inputs master_index (exchange_of x m) x.lock_after x.sent io c.data_session in
    (record { io = io; data_session = d }, out)

-- `ecat_run_one_cycle`: the instance afterwards, the datagram that was sent, and the result.
unfoldable pub run_one_cycle : ℕ → Observed → Instance → Instance × Option (List ℕ) × Bool
run_one_cycle master_index x i =
    if not (exchanges i.master.bus_state)
    then (i, none, false)
    else if not (i.channel.io.soem_initialized && i.master.iomap_allocated)
    then (i, none, false)
    else exchanged
  where
    exchanged : Instance × Option (List ℕ) × Bool
    exchanged =
        let c = apply_outputs master_index x.lock_before x.queue i.channel in
        let (c', out) = publish master_index x i.master c in
        (record { master = account x i.master; channel = c' }, out, true)

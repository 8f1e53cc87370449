-- ===== src/Master/Open.antt =====
-- src/master.c and src/config.c: opening the interface with the scan of the bus, and closing it. What
-- SOEM answers and whether there is memory are arguments.
use ether_dog.Base.{
  ℕ, zero, suc, ◌+◌, ◌*◌, Bool, true, false, not, ◌&&◌, ◌||◌, List, [], ◌∷◌, ◌++◌, Option, none,
  some, ltb, ◌==◌, if◌then◌else◌, length, replicate, zero_fill,
}
use ether_dog.Base.Int.{ℤ, pos, pos_part, neg_part, leb_ℤ}
use ether_dog.Config.Types.{Slave}
use ether_dog.Bus.Watch.{Snapshot, SlaveStatus}
use ether_dog.Master.Iomap.{ImageBuffer, alloc_iomap}
use ether_dog.Master.Timing.{Limits}
use ether_dog.Master.Sdo.{int_max}
use ether_dog.Master.Topology.{Found, validate_topology}

-- The fields of `ecat_master_instance_t` that a start allocates and closing releases.
pub record Opened : Type 0 where
  pub soem_initialized : Bool
  pub buffer : ImageBuffer
  pub snapshot : Snapshot

abbrev pub released_buffer : ImageBuffer
released_buffer = record { iomap = none; iomap_capacity = 0; iomap_used_size = 0 }

abbrev pub released_snapshot : Snapshot
released_snapshot = record {
  slaves_snapshot = none;
  slaves_snapshot_count = 0;
  slaves_snapshot_capacity = 0;
}

abbrev pub blank_status : SlaveStatus
blank_status = record {
  position = pos 0;
  name = [];
  al_state = 0;
  al_status_code = 0;
  error_count = 0;
}

abbrev pub snapshot_slots : List Slave → ℕ
snapshot_slots [] = 1
snapshot_slots (s ∷ ss) = length (s ∷ ss)

abbrev alloc_into : Bool → ℕ → Option (List SlaveStatus) → Snapshot → Snapshot × Bool
alloc_into available n (some old) p = (p, false)
alloc_into available n none p = if not available then (p, false) else (
  record {
    slaves_snapshot = some (replicate n blank_status);
    slaves_snapshot_count = 0;
    slaves_snapshot_capacity = n;
  },
  true,
)

-- `ecat_master_instance_alloc_snapshot`
unfoldable pub alloc_snapshot : Bool → List Slave → Snapshot → Snapshot × Bool
alloc_snapshot available slaves p = alloc_into available (snapshot_slots slaves) p.slaves_snapshot p

-- What SOEM gives in a scan: whether ecx_init opens the interface, the result of ecx_config_init, the
-- slaves on the bus, and their states when the wait for PRE-OP with its limit is over.
pub record Scan : Type 0 where
  pub init_ok : Bool
  pub config_init : ℤ
  pub found : List Found
  pub states : ℕ → List ℕ
  pub iomap_memory : Bool
  pub snapshot_memory : Bool

-- A time in microseconds, 0 where it is negative; `none` where the product overflows an int, which C
-- leaves undefined.
unfoldable pub preop_us : ℤ → Option ℕ
preop_us ms =
    if ltb int_max (pos_part ms * 1000) || ltb (int_max + 1) (neg_part ms * 1000)
    then none
    else some (pos_part ms * 1000)

-- The longest INIT to PRE-OP time in microseconds, from 0 on.
unfoldable pub longest_preop : List Slave → ℕ → Option ℕ
unfolding preop_us
longest_preop [] t = some t
longest_preop (s ∷ ss) t = elim (preop_us s.settings.init_to_preop_timeout_ms) [
  | none ↦ none
  | some us ↦ longest_preop ss (if ltb t us then us else t)
]

unfoldable pub preop_timeout : Limits → List Slave → Option ℕ
unfolding longest_preop
preop_timeout k slaves = elim (longest_preop slaves 0) [
  | none ↦ none
  | some t ↦ some (if t == 0 then k.timeout_state * 4 else t)
]

-- EC_STATE_PRE_OP
abbrev pub state_pre_op : ℕ
state_pre_op = 2

unfoldable pub all_preop : List ℕ → Bool
all_preop [] = true
all_preop (state ∷ states) = not (ltb state state_pre_op) && all_preop states

-- ecx_close, with the flag
abbrev pub port_closed : Opened → Opened
port_closed s = record s { soem_initialized = false }

-- The states after the wait.
abbrev pub check_states : Scan → ℕ → Opened → Opened × Bool
check_states x t s = if not (all_preop (x.states t)) then (port_closed s, false) else (s, true)

-- The part of `ecat_master_open_and_scan` behind the allocations.
unfoldable pub check_bus : Limits → Scan → List Slave → Opened → Option (Opened × Bool)
unfolding all_preop preop_timeout
check_bus k x slaves s =
    if not (validate_topology x.found slaves)
    then some (port_closed s, false)
    else elim (preop_timeout k slaves) [ none ↦ none | some t ↦ some (check_states x t s) ]

-- `ecat_master_open_and_scan`: whether the result is 0; `none` where it is undefined. The tuning of the interface is in Iface.
unfoldable pub open_and_scan : Limits → Scan → List Slave → Opened → Option (Opened × Bool)
unfolding check_bus alloc_iomap alloc_snapshot
open_and_scan k x slaves s =
    let s0 : Opened = record s { buffer = released_buffer; snapshot = released_snapshot } in
    let (b, iomap_ok) = alloc_iomap x.iomap_memory slaves released_buffer in
    let (p, snapshot_ok) = alloc_snapshot x.snapshot_memory slaves released_snapshot in
    if not x.init_ok
    then some (s0, false)
    else if leb_ℤ x.config_init (pos 0)
    then some (port_closed s0, false)
    else if not iomap_ok
    then some (port_closed s0, false)
    else if not snapshot_ok
    then some (port_closed (record s0 { buffer = b }), false)
    else check_bus k x slaves (record { soem_initialized = true; buffer = b; snapshot = p })

-- ECAT_ZERO_OUTPUT_ATTEMPTS
abbrev pub zero_output_attempts : ℕ
zero_output_attempts = 3

-- The calls of closing a master: an exchange with the image that it sends, the request for INIT, the wait for it,
-- the reading of the states, the end of the socket, and the end of the tuning of the interface.
pub data CloseCall : Type 0 where
  exchange : List ℕ → CloseCall
  request_init : CloseCall
  check_init : CloseCall
  read_states : CloseCall
  close_port : CloseCall
  revert_tuning : CloseCall

-- How many exchanges are made: up to `left`, until one is answered. `wkc i` is the working counter of
-- exchange `i`.
unfoldable pub zero_exchanges : ℕ → ℕ → (ℕ → ℤ) → ℕ
zero_exchanges zero i wkc = 0
zero_exchanges (suc left) i wkc =
    let more = zero_exchanges left (i + 1) wkc in if leb_ℤ (wkc i) (pos 0) then suc more else 1

abbrev pub init_calls : ℤ → List CloseCall
init_calls init_wkc =
    request_init ∷ (if leb_ℤ init_wkc (pos 0) then [] else check_init ∷ read_states ∷ [])

abbrev pub zero_calls : (ℕ → ℤ) → List ℕ → ℕ → List CloseCall
zero_calls wkc image used =
    if ltb 0 used
    then replicate (zero_exchanges zero_output_attempts 0 wkc) (exchange (zero_fill image used))
    else []

-- `ecat_master_close` on the bytes of the image: the calls it makes, and what is left.
unfoldable pub close_master : (ℕ → ℤ) → ℤ → List ℕ → Opened → List CloseCall × Opened
unfolding zero_exchanges
close_master wkc init_wkc image s = (
  (if s.soem_initialized
        then zero_calls wkc image s.buffer.iomap_used_size
          ++ (init_calls init_wkc ++ (close_port ∷ []))
        else [])
      ++ (revert_tuning ∷ []),
  record { soem_initialized = false; buffer = released_buffer; snapshot = released_snapshot },
)

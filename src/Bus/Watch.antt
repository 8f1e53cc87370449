-- ===== src/Bus/Watch.antt =====
-- src/bus.c and src/master.c: the passes of the monitor thread: the refresh of the slaves' states, the
-- snapshot for status queries, the mailboxes and what is logged. What SOEM answers, and whether there
-- is memory, are arguments of a pass.
use ether_dog.Base.{
  ℕ, suc, ◌%◌, Bool, true, false, not, ◌&&◌, List, [], ◌∷◌, ◌++◌, Option, none, some, ltb, ◌==◌,
  if◌then◌else◌, length, get_elem?, take, drop, min, map,
}
use ether_dog.Base.Int.{ℤ, pos}
use ether_dog.Config.Types.{Slave}
use ether_dog.Bus.State.{
  BusState, idle, scanning, configuring, transitioning, operational, recovering, error, stopped,
  exchanges, Master,
}
use ether_dog.Bus.Monitor.{Answers, BusSlave, recovery_pass, state_operational}

-- The fields of `ec_slavet` that the snapshot reads; the slaves stand in the order of their positions.
pub record Polled : Type 0 where
  pub state : ℕ
  pub al_status_code : ℕ

-- `ecat_slave_status_t`
pub record SlaveStatus : Type 0 where
  pub position : ℤ
  pub name : List ℕ
  pub al_state : ℕ
  pub al_status_code : ℕ
  pub error_count : ℕ

-- The snapshot of `ecat_master_instance_t`; `none` is a pointer that is NULL.
pub record Snapshot : Type 0 where
  pub slaves_snapshot : Option (List SlaveStatus)
  pub slaves_snapshot_count : ℕ
  pub slaves_snapshot_capacity : ℕ

-- `ecat_master_get_slave`
unfoldable pub slave_at : List Polled → ℤ → Option Polled
slave_at slaves (pos (suc i)) = get_elem? slaves i
slave_at slaves _ = none

-- One slave of the snapshot, with zeros for a position that the bus does not have.
unfoldable pub status_of : List Polled → Slave → SlaveStatus
unfolding slave_at
status_of slaves cfg = elim (slave_at slaves cfg.position) [
  | none ↦ record {
    position = cfg.position;
    name = cfg.name;
    al_state = 0;
    al_status_code = 0;
    error_count = 0;
  }
  | some s ↦ record {
    position = cfg.position;
    name = cfg.name;
    al_state = s.state;
    al_status_code = s.al_status_code;
    error_count = 0;
  }
]

abbrev publish_into : List SlaveStatus → List Slave → List Polled → Snapshot → Snapshot
publish_into old configured slaves s =
    let n = min (length configured) s.slaves_snapshot_capacity in
    record s {
      slaves_snapshot = some (map (status_of slaves) (take n configured) ++ drop n old);
      slaves_snapshot_count = n;
    }

abbrev publish_to :
    Option (List SlaveStatus) → Bool → List Slave → List Polled → Snapshot → Snapshot
publish_to none memory configured slaves s = s
publish_to (some old) memory configured slaves s =
    if s.slaves_snapshot_capacity == 0
    then s
    else if not memory
    then s
    else publish_into old configured slaves s

-- `publish_slaves_snapshot`
unfoldable pub publish_slaves_snapshot : Bool → List Slave → List Polled → Snapshot → Snapshot
unfolding status_of
publish_slaves_snapshot memory configured slaves s =
    publish_to s.slaves_snapshot memory configured slaves s

-- `ecat_master_mark_all_operational`
unfoldable pub mark_all_operational : List Polled → List Polled
mark_all_operational [] = []
mark_all_operational (s ∷ ss) =
    record { state = state_operational; al_status_code = 0 } ∷ mark_all_operational ss

-- What the thread keeps between its passes. `last_logged_state` is `none` for -1.
pub record Watcher : Type 0 where
  pub last_al_replies : ℕ
  pub last_al_faults : ℕ
  pub last_logged_state : Option BusState
  pub last_logged_consec_wkc : ℕ

-- New replies and no new faults: no frame is needed.
unfoldable pub marks : Master → Watcher → Bool
marks m w = not (m.al_replies == w.last_al_replies) && (m.al_faults == w.last_al_faults)

unfoldable pub remember_polls : Master → Watcher → Watcher
remember_polls m w = record w { last_al_replies = m.al_replies; last_al_faults = m.al_faults }

-- The fields of `ec_errort` that choose the level of its entry; `emergency` is the type
-- EC_ERR_TYPE_EMERGENCY.
pub record SoemError : Type 0 where
  pub emergency : Bool
  pub slave : ℕ
  pub error_code : ℕ

pub data Level : Type 0 where
  log_info log_warn log_error : Level

-- The level that `log_ecat_error` logs at: an emergency with code 0 reports that a fault is over.
unfoldable pub level_of : SoemError → Level
level_of e = if e.emergency then (if e.error_code == 0 then log_info else log_error) else log_warn

-- EC_MAXELIST
abbrev pub max_errors : ℕ
max_errors = 64

pub data Logged : Type 0 where
  wkc_threshold : Logged
  not_in_op : ℕ → Logged
  wkc_errors_seen : ℕ → Logged
  wkc_errors_cleared : Logged

abbrev pub same_state : Option BusState → BusState → Bool
same_state (some idle) idle = true
same_state (some scanning) scanning = true
same_state (some configuring) configuring = true
same_state (some transitioning) transitioning = true
same_state (some operational) operational = true
same_state (some recovering) recovering = true
same_state (some error) error = true
same_state (some stopped) stopped = true
same_state _ _ = false

abbrev state_log : BusState → ℕ → List Logged
state_log recovering al_trigger =
    if al_trigger == 0 then wkc_threshold ∷ [] else not_in_op (al_trigger % 65536) ∷ []
state_log _ al_trigger = []

-- The logging of a change of the state.
unfoldable pub log_state : Master → Watcher → List Logged × Watcher
log_state m w = if same_state w.last_logged_state m.bus_state then ([], w) else (
  state_log m.bus_state m.recovery_al_trigger,
  record w { last_logged_state = some m.bus_state },
)

-- The logging of working counter errors that begin and end.
unfoldable pub log_wkc : Master → Watcher → List Logged × Watcher
log_wkc m w =
    if ltb 0 m.consecutive_wkc_errors && (w.last_logged_consec_wkc == 0)
    then (
      wkc_errors_seen m.consecutive_wkc_errors ∷ [],
      record w { last_logged_consec_wkc = m.consecutive_wkc_errors },
    )
    else if (m.consecutive_wkc_errors == 0) && not (w.last_logged_consec_wkc == 0)
    then (wkc_errors_cleared ∷ [], record w { last_logged_consec_wkc = 0 })
    else ([], w)

-- What SOEM gives in one pass: whether it is initialised, the states that ecx_readstate reads, the
-- answers to the recovery with the states that it leaves, whether there is memory for the snapshot,
-- and the errors in its list.
pub record Pass : Type 0 where
  pub soem_initialized : Bool
  pub read : List Polled
  pub recovery : List (Answers × Option BusSlave)
  pub recovered : List Polled
  pub memory : Bool
  pub errors : List SoemError

-- The state that the passes work on.
pub record Watched : Type 0 where
  pub master : Master
  pub slaves : List Polled
  pub snapshot : Snapshot
  pub watcher : Watcher

-- The recovery of `recovery_pass` on the fields of the master.
unfoldable pub recover_master : List (Answers × Option BusSlave) → Master → Master
recover_master ss m =
    let r = recovery_pass ss (record {
      bus_state = m.bus_state;
      recovery_attempts = m.recovery_attempts;
      writestate_failures = m.recovery_writestate_failures;
      consecutive_wkc_errors = m.consecutive_wkc_errors;
    }) in
    record m {
      bus_state = r.bus_state;
      recovery_attempts = r.recovery_attempts;
      recovery_writestate_failures = r.writestate_failures;
      consecutive_wkc_errors = r.consecutive_wkc_errors;
    }

module _ (configured : List Slave) (x : Pass) where
  -- The pass of an operational master.
  unfoldable pub refresh : Watched → Watched
  unfolding marks remember_polls mark_all_operational publish_slaves_snapshot
  refresh s =
      let slaves =
        if marks s.master s.watcher
        then mark_all_operational s.slaves
        else if x.soem_initialized
        then x.read
        else s.slaves in
      record s {
        slaves = slaves;
        watcher = remember_polls s.master s.watcher;
        snapshot = publish_slaves_snapshot x.memory configured slaves s.snapshot;
      }

  -- The pass of a master in recovery.
  unfoldable pub recover : Watched → Watched
  unfolding recover_master publish_slaves_snapshot
  recover s = record s {
    master = recover_master x.recovery s.master;
    slaves = x.recovered;
    snapshot = publish_slaves_snapshot x.memory configured x.recovered s.snapshot;
  }

  abbrev by_state : BusState → Watched → Watched
  by_state operational s = refresh s
  by_state recovering s = recover s
  by_state _ s = s

  -- `drain_mailbox_and_errors` behind the test of the state: the errors that are logged, each with the
  -- level.
  unfoldable pub drain_errors : BusState → List (SoemError × Level)
  unfolding level_of
  drain_errors state =
      if exchanges state && x.soem_initialized
      then map (λ e. (e, level_of e)) (take max_errors x.errors)
      else []

  -- One pass of `ecat_monitor_thread`: the state afterwards, the errors of SOEM that are logged, and the
  -- other entries.
  unfoldable pub monitor_pass : Watched → Watched × List (SoemError × Level) × List Logged
  unfolding refresh recover drain_errors log_state log_wkc
  monitor_pass s =
      let s' = by_state s.master.bus_state s in
      let (states, w) = log_state s'.master s'.watcher in
      let (wkcs, w') = log_wkc s'.master w in
      (record s' { watcher = w' }, drain_errors s'.master.bus_state, states ++ wkcs)

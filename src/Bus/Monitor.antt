-- ===== src/Bus/Monitor.antt =====
-- src/bus.c and src/master.c: the monitor thread and the recovery of slaves. What SOEM answers in a
-- pass is an argument.
use ether_dog.Base.{
  ℕ, Bool, true, false, not, ◌+◌, ◌==◌, ltb, leb, if◌then◌else◌, Option, none, some, List, [], ◌∷◌,
}
use ether_dog.Base.Int.{ℤ, pos}
use ether_dog.Bus.State.{BusState, operational, recovering, error}

-- The states of EtherCAT: EC_STATE_NONE, EC_STATE_SAFE_OP, EC_STATE_OPERATIONAL and EC_STATE_ERROR.
abbrev pub state_none : ℕ
state_none = 0

abbrev pub state_safe_op : ℕ
state_safe_op = 4

abbrev pub state_operational : ℕ
state_operational = 8

abbrev pub state_error : ℕ
state_error = 16

-- ECAT_MAX_RECOVERY_ATTEMPTS
abbrev pub max_recovery_attempts : ℕ
max_recovery_attempts = 5

-- The fields of `ec_slavet` that the recovery reads and writes.
pub record BusSlave : Type 0 where
  pub state : ℕ
  pub islost : Bool

-- What SOEM answers for one slave: whether each write of a state is answered, the slave's state after
-- `ecx_statecheck`, whether `ecx_reconfig_slave` and `ecx_recover_slave` succeed, and the state that each
-- leaves.
pub record Answers : Type 0 where
  pub ack_written : Bool
  pub op_written : Bool
  pub checked : ℕ
  pub reconfigured : Bool
  pub recovered : Bool
  pub recovered_state : ℕ
  pub reconfig_state : ℕ

-- `writestate_with_check`: the count of the failed writes.
abbrev pub writestate : Bool → ℕ → ℕ
writestate written failures = if written then failures else failures + 1

-- The slave afterwards, the count of failed writes, and the result.
abbrev Outcome : Type 0
Outcome = BusSlave × ℕ × ℤ

-- After a request for OP: 1 where the check finds the slave in OP.
abbrev pub reached : Answers → BusSlave → ℕ → Outcome
reached a s failures = (
  record s { state = a.checked },
  failures,
  if a.checked == state_operational then pos 1 else pos 0,
)

-- `ecat_master_recover_slave` on a slave that the bus has.
unfoldable pub recover_slave : Answers → BusSlave → ℕ → Outcome
recover_slave a s failures =
    if s.state == state_operational
    then (s, failures, pos 1)
    else if s.state == (state_safe_op + state_error)
    then reached a s (writestate a.op_written (writestate a.ack_written failures))
    else if s.state == state_safe_op
    then reached a s (writestate a.op_written failures)
    else if ltb state_none s.state
    then if a.reconfigured
      then reached a (record s { islost = false }) failures
      else (record s { state = a.reconfig_state }, failures, pos 0)
    else if not s.islost
    then (record { state = a.checked; islost = a.checked == state_none }, failures, pos 0)
    else if a.recovered
    then (record { state = a.recovered_state; islost = false }, failures, pos 1)
    else (record s { state = a.recovered_state }, failures, pos 0)

-- The loop of `attempt_recovery` over the configured slaves, with their states just read; `none` is a
-- position that the bus does not have. The result tells whether all are in OP.
unfoldable pub recover_slaves :
    List (Answers × Option BusSlave) → ℕ → List (Option BusSlave) × ℕ × Bool
unfolding recover_slave
recover_slaves [] failures = ([], failures, true)
recover_slaves ((a, none) ∷ ss) failures =
    let (ss', failures', all_ok) = recover_slaves ss failures in (none ∷ ss', failures', false)
recover_slaves ((a, some s) ∷ ss) failures =
    if s.state == state_operational
    then (let (ss', failures', all_ok) = recover_slaves ss failures in
        (some s ∷ ss', failures', all_ok))
    else (let (s', failures', result) = recover_slave a s failures in
        let (ss', failures'', all_ok) = recover_slaves ss failures' in
        (some s' ∷ ss', failures'', false))

-- The counters of the recovery.
pub record Recovery : Type 0 where
  pub bus_state : BusState
  pub recovery_attempts : ℕ
  pub writestate_failures : ℕ
  pub consecutive_wkc_errors : ℕ

pub data Attempt : Type 0 where
  recovered some_left gave_up : Attempt

-- `attempt_recovery`: the results 1, 0 and -1.
unfoldable pub attempt_recovery :
    List (Answers × Option BusSlave) → Recovery → List (Option BusSlave) × Recovery × Attempt
unfolding recover_slaves
attempt_recovery ss r =
    let (ss', failures, all_ok) = recover_slaves ss r.writestate_failures in
    if all_ok
    then (
      ss',
      record r { recovery_attempts = 0; writestate_failures = 0; consecutive_wkc_errors = 0 },
      recovered,
    )
    else (
      ss',
      record r { recovery_attempts = r.recovery_attempts + 1; writestate_failures = failures },
      if leb max_recovery_attempts (r.recovery_attempts + 1) then gave_up else some_left,
    )

-- The state that the result of an attempt leads to.
unfoldable pub after_attempt : Attempt → Recovery → Recovery
after_attempt recovered r = record r { bus_state = operational }
after_attempt some_left r = r
after_attempt gave_up r = record r { bus_state = error }

-- One pass of the monitor thread in the recovering state, as far as it changes the recovery.
unfoldable pub recovery_pass : List (Answers × Option BusSlave) → Recovery → Recovery
unfolding attempt_recovery after_attempt
recovery_pass ss r = elim r.bus_state [
  | recovering ↦ (let (ss', r', result) = attempt_recovery ss r in after_attempt result r')
  | _ ↦ r
]

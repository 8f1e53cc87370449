-- ===== src/Master/Timing.antt =====
-- src/master.c: the watchdog registers of a slave, and the wait for the OP state.
use ether_dog.Base.{
  ◌-◌, ℕ, zero, suc, Bool, true, false, not, ◌||◌, ◌&&◌, ◌%◌, ◌*◌, ◌/◌, ◌^◌, ◌==◌, ltb,
  if◌then◌else◌, List, [], ◌∷◌,
}
use ether_dog.Base.Int.{ℤ, pos, ltb_ℤ, pos_part}

-- `ecat_watchdog_t`
pub record Watchdog : Type 0 where
  pub sm_watchdog_enabled : Bool
  pub sm_watchdog_ms : ℤ
  pub pdi_watchdog_enabled : Bool
  pub pdi_watchdog_ms : ℤ

-- `UINT16_MAX / 16`
abbrev pub max_watchdog_ms : ℕ
max_watchdog_ms = (2 ^ 16 - 1) / 16

-- The register value of a watchdog time, 16 ticks to the millisecond: the time is clamped, and the
-- cast to uint16_t wraps at 2 ^ 16.
unfoldable pub watchdog_ticks : ℤ → ℕ
watchdog_ticks ms =
    if ltb_ℤ (pos 0) ms
    then ((if ltb max_watchdog_ms (pos_part ms) then max_watchdog_ms else pos_part ms) * 16)
      % 2 ^ 16
    else 0

-- `ecat_master_configure_watchdog`: the writes to the registers 0x0420 and 0x0402, and whether the
-- result is 0. `sm_written` tells whether the slave answers the first write.
unfoldable pub configure_watchdog : Bool → Bool → Watchdog → List (ℕ × ℕ) × Bool
unfolding watchdog_ticks
configure_watchdog strict sm_written wd =
    if wd.sm_watchdog_enabled
    then if not sm_written && strict
      then ((1056, watchdog_ticks wd.sm_watchdog_ms) ∷ [], false)
      else ((1056, watchdog_ticks wd.sm_watchdog_ms) ∷ pdi_write, true)
    else (pdi_write, true)
  where
    pdi_write : List (ℕ × ℕ)
    pdi_write =
        if wd.pdi_watchdog_enabled then (1026, watchdog_ticks wd.pdi_watchdog_ms) ∷ [] else []

-- ECAT_OP_POLL_RETRIES
abbrev pub op_poll_retries : ℕ
op_poll_retries = 10

-- The constants EC_TIMEOUTRET and EC_TIMEOUTSTATE of SOEM.
pub record Limits : Type 0 where
  pub timeout_ret : ℕ
  pub timeout_state : ℕ

-- The longest SAFE-OP to OP time of the slaves in microseconds, from 0 on. The configured times are
-- taken to stay below 2 ^ 31 microseconds, and a negative one, like 0, is never the longest.
abbrev pub max_timeout : List ℕ → ℕ → ℕ
max_timeout [] t = t
max_timeout (ms ∷ ts) t = max_timeout ts (if ltb t (ms * 1000) then ms * 1000 else t)

abbrev pub safeop_timeout : Limits → List ℕ → ℕ
safeop_timeout k ts = if max_timeout ts 0 == 0 then k.timeout_state * 4 else max_timeout ts 0

-- The smallest SM watchdog of the slaves in microseconds, where 0 stands for none yet.
abbrev pub min_watchdog : List Watchdog → ℕ → ℕ
min_watchdog [] t = t
min_watchdog (wd ∷ ws) t = min_watchdog ws (
    if wd.sm_watchdog_enabled
      && ltb_ℤ (pos 0) wd.sm_watchdog_ms
      && ((t == 0) || ltb (pos_part wd.sm_watchdog_ms * 1000) t)
    then pos_part wd.sm_watchdog_ms * 1000
    else t)

abbrev pub sm_watchdog_us : List Watchdog → ℕ
sm_watchdog_us ws = if min_watchdog ws 0 == 0 then 100 * 1000 else min_watchdog ws 0

-- The wait of one poll, and how many polls there are.
unfoldable pub poll_timeout : Limits → List Watchdog → ℕ
poll_timeout k ws =
    if ltb (sm_watchdog_us ws / 4) k.timeout_ret then k.timeout_ret else sm_watchdog_us ws / 4

unfoldable pub poll_retries : Limits → List Watchdog → List ℕ → ℕ
unfolding poll_timeout
poll_retries k ws ts =
    if ltb (safeop_timeout k ts / poll_timeout k ws) op_poll_retries
    then op_poll_retries
    else safeop_timeout k ts / poll_timeout k ws

-- The polls: whether one of them finds all slaves in OP. `in_op` tells of each poll what it finds.
unfoldable pub poll_op : ℕ → ℕ → (ℕ → Bool) → Bool
poll_op zero n in_op = false
poll_op (suc k) n in_op = let rest = poll_op k (suc n) in_op in if in_op n then true else rest

-- `ecat_master_transition_to_op`: whether the result is 0. `safe_op` tells whether the slaves reach
-- SAFE-OP.
unfoldable pub transition_to_op : Limits → Bool → Bool → List Watchdog → List ℕ → (ℕ → Bool) → Bool
unfolding poll_retries poll_op
transition_to_op k soem_initialized safe_op ws ts in_op =
    if not soem_initialized
    then false
    else if not safe_op
    then false
    else poll_op (poll_retries k ws ts) 0 in_op

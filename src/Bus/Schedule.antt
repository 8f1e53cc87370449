-- ===== src/Bus/Schedule.antt =====
-- src/bus.c: the bus thread round one cycle: its deadlines and its scheduling statistics. The readings
-- of the monotonic clock are arguments; its nanoseconds are left unbounded, as 2^64 of them are
-- centuries.
use ether_dog.Base.{
  ℕ, ◌+◌, ◌-◌, ◌*◌, ◌/◌, ◌%◌, ◌^◌, List, [], ◌∷◌, Option, none, some, ltb, leb, if◌then◌else◌,
}
use ether_dog.Base.Int.{ℤ, pos, pos_part, ltb_ℤ, leb_ℤ, sub_ℕ, ◌+ℤ◌, ◌-ℤ◌, quot}
use ether_dog.Bus.Cycle.{Observed, Instance, run_one_cycle}

-- `struct timespec`
pub record Timespec : Type 0 where
  pub tv_sec : ℕ
  pub tv_nsec : ℕ

abbrev pub second_ns : ℕ
second_ns = 1000000000

-- `ts_to_ns`
abbrev pub ts_to_ns : Timespec → ℕ
ts_to_ns ts = ts.tv_sec * second_ns + ts.tv_nsec

-- `ecat_cycle_diag_t`, the part that the bus thread updates round the exchange.
pub record Scheduling : Type 0 where
  pub period_ns : ℕ
  pub min_period_ns : ℕ
  pub max_period_ns : ℕ
  pub avg_period_ns_sum : ℤ
  pub latency_ns : ℤ
  pub min_latency_ns : ℤ
  pub max_latency_ns : ℤ
  pub avg_latency_ns_sum : ℤ

-- INT64_MAX
abbrev pub int64_max : ℤ
int64_max = pos (2 ^ 63 - 1)

-- The scheduling part of `diag_reset`.
unfoldable pub scheduling_reset : Scheduling
scheduling_reset = record {
  period_ns = 0;
  min_period_ns = 2 ^ 64 - 1;
  max_period_ns = 0;
  avg_period_ns_sum = pos 0;
  latency_ns = pos 0;
  min_latency_ns = int64_max;
  max_latency_ns = pos 0;
  avg_latency_ns_sum = pos 0;
}

-- What the thread keeps from one round to the next. `prev_wake` is `none` before the first round.
pub record Thread : Type 0 where
  pub next_wakeup : Timespec
  pub prev_wake : Option ℕ
  pub scheduling : Scheduling
  pub overruns : ℕ

-- The moving average as a sum, with the division of C.
abbrev pub moving_sum : ℕ → ℤ → ℤ → ℤ
moving_sum window sum x = sum +ℤ (x -ℤ quot sum window)

-- The interval of a cycle, with its floor.
unfoldable pub interval_of : ℤ → ℕ
interval_of cycle_time_us =
    if leb_ℤ cycle_time_us (pos 0) then 1000000 else pos_part cycle_time_us * 1000

-- `avg_window` as `start_single_master` sets it; ECAT_AVG_TARGET_WINDOW_NS is two seconds.
unfoldable pub window_of : ℤ → ℕ
window_of cycle_time_us =
    if leb_ℤ cycle_time_us (pos 0)
    then 1
    else if ltb (2000000000 / (pos_part cycle_time_us * 1000)) 1
    then 1
    else 2000000000 / (pos_part cycle_time_us * 1000)

-- The priority of the thread, from 1 to 99.
unfoldable pub priority_of : ℤ → ℕ
priority_of prio =
    if ltb_ℤ prio (pos 1) then 1 else if ltb_ℤ (pos 99) prio then 99 else pos_part prio

-- The latency of a wake-up.
unfoldable pub record_latency : ℕ → ℤ → Scheduling → Scheduling
record_latency window latency s = record s {
  latency_ns = latency;
  min_latency_ns = if ltb_ℤ latency s.min_latency_ns then latency else s.min_latency_ns;
  max_latency_ns = if ltb_ℤ s.max_latency_ns latency then latency else s.max_latency_ns;
  avg_latency_ns_sum = moving_sum window s.avg_latency_ns_sum latency;
}

-- The period between two wake-ups; none for the first.
unfoldable pub record_period : ℕ → Option ℕ → ℕ → Scheduling → Scheduling
record_period window none woke s = s
record_period window (some prev) woke s =
    let period = (woke + 2 ^ 64 - prev) % 2 ^ 64 in
    record s {
      period_ns = period;
      min_period_ns = if ltb period s.min_period_ns then period else s.min_period_ns;
      max_period_ns = if ltb s.max_period_ns period then period else s.max_period_ns;
      avg_period_ns_sum = moving_sum window s.avg_period_ns_sum (pos period);
    }

-- The next deadline.
unfoldable pub advance_deadline : ℕ → Timespec → Timespec
advance_deadline interval ts =
    let nsec = ts.tv_nsec + interval % second_ns in
    let sec = ts.tv_sec + interval / second_ns in
    if leb second_ns nsec
    then record { tv_sec = sec + 1; tv_nsec = nsec - second_ns }
    else record { tv_sec = sec; tv_nsec = nsec }

-- What the thread reads from the clock in a round: when it woke, and when its work was done.
pub record Readings : Type 0 where
  pub woke : Timespec
  pub done : Timespec

-- The part of a round that is about time.
unfoldable pub schedule : ℕ → ℕ → Readings → Thread → Thread
unfolding record_latency record_period advance_deadline
schedule window interval r th =
    let woke_ns = ts_to_ns r.woke in
    let next = advance_deadline interval th.next_wakeup in
    record {
      next_wakeup = next;
      prev_wake = some woke_ns;
      scheduling =
          record_period window th.prev_wake woke_ns
            (record_latency window (sub_ℕ woke_ns (ts_to_ns th.next_wakeup)) th.scheduling);
      overruns = if ltb (ts_to_ns next) (ts_to_ns r.done) then th.overruns + 1 else th.overruns;
    }

-- The thread from its first reading of the clock, which is its first deadline.
unfoldable pub thread_started : Timespec → Scheduling → ℕ → Thread
thread_started now s overruns = record {
  next_wakeup = now;
  prev_wake = none;
  scheduling = record s { min_period_ns = 2 ^ 64 - 1; min_latency_ns = int64_max };
  overruns = overruns;
}

-- The rounds of `ecat_bus_thread` until it is told to stop, with their exchanges.
unfoldable pub bus_thread :
    ℕ → ℕ → ℕ → List (Readings × Observed) → Thread × Instance → Thread × Instance
unfolding schedule
bus_thread window interval master_index [] s = s
bus_thread window interval master_index ((r, x) ∷ rs) (th, i) =
    bus_thread window interval master_index rs
      (schedule window interval r th, (run_one_cycle master_index x i).0)

-- ===== src/Bus/Spread.antt =====
-- src/bus.c: the smallest and the largest latency and period that the bus thread reports.
use ether_dog.Base.{ℕ, ◌+◌, ◌-◌, ◌%◌, ◌^◌, ◌≤◌, List, [], ◌∷◌, Option, none, some, arith}
use ether_dog.Base.Int.{ℤ, sub_ℕ, ◌≤ℤ◌}
use ether_dog.Bus.Cycle.{Observed, Instance, run_one_cycle}
use ether_dog.Bus.Schedule.{
  Timespec, ts_to_ns, Scheduling, Thread, Readings, advance_deadline, schedule, record_latency,
  record_period, thread_started, bus_thread,
}

-- The latency of a wake-up at the deadline `d`, and the period since the one before.
abbrev pub latency_of : Timespec → Readings → ℤ
latency_of d r = sub_ℕ (ts_to_ns r.woke) (ts_to_ns d)

abbrev pub period_of : ℕ → Readings → ℕ
period_of prev r = (ts_to_ns r.woke + 2 ^ 64 - prev) % 2 ^ 64

abbrev pub InPeriods : Option ℕ → Readings → Scheduling → Type 0
InPeriods none r s = Unit
InPeriods (some prev) r s =
    (s.min_period_ns ≤ period_of prev r) × (period_of prev r ≤ s.max_period_ns)

-- The latencies and the periods of the rounds lie between the extremes of `s`.
abbrev pub Spans : ℕ → Timespec → Option ℕ → Scheduling → List (Readings × Observed) → Type 0
Spans interval d before s [] = Unit
Spans interval d before s ((r, x) ∷ rs) =
    (s.min_latency_ns ≤ℤ latency_of d r)
    × (latency_of d r ≤ℤ s.max_latency_ns)
    × InPeriods before r s
    × Spans interval (advance_deadline interval d) (some (ts_to_ns r.woke)) s rs

-- The extremes of `s'` are no closer than those of `s`.
record Wider (s s' : Scheduling) : Type 0 where
  pub low : s'.min_latency_ns ≤ℤ s.min_latency_ns
  pub high : s.max_latency_ns ≤ℤ s'.max_latency_ns
  pub short : s'.min_period_ns ≤ s.min_period_ns
  pub long : s.max_period_ns ≤ s'.max_period_ns

Wider-refl : (s : Scheduling) → Wider s s
Wider-refl s = record {
  low = omega arith;
  high = omega arith;
  short = omega arith;
  long = omega arith;
}

Wider-trans : (a b c : Scheduling) → Wider a b → Wider b c → Wider a c
Wider-trans a b c p q = record {
  low = omega (arith, p.low, q.low);
  high = omega (arith, p.high, q.high);
  short = omega (arith, p.short, q.short);
  long = omega (arith, p.long, q.long);
}

record_latency-Wider : (w : ℕ) (l : ℤ) (s : Scheduling) → Wider s (record_latency w l s)
unfolding record_latency
record_latency-Wider w l s = ground arith

record_period-Wider :
    (w : ℕ) (before : Option ℕ) (woke : ℕ) (s : Scheduling)
    → Wider s (record_period w before woke s)
unfolding record_period
record_period-Wider w none woke s = Wider-refl s
record_period-Wider w (some prev) woke s = ground arith

latency_within :
    (w : ℕ) (l : ℤ) (s : Scheduling)
    → ((record_latency w l s).min_latency_ns ≤ℤ l) × (l ≤ℤ (record_latency w l s).max_latency_ns)
unfolding record_latency
latency_within w l s = ground arith

period_within :
    (w : ℕ) (before : Option ℕ) (r : Readings) (s : Scheduling)
    → InPeriods before r (record_period w before (ts_to_ns r.woke) s)
unfolding record_period
period_within w none r s = tt
period_within w (some prev) r s = ground arith

InPeriods-Wider :
    (before : Option ℕ) (r : Readings) (s s' : Scheduling)
    → Wider s s'
    → InPeriods before r s
    → InPeriods before r s'
InPeriods-Wider none r s s' p h = tt
InPeriods-Wider (some prev) r s s' p h = (omega (arith, p.short, h.0), omega (arith, p.long, h.1))

module _ (window interval mi : ℕ) where
  abbrev latency_part : Readings → Thread → Scheduling
  latency_part r th = record_latency window (latency_of th.next_wakeup r) th.scheduling

  schedule-Wider :
      (r : Readings) (th : Thread)
      → Wider (latency_part r th) (schedule window interval r th).scheduling
  unfolding schedule
  schedule-Wider r th =
      record_period-Wider window th.prev_wake (ts_to_ns r.woke) (latency_part r th)

  schedule-period :
      (r : Readings) (th : Thread)
      → InPeriods th.prev_wake r (schedule window interval r th).scheduling
  unfolding schedule
  schedule-period r th = period_within window th.prev_wake r (latency_part r th)

  rounds-Wider :
      (rs : List (Readings × Observed)) (th : Thread) (i : Instance)
      → Wider th.scheduling (bus_thread window interval mi rs (th, i)).0.scheduling
  unfolding bus_thread
  rounds-Wider [] th i = Wider-refl th.scheduling
  rounds-Wider ((r, x) ∷ rs) th i =
      Wider-trans _ _ _
        (Wider-trans _ _ _ (record_latency-Wider window (latency_of th.next_wakeup r) th.scheduling)
          (schedule-Wider r th))
        (rounds-Wider rs (schedule window interval r th) (run_one_cycle mi x i).0)

  rounds-Spans :
      (rs : List (Readings × Observed)) (th : Thread) (i : Instance)
      → Spans interval th.next_wakeup th.prev_wake
          (bus_thread window interval mi rs (th, i)).0.scheduling
          rs
  unfolding bus_thread schedule
  rounds-Spans [] th i = tt
  rounds-Spans ((r, x) ∷ rs) th i =
      let th' = schedule window interval r th in
      let i' = (run_one_cycle mi x i).0 in
      let wider = rounds-Wider rs th' i' in
      let all = Wider-trans _ _ _ (schedule-Wider r th) wider in
      let within = latency_within window (latency_of th.next_wakeup r) th.scheduling in
      (
        omega (arith, within.0, all.low),
        omega (arith, within.1, all.high),
        InPeriods-Wider th.prev_wake r _ _ wider (schedule-period r th),
        rounds-Spans rs th' i',
      )

  -- After any rounds of a bus thread, the latency of each of them, early wake-ups included, lies between
  -- the smallest and the largest latency that the thread reports, and each period between two
  -- wake-ups between the smallest and the largest period.
  pub bus_thread-Spans :
      (rs : List (Readings × Observed)) (now : Timespec) (s : Scheduling) (overruns : ℕ)
      (i : Instance)
      → Spans interval now none
          (bus_thread window interval mi rs (thread_started now s overruns, i)).0.scheduling
          rs
  unfolding thread_started
  bus_thread-Spans rs now s overruns i = rounds-Spans rs (thread_started now s overruns) i

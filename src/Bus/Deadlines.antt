-- ===== src/Bus/Deadlines.antt =====
-- src/bus.c: the deadlines of the bus thread.
use ether_dog.Base.{ap, ℕ, ◌+◌, ◌*◌, ◌<◌, List, [], ◌∷◌, ◌≡◌, arith, ltb, if◌then◌else◌, length}
use ether_dog.Bus.Cycle.{Observed, Instance, run_one_cycle}
use ether_dog.Bus.Schedule.{
  Timespec, ts_to_ns, second_ns, Scheduling, Thread, Readings, advance_deadline, schedule,
  thread_started, bus_thread,
}

advance_exact :
    (interval : ℕ) (ts : Timespec)
    → ts.tv_nsec < second_ns
    → (ts_to_ns (advance_deadline interval ts) ≡ ts_to_ns ts + interval)
      × ((advance_deadline interval ts).tv_nsec < second_ns)
unfolding advance_deadline
advance_exact interval ts h = ground arith

-- The rounds that are done after the deadline of the next one, where the first deadline is `d`.
unfoldable pub late_rounds : ℕ → ℕ → List (Readings × Observed) → ℕ
late_rounds interval d [] = 0
late_rounds interval d ((r, x) ∷ rs) =
    (if ltb (d + interval) (ts_to_ns r.done) then 1 else 0) + late_rounds interval (d + interval) rs

pub record Keeps (th th' : Thread) (interval rounds late : ℕ) : Type 0 where
  pub deadline : ts_to_ns th'.next_wakeup ≡ ts_to_ns th.next_wakeup + rounds * interval
  pub normal : th'.next_wakeup.tv_nsec < second_ns
  pub counted : th'.overruns ≡ th.overruns + late

schedule-Keeps :
    (window interval : ℕ) (r : Readings) (th : Thread)
    → th.next_wakeup.tv_nsec < second_ns
    → Keeps th
        (schedule window interval r th)
        interval
        1
        (if ltb (ts_to_ns th.next_wakeup + interval) (ts_to_ns r.done) then 1 else 0)
unfolding schedule
schedule-Keeps window interval r th h = record {
  deadline = omega (arith, (advance_exact interval th.next_wakeup h).0);
  normal = (advance_exact interval th.next_wakeup h).1;
  counted = rw ((advance_exact interval th.next_wakeup h).0) (ground arith);
}

rounds-Keeps :
    (window interval mi : ℕ) (rs : List (Readings × Observed)) (th : Thread) (i : Instance)
    → th.next_wakeup.tv_nsec < second_ns
    → Keeps th
        (bus_thread window interval mi rs (th, i)).0
        interval
        (length rs)
        (late_rounds interval (ts_to_ns th.next_wakeup) rs)
unfolding bus_thread late_rounds
rounds-Keeps window interval mi [] th i h = record {
  deadline = omega arith;
  normal = h;
  counted = omega arith;
}
rounds-Keeps window interval mi ((r, x) ∷ rs) th i h =
    let one = schedule-Keeps window interval r th h in
    let th' = schedule window interval r th in
    let rest = rounds-Keeps window interval mi rs th' (run_one_cycle mi x i).0 one.normal in
    let e : ts_to_ns th'.next_wakeup ≡ ts_to_ns th.next_wakeup + interval =
      omega (arith, one.deadline) in
    record {
      deadline = grind (arith, one.deadline, rest.deadline);
      normal = rest.normal;
      counted =
          omega (arith, rest.counted, one.counted, ap (λ (d : ℕ). late_rounds interval d rs) e);
    }

-- The deadlines do not drift: however long the rounds take and whatever they exchange, the deadline
-- after so many rounds is the first one plus as many intervals, with its nanoseconds below a second, and
-- the overruns have grown by the rounds that were done after the deadline of the round to follow.
pub bus_thread-deadlines :
    (window interval mi : ℕ) (rs : List (Readings × Observed)) (now : Timespec) (s : Scheduling)
    (overruns : ℕ) (i : Instance)
    → now.tv_nsec < second_ns
    → let th = (bus_thread window interval mi rs (thread_started now s overruns, i)).0 in
      (ts_to_ns th.next_wakeup ≡ ts_to_ns now + length rs * interval)
      × (th.next_wakeup.tv_nsec < second_ns)
      × (th.overruns ≡ overruns + late_rounds interval (ts_to_ns now) rs)
unfolding thread_started
bus_thread-deadlines window interval mi rs now s overruns i h =
    let k = rounds-Keeps window interval mi rs (thread_started now s overruns) i h in
    (k.deadline, k.normal, k.counted)

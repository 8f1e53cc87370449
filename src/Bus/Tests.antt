-- ===== src/Bus/Tests.antt =====
-- Runs of the bus cycle, of the recovery and of the threads.
use ether_dog.Base.{
  true, false, ◌≡◌, ◌⊎◌, ◌↔◌, refl, arith, none, some, Option, [], ◌∷◌, List, ◌+◌, ◌*◌, ◌<◌,
}
use ether_dog.Base.Int.{pos, negsuc}
use ether_dog.Bus.State.{operational, recovering, error, idle, Master, al_poll_healthy}
use ether_dog.Bus.Cycle.{Observed, account, Instance}
use ether_dog.Bus.Streaks.{Three, below, al_faulty, accounts-recovering}
use ether_dog.Bus.Metrics.{IsCounted, account-IsCounted}
use ether_dog.Bus.Monitor.{Answers, BusSlave, Recovery, recovery_pass}
use ether_dog.Bus.Recovery.{recovery-bounded, passes}
use ether_dog.Bus.Lifecycle.{
  Life, Startup, start_master, stop_single_master, give_up, is_down, destroys,
}
use ether_dog.Data.Session.{Channel, init}
use ether_dog.Bus.Quiet.{accounts}
use ether_dog.Bus.Schedule.{
  Timespec, ts_to_ns, Readings, bus_thread, thread_started, scheduling_reset,
}
use ether_dog.Bus.Deadlines.{late_rounds, bus_thread-deadlines}
use ether_dog.Bus.Spread.{Spans, bus_thread-Spans}
use ether_dog.Bus.Watch.{Watcher, marks, remember_polls}
use ether_dog.Bus.Marking.{marks-accounts}
use ether_dog.Bus.Threads.{IsSingle, stop_single_master-quiet, start_master-doubles}

-- An operational master with two slaves and three to count per exchange.
abbrev in_op : Master
in_op = record {
  bus_state = operational;
  iomap_allocated = true;
  slavecount = 2;
  expected_wkc = pos 3;
  diag = record {
    cycle_count = 0;
    wkc_error_count = 0;
    noframe_count = 0;
    bus_cycle_ns = 0;
    max_bus_cycle_ns = 0;
    min_bus_cycle_ns = 0;
    avg_bus_cycle_ns_sum = 0;
  };
  avg_window = 1000;
  cycle_counter = 0;
  consecutive_wkc_errors = 0;
  recovery_attempts = 0;
  recovery_writestate_failures = 0;
  consecutive_al_faults = 0;
  al_status = 0;
  al_wkc = pos 0;
  al_replies = 0;
  al_misses = 0;
  al_faults = 0;
  recovery_al_trigger = 0;
}

-- A cycle without an answer, EC_NOFRAME.
abbrev lost : Observed
lost = record {
  queue = [];
  al_reply = none;
  wkc = negsuc 0;
  inputs = none;
  exchange_ns = 1000;
  lock_before = true;
  lock_after = true;
  sent = true;
}

accounts-recovering_example :
    (((accounts (lost ∷ lost ∷ lost ∷ []) in_op).bus_state ≡ recovering) ↔ (
      Three (below (pos 3) (lost ∷ lost ∷ lost ∷ []))
      ⊎ Three (al_faulty 2 (lost ∷ lost ∷ lost ∷ []))))
    × (((accounts (lost ∷ lost ∷ lost ∷ []) in_op).bus_state ≡ recovering)
        ⊎ ((accounts (lost ∷ lost ∷ lost ∷ []) in_op).bus_state ≡ operational))
accounts-recovering_example = accounts-recovering (lost ∷ lost ∷ lost ∷ []) in_op refl refl refl

in_op-IsCounted : IsCounted in_op
in_op-IsCounted = ground arith

account-IsCounted_example : IsCounted (account lost in_op)
account-IsCounted_example = account-IsCounted lost in_op in_op-IsCounted

-- A slave in SAFE-OP that does not answer.
abbrev stuck : Answers × Option BusSlave
stuck = (
  record {
    ack_written = false;
    op_written = false;
    checked = 4;
    reconfigured = false;
    recovered = false;
    recovered_state = 0;
    reconfig_state = 4;
  },
  some (record { state = 4; islost = false }),
)

abbrev fresh_recovery : Recovery
fresh_recovery = record {
  bus_state = recovering;
  recovery_attempts = 0;
  writestate_failures = 0;
  consecutive_wkc_errors = 3;
}

recovery-bounded_example :
    ((passes
        ((stuck ∷ []) ∷ (stuck ∷ []) ∷ (stuck ∷ []) ∷ (stuck ∷ []) ∷ [])
        fresh_recovery).bus_state
      ≡ recovering)
    × ((recovery_pass (stuck ∷ []) (
          passes
            ((stuck ∷ []) ∷ (stuck ∷ []) ∷ (stuck ∷ []) ∷ (stuck ∷ []) ∷ [])
            fresh_recovery)).bus_state
        ≡ error)
recovery-bounded_example =
    recovery-bounded ((stuck ∷ []) ∷ (stuck ∷ []) ∷ (stuck ∷ []) ∷ (stuck ∷ []) ∷ []) (stuck ∷ [])
      fresh_recovery refl refl refl refl refl

abbrev with_threads : Life
with_threads = record {
  bus_state = operational;
  bus_running = true;
  monitor_running = true;
  bus_threads = 1;
  monitor_threads = 1;
}

abbrev all_good : Startup
all_good = record {
  has_slaves = true;
  open_and_scan = true;
  write_sdos = [];
  verify_fixed_pdos = true;
  configure = true;
  layout_build = true;
  alloc_buffers = true;
  transition_to_op = true;
  monitor_create = true;
  bus_create = true;
}

with_threads-IsSingle : IsSingle with_threads
with_threads-IsSingle = ground arith

stop_single_master-quiet_example :
    IsSingle (stop_single_master with_threads)
    × ((stop_single_master with_threads).bus_threads ≡ 0)
    × ((stop_single_master with_threads).monitor_threads ≡ 0)
    × (is_down (stop_single_master with_threads).bus_state ≡ true)
    × (destroys (stop_single_master with_threads) ≡ true)
stop_single_master-quiet_example = stop_single_master-quiet with_threads with_threads-IsSingle

abbrev down : Life
down = record {
  bus_state = idle;
  bus_running = false;
  monitor_running = false;
  bus_threads = 0;
  monitor_threads = 0;
}

down-IsSingle : IsSingle down
down-IsSingle = ground arith

started_again : (start_master all_good (give_up with_threads)).1 ≡ true
unfolding start_master
started_again = refl

start_master-doubles_example :
    ((start_master all_good (give_up with_threads)).0.bus_threads ≡ 2)
    × ((start_master all_good (give_up with_threads)).0.monitor_threads ≡ 2)
    × ((stop_single_master (start_master all_good (give_up with_threads)).0).bus_threads ≡ 1)
start_master-doubles_example =
    start_master-doubles all_good with_threads with_threads-IsSingle refl refl started_again

-- A reply to the AL poll in which both slaves are in OP.
abbrev all_in_op : Observed
all_in_op = record lost { al_reply = some (8, pos 2); wkc = pos 3 }

abbrev watcher : Watcher
watcher = record {
  last_al_replies = 0;
  last_al_faults = 0;
  last_logged_state = none;
  last_logged_consec_wkc = 0;
}

it_marks : marks (accounts (all_in_op ∷ lost ∷ []) in_op) (remember_polls in_op watcher) ≡ true
unfolding al_poll_healthy
it_marks = marks-accounts in_op watcher (all_in_op ∷ lost ∷ [])

abbrev channel : Channel
channel = record {
  io = record {
    soem_initialized = true;
    outputs = some [];
    inputs = some [];
    output_bytes = 0;
    input_bytes = 0;
    cycle_time_us = pos 1000;
  };
  data_session = init;
}

abbrev instance_op : Instance
instance_op = record { master = in_op; channel = channel }

-- Two rounds with an interval of 1 ms: the second is done 0.2 ms after the third deadline.
abbrev two_rounds : List (Readings × Observed)
two_rounds =
    (
      record {
        woke = record { tv_sec = 4; tv_nsec = 999500000 };
        done = record { tv_sec = 4; tv_nsec = 999700000 };
      },
      all_in_op,
    )
    ∷ (
      record {
        woke = record { tv_sec = 5; tv_nsec = 520000 };
        done = record { tv_sec = 5; tv_nsec = 1700000 };
      },
      all_in_op,
    )
    ∷ []

abbrev first_deadline : Timespec
first_deadline = record { tv_sec = 4; tv_nsec = 999500000 }

bus_thread-deadlines_example :
    let th =
      (bus_thread 2000 1000000 0 two_rounds
        (thread_started first_deadline scheduling_reset 0, instance_op)).0 in
    (ts_to_ns th.next_wakeup ≡ 4999500000 + 2 * 1000000)
    × (th.next_wakeup.tv_nsec < 1000000000)
    × (th.overruns ≡ 0 + late_rounds 1000000 4999500000 two_rounds)
bus_thread-deadlines_example =
    bus_thread-deadlines 2000 1000000 0 two_rounds first_deadline scheduling_reset 0 instance_op
      (omega arith)

one_is_late : late_rounds 1000000 4999500000 two_rounds ≡ 1
unfolding late_rounds
one_is_late = refl

bus_thread-Spans_example :
    Spans 1000000 first_deadline none
      (bus_thread 2000 1000000 0 two_rounds
        (thread_started first_deadline scheduling_reset 0, instance_op)).0.scheduling
      two_rounds
bus_thread-Spans_example =
    bus_thread-Spans 2000 1000000 0 two_rounds first_deadline scheduling_reset 0 instance_op

-- ===== src/Bus/Metrics.antt =====
-- The metrics of the bus cycle: how the counters stand to one another, and the moving average.
use ether_dog.Base.{ℕ, zero, suc, ◌+◌, ◌-◌, ◌*◌, ◌/◌, ◌≤◌, ◌<◌, ◌≡◌, ◌⊎◌, arith}
use native.Mathlib.Nat.{div-lt_iff_lt-mul, lt-div-mul-add, mul-le-mul_right}
use ether_dog.Bus.State.{Master}
use ether_dog.Bus.Cycle.{
  Observed, account, collect_al_poll, check_thresholds, wkc_errors, count, record_exchange, ewma,
}

-- With the counters of the polls and the exchanges zero at the start, each cycle counts once, and
-- no error counter exceeds what it counts among.
pub record IsCounted (m : Master) : Type 0 where
  pub cycles : m.diag.cycle_count ≡ m.cycle_counter
  pub polls : m.al_replies + m.al_misses ≡ m.cycle_counter
  pub wkc_errors : m.diag.wkc_error_count ≤ m.diag.cycle_count
  pub noframes : m.diag.noframe_count ≤ m.diag.wkc_error_count
  pub al_faults : m.al_faults ≤ m.al_replies
  pub al_row : m.consecutive_al_faults ≤ m.al_faults
  pub wkc_row : m.consecutive_wkc_errors ≤ m.diag.wkc_error_count
  pub extremes :
      (m.diag.cycle_count ≡ 0)
      ⊎ ((m.diag.min_bus_cycle_ns ≤ m.diag.bus_cycle_ns)
          × (m.diag.bus_cycle_ns ≤ m.diag.max_bus_cycle_ns))

-- Every cycle keeps the counters consistent: as many polls as cycles, no more errors than cycles,
-- no more lost frames than errors, no more faults than replies, no more errors or faults in a row
-- than in all, and the last duration between the extremes once there is one.
pub account-IsCounted : (x : Observed) (m : Master) → IsCounted m → IsCounted (account x m)
unfolding account check_thresholds count wkc_errors collect_al_poll record_exchange
account-IsCounted x m v = ground arith

le-of-lt_suc : (b : ℕ) {a : ℕ} → a < suc b → a ≤ b
le-of-lt_suc b h = omega arith

ewma_lt :
    (k top sum q x : ℕ)
    → q ≤ top
    → x ≤ top
    → sum < q * suc k + suc k
    → sum + x - q < suc top * suc k
ewma_lt k top sum q x a b h = omega (arith, mul-le-mul_right k a)

-- With a window of at least 1: while neither the average, which is the sum divided by the window,
-- nor the new sample exceeds `top`, neither does the new average.
ewma-le : (n top sum x : ℕ) → 1 ≤ n → sum / n ≤ top → x ≤ top → ewma n sum x / n ≤ top
unfolding ewma
ewma-le zero top sum x h a b = absurd (omega arith)
ewma-le (suc k) top sum x h a b = le-of-lt_suc top (
    (div-lt_iff_lt-mul (omega arith)).1
      (ewma_lt k top sum (sum / suc k) x a b (lt-div-mul-add (omega arith))))

-- ===== src/Bus/Quiet.antt =====
-- No recovery without cause.
use ether_dog.Base.{
  ℕ, Bool, false, not, ◌+◌, ◌≤◌, ◌<◌, ◌≡◌, refl, arith, if◌then◌else◌, Option, none, some, List, [],
  ◌∷◌,
}
use ether_dog.Base.Int.{ℤ, ltb_ℤ}
use ether_dog.Bus.State.{operational, Master, al_poll_healthy}
use ether_dog.Bus.Cycle.{Observed, account, collect_al_poll, check_thresholds, wkc_errors, count}
use ether_dog.Bus.Thresholds.{account-operational, account-counters}

unfoldable pub accounts : List Observed → Master → Master
accounts [] m = m
accounts (x ∷ xs) m = accounts xs (account x m)

-- How many of the cycles have a working counter below `expected`.
abbrev pub wkc_faults : ℤ → List Observed → ℕ
wkc_faults expected [] = 0
wkc_faults expected (x ∷ xs) = (if ltb_ℤ x.wkc expected then 1 else 0) + wkc_faults expected xs

abbrev pub is_al_fault : ℕ → Option (ℕ × ℤ) → Bool
is_al_fault slaves none = false
is_al_fault slaves (some (status, wkc)) = not (al_poll_healthy status wkc slaves)

-- How many of the cycles have an AL reply that does not show `slaves` slaves in OP.
abbrev pub al_faults_in : ℕ → List Observed → ℕ
al_faults_in slaves [] = 0
al_faults_in slaves (x ∷ xs) =
    (if is_al_fault slaves x.al_reply then 1 else 0) + al_faults_in slaves xs

collect_al_poll-faults :
    (r : Option (ℕ × ℤ)) (m : Master)
    → ((collect_al_poll r m).consecutive_al_faults
        ≤ m.consecutive_al_faults + (if is_al_fault m.slavecount r then 1 else 0))
      × ((collect_al_poll r m).slavecount ≡ m.slavecount)
unfolding collect_al_poll
collect_al_poll-faults none m = (omega arith, refl)
collect_al_poll-faults (some (a, w)) m = (ground arith, ground arith)

account-faults :
    (x : Observed) (m : Master)
    → let m' = account x m in
      (m'.consecutive_al_faults
        ≤ m.consecutive_al_faults + (if is_al_fault m.slavecount x.al_reply then 1 else 0))
      × (m'.slavecount ≡ m.slavecount)
      × (m'.consecutive_wkc_errors
          ≤ m.consecutive_wkc_errors + (if ltb_ℤ x.wkc m.expected_wkc then 1 else 0))
unfolding account check_thresholds count wkc_errors
account-faults x m = (
  ground (arith, collect_al_poll-faults x.al_reply m),
  ground (arith, collect_al_poll-faults x.al_reply m),
  ground arith,
)

-- An operational master stays operational over any sequence of cycles with so few working counter
-- errors and AL faults that neither, added to what its counters hold, comes to 3.
pub accounts-operational :
    (xs : List Observed) (m : Master)
    → m.bus_state ≡ operational
    → m.consecutive_wkc_errors + wkc_faults m.expected_wkc xs < 3
    → m.consecutive_al_faults + al_faults_in m.slavecount xs < 3
    → (accounts xs m).bus_state ≡ operational
unfolding accounts
accounts-operational [] m h a b = h
accounts-operational (x ∷ xs) m h a b =
    let f = account-faults x m in
    let o = account-operational x m h in
    let e = (account-counters x m).1 in
    accounts-operational xs (account x m) (ground (arith, f, o)) (rw e (omega (arith, f)))
      (rw f.1 (omega (arith, f)))

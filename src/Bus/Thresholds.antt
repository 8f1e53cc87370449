-- ===== src/Bus/Thresholds.antt =====
-- When the bus cycle starts a recovery.
use ether_dog.Base.{
  ◌∙◌, ℕ, true, ◌+◌, ◌≤◌, ◌≡◌, ◌≢◌, ◌↔◌, ◌⊎◌, inl, inr, refl, arith, Option, none, some, ap, sym,
}
use ether_dog.Base.Int.{ℤ, ltb_ℤ}
use ether_dog.Bus.State.{BusState, operational, recovering, Master}
use ether_dog.Bus.Cycle.{count, wkc_errors, Observed, account, collect_al_poll, check_thresholds}

-- What the AL poll leaves alone.
pub record SamePoll (m m' : Master) : Type 0 where
  pub bus_state : m'.bus_state ≡ m.bus_state
  pub expected_wkc : m'.expected_wkc ≡ m.expected_wkc

collect_al_poll-SamePoll : (r : Option (ℕ × ℤ)) (m : Master) → SamePoll m (collect_al_poll r m)
unfolding collect_al_poll
collect_al_poll-SamePoll none m = record { bus_state = refl; expected_wkc = refl }
collect_al_poll-SamePoll (some (a, w)) m = ground arith

count-SamePoll : (x : Observed) (m : Master) → SamePoll m (count x m)
unfolding count
count-SamePoll x m =
    let p = collect_al_poll-SamePoll x.al_reply m in
    record { bus_state = p.bus_state; expected_wkc = p.expected_wkc }

count-wkc_errors : (x : Observed) (m : Master) → (count x m).consecutive_wkc_errors ≡ wkc_errors x m
unfolding count
count-wkc_errors x m = refl

module _ (consec : ℕ) (m : Master) where
  check_thresholds-operational :
      (s : BusState)
      → s ≡ operational
      → m.bus_state ≡ operational
      → m.consecutive_wkc_errors ≡ consec
      → let m' = check_thresholds s consec m in
        ((m'.bus_state ≡ recovering)
          ↔ ((3 ≤ m'.consecutive_wkc_errors) ⊎ (3 ≤ m'.consecutive_al_faults)))
        × ((m'.bus_state ≡ recovering) ⊎ (m'.bus_state ≡ operational))
  unfolding check_thresholds
  check_thresholds-operational s q h e = (ground arith, ground arith)

  check_thresholds-other : (s : BusState) → s ≢ operational → check_thresholds s consec m ≡ m
  unfolding check_thresholds
  check_thresholds-other operational h = absurd (h refl)
  check_thresholds-other _ h = refl

-- What the thresholds do not touch.
pub account-counters :
    (x : Observed) (m : Master)
    → let m' = account x m in
      (m'.consecutive_wkc_errors ≡ wkc_errors x m)
      × (m'.expected_wkc ≡ m.expected_wkc)
      × (m'.diag ≡ (count x m).diag)
unfolding account check_thresholds
account-counters x m = ground (arith, count-SamePoll x m, count-wkc_errors x m)

-- A cycle takes an operational master to recovery exactly if its counters of consecutive working
-- counter errors or of consecutive AL faults then stand at 3 or more; otherwise it stays operational.
pub account-operational :
    (x : Observed) (m : Master)
    → m.bus_state ≡ operational
    → let m' = account x m in
      ((m'.bus_state ≡ recovering)
        ↔ ((3 ≤ m'.consecutive_wkc_errors) ⊎ (3 ≤ m'.consecutive_al_faults)))
      × ((m'.bus_state ≡ recovering) ⊎ (m'.bus_state ≡ operational))
unfolding account
account-operational x m h =
    check_thresholds-operational (wkc_errors x m) (count x m) m.bus_state h
      ((count-SamePoll x m).bus_state ∙ h) (count-wkc_errors x m)

-- No other state is left or entered by a cycle.
pub account-other :
    (x : Observed) (m : Master) → m.bus_state ≢ operational → (account x m).bus_state ≡ m.bus_state
unfolding account
account-other x m h =
    ap (λ (k : Master). k.bus_state)
      (check_thresholds-other (wkc_errors x m) (count x m) m.bus_state h)
    ∙ (count-SamePoll x m).bus_state

abbrev IsBelow : Observed → Master → Type 0
IsBelow x m = ltb_ℤ x.wkc m.expected_wkc ≡ true

operational≢recovering : operational ≢ recovering
operational≢recovering e = cc

-- In recovery, or operational with the working counter errors at `n`.
abbrev Counting : ℕ → Master → Type 0
Counting n m =
    (m.bus_state ≡ recovering) ⊎ ((m.bus_state ≡ operational) × (n ≤ m.consecutive_wkc_errors))

account-Counting :
    (n : ℕ) (x : Observed) (m : Master)
    → IsBelow x m
    → Counting n m
    → Counting (n + 1) (account x m)
unfolding wkc_errors
account-Counting n x m b (inl h) =
    inl (account-other x m (λ e. operational≢recovering (sym e ∙ h)) ∙ h)
account-Counting n x m b (inr (h, k)) =
    ground (arith, account-operational x m h, account-counters x m)

third_error :
    (z : Observed) (m : Master) → IsBelow z m → Counting 2 m → (account z m).bus_state ≡ recovering
unfolding wkc_errors
third_error z m b (inl h) = account-other z m (λ e. operational≢recovering (sym e ∙ h)) ∙ h
third_error z m b (inr (h, k)) =
    (account-operational z m h).0.1 (inl (ground (arith, account-counters z m)))

-- Three working counters in a row below the expected one take an operational master to recovery,
-- whatever came before and whatever the AL polls say.
three_wkc_errors :
    (x y z : Observed) (m : Master)
    → m.bus_state ≡ operational
    → IsBelow x m
    → IsBelow y m
    → IsBelow z m
    → (account z (account y (account x m))).bus_state ≡ recovering
three_wkc_errors x y z m h a b c =
    let m1 = account x m in
    let m2 = account y m1 in
    let e1 = (account-counters x m).1 in
    let e2 = (account-counters y m1).1 ∙ e1 in
    let two =
      account-Counting 1 y m1 (ap (λ (e : ℤ). ltb_ℤ y.wkc e) e1 ∙ b)
        (account-Counting 0 x m a (inr (h, omega arith))) in
    third_error z m2 (ap (λ (e : ℤ). ltb_ℤ z.wkc e) e2 ∙ c) two

-- ===== src/Bus/Recovery.antt =====
-- src/bus.c: when the recovery ends, and how.
use ether_dog.Base.{
  ℕ, Bool, true, false, not, ◌&&◌, ◌+◌, ◌≤◌, ◌<◌, ◌≡◌, refl, arith, ◌==◌, leb, if◌then◌else◌,
  Option, none, some, List, [], ◌∷◌, length, Bool-cases, inl, inr, ◌⊎◌,
}
use ether_dog.Bus.State.{operational, recovering, error}
use ether_dog.Bus.Monitor.{
  Answers, BusSlave, Recovery, recovery_pass, attempt_recovery, after_attempt, recover_slaves,
  state_operational, max_recovery_attempts,
}

-- Every configured slave is on the bus and in OP.
abbrev pub all_operational : List (Answers × Option BusSlave) → Bool
all_operational [] = true
all_operational ((a, none) ∷ ss) = false
all_operational ((a, some s) ∷ ss) = (s.state == state_operational) && all_operational ss

recover_slaves-all_ok :
    (ss : List (Answers × Option BusSlave)) (n : ℕ) → (recover_slaves ss n).2 ≡ all_operational ss
unfolding recover_slaves
recover_slaves-all_ok [] n = refl
recover_slaves-all_ok ((a, none) ∷ ss) n = refl
recover_slaves-all_ok ((a, some s) ∷ ss) n = elim (Bool-cases (s.state == state_operational)) [
  | inl e ↦ ground (arith, recover_slaves-all_ok ss n)
  | inr e ↦ ground arith
]

-- One pass in the recovering state: with every slave in OP it ends the recovery and clears its
-- counters; otherwise it counts one attempt, and gives up at the fifth.
recovery_pass_all :
    (ss : List (Answers × Option BusSlave)) (r : Recovery)
    → r.bus_state ≡ recovering
    → ((all_operational ss ≡ true)
        × (recovery_pass ss r ≡ record {
          bus_state = operational;
          recovery_attempts = 0;
          writestate_failures = 0;
          consecutive_wkc_errors = 0;
        }))
      ⊎ ((all_operational ss ≡ false)
          × ((recovery_pass ss r).recovery_attempts ≡ r.recovery_attempts + 1)
          × ((recovery_pass ss r).bus_state ≡ (
              if leb max_recovery_attempts (r.recovery_attempts + 1) then error else recovering)))
unfolding recovery_pass attempt_recovery after_attempt
recovery_pass_all ss r h = ground (arith, recover_slaves-all_ok ss r.writestate_failures)

recovery_goes_on :
    (ss : List (Answers × Option BusSlave)) (r : Recovery)
    → r.bus_state ≡ recovering
    → all_operational ss ≡ false
    → r.recovery_attempts + 1 < max_recovery_attempts
    → ((recovery_pass ss r).bus_state ≡ recovering)
      × ((recovery_pass ss r).recovery_attempts ≡ r.recovery_attempts + 1)
recovery_goes_on ss r h n k = elim (recovery_pass_all ss r h) [
  | inl (a, e) ↦ absurd (ground arith)
  | inr (a, e, b) ↦ (ground arith, e)
]

-- The passes of the monitor, one after the other.
abbrev pub passes : List (List (Answers × Option BusSlave)) → Recovery → Recovery
passes [] r = r
passes (p ∷ ps) r = passes ps (recovery_pass p r)

abbrev pub none_all_operational : List (List (Answers × Option BusSlave)) → Bool
none_all_operational [] = true
none_all_operational (p ∷ ps) = not (all_operational p) && none_all_operational ps

-- While a slave is not in OP, each pass counts one attempt, and the recovery goes on below five.
passes-attempts :
    (ps : List (List (Answers × Option BusSlave))) (r : Recovery)
    → r.bus_state ≡ recovering
    → none_all_operational ps ≡ true
    → r.recovery_attempts + length ps < max_recovery_attempts
    → ((passes ps r).bus_state ≡ recovering)
      × ((passes ps r).recovery_attempts ≡ r.recovery_attempts + length ps)
passes-attempts [] r h n k = (h, omega arith)
passes-attempts (p ∷ ps) r h n k =
    let (b, e) = recovery_goes_on p r h (ground arith) (omega arith) in
    let (b', e') = passes-attempts ps (recovery_pass p r) b (ground arith) (omega arith) in
    (b', omega arith)

recovery_gives_up :
    (ss : List (Answers × Option BusSlave)) (r : Recovery)
    → r.bus_state ≡ recovering
    → all_operational ss ≡ false
    → max_recovery_attempts ≤ r.recovery_attempts + 1
    → (recovery_pass ss r).bus_state ≡ error
recovery_gives_up ss r h n k = elim (recovery_pass_all ss r h) [
  | inl (a, e) ↦ absurd (ground arith)
  | inr (a, e, b) ↦ ground arith
]

-- A recovery that starts without attempts goes on for four passes that find a slave out of OP, and
-- ends in the error state with the fifth.
pub recovery-bounded :
    (ps : List (List (Answers × Option BusSlave))) (p : List (Answers × Option BusSlave))
    (r : Recovery)
    → r.bus_state ≡ recovering
    → r.recovery_attempts ≡ 0
    → none_all_operational ps ≡ true
    → all_operational p ≡ false
    → length ps ≡ 4
    → ((passes ps r).bus_state ≡ recovering) × ((recovery_pass p (passes ps r)).bus_state ≡ error)
recovery-bounded ps p r h z n m k =
    let (b, e) = passes-attempts ps r h n (omega arith) in
    (b, recovery_gives_up p (passes ps r) b m (omega arith))

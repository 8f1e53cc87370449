-- ===== src/Master/Polling.antt =====
-- src/master.c: the watchdog times and the polls for OP.
use ether_dog.Base.{
  ℕ, zero, suc, Bool, true, false, not, ◌+◌, ◌*◌, ◌^◌, ◌≤◌, ◌<◌, ◌≡◌, ◌↔◌, arith, inl, inr,
  if◌then◌else◌, List, Bool-cases, min, ap, ◌∙◌, ◌≢◌,
}
use ether_dog.Base.Int.{ℤ, pos, negsuc, pos_part}
use ether_dog.Master.Timing.{
  watchdog_ticks, Limits, Watchdog, poll_op, poll_retries, transition_to_op,
}

-- The register holds 16 times the time, clamped at 4095 ms, and 0 for a time that is not positive: it
-- never wraps.
watchdog_ticks_exact :
    (ms : ℤ) → (watchdog_ticks ms ≡ 16 * min (pos_part ms) 4095) × (watchdog_ticks ms < 2 ^ 16)
unfolding watchdog_ticks
watchdog_ticks_exact (pos n) = ground arith
watchdog_ticks_exact (negsuc n) = ground arith

poll_op_iff :
    (k n : ℕ) (in_op : ℕ → Bool)
    → (poll_op k n in_op ≡ true) ↔ ((i : ℕ) × (n ≤ i) × (i < n + k) × (in_op i ≡ true))
unfolding poll_op
poll_op_iff zero n in_op = (λ h. absurd (ground arith), λ (i, a, b, e). absurd (omega arith))
poll_op_iff (suc k) n in_op = elim (Bool-cases (in_op n)) [
  | inl e ↦ (
    λ h. (n, omega arith, omega arith, e),
    λ x. ap (λ (b : Bool). if b then true else poll_op k (suc n) in_op) e,
  )
  | inr e ↦ (
    λ h.
        let (i, a, b, f) = (poll_op_iff k (suc n) in_op).0 (ground arith) in
        (i, omega arith, omega arith, f),
    λ (i, a, b, f).
        let later : suc n ≤ i = after i a (not_same i f e) in
        ap (λ (b : Bool). if b then true else poll_op k (suc n) in_op) e
        ∙ (poll_op_iff k (suc n) in_op).1 (i, later, omega arith, f),
  )
]
  where
    after : (i : ℕ) → n ≤ i → n ≢ i → suc n ≤ i
    after i a d = ground arith

    not_same : (i : ℕ) → in_op i ≡ true → in_op n ≡ false → n ≢ i
    not_same i f e q = absurd (ground (arith, ap in_op q))

-- With SOEM initialised, the start reaches OP exactly if the slaves reach SAFE-OP and one of the
-- polls finds them in OP.
pub transition_to_op_iff :
    (k : Limits) (safe_op : Bool) (ws : List Watchdog) (ts : List ℕ) (in_op : ℕ → Bool)
    → (transition_to_op k true safe_op ws ts in_op ≡ true)
      ↔ ((safe_op ≡ true) × (i : ℕ) × (i < poll_retries k ws ts) × (in_op i ≡ true))
unfolding transition_to_op
transition_to_op_iff k safe_op ws ts in_op = (
  λ h.
      let (i, a, b, f) = (poll_op_iff (poll_retries k ws ts) 0 in_op).0 (ground arith) in
      (ground arith, i, omega arith, f),
  λ (s, i, b, f).
      ap (λ (x : Bool). if not x then false else poll_op (poll_retries k ws ts) 0 in_op) s
      ∙ (poll_op_iff (poll_retries k ws ts) 0 in_op).1 (i, omega arith, omega arith, f),
)

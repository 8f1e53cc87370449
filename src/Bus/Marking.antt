-- ===== src/Bus/Marking.antt =====
-- src/bus.c: when the monitor takes the slaves for operational without asking them, and what the status
-- then shows.
use ether_dog.Base.{
  ℕ, ◌+◌, Bool, true, false, ◌&&◌, List, [], ◌∷◌, Option, none, some, ◌≡◌, refl, ap, ◌∙◌, arith,
  ltb, ◌==◌, if◌then◌else◌,
}
use ether_dog.Base.Int.{ℤ}
use ether_dog.Bus.State.{Master}
use ether_dog.Bus.Cycle.{Observed, account, collect_al_poll, check_thresholds, count}
use ether_dog.Bus.Quiet.{accounts, al_faults_in, is_al_fault}
use ether_dog.Bus.Watch.{Watcher, marks, remember_polls}

abbrev pub is_reply : Option (ℕ × ℤ) → Bool
is_reply none = false
is_reply (some r) = true

-- How many of the cycles have an AL reply.
abbrev pub replies_in : List Observed → ℕ
replies_in [] = 0
replies_in (x ∷ xs) = (if is_reply x.al_reply then 1 else 0) + replies_in xs

-- What a cycle adds to the counters of the poll.
record Polls (m m' : Master) (replies faults : ℕ) : Type 0 where
  pub replied : m'.al_replies ≡ m.al_replies + replies
  pub faulted : m'.al_faults ≡ m.al_faults + faults
  pub same_slaves : m'.slavecount ≡ m.slavecount

collect_al_poll-Polls :
    (r : Option (ℕ × ℤ)) (m : Master)
    → Polls m
        (collect_al_poll r m)
        (if is_reply r then 1 else 0)
        (if is_al_fault m.slavecount r then 1 else 0)
unfolding collect_al_poll
collect_al_poll-Polls none m = ground arith
collect_al_poll-Polls (some (a, w)) m = ground arith

account-Polls :
    (x : Observed) (m : Master)
    → Polls m
        (account x m)
        (if is_reply x.al_reply then 1 else 0)
        (if is_al_fault m.slavecount x.al_reply then 1 else 0)
unfolding account check_thresholds count
account-Polls x m = ground (arith, collect_al_poll-Polls x.al_reply m)

accounts-Polls :
    (xs : List Observed) (m : Master)
    → Polls m (accounts xs m) (replies_in xs) (al_faults_in m.slavecount xs)
unfolding accounts
accounts-Polls [] m = record { replied = omega arith; faulted = omega arith; same_slaves = refl }
accounts-Polls (x ∷ xs) m =
    let one = account-Polls x m in
    let rest = accounts-Polls xs (account x m) in
    let e = ap (λ (n : ℕ). al_faults_in n xs) one.same_slaves in
    record {
      replied = omega (arith, one.replied, rest.replied);
      faulted = omega (arith, one.faulted, rest.faulted, e);
      same_slaves = rest.same_slaves ∙ one.same_slaves;
    }

marks_added :
    (m : Master) (w : Watcher) (r f : ℕ)
    → m.al_replies ≡ w.last_al_replies + r
    → m.al_faults ≡ w.last_al_faults + f
    → marks m w ≡ (ltb 0 r && (f == 0))
unfolding marks
marks_added m w r f a b = ground arith

pub marks-accounts :
    (m : Master) (w : Watcher) (xs : List Observed)
    → marks (accounts xs m) (remember_polls m w)
      ≡ (ltb 0 (replies_in xs) && (al_faults_in m.slavecount xs == 0))
unfolding remember_polls
marks-accounts m w xs =
    let p = accounts-Polls xs m in
    marks_added (accounts xs m) (remember_polls m w) (replies_in xs) (al_faults_in m.slavecount xs)
      p.replied p.faulted

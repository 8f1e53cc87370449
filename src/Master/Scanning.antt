-- ===== src/Master/Scanning.antt =====
-- src/master.c: when a scan succeeds.
use ether_dog.Base.{◌==◌}
use ether_dog.Base.{
  ℕ, zero, suc, Bool, true, false, not, ◌≡◌, ◌↔◌, ◌⊎◌, ◌≤◌, ◌<◌, ◌*◌, inl, inr, refl, sym, arith,
  subst, Option, some, List, [], ◌∷◌, get_elem?, length, ltb, ◌==◌, if◌then◌else◌,
}
use ether_dog.Base.Int.{ℤ, pos, pos_part, neg_part, leb_ℤ}
use ether_dog.Config.Types.{Slave}
use ether_dog.Master.Iomap.{compute_iomap_bytes, alloc_iomap}
use ether_dog.Master.Timing.{Limits}
use ether_dog.Master.Topology.{validate_topology}
use ether_dog.Master.Matching.{IsPresent, validate_topology-IsPresent, IsPresent-validate_topology}
use ether_dog.Master.Open.{
  Opened, Scan, open_and_scan, check_states, all_preop, longest_preop, preop_us, preop_timeout,
  snapshot_slots, released_buffer, released_snapshot, alloc_snapshot, port_closed,
}

-- The configured time of a slave for PRE-OP, which is an int in microseconds.
abbrev pub preop_ms : Slave → ℤ
preop_ms s = s.settings.init_to_preop_timeout_ms

abbrev pub Each : (Slave → Type 0) → List Slave → Type 0
Each P ss = (i : ℕ) (s : Slave) → get_elem? ss i ≡ some s → P s

abbrev pub IsIntTime : Slave → Type 0
IsIntTime s =
    (pos_part (preop_ms s) * 1000 ≤ 2147483647) × (neg_part (preop_ms s) * 1000 ≤ 2147483648)

-- The longest of the times in microseconds, or four times the limit of SOEM if none is positive.
abbrev pub IsLongest : Limits → List Slave → ℕ → Type 0
IsLongest k ss t =
    (Each (λ s. pos_part (preop_ms s) * 1000 ≤ t) ss
      × (0 < t)
      × ((i : ℕ) × (s : Slave) × (get_elem? ss i ≡ some s) × (pos_part (preop_ms s) * 1000 ≡ t)))
    ⊎ (Each (λ s. pos_part (preop_ms s) ≡ 0) ss × (t ≡ k.timeout_state * 4))

-- EC_STATE_PRE_OP is 2.
abbrev pub AllAbove : List ℕ → Type 0
AllAbove states = (i state : ℕ) → get_elem? states i ≡ some state → 2 ≤ state

-- What a scan needs, where it waits for PRE-OP as long as `t`.
pub record Scans (x : Scan) (slaves : List Slave) (t : ℕ) : Type 0 where
  pub opens : x.init_ok ≡ true
  pub finds : leb_ℤ x.config_init (pos 0) ≡ false
  pub image : x.iomap_memory ≡ true
  pub snapshot : x.snapshot_memory ≡ true
  pub as_many : length x.found ≡ length slaves
  pub present : Each (IsPresent x.found) slaves
  pub in_preop : AllAbove (x.states t)

-- What a scan leaves: the socket open with buffers of the sizes that the configuration needs where it
-- succeeds, and no open socket where SOEM had opened it and the scan fails.
abbrev pub Leaves : Scan → List Slave → Opened × Bool → Type 0
Leaves x slaves (s, true) =
    (s.soem_initialized ≡ true)
    × (s.buffer.iomap ≡ some (compute_iomap_bytes slaves))
    × (s.buffer.iomap_capacity ≡ compute_iomap_bytes slaves)
    × (s.buffer.iomap_used_size ≡ 0)
    × (s.snapshot.slaves_snapshot_capacity ≡ snapshot_slots slaves)
Leaves x slaves (s, false) = x.init_ok ≡ true → s.soem_initialized ≡ false

same : {A : Type 0} {a b : A} → some a ≡ some b → a ≡ b
same h = cc

preop_us_lem :
    (s : Slave) → IsIntTime s → preop_us (preop_ms s) ≡ some (pos_part (preop_ms s) * 1000)
unfolding preop_us
preop_us_lem s h = ground (arith, h)

-- The longest of the times and of `t0`.
abbrev IsMaximum : List Slave → ℕ → ℕ → Type 0
IsMaximum ss t0 t =
    (t0 ≤ t)
    × Each (λ s. pos_part (preop_ms s) * 1000 ≤ t) ss
    × ((t ≡ t0)
        ⊎ ((i : ℕ) × (s : Slave) × (get_elem? ss i ≡ some s) × (pos_part (preop_ms s) * 1000 ≡ t)))

longest_lem :
    (ss : List Slave) (t0 : ℕ)
    → Each IsIntTime ss
    → (t : ℕ) × (longest_preop ss t0 ≡ some t) × IsMaximum ss t0 t
unfolding longest_preop
longest_lem [] t0 f = (t0, refl, (omega arith, λ i s g. cc, inl refl))
longest_lem (x ∷ ss) t0 f =
    let us : ℕ = pos_part (preop_ms x) * 1000 in
    let (t, e, (l, m, w)) =
      longest_lem ss (if ltb t0 us then us else t0) (λ i s g. f (suc i) s g) in
    (
      t,
      rw (longest_preop, preop_us_lem x (f 0 x refl)) e,
      (below t0 us t l, each us t (above t0 us t l) m, attained us t w),
    )
  where
    below : (a b t : ℕ) → (if ltb a b then b else a) ≤ t → a ≤ t
    below a b t l = ground arith

    above : (a b t : ℕ) → (if ltb a b then b else a) ≤ t → b ≤ t
    above a b t l = ground arith

    each :
        (us t : ℕ)
        → pos_part (preop_ms x) * 1000 ≤ t
        → Each (λ s. pos_part (preop_ms s) * 1000 ≤ t) ss
        → Each (λ s. pos_part (preop_ms s) * 1000 ≤ t) (x ∷ ss)
    each us t h m zero s g = subst (λ (y : Slave). pos_part (preop_ms y) * 1000 ≤ t) (same g) h
    each us t h m (suc i) s g = m i s g

    attained :
        (us t : ℕ)
        → (t ≡ (if ltb t0 (pos_part (preop_ms x) * 1000) then pos_part (preop_ms x) * 1000 else t0))
          ⊎ ((i : ℕ) × (s : Slave) × (get_elem? ss i ≡ some s) × (pos_part (preop_ms s) * 1000 ≡ t))
        → (t ≡ t0)
          ⊎ ((i : ℕ) × (s : Slave) × (get_elem? (x ∷ ss) i ≡ some s)
              × (pos_part (preop_ms s) * 1000 ≡ t))
    attained us t (inr (i, s, g, e)) = inr (suc i, s, g, e)
    attained us t (inl e) = elim (either t t0 (pos_part (preop_ms x) * 1000) e) [
      | inl p ↦ inl p
      | inr q ↦ inr (0, x, refl, q)
    ]
      where
        either : (t a b : ℕ) → t ≡ (if ltb a b then b else a) → (t ≡ a) ⊎ (b ≡ t)
        either t a b e = ground arith

chosen :
    (k : Limits) (ss : List Slave) (t : ℕ)
    → IsMaximum ss 0 t
    → IsLongest k ss (if t == 0 then k.timeout_state * 4 else t)
chosen k ss zero (l, m, w) = inr (λ i s g. no_time (pos_part (preop_ms s)) (m i s g), refl)
  where
    no_time : (n : ℕ) → n * 1000 ≤ 0 → n ≡ 0
    no_time n h = omega arith
chosen k ss (suc t) (l, m, inl w) = absurd (omega arith)
chosen k ss (suc t) (l, m, inr w) =
    subst (IsLongest k ss) (sym (positive t)) (inl (m, omega arith, w))
  where
    positive : (t : ℕ) → (if suc t == 0 then k.timeout_state * 4 else suc t) ≡ suc t
    positive t = ground arith

preop_timeout-IsLongest :
    (k : Limits) (ss : List Slave)
    → Each IsIntTime ss
    → (t : ℕ) × (preop_timeout k ss ≡ some t) × IsLongest k ss t
unfolding preop_timeout
preop_timeout-IsLongest k ss f =
    let (t, e, m) = longest_lem ss 0 f in
    ((if t == 0 then k.timeout_state * 4 else t), rw (preop_timeout, e) refl, chosen k ss t m)

all_preop-AllAbove : (states : List ℕ) → all_preop states ≡ true → AllAbove states
unfolding all_preop
all_preop-AllAbove [] h i state g = cc
all_preop-AllAbove (x ∷ xs) h zero state g = subst (λ (n : ℕ). 2 ≤ n) (same g) (ground arith)
all_preop-AllAbove (x ∷ xs) h (suc i) state g = all_preop-AllAbove xs (ground arith) i state g

AllAbove-all_preop : (states : List ℕ) → AllAbove states → all_preop states ≡ true
unfolding all_preop
AllAbove-all_preop [] h = refl
AllAbove-all_preop (x ∷ xs) h =
    ground (arith, h 0 x refl, AllAbove-all_preop xs (λ i state g. h (suc i) state g))

-- The tests of the code, for the time that it waits.
abbrev Passes : Scan → List Slave → ℕ → Type 0
Passes x slaves t =
    (x.init_ok ≡ true)
    × (leb_ℤ x.config_init (pos 0) ≡ false)
    × (x.iomap_memory ≡ true)
    × (x.snapshot_memory ≡ true)
    × (validate_topology x.found slaves ≡ true)
    × (all_preop (x.states t) ≡ true)

Passes-Scans : (x : Scan) (slaves : List Slave) (t : ℕ) → Passes x slaves t → Scans x slaves t
Passes-Scans x slaves t (a, b, c, d, e, f) =
    let (n, p) = validate_topology-IsPresent x.found slaves e in
    record {
      opens = a;
      finds = b;
      image = c;
      snapshot = d;
      as_many = n;
      present = p;
      in_preop = all_preop-AllAbove (x.states t) f;
    }

Scans-Passes : (x : Scan) (slaves : List Slave) (t : ℕ) → Scans x slaves t → Passes x slaves t
Scans-Passes x slaves t p = (
  p.opens,
  p.finds,
  p.image,
  p.snapshot,
  IsPresent-validate_topology x.found slaves p.as_many p.present,
  AllAbove-all_preop (x.states t) p.in_preop,
)

-- The result of a scan that waits so long.
pub record HasOutcome (x : Scan) (slaves : List Slave) (t : ℕ) (r : Option (Opened × Bool))
    : Type 0 where
  pub outcome : Opened × Bool
  pub returns : r ≡ some outcome
  pub succeeds : (outcome.1 ≡ true) ↔ Scans x slaves t
  pub leaves : Leaves x slaves outcome

-- A scan with the time computed.
abbrev outcome_of : Scan → List Slave → Opened → ℕ → Opened × Bool
outcome_of x slaves s t =
    let s0 : Opened = record s { buffer = released_buffer; snapshot = released_snapshot } in
    let (b, iomap_ok) = alloc_iomap x.iomap_memory slaves released_buffer in
    let (p, snapshot_ok) = alloc_snapshot x.snapshot_memory slaves released_snapshot in
    if not x.init_ok
    then (s0, false)
    else if leb_ℤ x.config_init (pos 0)
    then (port_closed s0, false)
    else if not iomap_ok
    then (port_closed s0, false)
    else if not snapshot_ok
    then (port_closed (record s0 { buffer = b }), false)
    else if not (validate_topology x.found slaves)
    then (port_closed (record { soem_initialized = true; buffer = b; snapshot = p }), false)
    else check_states x t (record { soem_initialized = true; buffer = b; snapshot = p })

outcome_returns :
    (k : Limits) (x : Scan) (slaves : List Slave) (s : Opened) (t : ℕ)
    → preop_timeout k slaves ≡ some t
    → open_and_scan k x slaves s ≡ some (outcome_of x slaves s t)
unfolding open_and_scan
outcome_returns k x slaves s t p = ground (arith, p)

outcome_succeeds :
    (x : Scan) (slaves : List Slave) (s : Opened) (t : ℕ)
    → ((outcome_of x slaves s t).1 ≡ true) ↔ Passes x slaves t
unfolding open_and_scan
outcome_succeeds x slaves s t = (λ h. ground arith, λ h. ground arith)

outcome_of-Leaves :
    (x : Scan) (slaves : List Slave) (s : Opened) (t : ℕ)
    → Leaves x slaves (outcome_of x slaves s t)
unfolding open_and_scan
outcome_of-Leaves x slaves s t = ground arith

-- Where the times for PRE-OP are ints in microseconds, a scan returns, and it succeeds exactly if SOEM
-- opens the interface and finds slaves, both buffers are allocated, there are as many slaves as
-- configured, each with the vendor and product that its configuration checks, and each is at least in
-- PRE-OP after the longest of the times, or after four times the limit of SOEM if none is positive. It
-- then leaves the socket open with an empty image and a snapshot of the sizes that the configuration
-- needs; if it fails where SOEM had opened the interface, the socket is closed.
pub open_and_scan_iff :
    (k : Limits) (x : Scan) (slaves : List Slave) (s : Opened)
    → Each IsIntTime slaves
    → (t : ℕ) × IsLongest k slaves t × HasOutcome x slaves t (open_and_scan k x slaves s)
open_and_scan_iff k x slaves s f =
    let (t, p, l) = preop_timeout-IsLongest k slaves f in
    let q = outcome_succeeds x slaves s t in
    (
      t,
      l,
      record {
        outcome = outcome_of x slaves s t;
        returns = outcome_returns k x slaves s t p;
        succeeds = (λ h. Passes-Scans x slaves t (q.0 h), λ h. q.1 (Scans-Passes x slaves t h));
        leaves = outcome_of-Leaves x slaves s t;
      },
    )

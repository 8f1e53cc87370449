-- ===== src/Bus/Streaks.antt =====
-- src/bus.c: when a run of bus cycles starts a recovery.
use ether_dog.Base.{
  ℕ, Bool, true, false, not, ◌+◌, ◌≤◌, ◌<◌, ◌≡◌, ◌≢◌, ◌↔◌, ◌⊎◌, inl, inr, refl, sym, ◌∙◌, arith,
  leb, ◌||◌, if◌then◌else◌, Option, none, some, List, [], ◌∷◌, subst,
}
use ether_dog.Base.Int.{ℤ, ltb_ℤ}
use ether_dog.Bus.State.{operational, recovering, Master, al_poll_healthy}
use ether_dog.Bus.Cycle.{Observed, account, collect_al_poll, check_thresholds, wkc_errors, count}
use ether_dog.Bus.Quiet.{accounts}
use ether_dog.Bus.Thresholds.{account-operational, account-counters, account-other}

-- Three in a row are true.
pub data Three : List Bool → Type 0 where
  here : {bs : List Bool} → Three (true ∷ true ∷ true ∷ bs)
  later : {b : Bool} {bs : List Bool} → Three bs → Three (b ∷ bs)

-- Of each cycle whether its working counter is below the one expected.
abbrev pub below : ℤ → List Observed → List Bool
below expected [] = []
below expected (x ∷ xs) = ltb_ℤ x.wkc expected ∷ below expected xs

-- Of each AL poll that was answered whether it fails to show so many slaves in OP. A poll without an
-- answer says nothing.
abbrev pub al_faulty : ℕ → List Observed → List Bool
al_faulty slaves [] = []
al_faulty slaves (x ∷ xs) = elim x.al_reply [
  | none ↦ al_faulty slaves xs
  | some (status, wkc) ↦ not (al_poll_healthy status wkc slaves) ∷ al_faulty slaves xs
]

-- Whether a counter that starts at `n`, is raised by `true` and is set to 0 by `false`, comes to 3.
unfoldable reaches : ℕ → List Bool → Bool
reaches n [] = false
reaches n (true ∷ bs) = let rest = reaches (n + 1) bs in leb 3 (n + 1) || rest
reaches n (false ∷ bs) = reaches 0 bs

reaches-Three :
    (bs : List Bool)
    → (reaches 0 bs ≡ true → Three bs)
      × (reaches 1 bs ≡ true → Three (true ∷ bs))
      × (reaches 2 bs ≡ true → Three (true ∷ true ∷ bs))
unfolding reaches
reaches-Three [] = (λ h. cc, λ h. cc, λ h. cc)
reaches-Three (true ∷ bs) = let (z, o, t) = reaches-Three bs in (λ h. o h, λ h. t h, λ h. here)
reaches-Three (false ∷ bs) =
    let (z, o, t) = reaches-Three bs in
    (λ h. later (z h), λ h. later (later (z h)), λ h. later (later (later (z h))))

more_reaches :
    (bs : List Bool)
    → (reaches 0 bs ≡ true → reaches 1 bs ≡ true) × (reaches 1 bs ≡ true → reaches 2 bs ≡ true)
unfolding reaches
more_reaches [] = (λ h. h, λ h. h)
more_reaches (true ∷ bs) = let (a, b) = more_reaches bs in (λ h. b h, λ h. refl)
more_reaches (false ∷ bs) = (λ h. h, λ h. h)

Three-reaches : (bs : List Bool) → Three bs → reaches 0 bs ≡ true
unfolding reaches
Three-reaches _ here = refl
Three-reaches (true ∷ bs) (later t) = (more_reaches bs).0 (Three-reaches bs t)
Three-reaches (false ∷ bs) (later t) = Three-reaches bs t

reach_step :
    (n n' : ℕ) (w : Bool) (bs : List Bool)
    → n' ≡ (if w then n + 1 else 0)
    → (reaches n (w ∷ bs) ≡ true) ↔ ((3 ≤ n') ⊎ (reaches n' bs ≡ true))
unfolding reaches
reach_step n n' true bs e = (
  λ h.
      subst (λ (i : ℕ). (3 ≤ i) ⊎ (reaches i bs ≡ true)) (sym e)
        (split (n + 1) (reaches (n + 1) bs) h),
  λ h. join (n + 1) (reaches (n + 1) bs) (subst (λ (i : ℕ). (3 ≤ i) ⊎ (reaches i bs ≡ true)) e h),
)
  where
    split : (i : ℕ) (b : Bool) → (leb 3 i || b) ≡ true → (3 ≤ i) ⊎ (b ≡ true)
    split i b h = ground arith

    join : (i : ℕ) (b : Bool) → (3 ≤ i) ⊎ (b ≡ true) → (leb 3 i || b) ≡ true
    join i b h = ground arith
reach_step n n' false bs e = (
  λ h. inr (subst (λ (i : ℕ). reaches i bs ≡ true) (sym e) h),
  λ h. elim h [ inl l ↦ absurd (omega arith) | inr r ↦ subst (λ (i : ℕ). reaches i bs ≡ true) e r ],
)

-- The counter of AL faults after a reply.
abbrev after_reply : ℕ → ℕ → Option (ℕ × ℤ) → ℕ
after_reply slaves k none = k
after_reply slaves k (some (status, wkc)) =
    if not (al_poll_healthy status wkc slaves) then k + 1 else 0

collect_al_poll-counter :
    (r : Option (ℕ × ℤ)) (m : Master)
    → ((collect_al_poll r m).consecutive_al_faults
        ≡ after_reply m.slavecount m.consecutive_al_faults r)
      × ((collect_al_poll r m).slavecount ≡ m.slavecount)
unfolding collect_al_poll
collect_al_poll-counter none m = (refl, refl)
collect_al_poll-counter (some (a, w)) m = (ground arith, ground arith)

account-al_counter :
    (x : Observed) (m : Master)
    → ((account x m).consecutive_al_faults
        ≡ after_reply m.slavecount m.consecutive_al_faults x.al_reply)
      × ((account x m).slavecount ≡ m.slavecount)
      × ((account x m).consecutive_wkc_errors
          ≡ (if ltb_ℤ x.wkc m.expected_wkc then m.consecutive_wkc_errors + 1 else 0))
unfolding account check_thresholds count wkc_errors
account-al_counter x m = (
  ground (arith, collect_al_poll-counter x.al_reply m),
  ground (arith, collect_al_poll-counter x.al_reply m),
  ground arith,
)

reply_step :
    (slaves k k' : ℕ) (x : Observed) (xs : List Observed)
    → k < 3
    → k' ≡ after_reply slaves k x.al_reply
    → (reaches k (al_faulty slaves (x ∷ xs)) ≡ true)
      ↔ ((3 ≤ k') ⊎ (reaches k' (al_faulty slaves xs) ≡ true))
reply_step slaves k k' x xs l e = by_reply x.al_reply e
  where
    by_reply :
        (r : Option (ℕ × ℤ))
        → k' ≡ after_reply slaves k r
        → (reaches k (elim r [
          | none ↦ al_faulty slaves xs
          | some (status, wkc) ↦ not (al_poll_healthy status wkc slaves) ∷ al_faulty slaves xs
        ])
            ≡ true)
          ↔ ((3 ≤ k') ⊎ (reaches k' (al_faulty slaves xs) ≡ true))
    by_reply none e = (
      λ h. inr (subst (λ (i : ℕ). reaches i (al_faulty slaves xs) ≡ true) (sym e) h),
      λ h. elim h [
        | inl g ↦ absurd (omega arith)
        | inr r ↦ subst (λ (i : ℕ). reaches i (al_faulty slaves xs) ≡ true) e r
      ],
    )
    by_reply (some (status, wkc)) e =
        reach_step k k' (not (al_poll_healthy status wkc slaves)) (al_faulty slaves xs) e

accounts-stays :
    (xs : List Observed) (m : Master)
    → m.bus_state ≡ recovering
    → (accounts xs m).bus_state ≡ recovering
unfolding accounts
accounts-stays [] m h = h
accounts-stays (x ∷ xs) m h =
    accounts-stays xs (account x m) (account-other x m (λ e. differ (sym e ∙ h)) ∙ h)
  where
    differ : operational ≢ recovering
    differ e = cc

abbrev Faulty : ℕ → ℕ → Master → List Observed → Type 0
Faulty n k m xs =
    (reaches n (below m.expected_wkc xs) ≡ true) ⊎ (reaches k (al_faulty m.slavecount xs) ≡ true)

accounts-reaches :
    (xs : List Observed) (m : Master)
    → m.bus_state ≡ operational
    → m.consecutive_wkc_errors < 3
    → m.consecutive_al_faults < 3
    → (((accounts xs m).bus_state ≡ recovering)
        ↔ Faulty m.consecutive_wkc_errors m.consecutive_al_faults m xs)
      × (((accounts xs m).bus_state ≡ recovering) ⊎ ((accounts xs m).bus_state ≡ operational))
unfolding accounts reaches
accounts-reaches [] m h a b = ((λ e. absurd (cc (sym h ∙ e)), λ e. absurd (never e)), inr h)
  where
    never : Faulty m.consecutive_wkc_errors m.consecutive_al_faults m [] → ⊥
    never (inl e) = cc
    never (inr e) = cc
accounts-reaches (x ∷ xs) m h a b =
    let m' : Master = account x m in
    let o = account-operational x m h in
    let (c, s, n) = account-al_counter x m in
    let exp = (account-counters x m).1 in
    let p =
      subst
        (λ (z : ℤ).
          (reaches m.consecutive_wkc_errors (ltb_ℤ x.wkc m.expected_wkc ∷ below m.expected_wkc xs)
            ≡ true)
          ↔ ((3 ≤ m'.consecutive_wkc_errors)
              ⊎ (reaches m'.consecutive_wkc_errors (below z xs) ≡ true)))
        (sym exp)
        (reach_step m.consecutive_wkc_errors m'.consecutive_wkc_errors (ltb_ℤ x.wkc m.expected_wkc)
          (below m.expected_wkc xs) n) in
    let q =
      subst
        (λ (z : ℕ). (reaches m.consecutive_al_faults (al_faulty m.slavecount (x ∷ xs)) ≡ true) ↔ (
          (3 ≤ m'.consecutive_al_faults)
          ⊎ (reaches m'.consecutive_al_faults (al_faulty z xs) ≡ true)))
        (sym s)
        (reply_step m.slavecount m.consecutive_al_faults m'.consecutive_al_faults x xs b c) in
    elim o.1 [
      | inl r ↦
          let stays = accounts-stays xs m' r in
          (
            (
              λ e. elim (o.0.0 r) [ inl w ↦ inl (p.1 (inl w)) | inr l ↦ inr (q.1 (inl l)) ],
              λ e. stays,
            ),
            inl stays,
          )
      | inr quiet ↦
          let few : ¬ ((3 ≤ m'.consecutive_wkc_errors) ⊎ (3 ≤ m'.consecutive_al_faults)) =
            λ g. cc (sym quiet ∙ o.0.1 g) in
          let rest =
            accounts-reaches xs m' quiet (omega_of _ (λ g. few (inl g)))
              (omega_of _ (λ g. few (inr g))) in
          (
            (
              λ e. elim (rest.0.0 e) [ inl w ↦ inl (p.1 (inr w)) | inr l ↦ inr (q.1 (inr l)) ],
              λ e. elim e [
                | inl w ↦ elim (p.0 w) [ inl g ↦ absurd (few (inl g)) | inr g ↦ rest.0.1 (inl g) ]
                | inr l ↦ elim (q.0 l) [ inl g ↦ absurd (few (inr g)) | inr g ↦ rest.0.1 (inr g) ]
              ],
            ),
            rest.1,
          )
    ]
  where
    omega_of : (i : ℕ) → ¬ (3 ≤ i) → i < 3
    omega_of i h = ground arith

-- Over any run of cycles from an operational master with no error pending, the master goes to recovery
-- exactly if three cycles in a row had a working counter below the expected one, or three answered AL
-- polls in a row, with no answered poll between them, did not show every slave in OP; otherwise it is
-- still operational.
pub accounts-recovering :
    (xs : List Observed) (m : Master)
    → m.bus_state ≡ operational
    → m.consecutive_wkc_errors ≡ 0
    → m.consecutive_al_faults ≡ 0
    → (((accounts xs m).bus_state ≡ recovering)
        ↔ (Three (below m.expected_wkc xs) ⊎ Three (al_faulty m.slavecount xs)))
      × (((accounts xs m).bus_state ≡ recovering) ⊎ ((accounts xs m).bus_state ≡ operational))
accounts-recovering xs m h a b =
    let (r, s) = accounts-reaches xs m h (omega arith) (omega arith) in
    let r0 =
      subst
        (λ (n : ℕ).
          ((accounts xs m).bus_state ≡ recovering) ↔ Faulty n m.consecutive_al_faults m xs)
        a r in
    let r1 = subst (λ (k : ℕ). ((accounts xs m).bus_state ≡ recovering) ↔ Faulty 0 k m xs) b r0 in
    (
      (
        λ e. elim (r1.0 e) [
          | inl w ↦ inl ((reaches-Three (below m.expected_wkc xs)).0 w)
          | inr l ↦ inr ((reaches-Three (al_faulty m.slavecount xs)).0 l)
        ],
        λ e. elim e [
          | inl w ↦ r1.1 (inl (Three-reaches (below m.expected_wkc xs) w))
          | inr l ↦ r1.1 (inr (Three-reaches (al_faulty m.slavecount xs) l))
        ],
      ),
      s,
    )

-- ===== src/Master/Opening.antt =====
-- src/master.c: what closing sends.
use mathlib.Core.List.{append_assoc}
use ether_dog.Base.{
  ◌∙◌, length-replicate, take-append, [], take, lt→ltb, ◌++◌, ◌∷◌, zero_fill, replicate,
  if◌then◌else◌, inr, inl, Bool-cases, subst, refl, sym, zero, suc, ap, ◌≤◌, ◌+◌, ◌<◌, ℕ, Bool,
  true, false, List, ◌≡◌, arith,
}
use ether_dog.Base.Int.{ℤ, pos, leb_ℤ}
use ether_dog.Master.Open.{
  read_states, check_init, revert_tuning, close_port, request_init, exchange, close_master,
  CloseCall, init_calls, zero_calls, zero_exchanges, Opened,
}

abbrev pub Unanswered : ℤ → Type 0
Unanswered wkc = leb_ℤ wkc (pos 0) ≡ true

-- The exchanges are some, at most `left`, each but the last unanswered, and the last too only if
-- there are `left`.
abbrev pub IsCount : ℕ → ℕ → (ℕ → ℤ) → ℕ → Type 0
IsCount left i wkc n =
    (0 < left → 0 < n)
    × (n ≤ left)
    × ((j : ℕ) → suc j < n → Unanswered (wkc (i + j)))
    × (n < left → (j : ℕ) → n ≡ suc j → leb_ℤ (wkc (i + j)) (pos 0) ≡ false)

module _ (wkc : ℕ → ℤ) (left i n : ℕ) (silent : Unanswered (wkc i))
    (rest : IsCount left (i + 1) wkc n) where
  shifted : (j : ℕ) → wkc (i + 1 + j) ≡ wkc (i + suc j)
  shifted j = ap wkc (omega arith)

  before_last : (j : ℕ) → suc j < suc n → Unanswered (wkc (i + j))
  before_last zero h = subst (λ (a : ℕ). Unanswered (wkc a)) (omega arith) silent
  before_last (suc j) h = subst Unanswered (shifted j) (rest.2 j (omega arith))

  last_answered : suc n < suc left → (j : ℕ) → suc n ≡ suc j → leb_ℤ (wkc (i + j)) (pos 0) ≡ false
  last_answered h zero e = absurd (omega (arith, rest.0))
  last_answered h (suc j) e =
      subst (λ (z : ℤ). leb_ℤ z (pos 0) ≡ false) (shifted j) (rest.3 (omega arith) j (omega arith))

  IsCount-more : IsCount (suc left) i wkc (suc n)
  IsCount-more = (λ h. omega arith, omega arith, before_last, last_answered)

IsCount-one :
    (wkc : ℕ → ℤ) (left i : ℕ) → leb_ℤ (wkc i) (pos 0) ≡ false → IsCount (suc left) i wkc 1
IsCount-one wkc left i answered = (
  λ h. omega arith,
  omega arith,
  λ j h. absurd (omega arith),
  λ h j e. subst (λ (a : ℕ). leb_ℤ (wkc a) (pos 0) ≡ false) (omega arith) answered,
)

zero_exchanges-IsCount : (left i : ℕ) (wkc : ℕ → ℤ) → IsCount left i wkc (zero_exchanges left i wkc)
unfolding zero_exchanges
zero_exchanges-IsCount zero i wkc =
    (λ h. h, omega arith, λ j h. absurd (omega arith), λ h. absurd (omega arith))
zero_exchanges-IsCount (suc left) i wkc = elim (Bool-cases (leb_ℤ (wkc i) (pos 0))) [
  | inl silent ↦ rw silent (
      IsCount-more wkc left i (zero_exchanges left (i + 1) wkc) silent
        (zero_exchanges-IsCount left (i + 1) wkc))
  | inr answered ↦ rw answered (IsCount-one wkc left i answered)
]

-- What follows the exchanges of a close.
abbrev pub farewell : ℤ → List CloseCall
farewell init_wkc =
    if leb_ℤ init_wkc (pos 0)
    then request_init ∷ close_port ∷ revert_tuning ∷ []
    else request_init ∷ check_init ∷ read_states ∷ close_port ∷ revert_tuning ∷ []

farewell_split : (z : ℤ) → (init_calls z ++ (close_port ∷ [])) ++ (revert_tuning ∷ []) ≡ farewell z
farewell_split z = elim (Bool-cases (leb_ℤ z (pos 0))) [ inl e ↦ rw e refl | inr e ↦ rw e refl ]

close_calls :
    (wkc : ℕ → ℤ) (init_wkc : ℤ) (image : List ℕ) (s : Opened)
    → s.soem_initialized ≡ true
    → 0 < s.buffer.iomap_used_size
    → (close_master wkc init_wkc image s).0
      ≡ replicate (zero_exchanges 3 0 wkc) (exchange (zero_fill image s.buffer.iomap_used_size))
        ++ farewell init_wkc
unfolding close_master
close_calls wkc init_wkc image s e h =
    let made =
      replicate (zero_exchanges 3 0 wkc) (exchange (zero_fill image s.buffer.iomap_used_size)) in
    ap
      (λ (b : Bool).
        (if b
          then zero_calls wkc image s.buffer.iomap_used_size
            ++ (init_calls init_wkc ++ (close_port ∷ []))
          else [])
        ++ (revert_tuning ∷ []))
      e
    ∙ ap
        (λ (b : Bool).
          ((if b then made else []) ++ (init_calls init_wkc ++ (close_port ∷ [])))
          ++ (revert_tuning ∷ []))
        (lt→ltb 0 s.buffer.iomap_used_size h)
    ∙ append_assoc made (init_calls init_wkc ++ (close_port ∷ [])) (revert_tuning ∷ [])
    ∙ ap (λ (l : List CloseCall). made ++ l) (farewell_split init_wkc)

-- Closing a mapped master sends the image with its used part zeroed before anything else: once or more,
-- at most three times, each time but the last without an answer, and three times only if the second is not
-- answered either. Then it asks for INIT and closes the socket, reverts the tuning, and sends nothing more.
pub close_master-zeroes :
    (wkc : ℕ → ℤ) (init_wkc : ℤ) (image : List ℕ) (s : Opened)
    → s.soem_initialized ≡ true
    → 0 < s.buffer.iomap_used_size
    → (n : ℕ) × ((close_master wkc init_wkc image s).0
        ≡ replicate n (exchange (zero_fill image s.buffer.iomap_used_size)) ++ farewell init_wkc)
      × IsCount 3 0 wkc n
      × (take s.buffer.iomap_used_size (zero_fill image s.buffer.iomap_used_size)
          ≡ replicate s.buffer.iomap_used_size 0)
close_master-zeroes wkc init_wkc image s e h = (
  zero_exchanges 3 0 wkc,
  close_calls wkc init_wkc image s e h,
  zero_exchanges-IsCount 3 0 wkc,
  take-append (replicate s.buffer.iomap_used_size 0) _ s.buffer.iomap_used_size
      (sym (length-replicate s.buffer.iomap_used_size 0)),
)

-- ===== src/Iface/Listing.antt =====
-- src/iface_state.c: reading a setting from a text that shows it.
use ether_dog.Base.{
  ℕ, zero, suc, ◌-◌, ◌≤◌, ◌<◌, Bool, true, false, [], ◌∷◌, ◌++◌, some, ◌≡◌, refl, sym, ap, ◌∙◌,
  arith, ◌||◌, length, Option-cases, inl, inr, subst, ◌==◌,
}
use ether_dog.Base.Int.{ℤ}
use ether_dog.Config.Host.{codes}
use ether_dog.Iface.Text.{
  Text, decimal, after, find_key, is_separator, key_ends, number_behind, parse_ethtool_int,
  parse_ethtool_bool, skip, says_on, is_digit, number_at, atoi,
}
use ether_dog.Iface.Numbers.{stops, decimal-Starts, atoi-decimal_rest}
use ether_dog.Iface.Nic.{on_off}

-- A text shows a number behind a key: the key, a colon, a space and the number in decimals end a line,
-- and wherever the key stands in front of it, it is the beginning of a longer word, as "rx-usecs" is of
-- "rx-usecs-irq".
pub record ShowsNumber (output key : Text) (v : ℤ) : Type 0 where
  pub front : Text
  pub rest : Text
  pub is_there : output ≡ front ++ (key ++ (b':' ∷ (32 ∷ (decimal v ++ (10 ∷ rest)))))
  pub is_first :
      (a r : Text) (c : ℕ)
      → output ≡ a ++ (key ++ (c ∷ r))
      → length a < length front
      → is_separator c ≡ false

-- A text shows a flag behind a key: the key, which does not stand in front of that, a colon, a space,
-- and "on" or "off".
pub record ShowsFlag (output key : Text) (v : Bool) : Type 0 where
  pub front : Text
  pub rest : Text
  pub is_there : output ≡ front ++ (key ++ (b':' ∷ (32 ∷ (on_off v ++ (10 ∷ rest)))))
  pub is_first : (a r : Text) → output ≡ a ++ (key ++ r) → length a < length front → ⊥

pub after_front : (key s : Text) → after key (key ++ s) ≡ some s
after_front [] s = refl
after_front (k ∷ ks) s = ground (arith, after_front ks s)

after_splits : (key s r : Text) → after key s ≡ some r → s ≡ key ++ r
after_splits [] s r h = cc
after_splits (k ∷ ks) [] r h = cc
after_splits (k ∷ ks) (c ∷ s) r h = ground (arith, after_splits ks s r)

module _ (k : ℕ) (ks : Text) where
  abbrev key : Text
  key = k ∷ ks

  -- A key does not begin again inside itself.
  abbrev pub NoBorder : Type 0
  NoBorder =
      (c : ℕ) (f x r : Text) → after key (c ∷ (f ++ (key ++ x))) ≡ some r → length ks ≤ length f

  abbrev Absent : (Text → Bool) → Text → Text → Type 0
  Absent accept f x =
      (a r : Text) → f ++ (key ++ x) ≡ a ++ (key ++ r) → length a < length f → accept r ≡ false

  Absent-tail :
      (accept : Text → Bool) (c : ℕ) (f x : Text) → Absent accept (c ∷ f) x → Absent accept f x
  Absent-tail accept c f x h a r e l = h (c ∷ a) r (ap (λ (s : Text). c ∷ s) e) (omega arith)

  module _ (accept : Text → Bool) (x : Text) (border : NoBorder) (ends : accept x ≡ true) where
    find_behind :
        (f : Text) (n : ℕ)
        → n ≤ length f
        → Absent accept f x
        → find_key accept key n (f ++ (key ++ x)) ≡ some x
    unfolding find_key
    find_behind [] zero l h = rw (find_key, after_front key x, ends) refl
    find_behind [] (suc n) l h = absurd (omega arith)
    find_behind (c ∷ f) (suc n) l h = find_behind f n (omega arith) (Absent-tail accept c f x h)
    find_behind (c ∷ f) zero l h = elim (Option-cases (after key (c ∷ (f ++ (key ++ x))))) [
      | inl e ↦ rw (find_key, e) (find_behind f 0 (omega arith) (Absent-tail accept c f x h))
      | inr (r, e) ↦
          let refused : accept r ≡ false = h [] r (after_splits key _ r e) (omega arith) in
          rw (find_key, e, refused)
            (find_behind f (length key - 1) (omega (arith, border c f x r e))
              (Absent-tail accept c f x h))
    ]

skip_none :
    (c : ℕ) (s : Text) → ((c == b'-') || is_digit c) ≡ true → skip is_separator (c ∷ s) ≡ c ∷ s
skip_none c s h = ground arith

number_front :
    (c : ℕ) (s : Text)
    → ((c == b'-') || is_digit c) ≡ true
    → number_at (c ∷ s) ≡ some (atoi (c ∷ s))
number_front c s h = rw h refl

pub number_at-decimal :
    (z : ℤ) (rest : Text)
    → stops rest ≡ true
    → number_at (skip is_separator (decimal z ++ rest)) ≡ some z
number_at-decimal z rest st =
    let p = decimal-Starts z rest in
    ap (λ (u : Text). number_at (skip is_separator u)) p.splits
    ∙ ap number_at (skip_none p.first p.others p.first_number)
    ∙ number_front p.first p.others p.first_number
    ∙ ap (λ (u : Text). some (atoi u)) (sym p.splits)
    ∙ ap some (atoi-decimal_rest z rest st)

rx-NoBorder : NoBorder b'r' (codes "x-usecs")
rx-NoBorder c [] x r h = ground arith
rx-NoBorder c (a ∷ []) x r h = ground arith
rx-NoBorder c (a ∷ b ∷ []) x r h = ground arith
rx-NoBorder c (a ∷ b ∷ d ∷ []) x r h = ground arith
rx-NoBorder c (a ∷ b ∷ d ∷ e ∷ []) x r h = ground arith
rx-NoBorder c (a ∷ b ∷ d ∷ e ∷ f ∷ []) x r h = ground arith
rx-NoBorder c (a ∷ b ∷ d ∷ e ∷ f ∷ g ∷ []) x r h = ground arith
rx-NoBorder c (a ∷ b ∷ d ∷ e ∷ f ∷ g ∷ i ∷ fs) x r h = omega arith

tx-NoBorder : NoBorder b't' (codes "x-usecs")
tx-NoBorder c [] x r h = ground arith
tx-NoBorder c (a ∷ []) x r h = ground arith
tx-NoBorder c (a ∷ b ∷ []) x r h = ground arith
tx-NoBorder c (a ∷ b ∷ d ∷ []) x r h = ground arith
tx-NoBorder c (a ∷ b ∷ d ∷ e ∷ []) x r h = ground arith
tx-NoBorder c (a ∷ b ∷ d ∷ e ∷ f ∷ []) x r h = ground arith
tx-NoBorder c (a ∷ b ∷ d ∷ e ∷ f ∷ g ∷ []) x r h = ground arith
tx-NoBorder c (a ∷ b ∷ d ∷ e ∷ f ∷ g ∷ i ∷ fs) x r h = omega arith

-- A number that is shown is read.
reads_number :
    (k : ℕ) (ks : Text)
    → NoBorder k ks
    → (output : Text) (v : ℤ) → ShowsNumber output (k ∷ ks) v
    → parse_ethtool_int output (k ∷ ks) ≡ some v
unfolding parse_ethtool_int
reads_number k ks border output v s =
    let x : Text = b':' ∷ (32 ∷ (decimal v ++ (10 ∷ s.rest))) in
    ap number_behind (
      ap (find_key key_ends (k ∷ ks) 0) s.is_there
      ∙ find_behind k ks key_ends x border refl s.front 0 (omega arith) (absent x s.is_there))
    ∙ number_at-decimal v (10 ∷ s.rest) refl
  where
    absent :
        (x : Text)
        → output ≡ s.front ++ ((k ∷ ks) ++ x)
        → (a r : Text) → s.front ++ ((k ∷ ks) ++ x) ≡ a ++ ((k ∷ ks) ++ r)
        → length a < length s.front
        → key_ends r ≡ false
    absent x i a [] e l = refl
    absent x i a (c ∷ r) e l = s.is_first a r c (i ∙ e) l

pub reads_rx :
    (output : Text) (v : ℤ)
    → ShowsNumber output (codes "rx-usecs") v
    → parse_ethtool_int output (codes "rx-usecs") ≡ some v
reads_rx = reads_number b'r' (codes "x-usecs") rx-NoBorder

pub reads_tx :
    (output : Text) (v : ℤ)
    → ShowsNumber output (codes "tx-usecs") v
    → parse_ethtool_int output (codes "tx-usecs") ≡ some v
reads_tx = reads_number b't' (codes "x-usecs") tx-NoBorder

find_flag :
    (key x f : Text)
    → ((a r : Text) → f ++ (key ++ x) ≡ a ++ (key ++ r) → length a < length f → ⊥)
    → (k : ℕ) (ks : Text) → key ≡ k ∷ ks
    → find_key (λ r. true) key 0 (f ++ (key ++ x)) ≡ some x
unfolding find_key
find_flag key x [] h k ks q =
    subst (λ (u : Text). find_key (λ r. true) u 0 (u ++ x) ≡ some x) (sym q)
      (rw (find_key, after_front (k ∷ ks) x) refl)
find_flag key x (c ∷ f) h k ks q = elim (Option-cases (after key (c ∷ (f ++ (key ++ x))))) [
  | inl e ↦
      rw (find_key, e)
        (find_flag key x f (λ a r p l. h (c ∷ a) r (ap (λ (s : Text). c ∷ s) p) (omega arith)) k ks
          q)
  | inr (r, e) ↦ absurd (h [] r (after_splits key _ r e) (omega arith))
]

-- A flag that is shown is read.
pub reads_flag :
    (k : ℕ) (ks output : Text) (v : Bool)
    → ShowsFlag output (k ∷ ks) v
    → parse_ethtool_bool output (k ∷ ks) ≡ some v
unfolding parse_ethtool_bool
reads_flag k ks output v s =
    let x : Text = b':' ∷ (32 ∷ (on_off v ++ (10 ∷ s.rest))) in
    let found : find_key (λ r. true) (k ∷ ks) 0 output ≡ some x =
      ap (find_key (λ r. true) (k ∷ ks) 0) s.is_there
      ∙ find_flag (k ∷ ks) x s.front (λ a r e l. s.is_first a r (s.is_there ∙ e) l) k ks refl in
    rw (parse_ethtool_bool, found) (says v s.rest)
  where
    says :
        (v : Bool) (rest : Text)
        → some (says_on (skip is_separator (b':' ∷ (32 ∷ (on_off v ++ (10 ∷ rest)))))) ≡ some v
    says true rest = refl
    says false rest = refl

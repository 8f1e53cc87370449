-- ===== src/Layout/Fits.antt =====
-- src/layout.c: the array has room for what one step adds, and for what follows it.
use ether_dog.Base.{
  ℕ, Bool, true, false, ◌+◌, ◌≤◌, ◌<◌, ◌≡◌, refl, sym, subst, ◌∙◌, arith, inl, inr, Option, none,
  some, [], ◌∷◌, ◌++◌, length, length-append, Bool-cases,
}
use ether_dog.Config.Types.{PdoEntry, Pdo}
use ether_dog.Layout.Build.{Layout, Direction, SoemSlave, add_entry, is_padding, published}

-- A layout is returned in which `n` more entries than in `l` stand at most, and the same array.
pub record Fits (n : ℕ) (l : Layout) (o : Option Layout) : Type 0 where
  pub layout : Layout
  pub is_result : o ≡ some layout
  pub has_capacity : layout.entry_capacity ≡ l.entry_capacity
  pub is_within : length layout.entries ≤ length l.entries + n

abbrev pub is_some : Option SoemSlave → Bool
is_some none = false
is_some (some s) = true

abbrev pub layout_of : Option (ℕ × Layout) → Option Layout
layout_of none = none
layout_of (some (b, l)) = some l

pub add_entry-Fits :
    (d : Direction) (pdo : Pdo) (e : PdoEntry) (bit : ℕ) (l : Layout)
    → length l.entries < l.entry_capacity
    → Fits 1 l (layout_of (add_entry d pdo e bit l))
unfolding add_entry
add_entry-Fits d pdo e bit l h = elim (Bool-cases (is_padding e)) [
  | inl p ↦ record {
    layout = l;
    is_result = ground arith;
    has_capacity = refl;
    is_within = omega arith;
  }
  | inr p ↦ record {
    layout = record l { entries = l.entries ++ (published d pdo e bit ∷ []) };
    is_result = ground arith;
    has_capacity = refl;
    is_within = omega (arith, length-append l.entries (published d pdo e bit ∷ []));
  }
]

Fits-trans :
    (m n : ℕ) (l : Layout) (l' : Layout) (o : Option Layout)
    → l'.entry_capacity ≡ l.entry_capacity
    → length l'.entries ≤ length l.entries + m
    → Fits n l' o
    → Fits (m + n) l o
Fits-trans m n l l' o c w x = record {
  layout = x.layout;
  is_result = x.is_result;
  has_capacity = x.has_capacity ∙ c;
  is_within = ground arith;
}

pub some_inj : {A : Type 0} (a b : A) → some a ≡ some b → a ≡ b
some_inj a b h = cc

-- The next step of a walk, after one that fits.
Fits-then :
    (m n : ℕ) (l l' : Layout) (o o' : Option Layout)
    → Fits m l o
    → o ≡ some l'
    → Fits n l' o'
    → Fits (m + n) l o'
Fits-then m n l l' o o' x e y =
    let same : x.layout ≡ l' = some_inj x.layout l' (sym x.is_result ∙ e) in
    Fits-trans m n l l' o'
      (subst (λ (k : Layout). k.entry_capacity ≡ l.entry_capacity) same x.has_capacity)
      (subst (λ (k : Layout). length k.entries ≤ length l.entries + m) same x.is_within) y

no_result : (n : ℕ) (l : Layout) (o : Option Layout) → Fits n l o → o ≡ none → ⊥
no_result n l o x e = none_some x.layout (sym e ∙ x.is_result)
  where
    none_some : (k : Layout) → none ≡ some k → ⊥
    none_some k h = cc

capacity_left :
    (m n : ℕ) (l l' : Layout) (o : Option Layout)
    → Fits m l o
    → o ≡ some l'
    → length l.entries + (m + n) ≤ l.entry_capacity
    → length l'.entries + n ≤ l'.entry_capacity
capacity_left m n l l' o x e h =
    let same : x.layout ≡ l' = some_inj x.layout l' (sym x.is_result ∙ e) in
    subst (λ (k : Layout). length k.entries + n ≤ k.entry_capacity) same
      (room x.layout x.has_capacity x.is_within)
  where
    room :
        (k : Layout)
        → k.entry_capacity ≡ l.entry_capacity
        → length k.entries ≤ length l.entries + m
        → length k.entries + n ≤ k.entry_capacity
    room k c w = ground arith

pub Fits-here : (l : Layout) → Fits 0 l (some l)
Fits-here l = record { layout = l; is_result = refl; has_capacity = refl; is_within = omega arith }

-- A step, and what follows where it returns a layout.
pub Fits-bind :
    (m n : ℕ) (l : Layout) (o : Option Layout) (k : Layout → Option Layout)
    → Fits m l o
    → length l.entries + (m + n) ≤ l.entry_capacity
    → ((l' : Layout) → o ≡ some l' → length l'.entries + n ≤ l'.entry_capacity → Fits n l' (k l'))
    → Fits (m + n) l (elim o [ none ↦ none | some l' ↦ k l' ])
Fits-bind m n l none k x h f = absurd (no_result m l none x refl)
Fits-bind m n l (some l') k x h f =
    Fits-then m n l l' (some l') (k l') x refl
      (f l' refl (capacity_left m n l l' (some l') x refl h))

-- The same where the step returns a bit as well.
pub Fits-bind_bit :
    (m n : ℕ) (l : Layout) (o : Option (ℕ × Layout)) (k : ℕ → Layout → Option Layout)
    → Fits m l (layout_of o)
    → length l.entries + (m + n) ≤ l.entry_capacity
    → ((b : ℕ) (l' : Layout) → length l'.entries + n ≤ l'.entry_capacity → Fits n l' (k b l'))
    → Fits (m + n) l (elim o [ none ↦ none | some (b, l') ↦ k b l' ])
Fits-bind_bit m n l none k x h f = absurd (no_result m l none x refl)
Fits-bind_bit m n l (some (b, l')) k x h f =
    Fits-then m n l l' (some l') (k b l') x refl
      (f b l' (capacity_left m n l l' (some l') x refl h))

pub layout_of-bind :
    (o : Option (ℕ × Layout)) (k : ℕ → Layout → Option (ℕ × Layout))
    → elim o [ none ↦ none | some (b, l') ↦ layout_of (k b l') ]
      ≡ layout_of (elim o [ none ↦ none | some (b, l') ↦ k b l' ])
layout_of-bind none k = refl
layout_of-bind (some (b, l')) k = refl

pub Fits-at :
    (m n : ℕ) (l : Layout) (o o' : Option Layout) → m ≡ n → o ≡ o' → Fits m l o → Fits n l o'
Fits-at m n l o o' p q x =
    subst (λ (k : ℕ). Fits k l o') p (subst (λ (r : Option Layout). Fits m l r) q x)

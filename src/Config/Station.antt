-- ===== src/Config/Station.antt =====
-- src/config.c: a station that `validate_station` accepts obeys the slot rules.
use ether_dog.Base.{
  ℕ, zero, suc, Bool, true, false, ◌||◌, ◌&&◌, ◌+◌, ◌≤◌, ◌<◌, ◌≡◌, refl, sym, arith, inl, inr, ap,
  leb, Option, none, some, List, [], ◌∷◌, Bool-cases, Option-cases, subst, ◌∙◌,
}
use ether_dog.Config.Types.{SlotDef, Module, ok}
use ether_dog.Config.Relations.{Covers, covered, next, put, has_bounds, station, module_at}
use ether_dog.Config.Validate.{
  refuses, advance, place_slot, place_slots, next_module, has_minimums, rising, check_minimums,
}

module_at-none :
    (slot q : ℕ) (ms : List Module) → rising q ms ≡ true → slot ≤ q → module_at slot ms ≡ none
unfolding module_at
module_at-none slot q [] r h = refl
module_at-none slot q (m ∷ ms) r h = ground (arith, module_at-none slot m.slot ms)

-- The next module, where its slot has come, is the one that the list has for the slot.
next_module-module_at :
    (slot p : ℕ) (ms : List Module)
    → rising p ms ≡ true
    → slot ≡ p + 1
    → (next_module slot ms).0 ≡ module_at slot ms
unfolding next_module module_at
next_module-module_at slot p [] r h = refl
next_module-module_at slot p (m ∷ ms) r h = ground (arith, module_at-none slot m.slot ms)

next_module-rising :
    (slot p : ℕ) (ms : List Module)
    → rising p ms ≡ true
    → slot ≡ p + 1
    → rising slot (next_module slot ms).1 ≡ true
unfolding next_module
next_module-rising slot p [] r h = refl
next_module-rising slot p (m ∷ ms) r h = ground arith

station_past :
    (n slot : ℕ) (m : Module) (ms : List Module)
    → m.slot < slot
    → station n slot (m ∷ ms) ≡ station n slot ms
unfolding station module_at
station_past zero slot m ms h = refl
station_past (suc n) slot m ms h = ground (arith, station_past n (slot + 1) m ms)

next_module-station :
    (n slot p : ℕ) (ms : List Module)
    → rising p ms ≡ true
    → slot ≡ p + 1
    → station n (slot + 1) (next_module slot ms).1 ≡ station n (slot + 1) ms
unfolding next_module
next_module-station n slot p [] r h = refl
next_module-station n slot p (m ∷ ms) r h = ground (arith, station_past n (slot + 1) m ms)

-- Whether the loop passes a definition.
abbrev passes : Option Module → SlotDef → ℕ → Bool
passes m def count = leb def.max_instances count || (refuses def m && leb def.min_instances count)

advance_pass :
    (m : Option Module) (def : SlotDef) (defs : List SlotDef) (count : ℕ)
    → passes m def count ≡ true
    → advance m (def ∷ defs) count ≡ advance m defs 0
unfolding advance
advance_pass m def defs count h = ground arith

place_slot_stop :
    (m : Option Module) (def : SlotDef) (defs : List SlotDef) (count : ℕ) (s : List SlotDef × ℕ)
    → passes m def count ≡ false
    → place_slot m (advance m (def ∷ defs) count) ≡ some s
    → (count < def.max_instances) × (refuses def m ≡ false) × ((def ∷ defs, count + 1) ≡ s)
unfolding advance place_slot
place_slot_stop m def defs count s h e = ground arith

passes-minimum :
    (m : Option Module) (def : SlotDef) (defs : List SlotDef) (count : ℕ)
    → has_bounds (def ∷ defs) ≡ true
    → passes m def count ≡ true
    → def.min_instances ≤ count
passes-minimum m def defs count b h = ground arith

no_definition :
    (m : Option Module) (count : ℕ) (s : List SlotDef × ℕ)
    → place_slot m (advance m [] count) ≡ some s
    → ⊥
unfolding advance place_slot
no_definition m count s e = ground arith

-- One slot: the definitions that the loop passes have their minimum, and the one it stops at takes
-- the slot.
place_slot-Covers :
    (m : Option Module) (defs : List SlotDef) (count : ℕ) (s : List SlotDef × ℕ)
    (xs : List (Option Module))
    → has_bounds defs ≡ true
    → place_slot m (advance m defs count) ≡ some s
    → (has_bounds s.0 ≡ true) × (Covers s.1 s.0 xs → Covers count defs (m ∷ xs))
place_slot-Covers m [] count s xs b e = absurd (no_definition m count s e)
place_slot-Covers m (def ∷ defs) count s xs b e = elim (Bool-cases (passes m def count)) [
  | inl h ↦
      let (b', f) =
        place_slot-Covers m defs 0 s xs (ground arith)
          (sym (ap (place_slot m) (advance_pass m def defs count h)) ∙ e) in
      (b', λ c. next (passes-minimum m def defs count b h) (f c))
  | inr h ↦
      let (lt', accepted, e') = place_slot_stop m def defs count s h e in
      (
        subst (λ (t : List SlotDef × ℕ). has_bounds t.0 ≡ true) e' b,
        λ c. put lt' accepted (subst (λ (t : List SlotDef × ℕ). Covers t.1 t.0 xs) (sym e') c),
      )
]

has_minimums-Covers :
    (defs : List SlotDef) (count : ℕ) → has_minimums defs count ≡ true → Covers count defs []
has_minimums-Covers [] count h = covered
has_minimums-Covers (def ∷ defs) count h =
    next (ground arith) (has_minimums-Covers defs 0 (ground arith))

pub place_slots-Covers :
    (n slot p : ℕ) (ms : List Module) (defs : List SlotDef) (count : ℕ)
    → has_bounds defs ≡ true
    → rising p ms ≡ true
    → slot ≡ p + 1
    → check_minimums (place_slots n slot ms (defs, count)) ≡ ok
    → Covers count defs (station n slot ms)
unfolding place_slots check_minimums station
place_slots-Covers zero slot p ms defs count b r h e = has_minimums-Covers defs count (ground arith)
place_slots-Covers (suc n) slot p ms defs count b r h e =
    elim (Option-cases (place_slot m (advance m defs count))) [
      | inl none' ↦ absurd (ground arith)
      | inr (s, some') ↦
          let (b', f) = place_slot-Covers m defs count s rest' b some' in
          subst (λ (x : Option Module). Covers count defs (x ∷ rest'))
            (next_module-module_at slot p ms r h)
            (f (
              subst (λ (xs : List (Option Module)). Covers s.1 s.0 xs)
                (next_module-station n slot p ms r h)
                (place_slots-Covers n (slot + 1) slot (next_module slot ms).1 s.0 s.1 b'
                  (next_module-rising slot p ms r h) refl (placed s some'))))
    ]
  where
    m : Option Module
    m = (next_module slot ms).0

    rest' : List (Option Module)
    rest' = station n (slot + 1) ms

    placed :
        (s : List SlotDef × ℕ)
        → place_slot m (advance m defs count) ≡ some s
        → check_minimums (place_slots n (slot + 1) (next_module slot ms).1 (s.0, s.1)) ≡ ok
    placed s some' = ground arith

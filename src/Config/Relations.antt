-- ===== src/Config/Relations.antt =====
-- What src/config.c means a station and a list of PDOs to be, said without its loops.
use ether_dog.Base.{
  ℕ, zero, suc, Bool, true, false, ◌&&◌, ◌+◌, ◌≤◌, ◌<◌, ◌≡◌, leb, ◌==◌, if◌then◌else◌, Option, none,
  some, List, [], ◌∷◌,
}
use ether_dog.Config.Types.{SlotDef, Module}
use ether_dog.Config.Validate.{refuses}

-- The module of the list in a slot.
unfoldable pub module_at : ℕ → List Module → Option Module
module_at slot [] = none
module_at slot (m ∷ ms) = if m.slot == slot then some m else module_at slot ms

-- What stands in the `n` slots from `slot` on.
unfoldable pub station : ℕ → ℕ → List Module → List (Option Module)
unfolding module_at
station zero slot ms = []
station (suc n) slot ms = module_at slot ms ∷ station n (slot + 1) ms

-- The slots fill the definitions in order, each with a number of slots within its bounds and with
-- modules that it accepts. The current definition already has `n` slots.
pub data Covers : ℕ → List SlotDef → List (Option Module) → Type 0 where
  covered : {n : ℕ} → Covers n [] []
  next :
      {n : ℕ} {def : SlotDef} {defs : List SlotDef} {xs : List (Option Module)}
      → def.min_instances ≤ n
      → Covers 0 defs xs
      → Covers n (def ∷ defs) xs
  put :
      {n : ℕ} {def : SlotDef} {defs : List SlotDef} {x : Option Module} {xs : List (Option Module)}
      → n < def.max_instances
      → refuses def x ≡ false
      → Covers (n + 1) (def ∷ defs) xs
      → Covers n (def ∷ defs) (x ∷ xs)

-- The bounds that the parser requires of each definition.
abbrev pub has_bounds : List SlotDef → Bool
has_bounds [] = true
has_bounds (def ∷ defs) =
    leb 1 def.max_instances && leb def.min_instances def.max_instances && has_bounds defs

pub data Mem : ℕ → List ℕ → Type 0 where
  here : {v : ℕ} {vs : List ℕ} → Mem v (v ∷ vs)
  there : {v w : ℕ} {vs : List ℕ} → Mem v vs → Mem v (w ∷ vs)

pub data Distinct : List ℕ → Type 0 where
  empty : Distinct []
  apart : {v : ℕ} {vs : List ℕ} → (Mem v vs → ⊥) → Distinct vs → Distinct (v ∷ vs)

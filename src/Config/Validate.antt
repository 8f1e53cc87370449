-- ===== src/Config/Validate.antt =====
-- src/config.c: the validation of a configuration, from the hex numbers of its indices up.
use ether_dog.Base.{
  ℕ, zero, suc, Bool, true, false, not, ◌||◌, ◌&&◌, ◌%◌, ◌+◌, ◌-◌, ◌*◌, ◌^◌, leb, ltb, ◌==◌,
  if◌then◌else◌, Option, none, some, List, [], ◌∷◌, ◌++◌, map, length,
}
use ether_dog.Base.Int.{ℤ, pos, leb_ℤ, ltb_ℤ}
use ether_dog.Dgram.{equal_bytes}
use ether_dog.Config.Types.{Status, ok, err_invalid, Pdo, SlotDef, Module, Modular, Slave, Config}

-- `a == b` on ints
abbrev pub equal_ints : ℤ → ℤ → Bool
equal_ints a b = leb_ℤ a b && leb_ℤ b a

-- The value of a digit by `isxdigit` and `tolower`.
unfoldable pub hex_digit : ℕ → Option ℕ
hex_digit c =
    if leb 48 c && leb c 57
    then some (c - 48)
    else if leb 97 c && leb c 102
    then some (c - 87)
    else if leb 65 c && leb c 70
    then some (c - 55)
    else none

-- The digit loop of `parse_hex_u32`: `v << 4` on a uint32_t. The digit is below 16, so the `|` is a sum.
unfoldable pub hex_value : ℕ → List ℕ → Option ℕ
unfolding hex_digit
hex_value v [] = some v
hex_value v (c ∷ cs) = elim (hex_digit c) [
  | none ↦ none
  | some d ↦ hex_value ((v * 16) % 2 ^ 32 + d) cs
]

-- The prefix "0x", "0X", "#x" or "#X".
abbrev pub hex_prefix : ℕ → ℕ → Bool
hex_prefix a b = ((a == b'0') || (a == b'#')) && ((b == b'x') || (b == b'X'))

-- `parse_hex_u32`; `none` is the result -1.
unfoldable pub parse_hex_u32 : List ℕ → Option ℕ
unfolding hex_value
parse_hex_u32 (a ∷ b ∷ digits) =
    if not (hex_prefix a b)
    then none
    else if (length digits == 0) || ltb 8 (length digits)
    then none
    else hex_value 0 digits
parse_hex_u32 s = none

unfoldable pub pdo_index_value : List ℕ → ℕ
unfolding parse_hex_u32
pdo_index_value index = elim (parse_hex_u32 index) [ none ↦ 0 | some v ↦ v ]

abbrev pub contains : ℕ → List ℕ → Bool
contains v [] = false
contains v (w ∷ ws) = (v == w) || contains v ws

abbrev pub has_repeat : List ℕ → Bool
has_repeat [] = false
has_repeat (v ∷ vs) = contains v vs || has_repeat vs

abbrev pub contains_all : List ℕ → List ℕ → Bool
contains_all [] vs = true
contains_all (w ∷ ws) vs = contains w vs && contains_all ws vs

-- The index values of the PDOs of a slave, the outputs first.
unfoldable pub pdo_values : Slave → List ℕ
unfolding pdo_index_value
pdo_values slave = map (λ (p : Pdo). pdo_index_value (p.index)) (slave.rx_pdos ++ slave.tx_pdos)

unfoldable pub mandatory_values : Slave → List ℕ
unfolding pdo_index_value
mandatory_values slave = map pdo_index_value slave.mandatory_pdos

-- `validate_pdos`
unfoldable pub validate_pdos : Slave → Status
validate_pdos slave =
    if has_repeat (pdo_values slave)
    then err_invalid
    else if not (contains_all (mandatory_values slave) (pdo_values slave))
    then err_invalid
    else ok

abbrev pub contains_name : List ℕ → List (List ℕ) → Bool
contains_name s [] = false
contains_name s (t ∷ ts) = equal_bytes t s || contains_name s ts

-- `slot_accepts`
unfoldable pub slot_accepts : SlotDef → Module → Bool
slot_accepts def mod' =
    if (length def.classes == 0) && (length def.idents == 0)
    then true
    else if contains mod'.ident def.idents
    then true
    else if length mod'.class_name == 0
    then false
    else contains_name mod'.class_name def.classes

-- Modules in rising slot order, from `last` on.
abbrev pub rising : ℕ → List Module → Bool
rising last [] = true
rising last (m ∷ ms) = ltb last m.slot && rising m.slot ms

-- The slot of the last module.
abbrev pub last_slot : ℕ → List Module → ℕ
last_slot last [] = last
last_slot last (m ∷ ms) = last_slot m.slot ms

-- `mod != NULL && !slot_accepts(...)`
abbrev pub refuses : SlotDef → Option Module → Bool
refuses def none = false
refuses def (some m) = not (slot_accepts def m)

-- The while loop: the definitions left from the current one on, and its count.
unfoldable pub advance : Option Module → List SlotDef → ℕ → List SlotDef × ℕ
advance m [] count = ([], count)
advance m (def ∷ defs) count =
    if leb def.max_instances count || (refuses def m && leb def.min_instances count)
    then advance m defs 0
    else (def ∷ defs, count)

-- The rest of the loop's body for one slot.
unfoldable pub place_slot : Option Module → List SlotDef × ℕ → Option (List SlotDef × ℕ)
place_slot m ([], count) = none
place_slot m (def ∷ defs, count) = if refuses def m then none else some (def ∷ defs, count + 1)

-- The module at the slot, where it is the next one, and the modules after it.
unfoldable pub next_module : ℕ → List Module → Option Module × List Module
next_module slot [] = (none, [])
next_module slot (m ∷ ms) = if m.slot == slot then (some m, ms) else (none, m ∷ ms)

-- The loop over the slots, with `n` of them left.
unfoldable pub place_slots : ℕ → ℕ → List Module → List SlotDef × ℕ → Option (List SlotDef × ℕ)
unfolding next_module advance place_slot
place_slots zero slot ms s = some s
place_slots (suc n) slot ms (defs, count) =
    let (m, ms') = next_module slot ms in
    elim (place_slot m (advance m defs count)) [
      | none ↦ none
      | some s ↦ place_slots n (slot + 1) ms' s
    ]

-- The last loop: every definition from the current one on has its minimum.
abbrev pub has_minimums : List SlotDef → ℕ → Bool
has_minimums [] count = true
has_minimums (def ∷ defs) count = leb def.min_instances count && has_minimums defs 0

unfoldable pub check_minimums : Option (List SlotDef × ℕ) → Status
check_minimums none = err_invalid
check_minimums (some (defs, count)) = if has_minimums defs count then ok else err_invalid

-- `validate_station`
unfoldable pub validate_station : Modular → Status
unfolding check_minimums place_slots
validate_station m =
    if (length m.slots == 0) && (length m.modules == 0)
    then ok
    else if not m.present || (length m.slots == 0)
    then err_invalid
    else if not (rising 0 m.modules)
    then err_invalid
    else check_minimums (place_slots (last_slot 0 m.modules) 1 m.modules (m.slots, 0))

abbrev pub shares_position : ℤ → List Slave → Bool
shares_position p [] = false
shares_position p (s ∷ ss) = equal_ints p s.position || shares_position p ss

-- The checks of one slave, with the slaves after it.
unfoldable pub validate_slave : Slave → List Slave → Status
unfolding validate_pdos validate_station
validate_slave s ss =
    if ltb_ℤ s.position (pos 1) || (s.vendor_id == 0) || (s.product_code == 0)
    then err_invalid
    else if shares_position s.position ss
    then err_invalid
    else elim (validate_pdos s) [ err_invalid ↦ err_invalid | ok ↦ validate_station s.modular ]

unfoldable pub validate_slaves : List Slave → Status
unfolding validate_slave
validate_slaves [] = ok
validate_slaves (s ∷ ss) =
    let rest = validate_slaves ss in
    elim (validate_slave s ss) [ err_invalid ↦ err_invalid | ok ↦ rest ]

-- `ecat_config_validate`, on a configuration that is there.
unfoldable pub validate : Config → Status
validate c =
    if length c.interface == 0
    then err_invalid
    else if ltb_ℤ c.cycle_time_us (pos 1) || ltb_ℤ c.receive_timeout_us (pos 1)
    then err_invalid
    else validate_slaves c.slaves

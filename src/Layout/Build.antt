-- ===== src/Layout/Build.antt =====
-- src/layout.c: walking the configured PDOs over the mapping of SOEM. A pointer into the process image
-- is its distance from the image's start, and `none` is NULL.
use ether_dog.Base.{
  ℕ, Bool, true, false, not, ◌||◌, ◌%◌, ◌+◌, ◌-◌, ◌*◌, ◌^◌, leb, ltb, ◌==◌, if◌then◌else◌, Option,
  none, some, List, [], ◌∷◌, ◌++◌, length, get_elem?, suc,
}
use ether_dog.Base.Int.{ℤ, pos}
use ether_dog.Dgram.{equal_bytes}
use ether_dog.Protocol.{frame_max_payload}
use ether_dog.Config.Types.{DataType, dtype_pad, PdoEntry, Pdo, Slave}

-- `ecat_layout_entry_t`
pub record LayoutEntry : Type 0 where
  pub slave_position : ℤ
  pub pdo_index : List ℕ
  pub entry_index : List ℕ
  pub entry_subindex : ℕ
  pub is_output : Bool
  pub bit_offset : ℕ
  pub bit_length : ℕ
  pub data_type : DataType
  pub name : List ℕ

-- `ecat_layout_t`: the entries in use, in order, and the size of the array that holds them.
pub record Layout : Type 0 where
  pub output_bytes : ℕ
  pub input_bytes : ℕ
  pub entries : List LayoutEntry
  pub entry_capacity : ℕ

-- The fields of `ec_slavet` and `ec_groupt` that the walk reads.
pub record SoemSlave : Type 0 where
  pub outputs : Option ℕ
  pub inputs : Option ℕ
  pub o_startbit : ℕ
  pub i_startbit : ℕ

pub record Group : Type 0 where
  pub outputs : Option ℕ
  pub inputs : Option ℕ
  pub o_bytes : ℕ
  pub i_bytes : ℕ

-- `strcmp(s, t) == 0` on the strings "0x0000" and "0x0"
abbrev zero_index : List ℕ
zero_index = b'0' ∷ b'x' ∷ b'0' ∷ []

abbrev zero_index_4 : List ℕ
zero_index_4 = b'0' ∷ b'x' ∷ b'0' ∷ b'0' ∷ b'0' ∷ b'0' ∷ []

abbrev is_pad : DataType → Bool
is_pad dtype_pad = true
is_pad _ = false

unfoldable pub is_padding : PdoEntry → Bool
is_padding entry =
    is_pad entry.parsed_type
    || equal_bytes entry.index zero_index_4
    || equal_bytes entry.index zero_index

-- What the walk of one direction of one slave does not change.
pub record Direction : Type 0 where
  pub position : ℤ
  pub is_output : Bool

abbrev pub published : Direction → Pdo → PdoEntry → ℕ → LayoutEntry
published d pdo entry bit = record {
  slave_position = d.position;
  pdo_index = pdo.index;
  entry_index = entry.index;
  entry_subindex = entry.subindex;
  is_output = d.is_output;
  bit_offset = bit;
  bit_length = entry.bit_length;
  data_type = entry.parsed_type;
  name = entry.name;
}

-- One entry: the layout and the next bit, a uint32_t. `none` is the result -1.
unfoldable pub add_entry : Direction → Pdo → PdoEntry → ℕ → Layout → Option (ℕ × Layout)
unfolding is_padding
add_entry d pdo entry bit l =
    if is_padding entry
    then some (next_bit, l)
    else if leb l.entry_capacity (length l.entries)
    then none
    else some (next_bit, record l { entries = l.entries ++ (published d pdo entry bit ∷ []) })
  where
    next_bit : ℕ
    next_bit = (bit + entry.bit_length) % 2 ^ 32

-- The inner loop of `add_direction`.
unfoldable pub add_entries : Direction → Pdo → List PdoEntry → ℕ → Layout → Option (ℕ × Layout)
unfolding add_entry
add_entries d pdo [] bit l = some (bit, l)
add_entries d pdo (e ∷ es) bit l = elim (add_entry d pdo e bit l) [
  | none ↦ none
  | some (bit', l') ↦ add_entries d pdo es bit' l'
]

-- The outer loop.
unfoldable pub add_pdos : Direction → List Pdo → ℕ → Layout → Option Layout
unfolding add_entries
add_pdos d [] bit l = some l
add_pdos d (p ∷ ps) bit l = elim (add_entries d p p.entries bit l) [
  | none ↦ none
  | some (bit', l') ↦ add_pdos d ps bit' l'
]

-- `(uint32_t)((slave_base - region) * 8) + (uint32_t)start_bit`
unfoldable pub first_bit : ℕ → ℕ → ℕ → ℕ
first_bit slave_base region start_bit =
    (slave_base * 8 + 2 ^ 32 - (region * 8) % 2 ^ 32 + start_bit) % 2 ^ 32

-- `add_direction`, with the pointers and PDOs of its direction.
unfoldable pub add_direction :
    Direction → List Pdo → Option ℕ → Option ℕ → ℕ → Layout → Option Layout
unfolding first_bit
add_direction d [] slave_base region start_bit l = some l
add_direction d (p ∷ ps) none region start_bit l = some l
add_direction d (p ∷ ps) (some b) none start_bit l = some l
add_direction d (p ∷ ps) (some b) (some r) start_bit l =
    add_pdos d (p ∷ ps) (first_bit b r start_bit) l

abbrev pub count_entries : List Pdo → ℕ
count_entries [] = 0
count_entries (p ∷ ps) = length p.entries + count_entries ps

-- `count_layout_max`. The sum stays in an int on a configuration that fits in memory.
unfoldable pub count_layout_max : List Slave → ℕ
count_layout_max [] = 0
count_layout_max (s ∷ ss) = count_entries s.rx_pdos + count_entries s.tx_pdos + count_layout_max ss

-- `ecat_layout_destroy`
abbrev pub destroy : Layout
destroy = record { output_bytes = 0; input_bytes = 0; entries = []; entry_capacity = 0 }

-- `ecat_layout_init`; `memory` tells whether the allocation succeeds.
unfoldable pub layout_init : Bool → ℕ → Option Layout
layout_init memory capacity =
    if capacity == 0
    then some destroy
    else if not memory
    then none
    else some (record destroy { entry_capacity = capacity })

-- Both directions of one slave.
unfoldable pub add_slave : Group → Slave → SoemSlave → Layout → Option Layout
unfolding add_direction
add_slave g cfg soem l =
    let out : Direction = record { position = cfg.position; is_output = true } in
    let inp : Direction = record { position = cfg.position; is_output = false } in
    elim (add_direction out cfg.rx_pdos soem.outputs g.outputs soem.o_startbit l) [
      | none ↦ none
      | some l' ↦ add_direction inp cfg.tx_pdos soem.inputs g.inputs soem.i_startbit l'
    ]

-- `ecat_master_get_slave` of src/master.c: the slaves that SOEM found, in order of position from 1.
unfoldable pub get_slave : List SoemSlave → ℤ → Option SoemSlave
get_slave bus (pos (suc i)) = get_elem? bus i
get_slave bus _ = none

-- The loop over the slaves.
unfoldable pub add_slaves : List SoemSlave → Group → List Slave → Layout → Option Layout
unfolding add_slave get_slave
add_slaves bus g [] l = some l
add_slaves bus g (s ∷ ss) l = elim (get_slave bus s.position) [
  | none ↦ none
  | some soem ↦ elim (add_slave g s soem l) [ none ↦ none | some l' ↦ add_slaves bus g ss l' ]
]

-- `ecat_layout_build`: the layout, where the result is 0.
unfoldable pub build : List SoemSlave → Bool → Bool → Group → List Slave → Option Layout
unfolding add_slaves layout_init count_layout_max
build bus memory soem_initialized g slaves = elim (layout_init memory (count_layout_max slaves)) [
  | none ↦ none
  | some l ↦
      if not soem_initialized
      then none
      else if ltb frame_max_payload g.o_bytes || ltb frame_max_payload g.i_bytes
      then none
      else add_slaves bus g slaves (record l { output_bytes = g.o_bytes; input_bytes = g.i_bytes })
]

-- ===== src/Layout/Tests.antt =====
-- Runs of the layout on one slave.
use ether_dog.Config.Defaults.{default_settings, no_modular}
use ether_dog.Base.{true, false, ◌≤◌, ◌≡◌, refl, arith, none, some, List, [], ◌∷◌, length}
use ether_dog.Base.Int.{pos}
use ether_dog.Config.Types.{Pdo, Slave, dtype_bool, dtype_pad, dtype_uint16}
use ether_dog.Dgram.{equal_bytes}
use ether_dog.Layout.Build.{
  Layout, LayoutEntry, Direction, Group, SoemSlave, add_pdos, build, count_layout_max, get_slave,
}
use ether_dog.Layout.Offsets.{Extends, add_pdos-Extends}
use ether_dog.Layout.Capacity.{build-returns}

-- A bit, seven bits of padding, and a word, at "0x6000".
abbrev pdo : Pdo
pdo = record {
  name = [];
  fixed = false;
  index = 49 ∷ [];
  entries =
      record { index = 54 ∷ []; subindex = 1; bit_length = 1; name = []; parsed_type = dtype_bool }
      ∷ record { index = 54 ∷ []; subindex = 0; bit_length = 7; name = []; parsed_type = dtype_pad }
      ∷ record {
        index = 54 ∷ [];
        subindex = 2;
        bit_length = 16;
        name = [];
        parsed_type = dtype_uint16;
      }
      ∷ [];
}

abbrev slave : Slave
slave = record {
  name = [];
  type' = [];
  revision = 0;
  channels = [];
  sdo_configs = [];
  settings = default_settings;
  position = pos 1;
  vendor_id = 2;
  product_code = 3;
  rx_pdos = pdo ∷ [];
  tx_pdos = [];
  mandatory_pdos = [];
  modular = no_modular;
}

abbrev outputs : Direction
outputs = record { position = pos 1; is_output = true }

abbrev empty : Layout
empty = record { output_bytes = 3; input_bytes = 0; entries = []; entry_capacity = 3 }

abbrev bit_entry : LayoutEntry
bit_entry = record {
  slave_position = pos 1;
  pdo_index = 49 ∷ [];
  entry_index = 54 ∷ [];
  entry_subindex = 1;
  is_output = true;
  bit_offset = 0;
  bit_length = 1;
  data_type = dtype_bool;
  name = [];
}

-- The padding is left out, and the word starts at bit 8.
abbrev full : Layout
full = record empty {
  entries =
      bit_entry
      ∷ record bit_entry {
        entry_subindex = 2;
        bit_offset = 8;
        bit_length = 16;
        data_type = dtype_uint16;
      }
      ∷ [];
}

pdo_added : add_pdos outputs (pdo ∷ []) 0 empty ≡ some full
unfolding add_pdos equal_bytes
pdo_added = refl

add_pdos-Extends_example : Extends outputs (pdo ∷ []) 0 empty full
add_pdos-Extends_example = add_pdos-Extends outputs (pdo ∷ []) 0 empty full pdo_added (omega arith)

abbrev bus : List SoemSlave
bus = record { outputs = some 0; inputs = none; o_startbit = 0; i_startbit = 0 } ∷ []

abbrev group : Group
group = record { outputs = some 0; inputs = none; o_bytes = 3; i_bytes = 0 }

build-returns_example :
    (l : Layout) × (build bus true true group (slave ∷ []) ≡ some l)
    × (length l.entries ≤ count_layout_max (slave ∷ []))
unfolding get_slave
build-returns_example = build-returns bus group (slave ∷ []) (omega arith) (omega arith) refl

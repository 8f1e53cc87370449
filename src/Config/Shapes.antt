-- ===== src/Config/Shapes.antt =====
-- src/config.c: the shape of a slave that the parser gives.
use ether_dog.Base.{ℕ, Bool, true, false, ◌≡◌, ◌≤◌, ◌<◌, Option, none, some, List}
use ether_dog.Base.Results.{All}
use ether_dog.Config.Types.{Module, Modular, Pdo, PdoEntry, Sdo, Slave}
use ether_dog.Config.Relations.{has_bounds}
use ether_dog.Config.Sdo.{sdo_value_in_range, refuses_type}
use ether_dog.Config.Pdos.{is_hex16}

-- The index of an entry is a hex number up to 0xFFFF.
pub record IsEntry (e : PdoEntry) : Type 0 where
  pub index : is_hex16 0 e.index ≡ true
  pub bit_length : e.bit_length < 256

-- The index of a PDO is a hex number from 1 to 0xFFFF.
pub record IsPdo (p : Pdo) : Type 0 where
  pub index : is_hex16 1 p.index ≡ true
  pub entries : All IsEntry p.entries

abbrev pub has_bytes : Option (List ℕ) → Bool
has_bytes none = false
has_bytes (some bs) = true

-- The index is a hex number from 1 to 0xFFFF, the data type goes with the kind of payload, and a number is in the range of the type.
pub record IsSdo (s : Sdo) : Type 0 where
  pub index : is_hex16 1 s.index ≡ true
  pub subindex : s.subindex ≤ 255
  pub type' : refuses_type s.parsed_type (has_bytes s.value_bytes) ≡ false
  pub value : s.value_bytes ≡ none → sdo_value_in_range s.parsed_type s.value ≡ true

pub record IsModular (m : Modular) : Type 0 where
  pub increment : m.slot_index_increment ≤ 4095
  pub bounds : has_bounds m.slots ≡ true
  pub slots : All (λ (x : Module). 1 ≤ x.slot) m.modules

pub record IsParsed (s : Slave) : Type 0 where
  pub sdos : All IsSdo s.sdo_configs
  pub rx_pdos : All IsPdo s.rx_pdos
  pub tx_pdos : All IsPdo s.tx_pdos
  pub modular : IsModular s.modular

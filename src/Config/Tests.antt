-- ===== src/Config/Tests.antt =====
-- Runs of the validation.
use ether_dog.Config.Host.{codes}
use ether_dog.Config.Parse.{NamedConfig, parse_all, has_shared_interface}
use ether_dog.Config.Types.{Sdo, dtype_int8, dtype_unknown, Config, Modular, ok, Slave}
use ether_dog.Config.Doubles.{finite}
use ether_dog.Config.Sdo.{payload}
use ether_dog.Config.Pdos.{parse_mandatory_pdo}
use ether_dog.Config.Loaded.{parse_pair, ethercat_entries, parse_all_iff}
use ether_dog.Config.Masters.{IsLoaded, parse_all-IsLoaded, parse_all-Covers}
use ether_dog.Config.Text.{print_bytes, payload-print_bytes, parse_mandatory_pdo-value}
use ether_dog.Config.Sample.{host, document, elements, read_hex, Json}
use ether_dog.Config.Validate.{pdo_index_value}
use ether_dog.Base.Results.{All, all_more, all_none, success, each, ◌>>=◌}
use ether_dog.Config.Validate.{pdo_index_value}
use ether_dog.Config.Defaults.{default_settings, init_defaults}
use ether_dog.Config.Whole.{IsAccepted, validate-IsAccepted}
use ether_dog.Base.{none, ◌≤◌, false, get_elem?, ℕ, true, ◌<◌, ◌≡◌, ◌↔◌, refl, arith, some, [], ◌∷◌}
use ether_dog.Base.Int.{pos}
use ether_dog.Config.Validate.{
  pdo_index_value, validate_slaves, validate, equal_ints, validate_station, validate_pdos,
  parse_hex_u32, pdo_values, mandatory_values, last_slot, slot_accepts,
}
use ether_dog.Config.Relations.{Covers, station}

-- A coupler with one or two modules of ident 17, and then any number up to four of others.
abbrev coupler : Modular
coupler = record {
  present = true;
  slot_index_increment = 16;
  slots =
      record { min_instances = 1; max_instances = 2; classes = []; idents = 17 ∷ [] }
      ∷ record { min_instances = 0; max_instances = 4; classes = []; idents = [] }
      ∷ [];
  modules =
      record { slot = 1; ident = 17; class_name = [] }
      ∷ record { slot = 3; ident = 40; class_name = [] }
      ∷ [];
}

coupler_valid : validate_station coupler ≡ ok
unfolding validate_station slot_accepts
coupler_valid = refl

-- "0x1A00" and "0x1A01"
abbrev drive : Slave
drive = record {
  position = pos 1;
  name = [];
  type' = [];
  revision = 0;
  channels = [];
  sdo_configs = [];
  settings = default_settings;
  vendor_id = 2;
  product_code = 3;
  rx_pdos =
      record { index = 48 ∷ 120 ∷ 49 ∷ 65 ∷ 48 ∷ 48 ∷ []; entries = []; name = []; fixed = false }
      ∷ [];
  tx_pdos =
      record { index = 48 ∷ 120 ∷ 49 ∷ 65 ∷ 48 ∷ 49 ∷ []; entries = []; name = []; fixed = false }
      ∷ [];
  mandatory_pdos = (48 ∷ 120 ∷ 49 ∷ 65 ∷ 48 ∷ 49 ∷ []) ∷ [];
  modular = coupler;
}

-- "0x1A00" is 6656.
hex_read : parse_hex_u32 (48 ∷ 120 ∷ 49 ∷ 65 ∷ 48 ∷ 48 ∷ []) ≡ some 6656
unfolding parse_hex_u32
hex_read = refl

abbrev plant : Config
plant = record init_defaults {
  interface = 101 ∷ [];
  cycle_time_us = pos 1000;
  receive_timeout_us = pos 500;
  slaves = drive ∷ record drive { position = pos 2 } ∷ [];
}

plant_valid : validate plant ≡ ok
unfolding validate validate_slaves validate_pdos validate_station slot_accepts pdo_values
    mandatory_values
plant_valid = refl

validate-IsAccepted_example :
    ((i : ℕ) (s : Slave) → get_elem? plant.slaves i ≡ some s → IsAccepted s)
    × ((i j : ℕ) (s t : Slave)
        → i < j
        → get_elem? plant.slaves i ≡ some s
        → get_elem? plant.slaves j ≡ some t
        → equal_ints s.position t.position ≡ false)
validate-IsAccepted_example = validate-IsAccepted plant plant_valid

abbrev expected_sdo : Sdo
expected_sdo = record {
  index = codes "0x8000";
  subindex = 1;
  value = finite true 5 0;
  value_bytes = none;
  parsed_type = dtype_int8;
  complete_access = false;
  name = [];
}

abbrev expected_slave : Slave
expected_slave = record {
  position = pos 1;
  name = [];
  type' = codes "coupler";
  vendor_id = 2;
  product_code = 3;
  revision = 0;
  channels = [];
  sdo_configs = expected_sdo ∷ [];
  rx_pdos =
      record {
        index = codes "0x1600";
        name = [];
        fixed = false;
        entries =
            record {
              index = codes "0x7000";
              subindex = 0;
              bit_length = 8;
              name = [];
              parsed_type = dtype_unknown;
            }
            ∷ [];
      }
      ∷ [];
  tx_pdos = [];
  mandatory_pdos = codes "0x1600" ∷ [];
  modular = record {
    present = true;
    slot_index_increment = 0;
    slots = record { min_instances = 0; max_instances = 2; classes = []; idents = [] } ∷ [];
    modules = record { slot = 1; ident = 17; class_name = [] } ∷ [];
  };
  settings = default_settings;
}

abbrev line : NamedConfig
line = record {
  name = codes "line";
  config = record init_defaults { slaves = expected_slave ∷ [] };
}

document_loads : parse_all host 4 (some (some document)) ≡ success (line ∷ [])
unfolding parse_all ◌>>=◌ read_hex validate validate_slaves pdo_values mandatory_values slot_accepts
document_loads = refl

parse_all_iff_example : (parse_all host 4 (some (some document)) ≡ success (line ∷ [])) ↔ (
    (each (parse_pair host) (ethercat_entries host (elements document)) ≡ success (line ∷ []))
    × (1 ≤ 1)
    × (1 ≤ 4)
    × (has_shared_interface (line ∷ []) ≡ false))
parse_all_iff_example =
    parse_all_iff host 4 document (elements document) (line ∷ []) (omega arith) refl

parse_all-IsLoaded_example :
    All IsLoaded (line ∷ []) × (1 ≤ 1) × (1 ≤ 4) × (has_shared_interface (line ∷ []) ≡ false)
parse_all-IsLoaded_example =
    parse_all-IsLoaded host 4 (some (some document)) (line ∷ []) document_loads

parse_all-Covers_example :
    Covers 0 expected_slave.modular.slots
      (station (last_slot 0 expected_slave.modular.modules) 1 expected_slave.modular.modules)
parse_all-Covers_example =
    parse_all-Covers host 4 (some (some document)) (line ∷ []) document_loads 0 0 line
      expected_slave refl refl (omega arith)

payload-print_bytes_example :
    payload true (b'0' ∷ b'x' ∷ print_bytes (18 ∷ 171 ∷ [])) ≡ success (18 ∷ 171 ∷ [])
payload-print_bytes_example =
    payload-print_bytes (18 ∷ 171 ∷ []) (all_more (omega arith) (all_more (omega arith) all_none))
      (omega arith)

mandatory_read : parse_mandatory_pdo host (Json.string (codes "#x1600")) ≡ success (codes "0x1600")
unfolding parse_mandatory_pdo ◌>>=◌
mandatory_read = refl

parse_mandatory_pdo-value_example :
    pdo_index_value (codes "0x1600") ≡ pdo_index_value (codes "#x1600")
parse_mandatory_pdo-value_example =
    parse_mandatory_pdo-value host (Json.string (codes "#x1600")) (codes "#x1600") (codes "0x1600")
      refl mandatory_read

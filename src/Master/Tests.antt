-- ===== src/Master/Tests.antt =====
-- Runs of the start of a master.
mod Opening
use ether_dog.Base.{inr}
use ether_dog.Master.Configure.{Bus, configure}
use ether_dog.Master.Guarded.{IsGuarded, configure-IsGuarded}
use ether_dog.Config.Defaults.{init_defaults, no_modular, default_settings}
use ether_dog.Base.Int.{leb_ℤ, pos}
use ether_dog.Master.Iomap.{ImageBuffer, Reported, compute_iomap_bytes, map_process_data}
use ether_dog.Master.Mapping.{image_bytes, compute_iomap_bytes-image_bytes}
use ether_dog.Config.Host.{codes}
use ether_dog.Config.Types.{
  Config, dtype_int64, Slave, Sdo, dtype_int16, dtype_uint64, dtype_bytestring,
}
use ether_dog.Config.Doubles.{truncate, Double, finite}
use ether_dog.Config.Sdo.{sdo_value_in_range}
use ether_dog.Config.Shapes.{IsSdo}
use ether_dog.Config.Pdos.{is_hex16}
use ether_dog.Master.Sdo.{SdoWrite, Context, encode_sdo_value, wire_bytes, write_sdos, int_max}
use ether_dog.Master.Encoding.{IsSent, encode_sdo_value-exact, encode_sdo_value-undefined}
use ether_dog.Master.Written.{Written, write_sdos_iff}
use ether_dog.Master.Skipped.{wire_bytes-skipped}
use ether_dog.Base.{
  ◌≤◌, arith, none, ◌⊎◌, ℕ, true, false, ◌^◌, ◌<◌, ◌≡◌, ◌==◌, ◌↔◌, refl, some, List, [], ◌∷◌,
  length, get_elem?,
}
use ether_dog.Master.Timing.{Limits, poll_retries, transition_to_op}
use ether_dog.Master.Topology.{Found, validate_topology}
use ether_dog.Master.Polling.{transition_to_op_iff}
use ether_dog.Master.Matching.{IsPresent, validate_topology-IsPresent}

abbrev limits : Limits
limits = record { timeout_ret = 2000; timeout_state = 2000000 }

abbrev found : List Found
found = record { eep_man = 2; eep_id = 3 } ∷ []

abbrev single : Double → List ℕ
single v = 0 ∷ 0 ∷ 0 ∷ 0 ∷ []

abbrev double : Double → List ℕ
double v = 0 ∷ 0 ∷ 0 ∷ 0 ∷ 0 ∷ 0 ∷ 0 ∷ 0 ∷ []

-- -7.5 as an INT16
seven_accepted : sdo_value_in_range dtype_int16 (finite true 15 1) ≡ true
unfolding sdo_value_in_range
seven_accepted = refl

encode_sdo_value-exact_example : IsSent single double dtype_int16 (finite true 15 1)
encode_sdo_value-exact_example =
    encode_sdo_value-exact single double dtype_int16 (finite true 15 1) refl seven_accepted refl

-- 2^63, which the parser accepts as a UINT64
large_accepted : sdo_value_in_range dtype_uint64 (finite false (2 ^ 63) 0) ≡ true
unfolding sdo_value_in_range
large_accepted = refl

encode_sdo_value-undefined_example :
    ((encode_sdo_value single double dtype_uint64 (finite false (2 ^ 63) 0) ≡ none)
      ↔ (leb_ℤ (truncate (finite false (2 ^ 63) 0)) (pos 9223372036854775807) ≡ false))
    × (encode_sdo_value single double dtype_uint64 (finite false (2 ^ 63) 0) ≡ none
        → (dtype_uint64 ≡ dtype_int64) ⊎ (dtype_uint64 ≡ dtype_uint64))
encode_sdo_value-undefined_example =
    encode_sdo_value-undefined single double dtype_uint64 (finite false (2 ^ 63) 0) refl
      large_accepted

-- The module name "AB", as bytes
abbrev name_sdo : Sdo
name_sdo = record {
  index = [];
  subindex = 3;
  value = finite false 0 0;
  value_bytes = some (65 ∷ 66 ∷ []);
  parsed_type = dtype_bytestring;
  complete_access = false;
  name = [];
}

abbrev context : Context
context = record { soem_initialized = true; slavecount = 2; mbx_proto = 4 }

abbrev name_request : SdoWrite
name_request = record {
  slave = pos 1;
  index = 8000;
  subindex = 3;
  complete_access = false;
  bytes = 65 ∷ 66 ∷ [];
  timeout = pos 700000;
}

write_sdos_iff_example :
    (write_sdos single double
        (λ s. 8000)
        (pos 700000)
        (λ i r. pos 1)
        context
        (pos 1)
        (pos 0)
        (name_sdo ∷ [])
      ≡ some (name_request ∷ [], true))
    ↔ Written single double
        (λ s. 8000)
        (pos 700000)
        (λ i r. pos 1)
        (pos 1)
        (pos 0)
        (pos 700000)
        0
        (name_sdo ∷ [])
        (name_request ∷ [])
write_sdos_iff_example =
    write_sdos_iff single double (λ s. 8000) (pos 700000) (λ i r. pos 1) (pos 1) (pos 0)
      (pos 700000) (inr (refl, refl)) context (name_sdo ∷ []) (name_request ∷ [])
      (record { soem_initialized = refl; low = refl; high = refl; mailbox = refl }) (omega arith)

-- An empty byte string
abbrev empty_sdo : Sdo
empty_sdo = record name_sdo { index = codes "0x8000"; value_bytes = some [] }

empty-IsSdo : IsSdo empty_sdo
unfolding is_hex16
empty-IsSdo = record {
  index = refl;
  subindex = omega arith;
  type' = refl;
  value = λ e. absurd (cc e);
}

wire_bytes-skipped_example : (wire_bytes single double empty_sdo ≡ some none) ↔ (
    (bytes : List ℕ) × (empty_sdo.value_bytes ≡ some bytes)
    × ((length bytes ≡ 0) ⊎ (int_max < length bytes)))
wire_bytes-skipped_example =
    wire_bytes-skipped single double (λ v. refl) (λ v. refl) empty_sdo empty-IsSdo

-- A slave with 12 output bits
abbrev valve : Slave
valve = record {
  position = pos 1;
  name = [];
  type' = [];
  vendor_id = 2;
  product_code = 3;
  revision = 0;
  channels = [];
  sdo_configs = [];
  rx_pdos =
      record {
        index = codes "0x1600";
        name = [];
        fixed = false;
        entries =
            record {
              index = codes "0x7000";
              subindex = 1;
              bit_length = 12;
              name = [];
              parsed_type = dtype_uint64;
            }
            ∷ [];
      }
      ∷ [];
  tx_pdos = [];
  mandatory_pdos = [];
  modular = no_modular;
  settings = default_settings;
}

abbrev expected : List Slave
expected =
    record valve {
      product_code = 4;
      settings = record default_settings { check_product_code = false };
    }
    ∷ []

-- A slave whose mailbox gives no mapping, with 12 output and 9 input bits in its SII.
abbrev terminal : Reported
terminal = record {
  has_coe = true;
  has_sdoca = true;
  has_soe = false;
  pdo_map_ca = none;
  pdo_map = (0, 0);
  idn_map = (0, 0);
  sii = (12, 9);
  obits = 0;
  ibits = 0;
}

abbrev no_image : ImageBuffer
no_image = record { iomap = none; iomap_capacity = 0; iomap_used_size = 0 }

-- Four bytes are mapped into the smallest buffer.
terminal_mapped :
    map_process_data true true (terminal ∷ []) (pos 4) no_image
    ≡ (record { iomap = some 256; iomap_capacity = 256; iomap_used_size = 4 }, true)
unfolding map_process_data
terminal_mapped = refl

abbrev ready_bus : Bus
ready_bus = record {
  soem_initialized = true;
  memory = true;
  slavecount = 1;
  reported = terminal ∷ [];
  io_size = pos 4;
  sm_written = λ p. true;
  hasdc = λ p. false;
}

abbrev one_valve : Config
one_valve = record init_defaults { slaves = valve ∷ [] }

valve_configured : (configure ready_bus one_valve no_image).3 ≡ true
unfolding configure
valve_configured = refl

configure-IsGuarded_example :
    IsGuarded 1 (λ p. true) (configure ready_bus one_valve no_image).1 valve
configure-IsGuarded_example =
    configure-IsGuarded ready_bus one_valve no_image valve_configured 0 valve refl refl refl refl

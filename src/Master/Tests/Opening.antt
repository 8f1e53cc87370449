-- ===== src/Master/Tests/Opening.antt =====
-- Runs of opening and closing a master, and of the check of its fixed mappings.
use ether_dog.Base.{subst}
use ether_dog.Base.{
  ap, ℕ, true, false, ◌+◌, ◌*◌, ◌<◌, ◌≡◌, ◌==◌, ◌↔◌, refl, some, none, List, [], ◌∷◌, ◌++◌,
  get_elem?, replicate, take, zero_fill, arith, if◌then◌else◌, Option, suc, zero,
}
use ether_dog.Base.Int.{ℤ, pos, negsuc}
use ether_dog.Config.Types.{Slave, Pdo, PdoEntry, dtype_uint8}
use ether_dog.Config.Defaults.{no_modular, default_settings}
use ether_dog.Config.Host.{codes}
use ether_dog.Protocol.{put_bytes}
use ether_dog.Master.Timing.{Limits}
use ether_dog.Master.Open.{
  Opened, Scan, released_buffer, released_snapshot, open_and_scan, preop_timeout, close_master,
  exchange,
}
use ether_dog.Master.Opening.{farewell, IsCount, close_master-zeroes}
use ether_dog.Master.Scanning.{Each, IsIntTime, IsLongest, HasOutcome, open_and_scan_iff}
use ether_dog.Master.Fixed.{Mailboxes, verify_fixed_pdos}
use ether_dog.Master.Verified.{SlavesAsConfigured, verify_fixed_pdos_iff}
use ether_dog.Master.Topology.{validate_topology}

abbrev limits : Limits
limits = record { timeout_ret = 2000; timeout_state = 2000000 }

abbrev entry : PdoEntry
entry = record {
  index = codes "6000";
  subindex = 1;
  bit_length = 8;
  name = [];
  parsed_type = dtype_uint8;
}

abbrev fixed_pdo : Pdo
fixed_pdo = record { index = codes "1A00"; name = []; fixed = true; entries = entry ∷ [] }

abbrev sensor : Slave
sensor = record {
  position = pos 1;
  name = [];
  type' = [];
  vendor_id = 2;
  product_code = 3;
  revision = 0;
  channels = [];
  sdo_configs = [];
  rx_pdos = [];
  tx_pdos = fixed_pdo ∷ [];
  mandatory_pdos = [];
  modular = no_modular;
  settings = default_settings;
}

abbrev closed : Opened
closed = record { soem_initialized = false; buffer = released_buffer; snapshot = released_snapshot }

abbrev one_sensor : Scan
one_sensor = record {
  init_ok = true;
  config_init = pos 1;
  found = record { eep_man = 2; eep_id = 3 } ∷ [];
  states = λ t. 2 ∷ [];
  iomap_memory = true;
  snapshot_memory = true;
}

sensor_time : Each IsIntTime (sensor ∷ [])
sensor_time zero s g =
    let e : ◌≡◌ {A = Slave} sensor s = cc in
    subst (λ (y : Slave). IsIntTime y) e (omega arith, omega arith)
sensor_time (suc i) s g = cc

open_and_scan_iff_example :
    (t : ℕ) × IsLongest limits (sensor ∷ []) t
    × HasOutcome one_sensor (sensor ∷ []) t (open_and_scan limits one_sensor (sensor ∷ []) closed)
open_and_scan_iff_example = open_and_scan_iff limits one_sensor (sensor ∷ []) closed sensor_time

scan_accepted :
    (s : Opened) × (open_and_scan limits one_sensor (sensor ∷ []) closed ≡ some (s, true))
unfolding open_and_scan validate_topology
scan_accepted = (_, refl)

-- A time whose product with 1000 is no int.
abbrev slow_sensor : Slave
slow_sensor = record sensor {
  settings = record default_settings { init_to_preop_timeout_ms = pos 2147484 };
}

time_overflows : preop_timeout limits (slow_sensor ∷ []) ≡ none
unfolding preop_timeout
time_overflows = refl

abbrev mapped : Opened
mapped = record closed {
  soem_initialized = true;
  buffer = record { iomap = some 4; iomap_capacity = 4; iomap_used_size = 3 };
}

-- The second exchange is answered.
close_master-zeroes_example :
    (n : ℕ) × ((close_master
        (λ i. if i == 1 then pos 3 else negsuc 0)
        (pos 1)
        (9 ∷ 8 ∷ 7 ∷ 6 ∷ [])
        mapped).0
      ≡ replicate n (exchange (zero_fill (9 ∷ 8 ∷ 7 ∷ 6 ∷ []) 3)) ++ farewell (pos 1))
    × IsCount 3 0 (λ i. if i == 1 then pos 3 else negsuc 0) n
    × (take 3 (zero_fill (9 ∷ 8 ∷ 7 ∷ 6 ∷ []) 3) ≡ replicate 3 0)
close_master-zeroes_example =
    close_master-zeroes (λ i. if i == 1 then pos 3 else negsuc 0) (pos 1) (9 ∷ 8 ∷ 7 ∷ 6 ∷ [])
      mapped refl (omega arith)

-- A slave with 0x6000:01 of eight bits in its only PDO.
abbrev shown_entry : ℕ
shown_entry = 6 * 65536 + 1 * 256 + 8

abbrev read_object : ℤ → ℕ → ℕ → Option (List ℕ)
read_object position index zero = some (put_bytes 1 1)
read_object position index (suc i) = if i == 0 then some (put_bytes 4 shown_entry) else none

abbrev mailboxes : Mailboxes
mailboxes = record { slavecount = 1; slave_has_coe = λ p. true; sdo_read = read_object }

one_shown :
    (i v : ℕ)
    → get_elem? (shown_entry ∷ []) i ≡ some v
    → (read_object (pos 1) 6 (suc i) ≡ some (put_bytes 4 v)) × (v < 4294967296)
one_shown zero v e =
    let q : ◌≡◌ {A = ℕ} shown_entry v = cc in (ap (λ (w : ℕ). some (put_bytes 4 w)) q, omega arith)
one_shown (suc i) v e = cc

verify_fixed_pdos_iff_example :
    (verify_fixed_pdos (λ s. 6) mailboxes (sensor ∷ []) ≡ true)
    ↔ SlavesAsConfigured (λ s. 6) mailboxes (λ p i. shown_entry ∷ []) (sensor ∷ [])
verify_fixed_pdos_iff_example =
    verify_fixed_pdos_iff (λ s. 6) mailboxes (λ p i. shown_entry ∷ []) (sensor ∷ [])
      (
        (
          tt,
          (
            λ e. record {
              count_shown = refl;
              count_fits = omega arith;
              entry_shown = λ i v p. (one_shown i v p).0;
              entry_fits = λ i v p. (one_shown i v p).1;
            },
            tt,
          ),
        ),
        tt,
      )

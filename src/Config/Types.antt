-- ===== src/Config/Types.antt =====
-- src/config.h: the configuration of a master. A string is the list of its bytes without the closing NUL,
-- an array of `count` elements is the list of them, and a capacity, which is the length of the JSON
-- array, is left out.
use ether_dog.Base.{ℕ, Bool, List, Option}
use ether_dog.Base.Int.{ℤ}
use ether_dog.Config.Doubles.{Double}

-- `ecat_data_type_t`
pub data DataType : Type 0 where
  dtype_unknown : DataType
  dtype_bool : DataType
  dtype_int8 : DataType
  dtype_uint8 : DataType
  dtype_int16 : DataType
  dtype_uint16 : DataType
  dtype_int32 : DataType
  dtype_uint32 : DataType
  dtype_int64 : DataType
  dtype_uint64 : DataType
  dtype_real32 : DataType
  dtype_real64 : DataType
  dtype_pad : DataType
  dtype_bytestring : DataType

-- ECAT_CONFIG_OK, and ECAT_CONFIG_ERR_INVALID, the one error of the validation
pub data Status : Type 0 where
  ok : Status
  err_invalid : Status

-- The error codes ECAT_CONFIG_ERR_FILE, _PARSE, _MEMORY, _INVALID and _MISSING.
pub data ConfigError : Type 0 where
  file : ConfigError
  parse : ConfigError
  memory : ConfigError
  invalid : ConfigError
  missing : ConfigError

-- `ecat_pdo_entry_t`
pub record PdoEntry : Type 0 where
  pub index : List ℕ
  pub subindex : ℕ
  pub bit_length : ℕ
  pub name : List ℕ
  pub parsed_type : DataType

-- `ecat_pdo_t`
pub record Pdo : Type 0 where
  pub index : List ℕ
  pub name : List ℕ
  pub fixed : Bool
  pub entries : List PdoEntry

-- `ecat_sdo_config_t`
pub record Sdo : Type 0 where
  pub index : List ℕ
  pub subindex : ℕ
  pub value : Double
  pub value_bytes : Option (List ℕ)
  pub parsed_type : DataType
  pub complete_access : Bool
  pub name : List ℕ

-- `ecat_channel_t`
pub record IoChannel : Type 0 where
  pub index : ℤ
  pub name : List ℕ
  pub type' : List ℕ
  pub bit_length : ℕ
  pub pdo_index : List ℕ
  pub pdo_entry_index : List ℕ
  pub pdo_entry_subindex : ℕ

-- `ecat_slot_def_t`. The parser refuses a negative bound.
pub record SlotDef : Type 0 where
  pub min_instances : ℕ
  pub max_instances : ℕ
  pub classes : List (List ℕ)
  pub idents : List ℕ

-- `ecat_module_t`. A slot is an int there; the parser refuses a negative one as it does 0.
pub record Module : Type 0 where
  pub slot : ℕ
  pub ident : ℕ
  pub class_name : List ℕ

-- `ecat_modular_t`. The increment is an int there; the parser refuses a negative one.
pub record Modular : Type 0 where
  pub present : Bool
  pub slot_index_increment : ℕ
  pub slots : List SlotDef
  pub modules : List Module

-- `ecat_dc_config_t`
pub record DcConfig : Type 0 where
  pub enabled : Bool
  pub sync_unit_cycle_us : ℤ
  pub sync0_enabled : Bool
  pub sync0_cycle_us : ℤ
  pub sync0_shift_us : ℤ
  pub sync1_enabled : Bool
  pub sync1_cycle_us : ℤ
  pub sync1_shift_us : ℤ

-- The fields of `ecat_slave_t` that the "config" object of a slave gives: `ecat_startup_checks_t`,
-- `ecat_addressing_t`, `ecat_timeouts_t`, `ecat_watchdog_t`, `ecat_dc_config_t` and `strict_sdo`.
pub record Settings : Type 0 where
  pub check_vendor_id : Bool
  pub check_product_code : Bool
  pub ethercat_address : ℕ
  pub sdo_timeout_ms : ℤ
  pub init_to_preop_timeout_ms : ℤ
  pub safeop_to_op_timeout_ms : ℤ
  pub sm_watchdog_enabled : Bool
  pub sm_watchdog_ms : ℤ
  pub pdi_watchdog_enabled : Bool
  pub pdi_watchdog_ms : ℤ
  pub dc : DcConfig
  pub strict_sdo : Bool

-- `ecat_slave_t`
pub record Slave : Type 0 where
  pub position : ℤ
  pub name : List ℕ
  pub type' : List ℕ
  pub vendor_id : ℕ
  pub product_code : ℕ
  pub revision : ℕ
  pub channels : List IoChannel
  pub sdo_configs : List Sdo
  pub rx_pdos : List Pdo
  pub tx_pdos : List Pdo
  pub mandatory_pdos : List (List ℕ)
  pub modular : Modular
  pub settings : Settings

-- `ecat_diagnostics_config_t`
pub record Diagnostics : Type 0 where
  pub log_connections : Bool
  pub log_data_access : Bool
  pub log_errors : Bool
  pub max_log_entries : ℤ
  pub status_update_interval_ms : ℤ

-- `ecat_config_t` with its `ecat_master_config_t`
pub record Config : Type 0 where
  pub interface : List ℕ
  pub cycle_time_us : ℤ
  pub receive_timeout_us : ℤ
  pub watchdog_timeout_cycles : ℤ
  pub log_level : List ℕ
  pub task_priority : ℤ
  pub safe_close : Bool
  pub slaves : List Slave
  pub diagnostics : Diagnostics

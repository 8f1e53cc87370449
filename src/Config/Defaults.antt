-- ===== src/Config/Defaults.antt =====
-- src/config.c: the configuration before a file is read, and the settings of a slave without a
-- "config" object.
use ether_dog.Base.{ℕ, true, false, []}
use ether_dog.Base.Int.{pos}
use ether_dog.Config.Types.{Config, Settings, Modular, DcConfig}
use ether_dog.Config.Host.{codes, safe_strcpy}

-- ECAT_MAX_NAME_LEN and ECAT_IFNAME_MAX
abbrev pub max_name_len : ℕ
max_name_len = 64

abbrev pub ifname_max : ℕ
ifname_max = 128

-- `ecat_config_init_defaults`
abbrev pub init_defaults : Config
init_defaults = record {
  interface = safe_strcpy (codes "eth0") ifname_max;
  cycle_time_us = pos 1000;
  receive_timeout_us = pos 2000;
  watchdog_timeout_cycles = pos 3;
  log_level = safe_strcpy (codes "info") 8;
  task_priority = pos 90;
  safe_close = true;
  slaves = [];
  diagnostics = record {
    log_connections = true;
    log_data_access = false;
    log_errors = true;
    max_log_entries = pos 10000;
    status_update_interval_ms = pos 500;
  };
}

abbrev pub default_dc : DcConfig
default_dc = record {
  enabled = false;
  sync_unit_cycle_us = pos 0;
  sync0_enabled = false;
  sync0_cycle_us = pos 0;
  sync0_shift_us = pos 0;
  sync1_enabled = false;
  sync1_cycle_us = pos 0;
  sync1_shift_us = pos 0;
}

-- The defaults that `parse_slave` applies.
abbrev pub default_settings : Settings
default_settings = record {
  check_vendor_id = true;
  check_product_code = true;
  ethercat_address = 0;
  sdo_timeout_ms = pos 1000;
  init_to_preop_timeout_ms = pos 3000;
  safeop_to_op_timeout_ms = pos 10000;
  sm_watchdog_enabled = true;
  sm_watchdog_ms = pos 100;
  pdi_watchdog_enabled = false;
  pdi_watchdog_ms = pos 100;
  dc = default_dc;
  strict_sdo = true;
}

-- A slave's `modular` after the memset.
abbrev pub no_modular : Modular
no_modular = record { present = false; slot_index_increment = 0; slots = []; modules = [] }

-- ===== src/Config/Slaves.antt =====
-- src/config.c: a slave, from its JSON object.
use Prim.Native.String.{String}
use ether_dog.Base.{ℕ, true, false, ◌-◌, ◌^◌, if◌then◌else◌, Option, none, some, List, [], map}
use ether_dog.Base.Int.{ℤ, pos, wrap, ltb_ℤ}
use ether_dog.Base.Results.{Result, success, ◌>>=◌, each}
use ether_dog.Config.Types.{ConfigError, Settings, DcConfig, Slave}
use ether_dog.Config.Defaults.{max_name_len, default_dc, default_settings}
use ether_dog.Config.Sdo.{parse_sdo}
use ether_dog.Config.Pdos.{parse_pdo_array, parse_mandatory_pdos, parse_channel}
use ether_dog.Config.Modules.{parse_modular}
use ether_dog.Config.Host.{
  Host, codes, safe_strcpy, get_string, get_int, get_bool, get_hex_u32, array_items, get_items,
}

module _ (h : Host) where
  -- The field, where it is an object.
  unfoldable pub get_object : h.Node → String → Option h.Node
  get_object obj key = elim (h.item obj key) [
    | none ↦ none
    | some v ↦ if h.is_object v then some v else none
  ]

  -- A time in ms, which falls back to the default where it is not positive.
  unfoldable pub get_timeout : h.Node → String → ℤ → ℤ
  unfolding get_int
  get_timeout obj key default_val =
      let val = get_int h obj key default_val in if ltb_ℤ (pos 0) val then val else default_val

  unfoldable pub parse_startup_checks : Option h.Node → Settings → Settings
  unfolding get_bool
  parse_startup_checks none s = s
  parse_startup_checks (some sc) s = record s {
    check_vendor_id = get_bool h sc "check_vendor_id" true;
    check_product_code = get_bool h sc "check_product_code" true;
  }

  unfoldable pub parse_addressing : Option h.Node → Settings → Settings
  unfolding get_int
  parse_addressing none s = s
  parse_addressing (some addr) s = record s {
    ethercat_address = wrap (get_int h addr "ethercat_address" (pos 0)) (2 ^ 16);
  }

  unfoldable pub parse_timeouts : Option h.Node → Settings → Settings
  unfolding get_timeout
  parse_timeouts none s = s
  parse_timeouts (some to) s = record s {
    sdo_timeout_ms = get_timeout to "sdo_timeout_ms" (pos 1000);
    init_to_preop_timeout_ms = get_timeout to "init_to_preop_timeout_ms" (pos 3000);
    safeop_to_op_timeout_ms = get_timeout to "safeop_to_op_timeout_ms" (pos 10000);
  }

  unfoldable pub parse_watchdog : Option h.Node → Settings → Settings
  unfolding get_timeout get_bool
  parse_watchdog none s = s
  parse_watchdog (some wd) s = record s {
    sm_watchdog_enabled = get_bool h wd "sm_watchdog_enabled" true;
    sm_watchdog_ms = get_timeout wd "sm_watchdog_ms" (pos 100);
    pdi_watchdog_enabled = get_bool h wd "pdi_watchdog_enabled" false;
    pdi_watchdog_ms = get_timeout wd "pdi_watchdog_ms" (pos 100);
  }

  unfoldable pub parse_dc : Option h.Node → DcConfig
  unfolding get_int get_bool
  parse_dc none = default_dc
  parse_dc (some dc) = record {
    enabled = get_bool h dc "enabled" false;
    sync_unit_cycle_us = get_int h dc "sync_unit_cycle_us" (pos 0);
    sync0_enabled = get_bool h dc "sync0_enabled" false;
    sync0_cycle_us = get_int h dc "sync0_cycle_us" (pos 0);
    sync0_shift_us = get_int h dc "sync0_shift_us" (pos 0);
    sync1_enabled = get_bool h dc "sync1_enabled" false;
    sync1_cycle_us = get_int h dc "sync1_cycle_us" (pos 0);
    sync1_shift_us = get_int h dc "sync1_shift_us" (pos 0);
  }

  -- The "config" object of a slave.
  unfoldable pub parse_settings : Option h.Node → Settings
  unfolding get_object get_bool parse_startup_checks parse_addressing parse_timeouts parse_watchdog
      parse_dc
  parse_settings none = default_settings
  parse_settings (some cfg) =
      let strict = record default_settings { strict_sdo = get_bool h cfg "strict_sdo" true } in
      let checked = parse_startup_checks (get_object cfg "startup_checks") strict in
      let addressed = parse_addressing (get_object cfg "addressing") checked in
      let timed = parse_timeouts (get_object cfg "timeouts") addressed in
      let watched = parse_watchdog (get_object cfg "watchdog") timed in
      record watched { dc = parse_dc (get_object cfg "distributed_clocks") }

  unfoldable pub parse_revision : h.Node → Result ConfigError ℕ
  unfolding get_hex_u32
  parse_revision json = elim (h.item json "revision") [
    | none ↦ success 0
    | some v ↦ get_hex_u32 h json "revision" (2 ^ 32 - 1)
  ]

  -- `parse_slave`
  unfoldable pub parse_slave : h.Node → Result ConfigError Slave
  unfolding get_string get_int get_hex_u32 get_items parse_revision parse_channel parse_sdo
      parse_pdo_array parse_mandatory_pdos parse_modular parse_settings get_object
  parse_slave json = do
    vendor_id ← get_hex_u32 h json "vendor_id" (2 ^ 32 - 1)
    product_code ← get_hex_u32 h json "product_code" (2 ^ 32 - 1)
    revision ← parse_revision json
    channels ← get_items h json "channels"
    sdos ← get_items h json "sdo_configurations"
    sdo_configs ← each (parse_sdo h) sdos
    rx_pdos ← parse_pdo_array h (h.item json "rx_pdos")
    tx_pdos ← parse_pdo_array h (h.item json "tx_pdos")
    mandatory_pdos ← parse_mandatory_pdos h json
    modular ← parse_modular h (h.item json "modular")
    success (record {
      position = get_int h json "position" (pos 0);
      name = safe_strcpy (get_string h json "name" []) max_name_len;
      type' = safe_strcpy (get_string h json "type" (codes "coupler")) 20;
      vendor_id = vendor_id;
      product_code = product_code;
      revision = revision;
      channels = map (parse_channel h) channels;
      sdo_configs = sdo_configs;
      rx_pdos = rx_pdos;
      tx_pdos = tx_pdos;
      mandatory_pdos = mandatory_pdos;
      modular = modular;
      settings = parse_settings (get_object json "config");
    })

  -- `parse_slaves_section`
  unfoldable pub parse_slaves_section : Option h.Node → Result ConfigError (List Slave)
  unfolding array_items parse_slave
  parse_slaves_section slaves = do items ← array_items h slaves; each parse_slave items

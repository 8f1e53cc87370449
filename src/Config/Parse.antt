-- ===== src/Config/Parse.antt =====
-- src/config.c: the configurations of the masters, from the JSON document of the file.
use ether_dog.Base.{
  ℕ, Bool, true, false, ◌||◌, ◌+◌, leb, ltb, if◌then◌else◌, Option, none, some, List, [], ◌∷◌,
}
use ether_dog.Base.Int.{pos}
use ether_dog.Base.Results.{Result, success, failure, ◌>>=◌, ◌>>◌, refuse_if}
use ether_dog.Dgram.{equal_bytes}
use ether_dog.Config.Types.{
  Slave, ConfigError, file, parse, invalid, missing, Config, Diagnostics, ok, err_invalid,
}
use ether_dog.Config.Defaults.{max_name_len, ifname_max, init_defaults}
use ether_dog.Config.DataTypes.{strcasecmp_local}
use ether_dog.Config.Validate.{validate}
use ether_dog.Config.Slaves.{parse_slaves_section}
use ether_dog.Config.Host.{Host, codes, safe_strcpy, get_string, get_int, get_bool}

-- What `ecat_config_parse_all` fills in of an `ecat_master_instance_t`.
pub record NamedConfig : Type 0 where
  pub name : List ℕ
  pub config : Config

-- A configuration that the validation accepts.
unfoldable pub validated : Config → Result ConfigError Config
unfolding validate
validated c = elim (validate c) [ ok ↦ success c | err_invalid ↦ failure invalid ]

abbrev pub shares_interface : List ℕ → List NamedConfig → Bool
shares_interface s [] = false
shares_interface s (i ∷ is) = equal_bytes s i.config.interface || shares_interface s is

-- The last loops of `ecat_config_parse_all`: two masters on the same interface.
abbrev pub has_shared_interface : List NamedConfig → Bool
has_shared_interface [] = false
has_shared_interface (i ∷ is) = shares_interface i.config.interface is || has_shared_interface is

-- What follows the loop over the entries.
unfoldable pub finish : List NamedConfig → Result ConfigError (List NamedConfig)
finish is =
    if has_shared_interface is
    then failure invalid
    else elim is [ [] ↦ failure missing | (i ∷ rest) ↦ success (i ∷ rest) ]

module _ (h : Host) where
  -- `parse_master_section`
  unfoldable pub parse_master_section : Option h.Node → Config → Config
  unfolding get_string get_int get_bool
  parse_master_section none config = record config { safe_close = true }
  parse_master_section (some master) config = record config {
    interface = safe_strcpy (get_string h master "interface" (codes "eth0")) ifname_max;
    cycle_time_us = get_int h master "cycle_time_us" (pos 1000);
    receive_timeout_us = get_int h master "receive_timeout_us" (pos 2000);
    watchdog_timeout_cycles = get_int h master "watchdog_timeout_cycles" (pos 3);
    log_level = safe_strcpy (get_string h master "log_level" (codes "info")) 8;
    task_priority = get_int h master "task_priority" (pos 90);
    safe_close = get_bool h master "safe_close" true;
  }

  -- `parse_diagnostics_section`
  unfoldable pub parse_diagnostics_section : Option h.Node → Diagnostics → Diagnostics
  unfolding get_int get_bool
  parse_diagnostics_section none config = config
  parse_diagnostics_section (some diag) config = record {
    log_connections = get_bool h diag "log_connections" true;
    log_data_access = get_bool h diag "log_data_access" false;
    log_errors = get_bool h diag "log_errors" true;
    max_log_entries = get_int h diag "max_log_entries" (pos 10000);
    status_update_interval_ms = get_int h diag "status_update_interval_ms" (pos 500);
  }

  -- The configuration of a "config" object with these slaves, over the defaults.
  unfoldable pub with_sections : h.Node → List Slave → Config
  unfolding parse_master_section parse_diagnostics_section
  with_sections config_obj slaves =
      let config = parse_master_section (h.item config_obj "master") init_defaults in
      record config {
        slaves = slaves;
        diagnostics =
            parse_diagnostics_section (h.item config_obj "diagnostics") config.diagnostics;
      }

  -- The sections of a "config" object and the validation of the result.
  unfoldable pub parse_config : h.Node → Result ConfigError Config
  unfolding with_sections parse_slaves_section validated
  parse_config config_obj = do
    slaves ← parse_slaves_section h (h.item config_obj "slaves")
    validated (with_sections config_obj slaves)

  unfoldable pub parse_instance : h.Node → h.Node → Result ConfigError NamedConfig
  unfolding get_string parse_config
  parse_instance entry config_obj = do
    config ← parse_config config_obj
    success (record {
      name = safe_strcpy (get_string h entry "name" (codes "master")) max_name_len;
      config = config;
    })

  -- The "config" object of an entry whose protocol is ETHERCAT. The loop skips the others.
  unfoldable pub ethercat_config : h.Node → Option h.Node
  unfolding get_string strcasecmp_local
  ethercat_config entry =
      if strcasecmp_local (get_string h entry "protocol" []) (codes "ETHERCAT")
      then h.item entry "config"
      else none

  -- The loop over the entries, with `count` masters before them.
  unfoldable pub parse_entries : ℕ → ℕ → List h.Node → Result ConfigError (List NamedConfig)
  unfolding ethercat_config parse_instance
  parse_entries max_masters count [] = success []
  parse_entries max_masters count (entry ∷ entries) = elim (ethercat_config entry) [
    | none ↦ parse_entries max_masters count entries
    | some config_obj ↦ do
      refuse_if (leb max_masters count) invalid
      i ← parse_instance entry config_obj
      is ← parse_entries max_masters (count + 1) entries
      success (i ∷ is)
  ]

  -- The "config" object of a bare object, or the object itself.
  unfoldable pub bare_config : h.Node → h.Node
  bare_config root = elim (h.item root "config") [ none ↦ root | some config_obj ↦ config_obj ]

  unfoldable pub parse_root : ℕ → h.Node → Result ConfigError (List NamedConfig)
  unfolding bare_config parse_instance parse_entries finish
  parse_root max_masters root = elim (h.array root) [
    | none ↦ do i ← parse_instance root (bare_config root); success (i ∷ [])
    | some entries ↦ do is ← parse_entries max_masters 0 entries; finish is
  ]

  -- `ecat_config_parse_all`: of the file it has what `read_file` and `cJSON_Parse` make of it, of the
  -- instances those that it counts. They are none where it fails.
  unfoldable pub parse_all : ℕ → Option (Option h.Node) → Result ConfigError (List NamedConfig)
  unfolding parse_root
  parse_all max_masters document = if ltb max_masters 1 then failure invalid else elim document [
    | none ↦ failure file
    | some none ↦ failure parse
    | some (some root) ↦ parse_root max_masters root
  ]

  -- The "config" object that `ecat_config_parse` takes.
  unfoldable pub single_config : h.Node → Option h.Node
  unfolding bare_config
  single_config root = elim (h.array root) [
    | some [] ↦ none
    | some (first_entry ∷ entries) ↦ h.item first_entry "config"
    | none ↦ if h.is_object root then some (bare_config root) else none
  ]

  -- `ecat_config_parse`
  unfoldable pub parse_one : Option (Option h.Node) → Result ConfigError Config
  unfolding single_config parse_config
  parse_one none = failure file
  parse_one (some none) = failure parse
  parse_one (some (some root)) = elim (single_config root) [
    | none ↦ failure parse
    | some config_obj ↦ parse_config config_obj
  ]

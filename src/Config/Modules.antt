-- ===== src/Config/Modules.antt =====
-- src/config.c: the slot definitions and the modules of a coupler, from their JSON objects.
use ether_dog.Base.{ℕ, true, ◌||◌, ◌-◌, ◌^◌, Option, none, some, List, [], not}
use ether_dog.Base.Int.{pos, pos_part, ltb_ℤ}
use ether_dog.Base.Results.{Result, success, failure, ◌>>=◌, ◌>>◌, refuse_if, each}
use ether_dog.Config.Types.{ConfigError, invalid, SlotDef, Module, Modular}
use ether_dog.Config.Validate.{parse_hex_u32}
use ether_dog.Config.Defaults.{max_name_len, no_modular}
use ether_dog.Config.Host.{Host, safe_strcpy, get_string, get_int, get_hex_u32, get_items}

module _ (h : Host) where
  unfoldable pub parse_class : h.Node → Result ConfigError (List ℕ)
  parse_class json = elim (h.text json) [
    | none ↦ failure invalid
    | some s ↦ success (safe_strcpy s max_name_len)
  ]

  unfoldable pub parse_ident : h.Node → Result ConfigError ℕ
  unfolding parse_hex_u32
  parse_ident json = elim (h.text json) [
    | none ↦ failure invalid
    | some s ↦ elim (parse_hex_u32 s) [ none ↦ failure invalid | some v ↦ success v ]
  ]

  -- `parse_slot_def`
  unfoldable pub parse_slot_def : h.Node → Result ConfigError SlotDef
  unfolding get_int get_items parse_class parse_ident
  parse_slot_def json = do
    let min_instances = get_int h json "min_instances" (pos 0)
    let max_instances = get_int h json "max_instances" (pos 0)
    refuse_if
        (ltb_ℤ min_instances (pos 0)
          || ltb_ℤ max_instances (pos 1)
          || ltb_ℤ max_instances min_instances)
        invalid
    class_items ← get_items h json "module_classes"
    classes ← each parse_class class_items
    ident_items ← get_items h json "module_idents"
    idents ← each parse_ident ident_items
    success (record {
      min_instances = pos_part min_instances;
      max_instances = pos_part max_instances;
      classes = classes;
      idents = idents;
    })

  unfoldable pub parse_module : h.Node → Result ConfigError Module
  unfolding get_int get_string get_hex_u32
  parse_module json = do
    let slot = get_int h json "slot" (pos 0)
    refuse_if (ltb_ℤ slot (pos 1)) invalid
    ident ← get_hex_u32 h json "ident" (2 ^ 32 - 1)
    success (record {
      slot = pos_part slot;
      ident = ident;
      class_name = safe_strcpy (get_string h json "class" []) max_name_len;
    })

  -- `parse_modular`
  unfoldable pub parse_modular : Option h.Node → Result ConfigError Modular
  unfolding get_int get_items parse_slot_def parse_module
  parse_modular none = success no_modular
  parse_modular (some json) = do
    refuse_if (not (h.is_object json)) invalid
    let increment = get_int h json "slot_index_increment" (pos 0)
    refuse_if (ltb_ℤ increment (pos 0) || ltb_ℤ (pos 4095) increment) invalid
    slot_items ← get_items h json "slots"
    slots ← each parse_slot_def slot_items
    module_items ← get_items h json "modules"
    modules ← each parse_module module_items
    success (record {
      present = true;
      slot_index_increment = pos_part increment;
      slots = slots;
      modules = modules;
    })

-- ===== src/Config/Pdos.antt =====
-- src/config.c: the PDOs and the channels of a slave, from their JSON objects.
use ether_dog.Base.{◌&&◌, ℕ, Bool, false, not, leb, ltb, ◌^◌, Option, none, some, List, []}
use ether_dog.Base.Int.{pos, wrap}
use ether_dog.Base.Results.{Result, success, failure, ◌>>=◌, ◌>>◌, refuse_if, each}
use ether_dog.Config.Types.{ConfigError, invalid, PdoEntry, Pdo, IoChannel}
use ether_dog.Config.Validate.{parse_hex_u32}
use ether_dog.Config.DataTypes.{parse_data_type}
use ether_dog.Config.Sdo.{print_hex}
use ether_dog.Config.Defaults.{max_name_len}
use ether_dog.Config.Host.{
  Host, codes, safe_strcpy, get_string, get_int, get_bool, array_items, get_items,
}

-- A hex number from `low` to 0xFFFF.
unfoldable pub is_hex16 : ℕ → List ℕ → Bool
unfolding parse_hex_u32
is_hex16 low s = elim (parse_hex_u32 s) [ none ↦ false | some v ↦ leb low v && leb v 65535 ]

module _ (h : Host) where
  -- `parse_pdo_entry`
  unfoldable pub parse_pdo_entry : h.Node → Result ConfigError PdoEntry
  unfolding is_hex16 get_string get_int parse_data_type
  parse_pdo_entry json = do
    let index = safe_strcpy (get_string h json "index" (codes "0x0000")) 12
    refuse_if (not (is_hex16 0 index)) invalid
    success (record {
      index = index;
      subindex = wrap (get_int h json "subindex" (pos 0)) (2 ^ 8);
      bit_length = wrap (get_int h json "bit_length" (pos 0)) (2 ^ 8);
      name = safe_strcpy (get_string h json "name" []) max_name_len;
      parsed_type = parse_data_type (get_string h json "data_type" []);
    })

  -- `parse_pdo`
  unfoldable pub parse_pdo : h.Node → Result ConfigError Pdo
  unfolding is_hex16 get_string get_bool get_items parse_pdo_entry
  parse_pdo json = do
    let index = safe_strcpy (get_string h json "index" (codes "0x0000")) 12
    refuse_if (not (is_hex16 1 index)) invalid
    items ← get_items h json "entries"
    entries ← each parse_pdo_entry items
    success (record {
      index = index;
      name = safe_strcpy (get_string h json "name" []) max_name_len;
      fixed = get_bool h json "fixed" false;
      entries = entries;
    })

  -- `parse_pdo_array`
  unfoldable pub parse_pdo_array : Option h.Node → Result ConfigError (List Pdo)
  unfolding array_items parse_pdo
  parse_pdo_array pdo_array = do items ← array_items h pdo_array; each parse_pdo items

  unfoldable pub parse_mandatory_pdo : h.Node → Result ConfigError (List ℕ)
  unfolding parse_hex_u32
  parse_mandatory_pdo json = elim (h.text json) [
    | none ↦ failure invalid
    | some s ↦ elim (parse_hex_u32 s) [
      | none ↦ failure invalid
      | some v ↦ do refuse_if (ltb 65535 v) invalid; success (print_hex v)
    ]
  ]

  -- `parse_mandatory_pdos`
  unfoldable pub parse_mandatory_pdos : h.Node → Result ConfigError (List (List ℕ))
  unfolding array_items parse_mandatory_pdo
  parse_mandatory_pdos slave_json = elim (h.item slave_json "mandatory_pdos") [
    | none ↦ success []
    | some list ↦ elim (h.array list) [
      | none ↦ failure invalid
      | some xs ↦ do items ← array_items h (some list); each parse_mandatory_pdo items
    ]
  ]

  -- `parse_channel`
  unfoldable pub parse_channel : h.Node → IoChannel
  unfolding get_string get_int
  parse_channel json = record {
    index = get_int h json "index" (pos 0);
    name = safe_strcpy (get_string h json "name" []) max_name_len;
    type' = safe_strcpy (get_string h json "type" []) 20;
    bit_length = wrap (get_int h json "bit_length" (pos 0)) (2 ^ 8);
    pdo_index = safe_strcpy (get_string h json "pdo_index" []) 12;
    pdo_entry_index = safe_strcpy (get_string h json "pdo_entry_index" []) 12;
    pdo_entry_subindex = wrap (get_int h json "pdo_entry_subindex" (pos 0)) (2 ^ 8);
  }

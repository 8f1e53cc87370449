-- ===== src/Config/Sdo.antt =====
-- src/config.c: an SDO of a slave, from its JSON object.
use ether_dog.Base.{
  ℕ, Bool, true, false, not, ◌||◌, ◌&&◌, ◌+◌, ◌-◌, ◌*◌, ◌/◌, ◌%◌, ◌^◌, ltb, ◌==◌, if◌then◌else◌,
  Option, none, some, List, [], ◌∷◌, length,
}
use ether_dog.Base.Int.{ℤ, pos, negsuc, pos_part, leb_ℤ}
use ether_dog.Base.Results.{Result, success, failure, ◌>>=◌, ◌>>◌, refuse_if}
use ether_dog.Config.Types.{
  ConfigError, invalid, missing, memory, Sdo, DataType, dtype_unknown, dtype_bool, dtype_int8,
  dtype_uint8, dtype_int16, dtype_uint16, dtype_int32, dtype_uint32, dtype_int64, dtype_uint64,
  dtype_real32, dtype_real64, dtype_pad, dtype_bytestring,
}
use ether_dog.Config.Doubles.{Double, finite, is_finite, between}
use ether_dog.Config.Validate.{hex_digit}
use ether_dog.Config.DataTypes.{parse_data_type}
use ether_dog.Config.Host.{
  Host, safe_strcpy, reads_all, has_hex_prefix, get_text, get_string, get_bool, get_numeric_value,
}
use ether_dog.Config.Defaults.{max_name_len}

-- A digit of a %X conversion.
abbrev pub hex_character : ℕ → ℕ
hex_character d = if ltb d 10 then 48 + d else 55 + d

-- "0x%04X" and "0x%04lX", of a number below 2^16
abbrev pub print_hex : ℕ → List ℕ
print_hex v =
    b'0'
    ∷ b'x'
    ∷ hex_character (v / 4096)
    ∷ hex_character ((v / 256) % 16)
    ∷ hex_character ((v / 16) % 16)
    ∷ hex_character (v % 16)
    ∷ []

-- FLT_MAX
abbrev pub flt_max : ℕ
flt_max = (2 ^ 24 - 1) * 2 ^ 104

-- `sdo_value_in_range`. As doubles, 9.223372036854776e18 is 2^63 and 1.844674407370955e19 is
-- 2^64 - 2048.
unfoldable pub sdo_value_in_range : DataType → Double → Bool
sdo_value_in_range dtype_bool v =
    is_finite v && (between (pos 0) (pos 0) v || between (pos 1) (pos 1) v)
sdo_value_in_range dtype_int8 v = is_finite v && between (negsuc 127) (pos 127) v
sdo_value_in_range dtype_uint8 v = is_finite v && between (pos 0) (pos 255) v
sdo_value_in_range dtype_int16 v = is_finite v && between (negsuc 32767) (pos 32767) v
sdo_value_in_range dtype_uint16 v = is_finite v && between (pos 0) (pos 65535) v
sdo_value_in_range dtype_int32 v = is_finite v && between (negsuc 2147483647) (pos 2147483647) v
sdo_value_in_range dtype_uint32 v = is_finite v && between (pos 0) (pos 4294967295) v
sdo_value_in_range dtype_int64 v =
    is_finite v && between (negsuc 9223372036854775807) (pos 9223372036854775808) v
sdo_value_in_range dtype_uint64 v = is_finite v && between (pos 0) (pos 18446744073709549568) v
sdo_value_in_range dtype_real32 v = is_finite v && between (negsuc (flt_max - 1)) (pos flt_max) v
sdo_value_in_range dtype_real64 v = is_finite v
sdo_value_in_range dt v = false

-- The loop over the pairs of hex digits; `none` where one is not hex or a digit is left over.
unfoldable pub hex_bytes : List ℕ → Option (List ℕ)
unfolding hex_digit
hex_bytes [] = some []
hex_bytes (a ∷ []) = none
hex_bytes (a ∷ b ∷ s) =
    let rest = hex_bytes s in
    elim (hex_digit a) [
      | none ↦ none
      | some d ↦ elim (hex_digit b) [
        | none ↦ none
        | some e ↦ elim rest [ none ↦ none | some bs ↦ some ((d * 16 + e) ∷ bs) ]
      ]
    ]

abbrev pub after_prefix : List ℕ → List ℕ
after_prefix (a ∷ b ∷ s) = s
after_prefix s = []

-- The bytes that a string in "value_bytes" stands for. `available` says whether calloc gives memory.
unfoldable pub payload : Bool → List ℕ → Result ConfigError (List ℕ)
unfolding hex_bytes
payload available s =
    if has_hex_prefix s
    then (if (length (after_prefix s) == 0) || not (length (after_prefix s) % 2 == 0)
        then failure invalid
        else if not available
        then failure memory
        else elim (hex_bytes (after_prefix s)) [ none ↦ failure invalid | some bs ↦ success bs ])
    else if not available
    then failure memory
    else success s

-- Where the data type is refused, given whether there is a "value_bytes" string.
abbrev pub refuses_type : DataType → Bool → Bool
refuses_type dtype_unknown has_bytes = true
refuses_type dtype_pad has_bytes = true
refuses_type dtype_bytestring has_bytes = not has_bytes
refuses_type dt has_bytes = has_bytes

unfoldable pub subindex_value : Option (ℤ × Double) → Result ConfigError ℕ
subindex_value none = failure invalid
subindex_value (some (i, d)) =
    if leb_ℤ (pos 0) i && leb_ℤ i (pos 255) then success (pos_part i) else failure invalid

module _ (h : Host) where
  -- The "index" string, which must be there.
  unfoldable pub parse_index : Option (List ℕ) → Result ConfigError (List ℕ)
  parse_index none = failure missing
  parse_index (some s) = do
    refuse_if (length s == 0) missing
    let idx = (h.strtoul s).0
    refuse_if (not (reads_all s (h.strtoul s).1) || (idx == 0) || ltb 65535 idx) invalid
    success (print_hex idx)

  -- The "subindex" field, which may be absent.
  unfoldable pub parse_subindex : Option h.Node → Result ConfigError ℕ
  unfolding subindex_value
  parse_subindex none = success 0
  parse_subindex (some si) = subindex_value (h.number si)

  -- The string in "value_bytes", with whether calloc gives memory for its bytes.
  unfoldable pub value_text : h.Node → Option (List ℕ × Bool)
  value_text json = elim (h.item json "value_bytes") [
    | none ↦ none
    | some v ↦ elim (h.text v) [ none ↦ none | some s ↦ some (s, h.has_memory v) ]
  ]

  -- The value and the bytes of an SDO.
  unfoldable pub parse_value :
      h.Node → DataType → Option (List ℕ × Bool) → Result ConfigError (Double × Option (List ℕ))
  unfolding get_numeric_value sdo_value_in_range payload
  parse_value json dt (some (s, available)) = do
    refuse_if (refuses_type dt true) invalid
    bytes ← payload available s
    success (finite false 0 0, some bytes)
  parse_value json dt none = do
    refuse_if (refuses_type dt false) invalid
    let value = get_numeric_value h json "value" (finite false 0 0)
    refuse_if (not (sdo_value_in_range dt value)) invalid
    success (value, none)

  -- `parse_sdo`
  unfoldable pub parse_sdo : h.Node → Result ConfigError Sdo
  unfolding get_text parse_index parse_subindex value_text parse_value parse_data_type get_string
      get_bool
  parse_sdo json = do
    index ← parse_index (get_text h json "index")
    subindex ← parse_subindex (h.item json "subindex")
    let dt = parse_data_type (get_string h json "data_type" [])
    payload' ← parse_value json dt (value_text json)
    success (record {
      index = index;
      subindex = subindex;
      value = payload'.0;
      value_bytes = payload'.1;
      parsed_type = dt;
      complete_access = get_bool h json "complete_access" false;
      name = safe_strcpy (get_string h json "name" []) max_name_len;
    })

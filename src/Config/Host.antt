-- ===== src/Config/Host.antt =====
-- The calls that src/config.c makes of cJSON and of the C library, as an interface, and the helpers of
-- src/config.c that read a field of a JSON object through it. A string is the list of its bytes
-- without the closing NUL.
use Prim.Native.Char.{code}
use Prim.Native.String.{String}
use ether_dog.Base.{
  ℕ, Bool, false, not, ◌||◌, ◌&&◌, ◌-◌, ltb, ◌==◌, if◌then◌else◌, Option, none, some, List, [], ◌∷◌,
  length, take,
}
use ether_dog.Base.Int.{ℤ}
use ether_dog.Base.Results.{Result, success, failure}
use ether_dog.Config.Types.{ConfigError, invalid, memory}
use ether_dog.Config.Doubles.{Double}
use ether_dog.Config.Validate.{parse_hex_u32}

-- The bytes of a name in the source.
abbrev pub codes : String → List ℕ
codes String.[] = []
codes (String.◌∷◌ c s) = code c ∷ codes s

-- `Node` is a `cJSON *` that is not NULL.
pub record Host : Type 1 where
  pub Node : Type 0
  -- cJSON_GetObjectItemCaseSensitive; `none` is NULL
  pub item : Node → String → Option Node
  -- cJSON_IsObject
  pub is_object : Node → Bool
  -- cJSON_IsArray, with the elements that cJSON_ArrayForEach visits
  pub array : Node → Option (List Node)
  -- cJSON_IsString, with `valuestring`
  pub text : Node → Option (List ℕ)
  -- cJSON_IsNumber, with `valueint` and `valuedouble`
  pub number : Node → Option (ℤ × Double)
  -- cJSON_IsBool, with cJSON_IsTrue
  pub boolean : Node → Option Bool
  -- Whether calloc gives memory for what is read from the node. The program allocates once for a node.
  pub has_memory : Node → Bool
  -- strtoul with base 0, strtoll with base 16 and strtod: the value and the number of bytes read
  pub strtoul : List ℕ → ℕ × ℕ
  pub strtoll : List ℕ → ℤ × ℕ
  pub strtod : List ℕ → Double × ℕ
  -- The conversion of a `long long` to `double`
  pub to_double : ℤ → Double

-- `safe_strcpy` into a buffer of `max_len` bytes, as the string that stands there.
abbrev pub safe_strcpy : List ℕ → ℕ → List ℕ
safe_strcpy src max_len = take (max_len - 1) src

-- `endptr != str && *endptr == '\0'` after `n` bytes
abbrev pub reads_all : List ℕ → ℕ → Bool
reads_all s n = not (n == 0) && (n == length s)

-- The prefix "0x" or "0X".
abbrev pub has_hex_prefix : List ℕ → Bool
has_hex_prefix (a ∷ b ∷ s) = (a == b'0') && ((b == b'x') || (b == b'X'))
has_hex_prefix s = false

module _ (h : Host) where
  unfoldable pub get_text : h.Node → String → Option (List ℕ)
  get_text obj key = elim (h.item obj key) [ none ↦ none | some v ↦ h.text v ]

  -- `get_string`
  unfoldable pub get_string : h.Node → String → List ℕ → List ℕ
  unfolding get_text
  get_string obj key default_val = elim (get_text obj key) [ none ↦ default_val | some s ↦ s ]

  unfoldable pub get_number : h.Node → String → Option (ℤ × Double)
  get_number obj key = elim (h.item obj key) [ none ↦ none | some v ↦ h.number v ]

  -- `get_int`
  unfoldable pub get_int : h.Node → String → ℤ → ℤ
  unfolding get_number
  get_int obj key default_val = elim (get_number obj key) [ none ↦ default_val | some (i, d) ↦ i ]

  -- `get_bool`
  unfoldable pub get_bool : h.Node → String → Bool → Bool
  get_bool obj key default_val = elim (h.item obj key) [
    | none ↦ default_val
    | some v ↦ elim (h.boolean v) [ none ↦ default_val | some b ↦ b ]
  ]

  -- The string case of `get_numeric_value`.
  unfoldable pub read_number : List ℕ → Double → Double
  read_number [] default_val = default_val
  read_number (c ∷ str) default_val =
      if has_hex_prefix (c ∷ str)
      then (if reads_all (c ∷ str) (h.strtoll (c ∷ str)).1
          then h.to_double (h.strtoll (c ∷ str)).0
          else default_val)
      else if reads_all (c ∷ str) (h.strtod (c ∷ str)).1
      then (h.strtod (c ∷ str)).0
      else default_val

  -- `get_numeric_value`
  unfoldable pub get_numeric_value : h.Node → String → Double → Double
  unfolding read_number
  get_numeric_value obj key default_val = elim (h.item obj key) [
    | none ↦ default_val
    | some v ↦ elim (h.number v) [
      | some (i, d) ↦ d
      | none ↦ elim (h.text v) [ none ↦ default_val | some str ↦ read_number str default_val ]
    ]
  ]

  -- `get_hex_u32`
  unfoldable pub get_hex_u32 : h.Node → String → ℕ → Result ConfigError ℕ
  unfolding get_text parse_hex_u32
  get_hex_u32 obj key max = elim (get_text obj key) [
    | none ↦ failure invalid
    | some s ↦ elim (parse_hex_u32 s) [
      | none ↦ failure invalid
      | some v ↦ if ltb max v then failure invalid else success v
    ]
  ]

  -- The elements of an array for which calloc makes room. There are none where there is no array.
  unfoldable pub array_items : Option h.Node → Result ConfigError (List h.Node)
  array_items none = success []
  array_items (some v) = elim (h.array v) [
    | none ↦ success []
    | some [] ↦ success []
    | some (x ∷ xs) ↦ if h.has_memory v then success (x ∷ xs) else failure memory
  ]

  unfoldable pub get_items : h.Node → String → Result ConfigError (List h.Node)
  unfolding array_items
  get_items obj key = array_items (h.item obj key)

-- ===== src/Config/DataTypes.antt =====
-- src/config.c: the names of the data types, and their sizes.
use Prim.Native.String.{String}
use ether_dog.Base.{
  ◌∙◌, ℕ, Bool, true, false, ◌&&◌, ◌+◌, leb, ◌==◌, ◌≡◌, ◌≢◌, if◌then◌else◌, List, [], ◌∷◌, refl,
  arith,
}
use ether_dog.Config.Types.{
  DataType, dtype_unknown, dtype_bool, dtype_int8, dtype_uint8, dtype_int16, dtype_uint16,
  dtype_int32, dtype_uint32, dtype_int64, dtype_uint64, dtype_real32, dtype_real64, dtype_pad,
  dtype_bytestring,
}
use ether_dog.Config.Host.{codes}

unfoldable pub tolower : ℕ → ℕ
tolower c = if leb 65 c && leb c 90 then c + 32 else c

-- Whether `strcasecmp_local` gives 0.
unfoldable pub strcasecmp_local : List ℕ → List ℕ → Bool
unfolding tolower
strcasecmp_local (a ∷ s) (b ∷ t) = (tolower a == tolower b) && strcasecmp_local s t
strcasecmp_local [] [] = true
strcasecmp_local s t = false

-- The names that `ecat_parse_data_type` compares with, in the order of its tests.
abbrev pub type_names : List (String × DataType)
type_names =
    ("BOOL", dtype_bool)
    ∷ ("INT8", dtype_int8)
    ∷ ("SINT", dtype_int8)
    ∷ ("UINT8", dtype_uint8)
    ∷ ("USINT", dtype_uint8)
    ∷ ("BYTE", dtype_uint8)
    ∷ ("INT16", dtype_int16)
    ∷ ("INT", dtype_int16)
    ∷ ("UINT16", dtype_uint16)
    ∷ ("UINT", dtype_uint16)
    ∷ ("WORD", dtype_uint16)
    ∷ ("INT32", dtype_int32)
    ∷ ("DINT", dtype_int32)
    ∷ ("UINT32", dtype_uint32)
    ∷ ("UDINT", dtype_uint32)
    ∷ ("DWORD", dtype_uint32)
    ∷ ("INT64", dtype_int64)
    ∷ ("LINT", dtype_int64)
    ∷ ("UINT64", dtype_uint64)
    ∷ ("ULINT", dtype_uint64)
    ∷ ("LWORD", dtype_uint64)
    ∷ ("REAL", dtype_real32)
    ∷ ("REAL32", dtype_real32)
    ∷ ("FLOAT", dtype_real32)
    ∷ ("LREAL", dtype_real64)
    ∷ ("REAL64", dtype_real64)
    ∷ ("DOUBLE", dtype_real64)
    ∷ ("PAD", dtype_pad)
    ∷ ("VISIBLE_STRING", dtype_bytestring)
    ∷ ("OCTET_STRING", dtype_bytestring)
    ∷ ("STRING", dtype_bytestring)
    ∷ []

-- The first test that holds. An empty string passes none of them.
unfoldable pub first_type : List ℕ → List (String × DataType) → DataType
unfolding strcasecmp_local
first_type s [] = dtype_unknown
first_type s ((name, dt) ∷ names) =
    if strcasecmp_local s (codes name) then dt else first_type s names

-- `ecat_parse_data_type`
unfoldable pub parse_data_type : List ℕ → DataType
unfolding first_type
parse_data_type s = first_type s type_names

-- `ecat_data_type_to_string`
abbrev pub data_type_to_string : DataType → List ℕ
data_type_to_string dtype_unknown = codes "UNKNOWN"
data_type_to_string dtype_bool = codes "BOOL"
data_type_to_string dtype_int8 = codes "INT8"
data_type_to_string dtype_uint8 = codes "UINT8"
data_type_to_string dtype_int16 = codes "INT16"
data_type_to_string dtype_uint16 = codes "UINT16"
data_type_to_string dtype_int32 = codes "INT32"
data_type_to_string dtype_uint32 = codes "UINT32"
data_type_to_string dtype_int64 = codes "INT64"
data_type_to_string dtype_uint64 = codes "UINT64"
data_type_to_string dtype_real32 = codes "REAL32"
data_type_to_string dtype_real64 = codes "REAL64"
data_type_to_string dtype_pad = codes "PAD"
data_type_to_string dtype_bytestring = codes "BYTESTRING"

-- `ecat_data_type_size`
abbrev pub data_type_size : DataType → ℕ
data_type_size dtype_bool = 1
data_type_size dtype_int8 = 1
data_type_size dtype_uint8 = 1
data_type_size dtype_int16 = 2
data_type_size dtype_uint16 = 2
data_type_size dtype_int32 = 4
data_type_size dtype_uint32 = 4
data_type_size dtype_int64 = 8
data_type_size dtype_uint64 = 8
data_type_size dtype_real32 = 4
data_type_size dtype_real64 = 8
data_type_size dt = 0

-- Strings that agree up to case are compared with each name alike.
strcasecmp_local-agree :
    (s t u : List ℕ) → strcasecmp_local s t ≡ true → strcasecmp_local s u ≡ strcasecmp_local t u
unfolding strcasecmp_local
strcasecmp_local-agree [] [] u h = refl
strcasecmp_local-agree [] (b ∷ t) u h = cc
strcasecmp_local-agree (a ∷ s) [] u h = cc
strcasecmp_local-agree (a ∷ s) (b ∷ t) [] h = refl
strcasecmp_local-agree (a ∷ s) (b ∷ t) (c ∷ u) h =
    ground (arith, strcasecmp_local-agree s t u (ground arith))

first_type-agree :
    (s t : List ℕ) (names : List (String × DataType))
    → strcasecmp_local s t ≡ true
    → first_type s names ≡ first_type t names
unfolding first_type
first_type-agree s t [] h = refl
first_type-agree s t ((name, dt) ∷ names) h =
    ground (arith, strcasecmp_local-agree s t (codes name) h, first_type-agree s t names h)

name_read : (dt : DataType) → dt ≢ dtype_bytestring → parse_data_type (data_type_to_string dt) ≡ dt
unfolding parse_data_type
name_read dtype_unknown n = refl
name_read dtype_bool n = refl
name_read dtype_int8 n = refl
name_read dtype_uint8 n = refl
name_read dtype_int16 n = refl
name_read dtype_uint16 n = refl
name_read dtype_int32 n = refl
name_read dtype_uint32 n = refl
name_read dtype_int64 n = refl
name_read dtype_uint64 n = refl
name_read dtype_real32 n = refl
name_read dtype_real64 n = refl
name_read dtype_pad n = refl
name_read dtype_bytestring n = absurd (n refl)

-- A string that agrees up to case with the name that `ecat_data_type_to_string` prints for a data
-- type is read as this type, unless it is BYTESTRING, whose printed name is no name of a type.
parse_data_type-printed :
    (dt : DataType) (s : List ℕ)
    → dt ≢ dtype_bytestring
    → strcasecmp_local s (data_type_to_string dt) ≡ true
    → parse_data_type s ≡ dt
unfolding parse_data_type
parse_data_type-printed dt s n h =
    first_type-agree s (data_type_to_string dt) type_names h ∙ name_read dt n

-- ===== src/Config/Sample.antt =====
-- A JSON document and its interface, for runs of the parser.
use Prim.Native.String.{String}
use text.Mathlib.Text.{◌==◌}
use ether_dog.Base.{
  ◌+◌, ℕ, Bool, true, false, if◌then◌else◌, Option, none, some, List, [], ◌∷◌, length,
}
use ether_dog.Base.Int.{ℤ, pos, negsuc}
use ether_dog.Config.Doubles.{Double, finite}
use ether_dog.Config.Validate.{parse_hex_u32}
use ether_dog.Config.Host.{Host, codes}

-- An object is `field` with its first member and the other members, an array `element` with its first
-- element and the others.
pub data Json : Type 0 where
  integer : ℤ → Json
  string : List ℕ → Json
  boolean : Bool → Json
  empty_object : Json
  field : String → Json → Json → Json
  empty_array : Json
  element : Json → Json → Json

abbrev pub item : Json → String → Option Json
item (field k v rest) key = if k == key then some v else item rest key
item json key = none

abbrev pub is_object : Json → Bool
is_object empty_object = true
is_object (field k v rest) = true
is_object json = false

abbrev pub elements : Json → List Json
elements (element x rest) = x ∷ elements rest
elements json = []

abbrev pub array : Json → Option (List Json)
array empty_array = some []
array (element x rest) = some (x ∷ elements rest)
array json = none

abbrev pub to_double : ℤ → Double
to_double (pos n) = finite false n 0
to_double (negsuc n) = finite true (n + 1) 0

-- The strings of the document have hex numbers only.
unfoldable pub read_hex : List ℕ → ℕ × ℕ
unfolding parse_hex_u32
read_hex s = elim (parse_hex_u32 s) [ none ↦ (0, 0) | some v ↦ (v, length s) ]

abbrev pub host : Host
host = record {
  Node = Json;
  item = item;
  is_object = is_object;
  array = array;
  text = λ j. elim j [ string s ↦ some s | _ ↦ none ];
  number = λ j. elim j [ integer i ↦ some (i, to_double i) | _ ↦ none ];
  boolean = λ j. elim j [ boolean b ↦ some b | _ ↦ none ];
  has_memory = λ j. true;
  strtoul = read_hex;
  strtoll = λ s. (pos (read_hex s).0, (read_hex s).1);
  strtod = λ s. (finite false 0 0, 0);
  to_double = to_double;
}

abbrev object : List (String × Json) → Json
object [] = empty_object
object ((k, v) ∷ fields) = field k v (object fields)

abbrev array_of : List Json → Json
array_of [] = empty_array
array_of (x ∷ xs) = element x (array_of xs)

abbrev hex : String → Json
hex s = string (codes s)

abbrev pub sdo_json : Json
sdo_json = object (
    ("index", hex "0x8000")
    ∷ ("subindex", integer (pos 1))
    ∷ ("data_type", hex "int8")
    ∷ ("value", integer (negsuc 4))
    ∷ [])

abbrev pdo_json : Json
pdo_json = object (
    ("index", hex "0x1600")
    ∷ (
      "entries",
      array_of (object (("index", hex "0x7000") ∷ ("bit_length", integer (pos 8)) ∷ []) ∷ []),
    )
    ∷ [])

abbrev modular_json : Json
modular_json = object (
    ("slots", array_of (object (("max_instances", integer (pos 2)) ∷ []) ∷ []))
    ∷ ("modules", array_of (object (("slot", integer (pos 1)) ∷ ("ident", hex "0x11") ∷ []) ∷ []))
    ∷ [])

abbrev slave_json : Json
slave_json = object (
    ("position", integer (pos 1))
    ∷ ("vendor_id", hex "0x2")
    ∷ ("product_code", hex "0x3")
    ∷ ("sdo_configurations", array_of (sdo_json ∷ []))
    ∷ ("rx_pdos", array_of (pdo_json ∷ []))
    ∷ ("mandatory_pdos", array_of (hex "#x1600" ∷ []))
    ∷ ("modular", modular_json)
    ∷ [])

abbrev pub entry : Json
entry = object (
    ("name", hex "line")
    ∷ ("protocol", hex "EtherCAT")
    ∷ ("config", object (("slaves", array_of (slave_json ∷ [])) ∷ []))
    ∷ [])

-- An entry of another protocol, and one for EtherCAT.
abbrev pub document : Json
document = array_of (object (("protocol", hex "MODBUS") ∷ []) ∷ entry ∷ [])

-- ===== src/Iface/Saved.antt =====
-- src/iface_state.c: the file of what to restore. The file is its bytes, or `none` where there is none.
-- That a write to it fails half-way, which the code does not check, is left out.
use ether_dog.Base.{
  ℕ, Bool, true, false, not, ◌||◌, ◌-◌, List, [], ◌∷◌, ◌++◌, Option, none, some, leb, ◌==◌,
  if◌then◌else◌,
}
use ether_dog.Base.Int.{pos}
use ether_dog.Config.Host.{codes, safe_strcpy}
use ether_dog.Dgram.{equal_bytes}
use ether_dog.Iface.Text.{Text, atoi, decimal, until_nul}
use ether_dog.Iface.Nic.{IfaceState, on_off}

abbrev pub newline : ℕ
newline = 10

-- One line of the file: fprintf with "key=value\n".
abbrev pub line_of : Text → Text → Text
line_of key value = key ++ (b'=' ∷ (value ++ (newline ∷ [])))

abbrev pub coalescing_lines : IfaceState → Text
coalescing_lines s =
    if s.coalescing_saved
    then line_of (codes "rx_usecs") (decimal s.rx_usecs)
      ++ line_of (codes "tx_usecs") (decimal s.tx_usecs)
    else []

abbrev pub offload_lines : IfaceState → Text
offload_lines s =
    if s.offloads_saved
    then line_of (codes "gro") (on_off s.gro)
      ++ (line_of (codes "gso") (on_off s.gso) ++ line_of (codes "tso") (on_off s.tso))
    else []

-- What `persist_state` writes.
unfoldable pub print_state : IfaceState → Text
print_state s = line_of (codes "iface") s.iface ++ (coalescing_lines s ++ offload_lines s)

-- Whether the directory is there, the temporary file opens, and its renaming succeeds.
pub record Writing : Type 0 where
  pub directory : Bool
  pub opened : Bool
  pub renamed : Bool

-- `persist_state`: the file afterwards.
unfoldable pub persist_state : Writing → IfaceState → Option Text → Option Text
unfolding print_state
persist_state w s file =
    if not w.directory
    then file
    else if not w.opened
    then file
    else if not w.renamed
    then file
    else some (print_state s)

-- sizeof(line) - 1
abbrev pub line_room : ℕ
line_room = 127

abbrev pub glue : ℕ → List Text → List Text
glue c [] = (c ∷ []) ∷ []
glue c (l ∷ ls) = (c ∷ l) ∷ ls

-- The lines that fgets gives one after the other, with room for so many bytes in the first.
unfoldable pub fgets_lines : ℕ → Text → List Text
fgets_lines room [] = []
fgets_lines room (c ∷ s) =
    let ends = (c == newline) || leb room 1 in
    let rest = fgets_lines (if ends then line_room else room - 1) s in
    if ends then (c ∷ []) ∷ rest else glue c rest

abbrev pub strip_newline : Text → Text
strip_newline [] = []
strip_newline (c ∷ []) = if c == newline then [] else c ∷ []
strip_newline (c ∷ d ∷ s) = c ∷ strip_newline (d ∷ s)

abbrev pub with_key : ℕ → Option (Text × Text) → Option (Text × Text)
with_key c none = none
with_key c (some (k, v)) = some (c ∷ k, v)

-- The key and the value round the first '='.
abbrev pub split_line : Text → Option (Text × Text)
split_line [] = none
split_line (c ∷ s) = if c == b'=' then some ([], s) else with_key c (split_line s)

-- What a key and its value change.
unfoldable pub load_field : Text → Text → IfaceState → IfaceState
unfolding equal_bytes
load_field key val s =
    if equal_bytes key (codes "rx_usecs")
    then record s { rx_usecs = atoi val; coalescing_saved = true }
    else if equal_bytes key (codes "tx_usecs")
    then record s { tx_usecs = atoi val; coalescing_saved = true }
    else if equal_bytes key (codes "gro")
    then record s { gro = equal_bytes val (codes "on"); offloads_saved = true }
    else if equal_bytes key (codes "gso")
    then record s { gso = equal_bytes val (codes "on"); offloads_saved = true }
    else if equal_bytes key (codes "tso")
    then record s { tso = equal_bytes val (codes "on"); offloads_saved = true }
    else s

abbrev pub load_split : Option (Text × Text) → IfaceState → IfaceState
load_split none s = s
load_split (some (key, val)) s = load_field key val s

unfoldable pub load_line : Text → IfaceState → IfaceState
unfolding load_field
load_line line s = load_split (split_line (strip_newline (until_nul line))) s

abbrev pub load_lines : List Text → IfaceState → IfaceState
load_lines [] s = s
load_lines (l ∷ ls) s = load_lines ls (load_line l s)

-- memset(s, 0, sizeof(*s)) with the name that is then copied, cut to ECAT_IFNAME_MAX - 1 bytes
abbrev pub blank : Text → IfaceState
blank iface = record {
  iface = safe_strcpy iface 128;
  coalescing_saved = false;
  rx_usecs = pos 0;
  tx_usecs = pos 0;
  offloads_saved = false;
  gro = false;
  gso = false;
  tso = false;
}

-- `load_state`
unfoldable pub load_state : Text → Option Text → Option IfaceState
unfolding fgets_lines load_line
load_state iface none = none
load_state iface (some content) = some (load_lines (fgets_lines line_room content) (blank iface))

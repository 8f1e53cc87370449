-- ===== src/Master/Iomap.antt =====
-- src/config.c and src/master.c: the buffer of the process image, and the phase of a start that maps
-- the process data into it. What SOEM reads of a slave, and what its mapping returns, are arguments.
use ether_dog.Base.{
  ◌||◌, ℕ, Bool, true, false, not, ◌&&◌, ◌==◌, ◌+◌, ◌%◌, ◌/◌, ◌^◌, ltb, leb, if◌then◌else◌, Option,
  none, some, List, [], ◌∷◌,
}
use ether_dog.Base.Int.{ℤ, pos, pos_part, leb_ℤ}
use ether_dog.Config.Types.{PdoEntry, Pdo, Slave}

-- ECAT_IOMAP_MIN_BYTES and ECAT_IOMAP_SLACK_PER_SLAVE
abbrev pub iomap_min_bytes : ℕ
iomap_min_bytes = 256

abbrev pub slack_per_slave : ℕ
slack_per_slave = 32

-- The fields of `ecat_master_instance_t` for the process image. `iomap` is the size of the buffer, or
-- `none` where the pointer is NULL.
pub record ImageBuffer : Type 0 where
  pub iomap : Option ℕ
  pub iomap_capacity : ℕ
  pub iomap_used_size : ℕ

abbrev pub entries_bits : List PdoEntry → ℕ
entries_bits [] = 0
entries_bits (e ∷ es) = e.bit_length + entries_bits es

abbrev pub pdo_bits : List Pdo → ℕ
pdo_bits [] = 0
pdo_bits (p ∷ ps) = entries_bits p.entries + pdo_bits ps

-- The loop of `compute_iomap_bytes`: the bits, and the slack.
abbrev pub count_bits : List Slave → ℕ × ℕ
count_bits [] = (0, 0)
count_bits (s ∷ ss) = (
  pdo_bits s.rx_pdos + pdo_bits s.tx_pdos + (count_bits ss).0,
  slack_per_slave + (count_bits ss).1,
)

abbrev pub at_least_min : ℕ → ℕ
at_least_min bytes = if ltb bytes iomap_min_bytes then iomap_min_bytes else bytes

-- `compute_iomap_bytes`
unfoldable pub compute_iomap_bytes : List Slave → ℕ
compute_iomap_bytes slaves = at_least_min (((count_bits slaves).0 + 7) / 8 + (count_bits slaves).1)

abbrev pub has_buffer : Option ℕ → Bool
has_buffer none = false
has_buffer (some size) = true

-- `ecat_master_instance_alloc_iomap`: the image afterwards, and whether the result is 0.
unfoldable pub alloc_iomap : Bool → List Slave → ImageBuffer → ImageBuffer × Bool
unfolding compute_iomap_bytes
alloc_iomap available slaves i =
    let bytes = compute_iomap_bytes slaves in
    if has_buffer i.iomap || not available
    then (i, false)
    else (record { iomap = some bytes; iomap_capacity = bytes; iomap_used_size = 0 }, true)

abbrev pub has_room : Option ℕ → ℕ → ℕ → Bool
has_room none capacity bytes = false
has_room (some size) capacity bytes = leb bytes capacity

-- `ecat_master_instance_grow_iomap`
unfoldable pub grow_iomap : Bool → ℕ → ImageBuffer → ImageBuffer × Bool
grow_iomap available bytes i =
    if has_room i.iomap i.iomap_capacity bytes
    then (i, true)
    else if not available
    then (i, false)
    else (record { iomap = some bytes; iomap_capacity = bytes; iomap_used_size = 0 }, true)

-- What `slave_mapped_bits` reads of a slave: its flags, and what the calls of SOEM give, the outputs
-- first. `pdo_map_ca` is `none` where ecx_readPDOmapCA returns 0.
pub record Reported : Type 0 where
  pub has_coe : Bool
  pub has_sdoca : Bool
  pub has_soe : Bool
  pub pdo_map_ca : Option (ℕ × ℕ)
  pub pdo_map : ℕ × ℕ
  pub idn_map : ℕ × ℕ
  pub sii : ℕ × ℕ
  pub obits : ℕ
  pub ibits : ℕ

abbrev pub is_empty : ℕ × ℕ → Bool
is_empty (o, i) = (o == 0) && (i == 0)

abbrev pub coe_bits : Reported → ℕ × ℕ
coe_bits r =
    if not r.has_coe
    then (0, 0)
    else if not r.has_sdoca
    then r.pdo_map
    else elim r.pdo_map_ca [ none ↦ r.pdo_map | some bits ↦ bits ]

abbrev pub larger : ℕ → ℕ → ℕ
larger a b = if ltb b a then a else b

-- `slave_mapped_bits`
unfoldable pub slave_mapped_bits : Reported → ℕ × ℕ
slave_mapped_bits r =
    let coe' = coe_bits r in
    let soe = if is_empty coe' && r.has_soe then r.idn_map else coe' in
    let bits = if is_empty soe then r.sii else soe in (larger bits.0 r.obits, larger bits.1 r.ibits)

-- The bytes of a number of bits, on uint32.
abbrev pub bit_bytes : ℕ → ℕ
bit_bytes bits = ((bits + 7) % 2 ^ 32) / 8

abbrev pub mapped_bytes : List Reported → ℕ
mapped_bytes [] = 0
mapped_bytes (r ∷ rs) =
    bit_bytes (slave_mapped_bits r).0
    + bit_bytes (slave_mapped_bits r).1
    + slack_per_slave
    + mapped_bytes rs

-- `size_iomap_from_slaves`
unfoldable pub size_iomap_from_slaves : Bool → List Reported → ImageBuffer → ImageBuffer × Bool
unfolding slave_mapped_bits grow_iomap
size_iomap_from_slaves available slaves i =
    grow_iomap available (at_least_min (mapped_bytes slaves)) i

-- The checks of `ecat_master_configure` on what the mapping returns.
unfoldable pub check_mapping : ImageBuffer × Bool → ℤ → ImageBuffer × Bool
check_mapping (grown, ok) io_size =
    if not ok || leb_ℤ io_size (pos 0) || ltb grown.iomap_capacity (pos_part io_size)
    then (grown, false)
    else (record grown { iomap_used_size = pos_part io_size }, true)

-- `ecat_master_configure` up to the mapping: `io_size` is what ecx_config_map_group returns. The
-- result is whether the phase goes on.
unfoldable pub map_process_data : Bool → Bool → List Reported → ℤ → ImageBuffer → ImageBuffer × Bool
unfolding size_iomap_from_slaves check_mapping
map_process_data soem_initialized available slaves io_size i =
    if not soem_initialized
    then (i, false)
    else check_mapping (size_iomap_from_slaves available slaves i) io_size

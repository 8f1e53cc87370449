-- ===== src/Master/Mapping.antt =====
-- src/config.c and src/master.c: the buffer of the process image is large enough for what is mapped.
use ether_dog.Base.Int.{ℤ, pos}
use ether_dog.Base.{
  ℕ, Bool, true, ◌≡◌, ◌≤◌, ◌<◌, ◌+◌, ◌*◌, ◌/◌, refl, arith, inl, inr, Bool-cases, not, ◌||◌, Option,
  none, some, List, [], ◌∷◌,
}
use ether_dog.Config.Types.{Slave}
use ether_dog.Master.Iomap.{
  check_mapping, ImageBuffer, Reported, compute_iomap_bytes, count_bits, pdo_bits, alloc_iomap,
  grow_iomap, mapped_bytes, has_buffer, has_room, size_iomap_from_slaves, map_process_data,
  at_least_min,
}
use ether_dog.Master.Reported.{reported_bytes}

-- The bytes of the configured process image: each slave's outputs and its inputs start at a byte.
abbrev pub image_bytes : List Slave → ℕ
image_bytes [] = 0
image_bytes (s ∷ ss) = (pdo_bits s.rx_pdos + 7) / 8 + (pdo_bits s.tx_pdos + 7) / 8 + image_bytes ss

rounding : (ss : List Slave) → 8 * image_bytes ss ≤ (count_bits ss).0 + 8 * (count_bits ss).1
rounding [] = omega arith
rounding (s ∷ ss) = omega (arith, rounding ss)

-- The buffer that is allocated for a configuration has room for its process image, in which the
-- outputs and the inputs of each slave start at a byte.
pub compute_iomap_bytes-image_bytes : (ss : List Slave) → image_bytes ss ≤ compute_iomap_bytes ss
unfolding compute_iomap_bytes
compute_iomap_bytes-image_bytes ss = ground (arith, rounding ss)

abbrev pub IsSize : Option ℕ → ℕ → Type 0
IsSize none capacity = capacity ≡ 0
IsSize (some size) capacity = size ≡ capacity

-- The capacity is the size of the buffer, 0 without one, and bounds the used size.
pub record IsImage (i : ImageBuffer) : Type 0 where
  pub size : IsSize i.iomap i.iomap_capacity
  pub used : i.iomap_used_size ≤ i.iomap_capacity

has_room-some :
    (o : Option ℕ) (capacity bytes : ℕ)
    → IsSize o capacity
    → has_room o capacity bytes ≡ true
    → (o ≡ some capacity) × (bytes ≤ capacity)
has_room-some none capacity bytes s b = absurd (cc b)
has_room-some (some size) capacity bytes s b = ground arith

pub alloc_iomap-IsImage :
    (available : Bool) (ss : List Slave) (i : ImageBuffer)
    → IsImage i
    → IsImage (alloc_iomap available ss i).0
unfolding alloc_iomap
alloc_iomap-IsImage available ss i v = elim (Bool-cases (has_buffer i.iomap || not available)) [
  | inl b ↦ rw (alloc_iomap, b) v
  | inr b ↦ rw (alloc_iomap, b) (record { size = refl; used = omega arith })
]

pub grow_iomap-IsImage :
    (available : Bool) (bytes : ℕ) (i : ImageBuffer)
    → IsImage i
    → IsImage (grow_iomap available bytes i).0
unfolding grow_iomap
grow_iomap-IsImage available bytes i v =
    elim (Bool-cases (has_room i.iomap i.iomap_capacity bytes)) [
      | inl b ↦ rw (grow_iomap, b) v
      | inr b ↦ elim (Bool-cases (not available)) [
        | inl n ↦ rw (grow_iomap, b, n) v
        | inr n ↦ rw (grow_iomap, b, n) (record { size = refl; used = omega arith })
      ]
    ]

-- After a call that succeeds the buffer is there, with at least the bytes asked for.
grow_iomap-room :
    (available : Bool) (bytes : ℕ) (i : ImageBuffer)
    → IsImage i
    → (grow_iomap available bytes i).1 ≡ true
    → ((grow_iomap available bytes i).0.iomap
        ≡ some (grow_iomap available bytes i).0.iomap_capacity)
      × (bytes ≤ (grow_iomap available bytes i).0.iomap_capacity)
unfolding grow_iomap
grow_iomap-room available bytes i v e =
    elim (Bool-cases (has_room i.iomap i.iomap_capacity bytes)) [
      | inl b ↦ rw (grow_iomap, b) (has_room-some i.iomap i.iomap_capacity bytes v.size b)
      | inr b ↦ ground arith
    ]

-- What the phase leaves: the used size is what the mapping returned, and the buffer has room for the
-- bytes that the slaves reported.
abbrev pub IsMapped : List Reported → ℤ → ImageBuffer → Type 0
IsMapped rs io_size i =
    (i.iomap ≡ some i.iomap_capacity)
    × (pos i.iomap_used_size ≡ io_size)
    × (reported_bytes rs ≤ i.iomap_capacity)

abbrev grown : Bool → List Reported → ImageBuffer → ImageBuffer × Bool
grown available rs i = grow_iomap available (at_least_min (mapped_bytes rs)) i

grown-room :
    (available : Bool) (rs : List Reported) (i : ImageBuffer)
    → IsImage i
    → (grown available rs i).1 ≡ true
    → ((grown available rs i).0.iomap ≡ some (grown available rs i).0.iomap_capacity)
      × (mapped_bytes rs ≤ (grown available rs i).0.iomap_capacity)
grown-room available rs i v e =
    let (s, m) = grow_iomap-room available (at_least_min (mapped_bytes rs)) i v e in
    (s, ground arith)

grown-returns : (rs : List Reported) (i : ImageBuffer) → (grown true rs i).1 ≡ true
unfolding grow_iomap
grown-returns rs i = ground arith

checked :
    (g : ImageBuffer) (ok : Bool) (n : ℕ)
    → ok ≡ true
    → 0 < n
    → n ≤ g.iomap_capacity
    → (check_mapping (g, ok) (pos n)).1 ≡ true
unfolding check_mapping
checked g ok n o z l = ground arith

-- Where the mapping returns no more bytes than the slaves reported, and at least one, the phase goes
-- on, if SOEM is initialised and there is memory.
pub map_process_data-returns :
    (rs : List Reported) (n : ℕ) (i : ImageBuffer)
    → IsImage i
    → 0 < n
    → n ≤ mapped_bytes rs
    → (map_process_data true true rs (pos n) i).1 ≡ true
unfolding map_process_data size_iomap_from_slaves
map_process_data-returns rs n i v z l =
    let o : (grown true rs i).1 ≡ true = grown-returns rs i in
    let (s, m) = grown-room true rs i v o in
    checked (grown true rs i).0 (grown true rs i).1 n o z (omega arith)

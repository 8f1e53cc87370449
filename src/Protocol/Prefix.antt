-- ===== src/Protocol/Prefix.antt =====
-- The decoder reads nothing behind the header: the bytes after the received ones do not matter.
use ether_dog.Base.{
  ℕ, ◌+◌, ◌≤◌, ◌≡◌, List, ◌++◌, length, drop, arith, drop_append_le, take_append_le, get_or-append,
  length-drop, ltb, Bool-cases, inl, inr,
}
use ether_dog.Protocol.{get_field, has_magic, header_of, decode_header, frame_header_size}

get_field-append :
    (p rest : List ℕ) (at n : ℕ) → at + n ≤ length p → get_field (p ++ rest) at n ≡ get_field p at n
unfolding get_field
get_field-append p rest at n h = rw (
  drop_append_le p rest at (omega arith),
  take_append_le (drop at p) rest n (omega (arith, length-drop at p)),
)

header_of-append :
    (p rest : List ℕ) → frame_header_size ≤ length p → header_of (p ++ rest) ≡ header_of p
unfolding header_of
header_of-append p rest h = λ i. record {
  version = get_or-append p rest 4 0 (omega arith) i;
  kind = get_or-append p rest 5 0 (omega arith) i;
  master = get_or-append p rest 6 0 (omega arith) i;
  flags = get_or-append p rest 7 0 (omega arith) i;
  session = get_field-append p rest 8 8 (omega arith) i;
  sequence = get_field-append p rest 16 4 (omega arith) i;
  payload_len = get_field-append p rest 20 2 (omega arith) i;
  wkc = get_field-append p rest 22 2 (omega arith) i;
}

has_magic-append :
    (p rest : List ℕ) → frame_header_size ≤ length p → has_magic (p ++ rest) ≡ has_magic p
has_magic-append p rest h = rw (
  get_or-append p rest 0 0 (omega arith),
  get_or-append p rest 1 0 (omega arith),
  get_or-append p rest 2 0 (omega arith),
  get_or-append p rest 3 0 (omega arith),
)

pub decode_header-append :
    (p rest : List ℕ) (len : ℕ)
    → len ≤ length p
    → decode_header (p ++ rest) len ≡ decode_header p len
unfolding decode_header
decode_header-append p rest len h = elim (Bool-cases (ltb len frame_header_size)) [
  | inl short ↦ rw short
  | inr long ↦
      let fits : frame_header_size ≤ length p = ground arith in
      rw (header_of-append p rest fits, has_magic-append p rest fits)
]

-- ===== src/Protocol.antt =====
-- include/etherdog_protocol.h: the frame header of the data channel, and the sequence order.
-- Bytes are numbers below 256; a buffer is the list of its bytes.
pub mod Bytes
pub mod Frame
pub mod Prefix
pub mod Sequence
pub mod Tests
use ether_dog.Base.{
  ℕ, zero, suc, ◌+◌, ◌-◌, ◌*◌, ◌/◌, ◌%◌, ◌^◌, Bool, true, false, not, ◌&&◌, ◌||◌, List, [], ◌∷◌,
  ◌++◌, Option, none, some, ltb, ◌==◌, if◌then◌else◌, get_or, take, drop,
}

abbrev pub protocol_version : ℕ
protocol_version = 1

abbrev pub frame_header_size : ℕ
frame_header_size = 24

abbrev pub frame_max_payload : ℕ
frame_max_payload = 65507 - frame_header_size

-- EDOG_FRAME_OUTPUTS and EDOG_FRAME_INPUTS
abbrev pub frame_outputs : ℕ
frame_outputs = 1

abbrev pub frame_inputs : ℕ
frame_inputs = 2

-- The weights of the flag bits EDOG_FLAG_VALID and EDOG_FLAG_WKC_OK.
abbrev pub flag_valid : ℕ
flag_valid = 1

abbrev pub flag_wkc_ok : ℕ
flag_wkc_ok = 2

-- `edog_frame_header_t`
pub record Header : Type 0 where
  pub version : ℕ
  pub kind : ℕ
  pub master : ℕ
  pub flags : ℕ
  pub session : ℕ
  pub sequence : ℕ
  pub payload_len : ℕ
  pub wkc : ℕ

-- `p[i] = (uint8_t)(v >> (8 * i))` for `i < n`: the bytes of `v`, lowest first.
unfoldable pub put_bytes : ℕ → ℕ → List ℕ
put_bytes zero v = []
put_bytes (suc n) v = (v % 256) ∷ put_bytes n (v / 256)

-- `v = (v << 8) | p[i]` from the last byte down to the first. The byte is below 256, so the `|` is
-- a sum.
unfoldable pub get_bytes : List ℕ → ℕ
get_bytes [] = 0
get_bytes (b ∷ bs) = get_bytes bs * 256 + b

-- `edog_get_u16` and its siblings read `n` bytes at `p + at`.
unfoldable pub get_field : List ℕ → ℕ → ℕ → ℕ
unfolding get_bytes
get_field p at n = get_bytes (take n (drop at p))

abbrev pub magic : List ℕ
magic = b'E' ∷ b'D' ∷ b'O' ∷ b'G' ∷ []

-- The 24 bytes that `edog_frame_encode_header` writes.
unfoldable pub header_bytes : Header → List ℕ
header_bytes h =
    magic
    ++ ((h.version ∷ h.kind ∷ h.master ∷ h.flags ∷ [])
        ++ (put_bytes 8 h.session
            ++ (put_bytes 4 h.sequence ++ (put_bytes 2 h.payload_len ++ put_bytes 2 h.wkc))))

unfoldable pub encode_header : List ℕ → Header → List ℕ
encode_header out h = header_bytes h ++ drop frame_header_size out

abbrev pub has_magic : List ℕ → Bool
has_magic p =
    (get_or p 0 0 == b'E')
    && (get_or p 1 0 == b'D')
    && (get_or p 2 0 == b'O')
    && (get_or p 3 0 == b'G')

unfoldable pub header_of : List ℕ → Header
header_of p = record {
  version = get_or p 4 0;
  kind = get_or p 5 0;
  master = get_or p 6 0;
  flags = get_or p 7 0;
  session = get_field p 8 8;
  sequence = get_field p 16 4;
  payload_len = get_field p 20 2;
  wkc = get_field p 22 2;
}

-- The checks on the fields, made once the header is read.
unfoldable pub check_fields : ℕ → Header → Option Header
check_fields len h =
    if not (h.version == protocol_version)
    then none
    else if ltb frame_max_payload h.payload_len
    then none
    else if len == frame_header_size + h.payload_len
    then some h
    else none

-- `len` bytes of the buffer `p` were received. `none` is the result `false`.
unfoldable pub decode_header : List ℕ → ℕ → Option Header
unfolding check_fields
decode_header p len =
    if ltb len frame_header_size
    then none
    else if not (has_magic p)
    then none
    else check_fields len (header_of p)

-- `(int32_t)(seq - last) > 0`: the difference wraps at 2 ^ 32, and is positive as an int32_t below
-- 2 ^ 31.
unfoldable pub seq_newer : ℕ → ℕ → Bool
seq_newer seq last = let d : ℕ = (seq + 2 ^ 32 - last) % 2 ^ 32 in ltb 0 d && ltb d (2 ^ 31)

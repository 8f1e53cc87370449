-- ===== src/Protocol/Frame.antt =====
-- `edog_frame_encode_header` and `edog_frame_decode_header` against one another.
use ether_dog.Base.{
  drop_split, take_split, ==_iff, ℕ, ◌+◌, ◌^◌, ◌≤◌, ◌<◌, ◌≡◌, refl, ◌∙◌, ap, ap₂, true, List, [],
  ◌∷◌, ◌++◌, some, arith, length, get_or, take, drop, le→ltb,
}
use ether_dog.Protocol.{
  Header, protocol_version, frame_header_size, frame_max_payload, put_bytes, get_field, magic,
  has_magic, header_bytes, header_of, encode_header, check_fields, decode_header,
}
use ether_dog.Protocol.Bytes.{put_bytes-get_field, AllBytes, get_bytes-put_bytes}

-- The ranges of the C types of the header's fields.
pub record InRange (h : Header) : Type 0 where
  pub version : h.version < 2 ^ 8
  pub kind : h.kind < 2 ^ 8
  pub master : h.master < 2 ^ 8
  pub flags : h.flags < 2 ^ 8
  pub session : h.session < 2 ^ 64
  pub sequence : h.sequence < 2 ^ 32
  pub payload_len : h.payload_len < 2 ^ 16
  pub wkc : h.wkc < 2 ^ 16

pub length-header_bytes : (h : Header) → length (header_bytes h) ≡ 24
unfolding header_bytes put_bytes
length-header_bytes h = refl

-- The fields of a header stand where `header_of` reads them.
header_of-header_bytes :
    (h : Header) (rest : List ℕ) → InRange h → header_of (header_bytes h ++ rest) ≡ h
unfolding header_of header_bytes get_field put_bytes
header_of-header_bytes h rest r = λ i. record {
  version = h.version;
  kind = h.kind;
  master = h.master;
  flags = h.flags;
  session = get_bytes-put_bytes 8 h.session r.session i;
  sequence = get_bytes-put_bytes 4 h.sequence r.sequence i;
  payload_len = get_bytes-put_bytes 2 h.payload_len r.payload_len i;
  wkc = get_bytes-put_bytes 2 h.wkc r.wkc i;
}

pub decode_header-header_bytes :
    (h : Header) (rest : List ℕ) (len : ℕ)
    → InRange h
    → frame_header_size ≤ len
    → decode_header (header_bytes h ++ rest) len ≡ check_fields len h
unfolding decode_header
decode_header-header_bytes h rest len r e =
    rw (le→ltb len frame_header_size e)
      (unfold header_bytes put_bytes in ap (check_fields len) (header_of-header_bytes h rest r))

-- A header whose fields fit their C types, whose version is the protocol's and whose payload is at
-- most `frame_max_payload` bytes, is read back from the frame that starts with its encoding,
-- whatever follows the header, if exactly the header and the payload were received.
pub decode_header-encode_header :
    (h : Header) (out : List ℕ)
    → InRange h
    → h.version ≡ protocol_version
    → h.payload_len ≤ frame_max_payload
    → decode_header (encode_header out h) (frame_header_size + h.payload_len) ≡ some h
unfolding encode_header check_fields
decode_header-encode_header h out r v p =
    decode_header-header_bytes h (drop frame_header_size out) _ r (omega arith) ∙ ground arith

-- What an accepted header says of the datagram.
pub record Decoded (p : List ℕ) (len : ℕ) (h : Header) : Type 0 where
  pub magic_ok : has_magic p ≡ true
  pub version_ok : h.version ≡ protocol_version
  pub payload_ok : h.payload_len ≤ frame_max_payload
  pub len_ok : len ≡ frame_header_size + h.payload_len
  pub fields : header_of p ≡ h

pub decode_header-Decoded :
    (p : List ℕ) (len : ℕ) {h : Header} → decode_header p len ≡ some h → Decoded p len h
unfolding decode_header check_fields
decode_header-Decoded p len e = ground arith

small_fields :
    (p : List ℕ)
    → 8 ≤ length p
    → get_or p 4 0 ∷ get_or p 5 0 ∷ get_or p 6 0 ∷ get_or p 7 0 ∷ [] ≡ take 4 (drop 4 p)
small_fields (_ ∷ _ ∷ _ ∷ _ ∷ a ∷ b ∷ c ∷ d ∷ p) l = refl
small_fields [] l = absurd (omega arith)
small_fields (_ ∷ []) l = absurd (omega arith)
small_fields (_ ∷ _ ∷ []) l = absurd (omega arith)
small_fields (_ ∷ _ ∷ _ ∷ []) l = absurd (omega arith)
small_fields (_ ∷ _ ∷ _ ∷ _ ∷ []) l = absurd (omega arith)
small_fields (_ ∷ _ ∷ _ ∷ _ ∷ _ ∷ []) l = absurd (omega arith)
small_fields (_ ∷ _ ∷ _ ∷ _ ∷ _ ∷ _ ∷ []) l = absurd (omega arith)
small_fields (_ ∷ _ ∷ _ ∷ _ ∷ _ ∷ _ ∷ _ ∷ []) l = absurd (omega arith)

magic_field : (p : List ℕ) → 4 ≤ length p → has_magic p ≡ true → magic ≡ take 4 p
magic_field (a ∷ b ∷ c ∷ d ∷ p) l h =
    ground (arith, ==_iff a b'E', ==_iff b b'D', ==_iff c b'O', ==_iff d b'G')
magic_field [] l h = absurd (omega arith)
magic_field (a ∷ []) l h = absurd (omega arith)
magic_field (a ∷ b ∷ []) l h = absurd (omega arith)
magic_field (a ∷ b ∷ c ∷ []) l h = absurd (omega arith)

-- The first 24 bytes of a buffer are its fields in order.
fields_of_take :
    (p : List ℕ)
    → take 24 p
      ≡ take 4 p
        ++ (take 4 (drop 4 p)
            ++ (take 8 (drop 8 p)
                ++ (take 4 (drop 16 p) ++ (take 2 (drop 20 p) ++ take 2 (drop 22 p)))))
fields_of_take p = rw (
  take_split 4 20 24 p refl,
  take_split 4 16 20 (drop 4 p) refl,
  ← drop_split 4 4 8 p refl,
  take_split 8 8 16 (drop 8 p) refl,
  ← drop_split 8 8 16 p refl,
  take_split 4 4 8 (drop 16 p) refl,
  ← drop_split 16 4 20 p refl,
  take_split 2 2 4 (drop 20 p) refl,
  ← drop_split 20 2 22 p refl,
)

-- A header read from a buffer of bytes that has the magic is written back as the same 24 bytes.
header_bytes-header_of :
    (p : List ℕ)
    → AllBytes p
    → 24 ≤ length p
    → has_magic p ≡ true
    → header_bytes (header_of p) ≡ take 24 p
unfolding header_bytes header_of
header_bytes-header_of p a l m =
    rw
      (
        fields_of_take p,
        put_bytes-get_field p 8 8 a (omega arith),
        put_bytes-get_field p 16 4 a (omega arith),
        put_bytes-get_field p 20 2 a (omega arith),
        put_bytes-get_field p 22 2 a (omega arith),
      )
      (ap₂ (λ xs ys. xs ++ (ys ++ rest)) (magic_field p (omega arith) m)
        (small_fields p (omega arith)))
  where
    rest : List ℕ
    rest = take 8 (drop 8 p) ++ (take 4 (drop 16 p) ++ (take 2 (drop 20 p) ++ take 2 (drop 22 p)))

-- Whatever datagram of bytes the decoder accepts starts with the encoding of the header that it
-- returned, has the protocol's version, and is exactly the header and the announced payload, which
-- is at most `frame_max_payload` bytes.
pub encode_header-decode_header :
    (p : List ℕ) (len : ℕ) (h : Header)
    → AllBytes p
    → len ≤ length p
    → decode_header p len ≡ some h
    → (header_bytes h ≡ take frame_header_size p)
      × (h.version ≡ protocol_version)
      × (h.payload_len ≤ frame_max_payload)
      × (len ≡ frame_header_size + h.payload_len)
encode_header-decode_header p len h a l e =
    let d = decode_header-Decoded p len {h = h} e in
    (
      rw (← d.fields) (header_bytes-header_of p a (omega arith) d.magic_ok),
      d.version_ok,
      d.payload_ok,
      d.len_ok,
    )

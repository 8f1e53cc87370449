-- ===== src/Data/Published.antt =====
-- The input frames that a cycle sends, read back by the decoder of the protocol.
use ether_dog.Base.{
  ℕ, ◌+◌, ◌^◌, Bool, true, List, [], ◌∷◌, ◌++◌, some, ◌==◌, drop, length, ◌%◌, ◌≡◌, refl, sym, ◌∙◌,
  ap, arith, ◌<◌, ◌≤◌, inl, inr, length-drop, length-append, ltb, Bool-cases, take-append,
  drop-append, take_all, memcpy_whole, ◌/◌,
}
use ether_dog.Protocol.{
  frame_inputs, Header, decode_header, frame_header_size, header_bytes, encode_header,
  frame_max_payload, check_fields,
}
use ether_dog.Protocol.Frame.{InRange, length-header_bytes, decode_header-header_bytes}
use ether_dog.Data.Session.{Session, Io, inc32, input_region}
use ether_dog.Base.Int.{ℤ, pos, negsuc}
use ether_dog.Data.Inputs.{
  can_send, input_frame, wire_wkc, Exchange, input_header, fill_frame, publish_inputs,
}

-- A master whose inputs are mapped and whose session is open with the buffer of `alloc_buffers`.
pub record CanPublish (io : Io) (d : Session) (region : List ℕ) : Type 0 where
  pub mapped : input_region io ≡ some region
  pub sized : length region ≡ io.input_bytes
  pub fits : io.input_bytes ≤ frame_max_payload
  pub opened : d.is_open ≡ true
  pub descriptor : (s : ℕ) × (d.fd ≡ some s)
  pub buffer : length d.tx_buf ≡ frame_header_size + io.input_bytes
  pub size : d.tx_buf_size ≡ frame_header_size + io.input_bytes
  pub session : d.session < 2 ^ 64

wire_wkc-lt : (w : ℤ) → wire_wkc w < 2 ^ 16
wire_wkc-lt (pos n) = omega arith
wire_wkc-lt (negsuc n) = omega arith

input_header-InRange :
    (master_index : ℕ) (x : Exchange) (io : Io) (d : Session)
    → d.session < 2 ^ 64
    → InRange (input_header master_index x io d)
unfolding input_header
input_header-InRange master_index x io d s = ground (arith, wire_wkc-lt x.wkc)

nil_of_length : (xs : List ℕ) → length xs ≡ 0 → xs ≡ []
nil_of_length [] e = refl
nil_of_length (x ∷ xs) e = absurd (omega arith)

fill_frame-some :
    (region : List ℕ) (n : ℕ) (buf : List ℕ) (h : Header)
    → length region ≡ n
    → length buf ≡ frame_header_size + n
    → fill_frame (some region) n buf h ≡ header_bytes h ++ region
unfolding fill_frame encode_header
fill_frame-some region n buf h r b =
    let rest = drop frame_header_size buf in
    let l : length rest ≡ n = omega (arith, length-drop frame_header_size buf) in
    let e = length-header_bytes h in
    elim (Bool-cases (ltb 0 n)) [
      | inl some_ ↦ rw (
        some_,
        take-append (header_bytes h) rest 24 (sym e),
        drop-append (header_bytes h) rest 24 (sym e),
        memcpy_whole rest region n l r,
      )
      | inr empty ↦
          let z : n ≡ 0 = ground arith in
          rw empty (
            ap (◌++◌ (header_bytes h))
              (nil_of_length rest (omega arith) ∙ sym (nil_of_length region (omega arith))))
    ]

CanPublish-can_send :
    (io : Io) (d : Session) (region : List ℕ) → CanPublish io d region → can_send io d ≡ true
unfolding can_send
CanPublish-can_send io d region c = rw (c.opened, c.descriptor.1) (ground (arith, c.buffer, c.size))

module _ (master_index : ℕ) (x : Exchange) (io : Io) (d : Session) (region : List ℕ)
    (c : CanPublish io d region) where
  abbrev sent_header : Header
  sent_header = input_header master_index x io d

  input_frame-bytes : input_frame master_index x io d ≡ header_bytes sent_header ++ region
  unfolding input_frame
  input_frame-bytes =
      rw c.mapped (fill_frame-some region io.input_bytes d.tx_buf sent_header c.sized c.buffer)

  length-input_frame :
      length (header_bytes sent_header ++ region) ≡ frame_header_size + io.input_bytes
  length-input_frame = omega (
    arith,
    length-append (header_bytes sent_header) region,
    length-header_bytes sent_header,
    c.sized,
  )

  input_frame-decoded :
      decode_header (header_bytes sent_header ++ region) (frame_header_size + io.input_bytes)
      ≡ some sent_header
  unfolding check_fields input_header
  input_frame-decoded =
      decode_header-header_bytes sent_header region (frame_header_size + io.input_bytes)
        (input_header-InRange master_index x io d c.session) (omega arith)
      ∙ ground (arith, c.fits)

  publish_inputs-sent :
      (sent : Bool)
      → let (d', out) = publish_inputs master_index x true sent io d in
        (out ≡ some (header_bytes sent_header ++ region)) × (d'.tx_seq ≡ inc32 d.tx_seq)
  unfolding publish_inputs
  publish_inputs-sent sent =
      rw (CanPublish-can_send io d region c, input_frame-bytes)
        (
          ap some
              (take_all (frame_header_size + io.input_bytes) _ (omega (arith, length-input_frame))),
          refl,
        )

-- What one input header tells its reader.
pub record Tells (master_index : ℕ) (x : Exchange) (d : Session) (h : Header) : Type 0 where
  pub kind : h.kind ≡ frame_inputs
  pub master : h.master ≡ master_index % 256
  pub session : h.session ≡ d.session
  pub sequence : h.sequence ≡ (d.tx_seq + 1) % 2 ^ 32
  pub operational : (h.flags % 2 == 1) ≡ x.operational
  pub wkc_ok : (h.flags / 2 == 1) ≡ x.wkc_ok

input_header-Tells :
    (master_index : ℕ) (x : Exchange) (io : Io) (d : Session)
    → Tells master_index x d (input_header master_index x io d)
unfolding input_header
input_header-Tells master_index x io d = ground arith

-- With the lock free, an open session with its descriptor, its buffer, mapped inputs of the size
-- of the layout that fit in a frame, and a 64-bit id hands one datagram to the socket. It is
-- accepted by the protocol's decoder; its header has the kind of an input frame, the master's
-- index, the session's id, the next sequence number and the two health flags of the cycle; behind
-- the header are the inputs as they are in the process image. The sequence number counts on
-- whether or not the send succeeds.
pub publish_inputs-decoded :
    (master_index : ℕ) (x : Exchange) (sent : Bool) (io : Io) (d : Session) (region : List ℕ)
    → CanPublish io d region
    → let (d', out) = publish_inputs master_index x true sent io d in
      (p : List ℕ) × (h : Header) × (out ≡ some p)
      × (decode_header p (length p) ≡ some h)
      × Tells master_index x d h
      × (drop frame_header_size p ≡ region)
      × (d'.tx_seq ≡ h.sequence)
unfolding input_header
publish_inputs-decoded master_index x sent io d region c =
    let out = publish_inputs-sent master_index x io d region c sent in
    let h = input_header master_index x io d in
    (
      header_bytes h ++ region,
      h,
      out.0,
      rw (length-input_frame master_index x io d region c)
          (input_frame-decoded master_index x io d region c),
      input_header-Tells master_index x io d,
      drop-append (header_bytes h) region frame_header_size (sym (length-header_bytes h)),
      out.1,
    )

-- ===== src/Data/Step.antt =====
-- One round of the receive loop does with a datagram what `Frames` says.
use ether_dog.Base.{
  ltb→lt, ap, ℕ, ◌+◌, Bool, true, false, Option, none, some, ◌==◌, if◌then◌else◌, drop, length, ◌%◌,
  ◌≡◌, refl, arith, ◌<◌, ◌≤◌, min, Option-cases, inl, inr, ltb, Bool-cases,
}
use ether_dog.Protocol.{Header, frame_header_size, decode_header}
use ether_dog.Protocol.Frame.{decode_header-Decoded}
use ether_dog.Dgram.{Datagram, same_peer}
use ether_dog.Data.Outputs.{judge, Drain, accepts, drop_frame, take_frame, receive, drain_step}
use ether_dog.Data.Frames.{Frame, Terms, is_ours, frame?}
use ether_dog.Data.Receive.{IsOpen, decode-fitting, decode-oversized, accepts-is_ours}

abbrev pub frame_of : Header → Datagram → Frame
frame_of h g = record {
  sequence = h.sequence;
  valid = h.flags % 2 == 1;
  payload = drop frame_header_size g.bytes;
}

-- Where the spec finds a frame, it decoded a header that is ours.
pub frame?-some :
    (t : Terms) (seen : Bool) (last : ℕ) (g : Datagram) (f : Frame)
    → frame? t seen last g ≡ some f
    → (h : Header) × (decode_header g.bytes (length g.bytes) ≡ some h)
      × (is_ours t seen last g h ≡ true)
      × (f ≡ frame_of h g)
unfolding frame?
frame?-some t seen last g f e = elim (Option-cases (decode_header g.bytes (length g.bytes))) [
  | inl none_ ↦ absurd (ground arith)
  | inr (h, is) ↦ (h, is, ground arith, ground arith)
]

is_ours-payload_len :
    (t : Terms) (seen : Bool) (last : ℕ) (g : Datagram) (h : Header)
    → is_ours t seen last g h ≡ true
    → h.payload_len ≡ t.output_bytes
unfolding is_ours
is_ours-payload_len t seen last g h e = ground arith

pub length-frame? :
    (t : Terms) (seen : Bool) (last : ℕ) (g : Datagram) (f : Frame)
    → frame? t seen last g ≡ some f
    → length g.bytes ≡ frame_header_size + t.output_bytes
length-frame? t seen last g f e =
    let (h, is, ours, q) = frame?-some t seen last g f e in
    omega (
      arith,
      (decode_header-Decoded g.bytes (length g.bytes) {h = h} is).len_ok,
      is_ours-payload_len t seen last g h ours,
    )

module _ (t : Terms) (s : Drain) (g : Datagram) (o : IsOpen t s.session) where
  abbrev pub received : Drain
  received = record s { session = receive s.session g }

  judged : Option Header → Drain
  judged = judge t.master_index t.output_bytes (same_peer s.session.peer g.sender) received

  drain_step-fits :
      length g.bytes ≤ s.session.rx_buf_size
      → drain_step t.master_index t.output_bytes s g
        ≡ judged (decode_header g.bytes (length g.bytes))
  unfolding drain_step receive judged
  drain_step-fits h = ap judged (decode-fitting t.output_bytes s.session g o.ready h)

  judged-some :
      (h : Header)
      → judged (some h) ≡ (
          if is_ours t s.session.rx_seen s.session.rx_last_seq g h
          then take_frame t.master_index t.output_bytes received h
          else drop_frame received)
  unfolding judged judge receive
  judged-some h = rw (← accepts-is_ours t received.session g h o.peer o.session)

  judge-over :
      (a : Header)
      → (a.payload_len == t.output_bytes) ≡ false
      → judge t.master_index t.output_bytes (same_peer s.session.peer g.sender) received (some a)
        ≡ drop_frame received
  unfolding judge accepts
  judge-over a other = ground arith

  drain_step-over :
      s.session.rx_buf_size < length g.bytes
      → drain_step t.master_index t.output_bytes s g ≡ drop_frame received
  unfolding drain_step judge receive
  drain_step-over over =
      elim (Option-cases
        (decode_header received.session.rx_buf (min (length g.bytes) s.session.rx_buf_size))) [
          | inl bad ↦ rw bad
          | inr (a, is) ↦
              rw is (judge-over a (decode-oversized t.output_bytes s.session g o.ready a over is))
        ]

  pub drain_step-none :
      frame? t s.session.rx_seen s.session.rx_last_seq g ≡ none
      → drain_step t.master_index t.output_bytes s g ≡ drop_frame received
  unfolding frame?
  drain_step-none e = elim (Bool-cases (ltb s.session.rx_buf_size (length g.bytes))) [
    | inl over ↦ drain_step-over (ltb→lt _ _ over)
    | inr small ↦
        let h : length g.bytes ≤ s.session.rx_buf_size = ground arith in
        elim (Option-cases (decode_header g.bytes (length g.bytes))) [
          | inl bad ↦ rw (drain_step-fits h, bad) (unfold judged judge in refl)
          | inr (a, is) ↦
              let other : is_ours t s.session.rx_seen s.session.rx_last_seq g a ≡ false =
                ground arith in
              rw (drain_step-fits h, is, judged-some a, other)
        ]
  ]

  pub drain_step-some :
      (f : Frame)
      → frame? t s.session.rx_seen s.session.rx_last_seq g ≡ some f
      → (h : Header) × (drain_step t.master_index t.output_bytes s g
          ≡ take_frame t.master_index t.output_bytes received h)
        × (f ≡ frame_of h g)
  drain_step-some f e =
      let (h, is, ours, q) = frame?-some t s.session.rx_seen s.session.rx_last_seq g f e in
      let long = length-frame? t s.session.rx_seen s.session.rx_last_seq g f e in
      (h, rw (drain_step-fits (omega (arith, o.ready.size, long)), is, judged-some h, ours), q)

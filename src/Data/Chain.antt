-- ===== src/Data/Chain.antt =====
-- The frames that a session accepts: whose they are, and in which order.
use ether_dog.Base.{
  ℕ, ◌^◌, Bool, true, List, [], ◌∷◌, none, some, length, ◌%◌, ◌≡◌, refl, arith, ◌<◌, Option-cases,
  inl, inr, length-drop,
}
use ether_dog.Protocol.{Header, seq_newer, decode_header, frame_header_size}
use ether_dog.Protocol.Sequence.{seq_newer_self}
use ether_dog.Dgram.{Datagram, same_peer}
use ether_dog.Data.Frames.{Frame, Terms, accepted, frame?, is_ours}
use ether_dog.Data.Step.{frame?-some, length-frame?, frame_of}
use ether_dog.Data.Drain.{accepted-none, accepted-some}

-- Each frame has the payload that the layout asks for, and is newer than the frame before it. The
-- first one is newer than `last`, if a frame was seen before.
abbrev pub Chain : ℕ → Bool → ℕ → List Frame → Type 0
Chain n seen last [] = Unit {0}
Chain n seen last (f ∷ fs) =
    (length f.payload ≡ n)
    × (seen ≡ true → seq_newer f.sequence last ≡ true)
    × Chain n true f.sequence fs

frame?-newer :
    (t : Terms) (seen : Bool) (last : ℕ) (g : Datagram) (f : Frame)
    → frame? t seen last g ≡ some f
    → seen ≡ true
    → seq_newer f.sequence last ≡ true
unfolding is_ours
frame?-newer t seen last g f e s =
    let (h, is, ours, q) = frame?-some t seen last g f e in rw q (ground (arith, ours))

length-payload :
    (t : Terms) (seen : Bool) (last : ℕ) (g : Datagram) (f : Frame)
    → frame? t seen last g ≡ some f
    → length f.payload ≡ t.output_bytes
length-payload t seen last g f e =
    let (h, is, ours, q) = frame?-some t seen last g f e in
    rw q (omega (arith, length-drop frame_header_size g.bytes, length-frame? t seen last g f e))

-- Whatever is queued, the accepted frames have exactly `output_bytes` bytes of payload each, and
-- rising sequence numbers in the order of `seq_newer`, from the last one of the earlier cycles on.
pub accepted-Chain :
    (t : Terms) (seen : Bool) (last : ℕ) (gs : List Datagram)
    → Chain t.output_bytes seen last (accepted t seen last gs)
unfolding accepted
accepted-Chain t seen last [] = tt
accepted-Chain t seen last (g ∷ gs) = elim (Option-cases (frame? t seen last g)) [
  | inl e ↦ rw (accepted-none t seen last g gs e) (accepted-Chain t seen last gs)
  | inr (f, e) ↦ rw (accepted-some t seen last g gs f e) (
    length-payload t seen last g f e,
    frame?-newer t seen last g f e,
    accepted-Chain t true f.sequence gs,
  )
]

-- What the header of an accepted frame says.
pub record OutputFrame (t : Terms) (g : Datagram) (h : Header) : Type 0 where
  pub decoded : decode_header g.bytes (length g.bytes) ≡ some h
  pub outputs : h.kind ≡ 1
  pub master : h.master ≡ t.master_index % 256
  pub session : h.session ≡ t.session
  pub payload_len : h.payload_len ≡ t.output_bytes
  pub sender : same_peer t.peer g.sender ≡ true

-- A datagram gives a frame only if it decodes, and its header has the kind of an output frame, the
-- master's index, the session's id and the layout's payload length, and the peer sent it.
frame?-OutputFrame :
    (t : Terms) (seen : Bool) (last : ℕ) (g : Datagram) (f : Frame)
    → frame? t seen last g ≡ some f
    → (h : Header) × OutputFrame t g h × (f ≡ frame_of h g)
unfolding is_ours
frame?-OutputFrame t seen last g f e =
    let (h, is, ours, q) = frame?-some t seen last g f e in (h, ground (arith, is, ours), q)

-- A frame with a 32-bit sequence number that was the last one accepted is dropped when it comes
-- again.
frame?-replay :
    (t : Terms) (seen : Bool) (last : ℕ) (g : Datagram) (f : Frame)
    → f.sequence < 2 ^ 32
    → frame? t seen last g ≡ some f
    → frame? t true f.sequence g ≡ none
frame?-replay t seen last g f b e = elim (Option-cases (frame? t true f.sequence g)) [
  | inl old ↦ old
  | inr (f', new) ↦
      let (h, is, ours, q) = frame?-some t seen last g f e in
      let (h', is', ours', q') = frame?-some t true f.sequence g f' new in
      absurd
        (ground (arith, frame?-newer t true f.sequence g f' new refl, seq_newer_self f.sequence b))
]

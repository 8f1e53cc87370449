-- ===== src/Data/Frames.antt =====
-- What a session should make of the datagrams of one cycle, with no buffers and no counters: the
-- output frames that it accepts, in order.
use ether_dog.Base.{
  ℕ, Bool, true, not, ◌&&◌, List, [], ◌∷◌, Option, none, some, ◌==◌, if◌then◌else◌, drop, length,
  ◌%◌, ◌||◌,
}
use ether_dog.Protocol.{Header, frame_header_size, frame_outputs, decode_header, seq_newer}
use ether_dog.Dgram.{Address, Datagram, same_peer}

-- An accepted output frame: its sequence number, whether it is marked valid, and its payload.
pub record Frame : Type 0 where
  pub sequence : ℕ
  pub valid : Bool
  pub payload : List ℕ

-- The parts of a session that stay the same while it is open.
pub record Terms : Type 0 where
  pub master_index : ℕ
  pub output_bytes : ℕ
  pub session : ℕ
  pub peer : Address

-- A frame is for this session if its header says so, it comes from the peer, and its sequence
-- number is newer than the last one, unless it is the first.
unfoldable pub is_ours : Terms → Bool → ℕ → Datagram → Header → Bool
is_ours t seen last g h =
    (not seen || seq_newer h.sequence last)
    && same_peer t.peer g.sender
    && (h.payload_len == t.output_bytes)
    && (h.session == t.session)
    && (h.master == t.master_index % 256)
    && (h.kind == frame_outputs)

unfoldable pub frame? : Terms → Bool → ℕ → Datagram → Option Frame
unfolding is_ours
frame? t seen last g = elim (decode_header g.bytes (length g.bytes)) [
  | none ↦ none
  | some h ↦
      if is_ours t seen last g h
      then some (record {
        sequence = h.sequence;
        valid = h.flags % 2 == 1;
        payload = drop frame_header_size g.bytes;
      })
      else none
]

unfoldable pub accepted : Terms → Bool → ℕ → List Datagram → List Frame
accepted t seen last [] = []
accepted t seen last (g ∷ gs) = elim (frame? t seen last g) [
  | none ↦ accepted t seen last gs
  | some f ↦ f ∷ accepted t true f.sequence gs
]

-- The newer one of a frame and what comes after it.
abbrev pub later : Frame → Option Frame → Option Frame
later f none = some f
later f (some g) = some g

unfoldable pub newest : List Frame → Option Frame
newest [] = none
newest (f ∷ fs) = later f (newest fs)

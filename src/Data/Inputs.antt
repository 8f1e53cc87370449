-- ===== src/Data/Inputs.antt =====
-- src/data.c: `ecat_data_publish_inputs`, on the bus thread after each exchange.
use ether_dog.Base.{
  ℕ, ◌+◌, ◌%◌, ◌^◌, Bool, true, false, not, ◌||◌, List, ◌++◌, Option, none, some, ltb, ◌==◌,
  if◌then◌else◌, length, take, drop, memcpy,
}
use ether_dog.Base.Int.{ℤ, pos, negsuc}
use ether_dog.Protocol.{
  Header, frame_header_size, frame_inputs, flag_valid, flag_wkc_ok, protocol_version, encode_header,
}
use ether_dog.Data.Session.{Session, Io, inc32, inc64, input_region}

-- What one cycle tells the client about the exchange.
pub record Exchange : Type 0 where
  pub wkc : ℤ
  pub operational : Bool
  pub wkc_ok : Bool

abbrev pub wire_wkc : ℤ → ℕ
wire_wkc (pos n) = n % 2 ^ 16
wire_wkc (negsuc n) = 0

unfoldable pub input_header : ℕ → Exchange → Io → Session → Header
input_header master_index x io d = record {
  version = protocol_version;
  kind = frame_inputs;
  master = master_index % 256;
  flags = (if x.operational then flag_valid else 0) + (if x.wkc_ok then flag_wkc_ok else 0);
  session = d.session;
  sequence = inc32 d.tx_seq;
  payload_len = io.input_bytes % 2 ^ 16;
  wkc = wire_wkc x.wkc;
}

-- The frame buffer once the header and the inputs are written.
unfoldable pub fill_frame : Option (List ℕ) → ℕ → List ℕ → Header → List ℕ
fill_frame none n buf h = encode_header buf h
fill_frame (some region) n buf h =
    let out = encode_header buf h in
    if ltb 0 n
    then take frame_header_size out ++ memcpy (drop frame_header_size out) region n
    else out

-- The early return: no open session, no descriptor, or a buffer that is missing or too small.
unfoldable pub can_send : Io → Session → Bool
can_send io d = not (
    not d.is_open
    || (is_closed d.fd
        || ((length d.tx_buf == 0) || ltb d.tx_buf_size (frame_header_size + io.input_bytes))))
  where
    is_closed : Option ℕ → Bool
    is_closed none = true
    is_closed (some s) = false

-- The buffer of this cycle.
unfoldable pub input_frame : ℕ → Exchange → Io → Session → List ℕ
input_frame master_index x io d =
    fill_frame (input_region io) io.input_bytes d.tx_buf (input_header master_index x io d)

-- `ecat_data_publish_inputs`, with the results of `trylock` and of the send: the session
-- afterwards, and the datagram that is handed to the socket, if one is.
unfoldable pub publish_inputs :
    ℕ → Exchange → Bool → Bool → Io → Session → Session × Option (List ℕ)
publish_inputs master_index x locked sent io d =
    if not locked
    then (d, none)
    else if not (can_send io d)
    then (d, none)
    else (published, some (take (frame_header_size + io.input_bytes) frame))
  where
    frame : List ℕ
    frame = input_frame master_index x io d

    published : Session
    published = record d {
      tx_seq = inc32 d.tx_seq;
      tx_buf = frame;
      frames_tx = if sent then inc64 d.frames_tx else d.frames_tx;
      frames_dropped = if sent then d.frames_dropped else inc64 d.frames_dropped;
    }

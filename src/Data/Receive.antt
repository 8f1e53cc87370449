-- ===== src/Data/Receive.antt =====
-- One round of the receive loop against `Frames`: the buffer of one frame plus one byte loses
-- nothing that an acceptable frame holds.
use ether_dog.Base.{
  ℕ, ◌+◌, false, some, ◌==◌, drop, take, length, ◌≡◌, arith, ◌<◌, ◌≤◌, min, take_all, length-take,
  length-drop, length-append,
}
use ether_dog.Protocol.{Header, frame_header_size, decode_header}
use ether_dog.Protocol.Frame.{decode_header-Decoded}
use ether_dog.Protocol.Prefix.{decode_header-append}
use ether_dog.Dgram.{Datagram, same_peer}
use ether_dog.Data.Session.{Session}
use ether_dog.Data.Outputs.{accepts, receive}
use ether_dog.Data.Frames.{Terms, is_ours}

-- The buffers are those that `alloc_buffers` made for `n` output bytes.
pub record IsReady (n : ℕ) (d : Session) : Type 0 where
  pub size : d.rx_buf_size ≡ frame_header_size + n + 1
  pub buffer : length d.rx_buf ≡ frame_header_size + n + 1
  pub latest : n ≤ length d.rx_latest

module _ (n : ℕ) (d : Session) (g : Datagram) (r : IsReady n d) where
  length-received : length (receive d g).rx_buf ≡ frame_header_size + n + 1
  unfolding receive
  length-received =
      let k = min (length g.bytes) d.rx_buf_size in
      omega (
        arith,
        r.size,
        r.buffer,
        length-append (take k g.bytes) (drop k d.rx_buf),
        length-take k g.bytes,
        length-drop k d.rx_buf,
      )

  pub receive-IsReady : IsReady n (receive d g)
  unfolding receive
  receive-IsReady = record { size = r.size; buffer = length-received; latest = r.latest }

  -- A datagram that fits is decoded as it was sent.
  pub decode-fitting :
      length g.bytes ≤ d.rx_buf_size
      → decode_header (receive d g).rx_buf (min (length g.bytes) d.rx_buf_size)
        ≡ decode_header g.bytes (length g.bytes)
  unfolding receive
  decode-fitting h =
      let whole : min (length g.bytes) d.rx_buf_size ≡ length g.bytes = omega arith in
      rw (whole, take_all (length g.bytes) g.bytes (omega arith))
        (decode_header-append g.bytes (drop (length g.bytes) d.rx_buf) (length g.bytes)
          (omega arith))

  -- A longer one is cut off, and then has another payload length than `n`.
  pub decode-oversized :
      (h : Header)
      → d.rx_buf_size < length g.bytes
      → decode_header (receive d g).rx_buf (min (length g.bytes) d.rx_buf_size) ≡ some h
      → (h.payload_len == n) ≡ false
  decode-oversized h over e =
      let cut = decode_header-Decoded (receive d g).rx_buf _ {h = h} e in
      ground (arith, r.size, cut.len_ok)

-- The session is open on these terms.
pub record IsOpen (t : Terms) (d : Session) : Type 0 where
  pub peer : d.peer ≡ t.peer
  pub session : d.session ≡ t.session
  pub ready : IsReady t.output_bytes d

pub accepts-is_ours :
    (t : Terms) (d : Session) (g : Datagram) (h : Header)
    → d.peer ≡ t.peer
    → d.session ≡ t.session
    → accepts t.master_index t.output_bytes d h (same_peer d.peer g.sender)
      ≡ is_ours t d.rx_seen d.rx_last_seq g h
unfolding accepts is_ours
accepts-is_ours t d g h p s = rw (p, s) (ground arith)

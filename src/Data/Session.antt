-- ===== src/Data/Session.antt =====
-- src/data.c: the state of a data session, its buffers, and opening and closing it. The control
-- thread holds the session lock in each of these operations.
use ether_dog.Base.{
  ℕ, ◌+◌, ◌%◌, ◌^◌, Bool, true, false, not, ◌||◌, List, [], Option, none, some, ltb, ◌==◌,
  if◌then◌else◌, length, replicate,
}
use ether_dog.Base.Int.{ℤ}
use ether_dog.Protocol.{frame_header_size, frame_max_payload}
use ether_dog.Dgram.{Libc, parse, Address, inet}

-- ECAT_DATA_TIMEOUT_MS
abbrev pub data_timeout_ms : ℕ
data_timeout_ms = 100

-- `++x` on a uint32_t, and `atomic_fetch_add(&x, 1)` on a uint64_t
abbrev pub inc32 : ℕ → ℕ
inc32 x = (x + 1) % 2 ^ 32

abbrev pub inc64 : ℕ → ℕ
inc64 x = (x + 1) % 2 ^ 64

-- `ecat_data_session_t`. A descriptor of -1 is `none`, and a NULL buffer is the empty list: an
-- allocated one is never empty.
pub record Session : Type 0 where
  pub is_open : Bool
  pub fd : Option ℕ
  pub peer : Address
  pub local_path : List ℕ
  pub session : ℕ
  pub tx_seq : ℕ
  pub rx_last_seq : ℕ
  pub rx_seen : Bool
  pub cycles_since_output : ℕ
  pub outputs_zeroed : Bool
  pub rx_buf : List ℕ
  pub rx_buf_size : ℕ
  pub rx_latest : List ℕ
  pub tx_buf : List ℕ
  pub tx_buf_size : ℕ
  pub frames_rx : ℕ
  pub frames_tx : ℕ
  pub frames_dropped : ℕ
  pub watchdog_trips : ℕ

-- What the session uses of its master: the two regions of the process image that SOEM mapped
-- (`none` is a NULL pointer), their sizes in the published layout, and the cycle time.
pub record Io : Type 0 where
  pub soem_initialized : Bool
  pub outputs : Option (List ℕ)
  pub inputs : Option (List ℕ)
  pub output_bytes : ℕ
  pub input_bytes : ℕ
  pub cycle_time_us : ℤ

pub record Channel : Type 0 where
  pub io : Io
  pub data_session : Session

-- `ecat_data_init`: every field zero, and no descriptor.
unfoldable pub init : Session
init = record {
  is_open = false;
  fd = none;
  peer = inet 0 0;
  local_path = [];
  session = 0;
  tx_seq = 0;
  rx_last_seq = 0;
  rx_seen = false;
  cycles_since_output = 0;
  outputs_zeroed = false;
  rx_buf = [];
  rx_buf_size = 0;
  rx_latest = [];
  tx_buf = [];
  tx_buf_size = 0;
  frames_rx = 0;
  frames_tx = 0;
  frames_dropped = 0;
  watchdog_trips = 0;
}

-- `ecat_data_alloc_buffers`. `memory` tells whether the three allocations succeed; `none` is the
-- result -1, which leaves the session as it was.
unfoldable pub alloc_buffers : Bool → Io → Session → Option Session
alloc_buffers memory io d =
    if ltb frame_max_payload io.output_bytes || ltb frame_max_payload io.input_bytes
    then none
    else if not memory
    then none
    else some allocated
  where
    rx_size : ℕ
    rx_size = frame_header_size + io.output_bytes + 1

    tx_size : ℕ
    tx_size = frame_header_size + io.input_bytes

    allocated : Session
    allocated = record d {
      rx_buf = replicate rx_size 0;
      rx_buf_size = rx_size;
      rx_latest = replicate (if ltb 0 io.output_bytes then io.output_bytes else 1) 0;
      tx_buf = replicate tx_size 0;
      tx_buf_size = tx_size;
    }

unfoldable pub free_buffers : Session → Session
free_buffers d = record d {
  rx_buf = [];
  rx_latest = [];
  tx_buf = [];
  rx_buf_size = 0;
  tx_buf_size = 0;
}

-- `close_locked`, which is all that `ecat_data_close` does. Closing the descriptor and unlinking
-- the path are effects outside the session.
unfoldable pub close : Session → Session
close d = record d { fd = none; local_path = []; is_open = false; session = 0; rx_seen = false }

-- What opening a session takes from outside: the client's endpoint (`none` is NULL), the socket with its bound
-- path (`none` where `edog_dgram_open` fails), and the number from `random_session`.
pub record Opening : Type 0 where
  pub client_endpoint : Option (List ℕ)
  pub socket : Option (ℕ × List ℕ)
  pub nonce : ℕ

unfoldable pub data_null : List ℕ → Bool
data_null b = length b == 0

unfoldable pub client_address : Libc → Option (List ℕ) → Option Address
client_address c none = none
client_address c (some spec) = parse c spec

-- The session once the socket is open.
unfoldable pub opened : Session → ℕ × List ℕ → Address → ℕ → Session
opened d (s, path) address nonce = record (close d) {
  fd = some s;
  local_path = path;
  peer = address;
  session = nonce;
  tx_seq = 0;
  rx_last_seq = 0;
  rx_seen = false;
  cycles_since_output = 0;
  outputs_zeroed = false;
  is_open = true;
}

unfoldable pub open_to : Opening → Address → Session → Session × Option ℕ
unfolding data_null
open_to o address d =
    if data_null d.rx_buf || data_null d.tx_buf then (close d, none) else elim o.socket [
      | none ↦ (close d, none)
      | some s ↦ (opened d s address o.nonce, some o.nonce)
    ]

-- `ecat_data_open`: the session afterwards, and the session id on success.
unfoldable pub open_session : Libc → Opening → Session → Session × Option ℕ
unfolding client_address
open_session c o d = elim (client_address c o.client_endpoint) [
  | none ↦ (d, none)
  | some address ↦ open_to o address d
]

-- `ecat_layout_output_region` and `ecat_layout_input_region`
unfoldable pub output_region : Io → Option (List ℕ)
output_region io = if io.soem_initialized then io.outputs else none

unfoldable pub input_region : Io → Option (List ℕ)
input_region io = if io.soem_initialized then io.inputs else none

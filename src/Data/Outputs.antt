-- ===== src/Data/Outputs.antt =====
-- src/data.c: `ecat_data_apply_outputs`, on the bus thread before each exchange.
use ether_dog.Base.{
  Option, ℕ, ◌*◌, ◌/◌, ◌%◌, ◌^◌, Bool, true, false, not, ◌&&◌, List, [], ◌∷◌, none, some, ltb, ◌==◌,
  if◌then◌else◌, length, drop, memcpy, zero_fill, min,
}
use ether_dog.Base.Int.{ℤ, pos, ltb_ℤ, pos_part}
use ether_dog.Protocol.{Header, frame_header_size, frame_outputs, decode_header, seq_newer}
use ether_dog.Dgram.{Datagram, same_peer}
use ether_dog.Data.Session.{Session, Io, Channel, inc32, inc64, data_timeout_ms, output_region}

-- The watchdog's limit: 100 ms in cycles, at least 3. The cast wraps at 2 ^ 32.
unfoldable pub timeout_cycles : ℤ → ℕ
timeout_cycles cycle_time_us = if ltb cycles 3 then 3 else cycles
  where
    cycle_us : ℕ
    cycle_us = if ltb_ℤ (pos 0) cycle_time_us then pos_part cycle_time_us else 1000

    cycles : ℕ
    cycles = ((data_timeout_ms * 1000) / cycle_us) % 2 ^ 32

-- `h.flags & EDOG_FLAG_VALID`, the lowest bit
abbrev pub is_valid_flag : ℕ → Bool
is_valid_flag flags = flags % 2 == 1

-- The locals of the receive loop beside the session.
pub record Drain : Type 0 where
  pub session : Session
  pub have_new : Bool
  pub latest_valid : Bool

unfoldable pub drop_frame : Drain → Drain
drop_frame s =
    let d = s.session in record s { session = record d { frames_dropped = inc64 d.frames_dropped } }

-- `edog_dgram_recv`: at most `rx_buf_size` bytes of the datagram go to the buffer.
unfoldable pub receive : Session → Datagram → Session
receive d g = record d { rx_buf = memcpy d.rx_buf g.bytes (min (length g.bytes) d.rx_buf_size) }

module _ (master_index out_bytes : ℕ) where
  -- The checks of one received frame, as the frame passes them.
  unfoldable pub accepts : Session → Header → Bool → Bool
  accepts d h from_peer =
      (h.kind == frame_outputs)
      && (h.master == master_index % 256)
      && (h.session == d.session)
      && (h.payload_len == out_bytes)
      && from_peer
      && not (d.rx_seen && not (seq_newer h.sequence d.rx_last_seq))

  unfoldable pub take_frame : Drain → Header → Drain
  take_frame s h =
      let d = s.session in
      let valid = is_valid_flag h.flags in
      record {
        session = record d {
          rx_seen = true;
          rx_last_seq = h.sequence;
          rx_latest =
              if valid
              then memcpy d.rx_latest (drop frame_header_size d.rx_buf) out_bytes
              else d.rx_latest;
          frames_rx = inc64 d.frames_rx;
        };
        have_new = true;
        latest_valid = valid;
      }

  -- What becomes of a datagram once its header is decoded.
  unfoldable pub judge : Bool → Drain → Option Header → Drain
  judge from_peer s none = drop_frame s
  judge from_peer s (some h) =
      if accepts s.session h from_peer then take_frame s h else drop_frame s

  -- One round of the receive loop.
  unfoldable pub drain_step : Drain → Datagram → Drain
  drain_step s g =
      let d = receive s.session g in
      judge (same_peer d.peer g.sender) (record s { session = d })
        (decode_header d.rx_buf (min (length g.bytes) d.rx_buf_size))

  -- The loop, over the datagrams that are queued until the socket is drained.
  unfoldable pub drain : Drain → List Datagram → Drain
  drain s [] = s
  drain s (g ∷ gs) = drain (drain_step s g) gs

abbrev put_outputs : Io → List ℕ → Io
put_outputs io region = record io { outputs = some region }

-- A closed session: the outputs are zeroed once.
unfoldable pub apply_closed : List ℕ → Channel → Channel
apply_closed region c = if c.data_session.outputs_zeroed then c else record {
  io = put_outputs c.io (zero_fill region c.io.output_bytes);
  data_session = record (c.data_session) { outputs_zeroed = true };
}

-- After the loop: a new frame decides the outputs, or the watchdog counts one more cycle.
unfoldable pub finish_outputs : List ℕ → Io → Drain → Channel
finish_outputs region io s =
    if s.have_new
    then if s.latest_valid
      then record {
        io = put_outputs io (memcpy region d.rx_latest io.output_bytes);
        data_session = record d { outputs_zeroed = false; cycles_since_output = 0 };
      }
      else record {
        io = put_outputs io (zero_fill region io.output_bytes);
        data_session = record d { outputs_zeroed = true; cycles_since_output = 0 };
      }
    else if ltb (timeout_cycles io.cycle_time_us) silent && not d.outputs_zeroed
    then record {
      io = put_outputs io (zero_fill region io.output_bytes);
      data_session = record d {
        cycles_since_output = silent;
        outputs_zeroed = true;
        watchdog_trips = inc64 d.watchdog_trips;
      };
    }
    else record { io = io; data_session = record d { cycles_since_output = silent } }
  where
    d : Session
    d = s.session

    silent : ℕ
    silent = inc32 d.cycles_since_output

-- `ecat_data_apply_outputs`, with the result of `trylock` and the datagrams queued on the socket.
unfoldable pub apply_outputs : ℕ → Bool → List Datagram → Channel → Channel
apply_outputs master_index locked queue c = elim (output_region c.io) [
  | none ↦ c
  | some region ↦
      if not locked
      then c
      else if not c.data_session.is_open
      then apply_closed region c
      else finish_outputs region c.io (
          drain master_index c.io.output_bytes
            (record { session = c.data_session; have_new = false; latest_valid = false }) queue)
]

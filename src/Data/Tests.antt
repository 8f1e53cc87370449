-- ===== src/Data/Tests.antt =====
-- Runs of the data session on a master with two bytes of outputs and of inputs.
use ether_dog.Base.{
  ℕ, true, false, ◌+◌, ◌*◌, ◌≤◌, ◌<◌, ◌≡◌, refl, arith, none, some, List, [], ◌∷◌, length,
  replicate, drop,
}
use ether_dog.Base.Int.{pos}
use ether_dog.Protocol.{Header, frame_header_size, decode_header, header_of, get_field}
use ether_dog.Dgram.{Address, inet, Datagram, Libc, same_peer}
use ether_dog.Data.Session.{
  Session, Io, Channel, Opening, close, inc64, output_region, input_region,
}
use ether_dog.Data.Outputs.{
  finish_outputs, drain, drain_step, judge, receive, accepts, take_frame, apply_outputs,
  timeout_cycles,
}
use ether_dog.Data.Inputs.{Exchange, publish_inputs}
use ether_dog.Data.Frames.{Frame, accepted, newest}
use ether_dog.Data.Refine.{image, cycle_image, IsRunning, terms, apply_outputs-image}
use ether_dog.Data.Watchdog.{run_silent, run_silent-outputs, timeout_cycles_bounds}
use ether_dog.Data.Closing.{IsHonest, apply_outputs-close}
use ether_dog.Data.Calls.{opens, alloc, applies, calls, IsLocalSession, calls-IsLocalSession}
use ether_dog.Data.Published.{CanPublish, Tells, publish_inputs-decoded}

-- 127.0.0.1 and a port
abbrev client : Address
client = inet 2130706433 9000

abbrev session_7 : Session
session_7 = record {
  is_open = true;
  fd = some 5;
  peer = client;
  local_path = [];
  session = 7;
  tx_seq = 0;
  rx_last_seq = 0;
  rx_seen = false;
  cycles_since_output = 0;
  outputs_zeroed = false;
  rx_buf = replicate 27 0;
  rx_buf_size = 27;
  rx_latest = 0 ∷ 0 ∷ [];
  tx_buf = replicate 26 0;
  tx_buf_size = 26;
  frames_rx = 0;
  frames_tx = 0;
  frames_dropped = 0;
  watchdog_trips = 0;
}

abbrev mapped_io : Io
mapped_io = record {
  soem_initialized = true;
  outputs = some (1 ∷ 2 ∷ []);
  inputs = some (3 ∷ 4 ∷ []);
  output_bytes = 2;
  input_bytes = 2;
  cycle_time_us = pos 50000;
}

abbrev running : Channel
running = record { io = mapped_io; data_session = session_7 }

-- An output frame for session 7 with the sequence number 1, marked valid, that sets the outputs to 9
-- and 8.
abbrev frame_1 : List ℕ
frame_1 =
    69 ∷ 68 ∷ 79 ∷ 71 ∷ 1 ∷ 1 ∷ 0 ∷ 1 ∷ 7 ∷ 0 ∷ 0 ∷ 0 ∷ 0 ∷ 0 ∷ 0 ∷ 0 ∷ 1 ∷ 0 ∷ 0 ∷ 0 ∷ 2 ∷ 0 ∷ 0
    ∷ 0 ∷ 9 ∷ 8 ∷ []

abbrev datagram_1 : Datagram
datagram_1 = record { bytes = frame_1; sender = record { address = client; len = 16 } }

running-IsRunning : IsRunning running (1 ∷ 2 ∷ [])
unfolding output_region
running-IsRunning = record {
  mapped = refl;
  sized = refl;
  opened = refl;
  ready = record { size = refl; buffer = refl; latest = omega arith };
}

-- A valid frame sets the outputs.
outputs_set : (apply_outputs 0 true (datagram_1 ∷ []) running).io.outputs ≡ some (9 ∷ 8 ∷ [])
unfolding apply_outputs output_region finish_outputs drain drain_step judge receive accepts
    take_frame decode_header header_of get_field same_peer
outputs_set = refl

apply_outputs-image_example :
    image (apply_outputs 0 true (datagram_1 ∷ []) running)
    ≡ cycle_image
        (timeout_cycles (pos 50000))
        2
        (newest (accepted (terms 0 running) false 0 (datagram_1 ∷ [])))
        (image running)
apply_outputs-image_example =
    apply_outputs-image 0 (datagram_1 ∷ []) running (1 ∷ 2 ∷ []) running-IsRunning

run_silent-outputs_example :
    let c' = run_silent 0 4 running in
    (4 ≤ timeout_cycles (pos 50000)
      → (c'.io.outputs ≡ some (1 ∷ 2 ∷ [])) × (c'.data_session.watchdog_trips ≡ 0))
    × (timeout_cycles (pos 50000) < 4
        → (c'.io.outputs ≡ some (replicate 2 0)) × (c'.data_session.watchdog_trips ≡ inc64 0))
unfolding timeout_cycles
run_silent-outputs_example =
    run_silent-outputs 0 4 running (1 ∷ 2 ∷ []) running-IsRunning refl (omega arith) (omega arith)

running-IsHonest : IsHonest running
running-IsHonest h = ground arith

apply_outputs-close_example :
    let c' =
      apply_outputs 0 true (datagram_1 ∷ []) (record running { data_session = close session_7 }) in
    (c'.io.outputs ≡ some (replicate 2 0))
    × (c'.data_session.is_open ≡ false)
    × (apply_outputs 0 true (datagram_1 ∷ []) c' ≡ c')
unfolding output_region
apply_outputs-close_example =
    apply_outputs-close 0 (datagram_1 ∷ []) (datagram_1 ∷ []) running (1 ∷ 2 ∷ []) refl refl
      running-IsHonest

-- Parsers that know one address and one port.
abbrev local_libc : Libc
local_libc = record { strtol = λ s. some (pos 9000, []); inet_pton = λ s. some 2130706433 }

abbrev opening : Opening
opening = record {
  client_endpoint = some (117 ∷ 100 ∷ 112 ∷ 58 ∷ 104 ∷ 58 ∷ 49 ∷ []);
  socket = some (6, []);
  nonce = 11;
}

abbrev fresh : Channel
fresh = record { io = mapped_io; data_session = record session_7 { is_open = false; fd = none } }

calls-IsLocalSession_example :
    IsLocalSession
      (calls local_libc (alloc true ∷ opens opening ∷ applies 0 true [] ∷ []) fresh).data_session
calls-IsLocalSession_example =
    calls-IsLocalSession local_libc (alloc true ∷ opens opening ∷ applies 0 true [] ∷ []) fresh
      (λ h. ground arith)

abbrev healthy : Exchange
healthy = record { wkc = pos 3; operational = true; wkc_ok = true }

running-CanPublish : CanPublish mapped_io session_7 (3 ∷ 4 ∷ [])
unfolding input_region
running-CanPublish = record {
  mapped = refl;
  sized = refl;
  fits = omega arith;
  opened = refl;
  descriptor = (5, refl);
  buffer = refl;
  size = refl;
  session = omega arith;
}

publish_inputs-decoded_example :
    let (d', out) = publish_inputs 0 healthy true true mapped_io session_7 in
    (p : List ℕ) × (h : Header) × (out ≡ some p)
    × (decode_header p (length p) ≡ some h)
    × Tells 0 healthy session_7 h
    × (drop frame_header_size p ≡ (3 ∷ 4 ∷ []))
    × (d'.tx_seq ≡ h.sequence)
publish_inputs-decoded_example =
    publish_inputs-decoded 0 healthy true mapped_io session_7 (3 ∷ 4 ∷ []) running-CanPublish

abbrev accepted_1 : Frame
accepted_1 = record { sequence = 1; valid = true; payload = 9 ∷ 8 ∷ [] }

timeout_cycles_bounds_example :
    (3 ≤ timeout_cycles (pos 50000))
    × (100000 < (timeout_cycles (pos 50000) + 1) * 50000)
    × (50000 ≤ 33333 → timeout_cycles (pos 50000) * 50000 ≤ 100000)
timeout_cycles_bounds_example = timeout_cycles_bounds 50000 (omega arith)

-- ===== src/Protocol/Tests.antt =====
-- Runs of the protocol on small frames.
use ether_dog.Base.{ℕ, true, ◌%◌, ◌+◌, ◌^◌, ◌<◌, ◌≡◌, ◌↔◌, refl, arith, some, List, [], ◌∷◌}
use ether_dog.Protocol.{Header, frame_header_size, encode_header, decode_header, seq_newer}
use ether_dog.Protocol.Bytes.{AllBytes}
use ether_dog.Protocol.Frame.{InRange, decode_header-encode_header}
use ether_dog.Protocol.Sequence.{seq_newer-window}

abbrev input_1 : Header
input_1 = record {
  version = 1;
  kind = 2;
  master = 0;
  flags = 3;
  session = 7;
  sequence = 1;
  payload_len = 2;
  wkc = 3;
}

-- The encoding of `input_1` before the payload 9, 8.
abbrev bytes_1 : List ℕ
bytes_1 =
    69 ∷ 68 ∷ 79 ∷ 71 ∷ 1 ∷ 2 ∷ 0 ∷ 3 ∷ 7 ∷ 0 ∷ 0 ∷ 0 ∷ 0 ∷ 0 ∷ 0 ∷ 0 ∷ 1 ∷ 0 ∷ 0 ∷ 0 ∷ 2 ∷ 0 ∷ 3
    ∷ 0 ∷ 9 ∷ 8 ∷ []

input_1-InRange : InRange input_1
input_1-InRange = record {
  version = omega arith;
  kind = omega arith;
  master = omega arith;
  flags = omega arith;
  session = omega arith;
  sequence = omega arith;
  payload_len = omega arith;
  wkc = omega arith;
}

decode_header-encode_header_example :
    decode_header (encode_header bytes_1 input_1) (frame_header_size + 2) ≡ some input_1
decode_header-encode_header_example =
    decode_header-encode_header input_1 bytes_1 input_1-InRange refl (omega arith)

bytes_1-AllBytes : AllBytes bytes_1
bytes_1-AllBytes = ground arith

seq_newer-window_example :
    (seq_newer ((4294967295 + 3) % 2 ^ 32) 4294967295 ≡ true) ↔ ((0 < 3) × (3 < 2 ^ 31))
seq_newer-window_example = seq_newer-window 4294967295 3 (omega arith) (omega arith)

-- The number after the last one is newer across the wrap.
seq_newer_wrap : seq_newer 2 4294967295 ≡ true
unfolding seq_newer
seq_newer_wrap = refl

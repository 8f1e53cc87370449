-- ===== src/Dgram.antt =====
-- src/dgram.c: the endpoints of the data channel. Sockets, `strtol` and `inet_pton` belong to the
-- system and are parameters; text is the list of its bytes, without the final NUL.
pub mod Loopback
mod Tests
use ether_dog.Base.{
  ℕ, zero, suc, ◌+◌, ◌-◌, ◌/◌, ◌^◌, Bool, true, false, not, ◌&&◌, ◌||◌, List, [], ◌∷◌, ◌++◌, Option,
  none, some, ltb, leb, ◌==◌, if◌then◌else◌, length, take, drop,
}
use ether_dog.Base.Int.{ℤ, pos, leb_ℤ, ltb_ℤ, pos_part}

-- A socket address: the family and the fields that the code reads of it. `inet` has the address and
-- the port in host order, `unix` the path up to its NUL.
pub data Address : Type 0 where
  inet : ℕ → ℕ → Address
  unix : List ℕ → Address
  other : ℕ → Address

-- The sender of a datagram, with the length that `recvfrom` reports for its address.
pub record Sender : Type 0 where
  pub address : Address
  pub len : ℕ

pub record Datagram : Type 0 where
  pub bytes : List ℕ
  pub sender : Sender

-- offsetof(struct sockaddr_un, sun_path) and sizeof(sun_path)
abbrev pub sun_path_offset : ℕ
sun_path_offset = 2

abbrev pub sun_path_size : ℕ
sun_path_size = 108

unfoldable pub equal_bytes : List ℕ → List ℕ → Bool
equal_bytes [] [] = true
equal_bytes [] (b ∷ ys) = false
equal_bytes (a ∷ xs) [] = false
equal_bytes (a ∷ xs) (b ∷ ys) = (a == b) && equal_bytes xs ys

unfoldable pub same_peer : Address → Sender → Bool
unfolding equal_bytes
same_peer peer src = same_address src.address peer
  where
    same_address : Address → Address → Bool
    same_address (inet a p) (inet b q) = (p == q) && (a == b)
    same_address (unix a) (unix b) = if leb src.len sun_path_offset then false else equal_bytes a b
    same_address _ _ = false

-- What the code uses of the C library: the number at the front of a text with what is left of it
-- (`none` where nothing was read), and a dotted address in host order.
pub record Libc : Type 0 where
  pub strtol : List ℕ → Option (ℤ × List ℕ)
  pub inet_pton : List ℕ → Option ℕ

unfoldable pub is_loopback : ℕ → Bool
is_loopback a = a / 2 ^ 24 == 127

-- What stands behind a prefix.
unfoldable pub strip : List ℕ → List ℕ → Option (List ℕ)
strip [] s = some s
strip (p ∷ ps) [] = none
strip (p ∷ ps) (c ∷ s) = if p == c then strip ps s else none

-- strrchr(s, ':'), as the text before the last colon and the text behind it
unfoldable pub split_colon : List ℕ → Option (List ℕ × List ℕ)
split_colon [] = none
split_colon (c ∷ s) = elim (split_colon s) [
  | some (host, port) ↦ some (c ∷ host, port)
  | none ↦ if c == b':' then some ([], s) else none
]

abbrev pub unix_prefix : List ℕ
unix_prefix = b'u' ∷ b'n' ∷ b'i' ∷ b'x' ∷ b':' ∷ []

abbrev pub udp_prefix : List ℕ
udp_prefix = b'u' ∷ b'd' ∷ b'p' ∷ b':' ∷ []

unfoldable pub parse_unix : List ℕ → Option Address
parse_unix path =
    if (length path == 0) || leb sun_path_size (length path) then none else some (unix path)

module _ (c : Libc) where
  -- The port, if the text behind the colon is one number from 1 to 65535.
  unfoldable pub parse_port : List ℕ → Option ℕ
  parse_port s = elim (c.strtol s) [
    | none ↦ none
    | some (port, rest) ↦
        if not (length rest == 0) || (leb_ℤ port (pos 0) || ltb_ℤ (pos 65535) port)
        then none
        else some (pos_part port)
  ]

  unfoldable pub parse_inet : List ℕ → List ℕ → Option Address
  parse_inet host port = elim (parse_port port) [
    | none ↦ none
    | some p ↦ elim (c.inet_pton host) [
      | none ↦ none
      | some a ↦ if not (is_loopback a) then none else some (inet a p)
    ]
  ]

  unfoldable pub parse_udp : List ℕ → Option Address
  parse_udp rest = elim (split_colon rest) [
    | none ↦ none
    | some (host, port) ↦ if leb 64 (length host) then none else parse_inet host port
  ]

  -- `edog_dgram_parse` on Linux. `none` is the result -1.
  unfoldable pub parse : List ℕ → Option Address
  parse spec = elim (strip unix_prefix spec) [
    | some path ↦ parse_unix path
    | none ↦ elim (strip udp_prefix spec) [ some rest ↦ parse_udp rest | none ↦ none ]
  ]

-- ===== src/Dgram/Loopback.antt =====
-- Which endpoints `edog_dgram_parse` lets through.
use ether_dog.Base.{ℕ, ◌≡◌, List, some, arith, ◌<◌, ◌≤◌, length, ◌/◌, ◌^◌, Option-cases, inl, inr}
use ether_dog.Dgram.{
  Address, inet, unix, other, Libc, is_loopback, parse_unix, parse_port, parse_inet, parse_udp,
  parse, strip, udp_prefix, unix_prefix, sun_path_size,
}

-- What an accepted endpoint looks like.
abbrev pub IsLocal : Address → Type 0
IsLocal (inet a p) = (a / 2 ^ 24 ≡ 127) × (1 ≤ p) × (p ≤ 65535)
IsLocal (unix path) = (1 ≤ length path) × (length path < sun_path_size)
IsLocal (other n) = ⊥

parse_unix-IsLocal : (path : List ℕ) (a : Address) → parse_unix path ≡ some a → IsLocal a
unfolding parse_unix
parse_unix-IsLocal path (inet b p) e = ground arith
parse_unix-IsLocal path (unix q) e = ground arith
parse_unix-IsLocal path (other n) e = ground arith

module _ (c : Libc) where
  parse_udp-IsLocal : (rest : List ℕ) (a : Address) → parse_udp c rest ≡ some a → IsLocal a
  unfolding parse_udp parse_inet parse_port is_loopback
  parse_udp-IsLocal rest (inet b p) e = ground arith
  parse_udp-IsLocal rest (unix q) e = ground arith
  parse_udp-IsLocal rest (other n) e = ground arith

  -- Every endpoint that is accepted is a loopback address with a port from 1 to 65535, or a path
  -- that is not empty and fits in `sun_path` with its NUL.
  pub parse-IsLocal : (spec : List ℕ) (a : Address) → parse c spec ≡ some a → IsLocal a
  unfolding parse
  parse-IsLocal spec a e = elim (Option-cases (strip unix_prefix spec)) [
    | inr (path, f) ↦ parse_unix-IsLocal path a (rw (f, parse) at e)
    | inl f ↦ elim (Option-cases (strip udp_prefix spec)) [
      | inr (rest, g) ↦ parse_udp-IsLocal rest a (ground arith)
      | inl g ↦ absurd (ground arith)
    ]
  ]

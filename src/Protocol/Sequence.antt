-- ===== src/Protocol/Sequence.antt =====
-- `edog_seq_newer`: an order on sequence numbers that wrap at 2 ^ 32.
use ether_dog.Base.{ℕ, ◌+◌, ◌-◌, ◌%◌, ◌^◌, ◌<◌, ◌≡◌, ◌↔◌, true, false, arith}
use ether_dog.Protocol.{seq_newer}

offset_back :
    (last k : ℕ) → last < 2 ^ 32 → k < 2 ^ 32 → ((last + k) % 2 ^ 32 + 2 ^ 32 - last) % 2 ^ 32 ≡ k
offset_back last k hl hk = omega arith

-- Of 32-bit numbers, one is newer than `last` exactly if it is one of the 2 ^ 31 - 1 that follow
-- `last`, counted round the wrap.
pub seq_newer-window :
    (last k : ℕ)
    → last < 2 ^ 32
    → k < 2 ^ 32
    → (seq_newer ((last + k) % 2 ^ 32) last ≡ true) ↔ ((0 < k) × (k < 2 ^ 31))
unfolding seq_newer
seq_newer-window last k hl hk = ground (arith, offset_back last k hl hk)

-- No number is newer than itself.
pub seq_newer_self : (seq : ℕ) → seq < 2 ^ 32 → seq_newer seq seq ≡ false
unfolding seq_newer
seq_newer_self seq h = ground arith

-- Of two 32-bit numbers at most one is newer than the other.
seq_newer-asymm : (a b : ℕ) → a < 2 ^ 32 → b < 2 ^ 32 → seq_newer a b ≡ true → seq_newer b a ≡ false
unfolding seq_newer
seq_newer-asymm a b ha hb h = ground arith

-- ===== src/Master/Wire.antt =====
-- src/master.c: the number that a slave reads in the bytes of an integer.
use ether_dog.Base.{ℕ, true, ◌≡◌, ◌-◌, ◌/◌, ◌%◌, ◌^◌, ap, arith, ltb, List, if◌then◌else◌}
use ether_dog.Base.Int.{ℤ, pos, negsuc, wrap, leb_ℤ}
use ether_dog.Protocol.{put_bytes, get_bytes}
use ether_dog.Config.Types.{DataType, dtype_int8, dtype_int16, dtype_int32, dtype_int64}

-- The number that a slave reads in the bytes of a field: unsigned, or as two's complement.
abbrev pub unsigned_value : List ℕ → ℤ
unsigned_value bytes = pos (get_bytes bytes)

abbrev pub signed_value : ℕ → List ℕ → ℤ
signed_value n bytes =
    if ltb (get_bytes bytes) (256 ^ n / 2)
    then pos (get_bytes bytes)
    else negsuc (256 ^ n - 1 - get_bytes bytes)

abbrev pub wire_value : DataType → List ℕ → ℤ
wire_value dtype_int8 bytes = signed_value 1 bytes
wire_value dtype_int16 bytes = signed_value 2 bytes
wire_value dtype_int32 bytes = signed_value 4 bytes
wire_value dtype_int64 bytes = signed_value 8 bytes
wire_value dt bytes = unsigned_value bytes

low_1 : (v : ℕ) → get_bytes (put_bytes 1 v) ≡ v % 2 ^ 8
unfolding put_bytes get_bytes
low_1 v = omega arith

low_2 : (v : ℕ) → get_bytes (put_bytes 2 v) ≡ v % 2 ^ 16
unfolding put_bytes get_bytes
low_2 v = omega arith

low_4 : (v : ℕ) → get_bytes (put_bytes 4 v) ≡ v % 2 ^ 32
unfolding put_bytes get_bytes
low_4 v = omega arith

low_8 : (v : ℕ) → get_bytes (put_bytes 8 v) ≡ v % 2 ^ 64
unfolding put_bytes get_bytes
low_8 v = omega arith

-- An integer of the type, as a field of 1, 2, 4 or 8 bytes.
pub unsigned_1 :
    (t : ℤ)
    → leb_ℤ (pos 0) t ≡ true
    → leb_ℤ t (pos 255) ≡ true
    → unsigned_value (put_bytes 1 (wrap t (2 ^ 64))) ≡ t
unsigned_1 (pos a) l h = ap pos (ground (arith, low_1 (a % 2 ^ 64)))
unsigned_1 (negsuc a) l h = absurd (ground arith)

pub signed_1 :
    (t : ℤ)
    → leb_ℤ (negsuc 127) t ≡ true
    → leb_ℤ t (pos 127) ≡ true
    → signed_value 1 (put_bytes 1 (wrap t (2 ^ 64))) ≡ t
signed_1 (pos a) l h = ground (arith, low_1 (a % 2 ^ 64))
signed_1 (negsuc a) l h = ground (arith, low_1 (2 ^ 64 - 1 - a % 2 ^ 64))

pub unsigned_2 :
    (t : ℤ)
    → leb_ℤ (pos 0) t ≡ true
    → leb_ℤ t (pos 65535) ≡ true
    → unsigned_value (put_bytes 2 (wrap t (2 ^ 64))) ≡ t
unsigned_2 (pos a) l h = ap pos (ground (arith, low_2 (a % 2 ^ 64)))
unsigned_2 (negsuc a) l h = absurd (ground arith)

pub signed_2 :
    (t : ℤ)
    → leb_ℤ (negsuc 32767) t ≡ true
    → leb_ℤ t (pos 32767) ≡ true
    → signed_value 2 (put_bytes 2 (wrap t (2 ^ 64))) ≡ t
signed_2 (pos a) l h = ground (arith, low_2 (a % 2 ^ 64))
signed_2 (negsuc a) l h = ground (arith, low_2 (2 ^ 64 - 1 - a % 2 ^ 64))

pub unsigned_4 :
    (t : ℤ)
    → leb_ℤ (pos 0) t ≡ true
    → leb_ℤ t (pos 4294967295) ≡ true
    → unsigned_value (put_bytes 4 (wrap t (2 ^ 64))) ≡ t
unsigned_4 (pos a) l h = ap pos (ground (arith, low_4 (a % 2 ^ 64)))
unsigned_4 (negsuc a) l h = absurd (ground arith)

pub signed_4 :
    (t : ℤ)
    → leb_ℤ (negsuc 2147483647) t ≡ true
    → leb_ℤ t (pos 2147483647) ≡ true
    → signed_value 4 (put_bytes 4 (wrap t (2 ^ 64))) ≡ t
signed_4 (pos a) l h = ground (arith, low_4 (a % 2 ^ 64))
signed_4 (negsuc a) l h = ground (arith, low_4 (2 ^ 64 - 1 - a % 2 ^ 64))

pub unsigned_8 :
    (t : ℤ)
    → leb_ℤ (pos 0) t ≡ true
    → leb_ℤ t (pos 18446744073709551615) ≡ true
    → unsigned_value (put_bytes 8 (wrap t (2 ^ 64))) ≡ t
unsigned_8 (pos a) l h = ap pos (ground (arith, low_8 (a % 2 ^ 64)))
unsigned_8 (negsuc a) l h = absurd (ground arith)

pub signed_8 :
    (t : ℤ)
    → leb_ℤ (negsuc 9223372036854775807) t ≡ true
    → leb_ℤ t (pos 9223372036854775807) ≡ true
    → signed_value 8 (put_bytes 8 (wrap t (2 ^ 64))) ≡ t
signed_8 (pos a) l h = ground (arith, low_8 (a % 2 ^ 64))
signed_8 (negsuc a) l h = ground (arith, low_8 (2 ^ 64 - 1 - a % 2 ^ 64))

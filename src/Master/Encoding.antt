-- ===== src/Master/Encoding.antt =====
-- src/master.c: the bytes that `encode_sdo_value` makes of a number that the parser accepts.
use ether_dog.Master.Ranges.{leb_ℤ_trans, bool_bounds, to_int64-some, too_large, below, finite_part}
use ether_dog.Protocol.Bytes.{length-put_bytes}
use ether_dog.Base.{
  ◌⊎◌, ◌↔◌, sym, ℕ, Bool, true, false, ◌≡◌, ◌^◌, refl, ◌∙◌, none, some, List, inl, inr, Bool-cases,
  length,
}
use ether_dog.Base.Int.{ℤ, pos, negsuc, wrap, leb_ℤ}
use ether_dog.Protocol.{put_bytes}
use ether_dog.Config.Types.{
  DataType, dtype_unknown, dtype_bool, dtype_int8, dtype_uint8, dtype_int16, dtype_uint16,
  dtype_int32, dtype_uint32, dtype_int64, dtype_uint64, dtype_real32, dtype_real64, dtype_pad,
  dtype_bytestring,
}
use ether_dog.Config.Doubles.{Double, is_finite, truncate}
use ether_dog.Config.DataTypes.{data_type_size}
use ether_dog.Config.Sdo.{sdo_value_in_range}
use ether_dog.Config.Truncation.{between-truncate}
use ether_dog.Master.Sdo.{encode_integer, encode_sdo_value}
use ether_dog.Master.Wire.{
  wire_value, unsigned_1, unsigned_2, unsigned_4, unsigned_8, signed_1, signed_2, signed_4,
  signed_8,
}

abbrev pub is_integer : DataType → Bool
is_integer dtype_unknown = false
is_integer dtype_pad = false
is_integer dtype_bytestring = false
is_integer dtype_real32 = false
is_integer dtype_real64 = false
is_integer dt = true

-- The value is encoded, in as many bytes as the type has, and the slave reads its integer part.
abbrev pub IsSent : (single double : Double → List ℕ) → DataType → Double → Type 0
IsSent single double dt v =
    (bytes : List ℕ) × (encode_sdo_value single double dt v ≡ some bytes)
    × (length bytes ≡ data_type_size dt)
    × (wire_value dt bytes ≡ truncate v)

module _ (single double : Double → List ℕ) where
  sent :
      (dt : DataType) (v : Double) (low : ℤ)
      → encode_sdo_value single double dt v ≡ encode_integer (data_type_size dt) v
      → is_finite v ≡ true
      → leb_ℤ (negsuc 9223372036854775807) low ≡ true
      → leb_ℤ low (truncate v) ≡ true
      → leb_ℤ (truncate v) (pos 9223372036854775807) ≡ true
      → wire_value dt (put_bytes (data_type_size dt) (wrap (truncate v) (2 ^ 64))) ≡ truncate v
      → IsSent single double dt v
  unfolding encode_integer
  sent dt v low e f b l u w =
      let i = to_int64-some v f (leb_ℤ_trans (negsuc 9223372036854775807) low (truncate v) b l) u in
      (
        put_bytes (data_type_size dt) (wrap (truncate v) (2 ^ 64)),
        e ∙ rw (encode_integer, i) refl,
        length-put_bytes (data_type_size dt) (wrap (truncate v) (2 ^ 64)),
        w,
      )

  -- A number that the parser accepts for an integer type is encoded in as many bytes as the type
  -- has, and the slave reads its integer part in them, if that part fits an int64_t.
  pub encode_sdo_value-exact :
      (dt : DataType) (v : Double)
      → is_integer dt ≡ true
      → sdo_value_in_range dt v ≡ true
      → leb_ℤ (truncate v) (pos 9223372036854775807) ≡ true
      → IsSent single double dt v
  unfolding encode_sdo_value sdo_value_in_range
  encode_sdo_value-exact dtype_unknown v i r m = absurd (cc i)
  encode_sdo_value-exact dtype_pad v i r m = absurd (cc i)
  encode_sdo_value-exact dtype_bytestring v i r m = absurd (cc i)
  encode_sdo_value-exact dtype_real32 v i r m = absurd (cc i)
  encode_sdo_value-exact dtype_real64 v i r m = absurd (cc i)
  encode_sdo_value-exact dtype_bool v i r m =
      let (l, u) = bool_bounds v r in
      sent dtype_bool v (pos 0) refl (finite_part _ _ r) refl l m
        (unsigned_1 (truncate v) l (leb_ℤ_trans (truncate v) (pos 1) (pos 255) u refl))
  encode_sdo_value-exact dtype_int8 v i r m =
      let (l, u) = between-truncate v (negsuc 127) (pos 127) r in
      sent dtype_int8 v (negsuc 127) refl (finite_part _ _ r) refl l m (signed_1 (truncate v) l u)
  encode_sdo_value-exact dtype_uint8 v i r m =
      let (l, u) = between-truncate v (pos 0) (pos 255) r in
      sent dtype_uint8 v (pos 0) refl (finite_part _ _ r) refl l m (unsigned_1 (truncate v) l u)
  encode_sdo_value-exact dtype_int16 v i r m =
      let (l, u) = between-truncate v (negsuc 32767) (pos 32767) r in
      sent dtype_int16 v (negsuc 32767) refl (finite_part _ _ r) refl l m
        (signed_2 (truncate v) l u)
  encode_sdo_value-exact dtype_uint16 v i r m =
      let (l, u) = between-truncate v (pos 0) (pos 65535) r in
      sent dtype_uint16 v (pos 0) refl (finite_part _ _ r) refl l m (unsigned_2 (truncate v) l u)
  encode_sdo_value-exact dtype_int32 v i r m =
      let (l, u) = between-truncate v (negsuc 2147483647) (pos 2147483647) r in
      sent dtype_int32 v (negsuc 2147483647) refl (finite_part _ _ r) refl l m
        (signed_4 (truncate v) l u)
  encode_sdo_value-exact dtype_uint32 v i r m =
      let (l, u) = between-truncate v (pos 0) (pos 4294967295) r in
      sent dtype_uint32 v (pos 0) refl (finite_part _ _ r) refl l m (unsigned_4 (truncate v) l u)
  encode_sdo_value-exact dtype_int64 v i r m =
      let (l, u) = between-truncate v (negsuc 9223372036854775807) (pos 9223372036854775808) r in
      sent dtype_int64 v (negsuc 9223372036854775807) refl (finite_part _ _ r) refl l m
        (signed_8 (truncate v) l m)
  encode_sdo_value-exact dtype_uint64 v i r m =
      let (l, u) = between-truncate v (pos 0) (pos 18446744073709549568) r in
      sent dtype_uint64 v (pos 0) refl (finite_part _ _ r) refl l m (
        unsigned_8 (truncate v) l
          (leb_ℤ_trans (truncate v) (pos 9223372036854775807) (pos 18446744073709551615) m refl))

  integer_path :
      (dt : DataType) (v : Double)
      → is_integer dt ≡ true
      → encode_sdo_value single double dt v ≡ encode_integer (data_type_size dt) v
  unfolding encode_sdo_value
  integer_path dtype_bool v i = refl
  integer_path dtype_int8 v i = refl
  integer_path dtype_uint8 v i = refl
  integer_path dtype_int16 v i = refl
  integer_path dtype_uint16 v i = refl
  integer_path dtype_int32 v i = refl
  integer_path dtype_uint32 v i = refl
  integer_path dtype_int64 v i = refl
  integer_path dtype_uint64 v i = refl
  integer_path dtype_unknown v i = absurd (cc i)
  integer_path dtype_pad v i = absurd (cc i)
  integer_path dtype_bytestring v i = absurd (cc i)
  integer_path dtype_real32 v i = absurd (cc i)
  integer_path dtype_real64 v i = absurd (cc i)

  -- The types of at most 32 bits hold no number that does not fit an int64_t.
  wide :
      (dt : DataType) (v : Double)
      → is_integer dt ≡ true
      → sdo_value_in_range dt v ≡ true
      → leb_ℤ (truncate v) (pos 9223372036854775807) ≡ false
      → (dt ≡ dtype_int64) ⊎ (dt ≡ dtype_uint64)
  unfolding sdo_value_in_range
  wide dtype_int64 v i r m = inl refl
  wide dtype_uint64 v i r m = inr refl
  wide dtype_unknown v i r m = absurd (cc i)
  wide dtype_pad v i r m = absurd (cc i)
  wide dtype_bytestring v i r m = absurd (cc i)
  wide dtype_real32 v i r m = absurd (cc i)
  wide dtype_real64 v i r m = absurd (cc i)
  wide dtype_bool v i r m = absurd (below (truncate v) (pos 1) (bool_bounds v r).1 refl m)
  wide dtype_int8 v i r m =
      absurd (below (truncate v) (pos 127) (between-truncate v (negsuc 127) (pos 127) r).1 refl m)
  wide dtype_uint8 v i r m =
      absurd (below (truncate v) (pos 255) (between-truncate v (pos 0) (pos 255) r).1 refl m)
  wide dtype_int16 v i r m =
      absurd
        (below (truncate v) (pos 32767) (between-truncate v (negsuc 32767) (pos 32767) r).1 refl m)
  wide dtype_uint16 v i r m =
      absurd (below (truncate v) (pos 65535) (between-truncate v (pos 0) (pos 65535) r).1 refl m)
  wide dtype_int32 v i r m = absurd (
      below (truncate v) (pos 2147483647)
        (between-truncate v (negsuc 2147483647) (pos 2147483647) r).1 refl m)
  wide dtype_uint32 v i r m =
      absurd (
        below (truncate v) (pos 4294967295) (between-truncate v (pos 0) (pos 4294967295) r).1 refl
          m)

  -- Of a number that the parser accepts for an integer type the conversion is undefined exactly if
  -- its integer part does not fit an int64_t, which only numbers for INT64 and UINT64 can do.
  pub encode_sdo_value-undefined :
      (dt : DataType) (v : Double)
      → is_integer dt ≡ true
      → sdo_value_in_range dt v ≡ true
      → ((encode_sdo_value single double dt v ≡ none)
          ↔ (leb_ℤ (truncate v) (pos 9223372036854775807) ≡ false))
        × (encode_sdo_value single double dt v ≡ none → (dt ≡ dtype_int64) ⊎ (dt ≡ dtype_uint64))
  encode_sdo_value-undefined dt v i r = ((large, too_large'), λ e. wide dt v i r (large e))
    where
      large :
          encode_sdo_value single double dt v ≡ none
          → leb_ℤ (truncate v) (pos 9223372036854775807) ≡ false
      large e = elim (Bool-cases (leb_ℤ (truncate v) (pos 9223372036854775807))) [
        | inl m ↦
            let (bytes, f, n, w) = encode_sdo_value-exact dt v i r m in absurd (cc (sym e ∙ f))
        | inr m ↦ m
      ]

      too_large' :
          leb_ℤ (truncate v) (pos 9223372036854775807) ≡ false
          → encode_sdo_value single double dt v ≡ none
      too_large' m = integer_path dt v i ∙ too_large (data_type_size dt) v m

-- ===== src/Master/Skipped.antt =====
-- src/master.c: the SDOs that `ecat_master_write_sdos` skips, of those that src/config.c accepts.
use ether_dog.Base.{
  ℕ, true, false, ◌≡◌, ◌≢◌, ◌↔◌, ◌<◌, ◌⊎◌, arith, none, some, List, [], ◌∷◌, inl, inr, zero, suc,
  refl, Option-cases, length,
}
use ether_dog.Protocol.{put_bytes}
use ether_dog.Config.Types.{
  DataType, dtype_unknown, dtype_bool, dtype_int8, dtype_uint8, dtype_int16, dtype_uint16,
  dtype_int32, dtype_uint32, dtype_int64, dtype_uint64, dtype_real32, dtype_real64, dtype_pad,
  dtype_bytestring, Sdo,
}
use ether_dog.Config.Doubles.{Double}
use ether_dog.Config.Sdo.{refuses_type}
use ether_dog.Config.Shapes.{IsSdo}
use ether_dog.Master.Sdo.{encode_sdo_value, encode_integer, encoded, wire_bytes, int_max}

integer_bytes : (n : ℕ) (v : Double) → 0 < n → encode_integer n v ≢ some []
unfolding encode_integer put_bytes
integer_bytes zero v h e = absurd (omega arith)
integer_bytes (suc n) v h e = absurd (ground arith)

module _ (single double : Double → List ℕ) (single_size : (v : Double) → length (single v) ≡ 4)
    (double_size : (v : Double) → length (double v) ≡ 8) where
  number_bytes :
      (dt : DataType) (v : Double)
      → refuses_type dt false ≡ false
      → encode_sdo_value single double dt v ≢ some []
  unfolding encode_sdo_value
  number_bytes dtype_unknown v r e = cc r
  number_bytes dtype_pad v r e = cc r
  number_bytes dtype_bytestring v r e = cc r
  number_bytes dtype_real32 v r e = ground (arith, single_size v)
  number_bytes dtype_real64 v r e = ground (arith, double_size v)
  number_bytes dtype_bool v r e = integer_bytes 1 v (omega arith) e
  number_bytes dtype_int8 v r e = integer_bytes 1 v (omega arith) e
  number_bytes dtype_uint8 v r e = integer_bytes 1 v (omega arith) e
  number_bytes dtype_int16 v r e = integer_bytes 2 v (omega arith) e
  number_bytes dtype_uint16 v r e = integer_bytes 2 v (omega arith) e
  number_bytes dtype_int32 v r e = integer_bytes 4 v (omega arith) e
  number_bytes dtype_uint32 v r e = integer_bytes 4 v (omega arith) e
  number_bytes dtype_int64 v r e = integer_bytes 8 v (omega arith) e
  number_bytes dtype_uint64 v r e = integer_bytes 8 v (omega arith) e

  encoded-none :
      (dt : DataType) (v : Double)
      → encoded single double dt v ≡ some none
      → encode_sdo_value single double dt v ≡ some []
  encoded-none dt v e = ground arith

  byte_string :
      (dt : DataType) (v : Double)
      → refuses_type dt true ≡ false
      → encode_sdo_value single double dt v ≡ some []
  unfolding encode_sdo_value
  byte_string dtype_bytestring v r = refl
  byte_string dtype_bool v r = absurd (cc r)
  byte_string dtype_int8 v r = absurd (cc r)
  byte_string dtype_uint8 v r = absurd (cc r)
  byte_string dtype_int16 v r = absurd (cc r)
  byte_string dtype_uint16 v r = absurd (cc r)
  byte_string dtype_int32 v r = absurd (cc r)
  byte_string dtype_uint32 v r = absurd (cc r)
  byte_string dtype_int64 v r = absurd (cc r)
  byte_string dtype_uint64 v r = absurd (cc r)
  byte_string dtype_unknown v r = absurd (cc r)
  byte_string dtype_pad v r = absurd (cc r)
  byte_string dtype_real32 v r = absurd (cc r)
  byte_string dtype_real64 v r = absurd (cc r)

  no_bytes : (s : Sdo) → IsSdo s → s.value_bytes ≡ none → wire_bytes single double s ≢ some none
  unfolding wire_bytes
  no_bytes s p n e =
      number_bytes s.parsed_type s.value (ground (arith, p.type'))
        (encoded-none s.parsed_type s.value (ground arith))

  empty_bytes :
      (s : Sdo) → IsSdo s → s.value_bytes ≡ some [] → wire_bytes single double s ≡ some none
  unfolding wire_bytes
  empty_bytes s p e = ground (arith, byte_string s.parsed_type s.value (ground (arith, p.type')))

  some_bytes :
      (s : Sdo) (b : ℕ) (bs : List ℕ)
      → s.value_bytes ≡ some (b ∷ bs)
      → (wire_bytes single double s ≡ some none) ↔ (int_max < length (b ∷ bs))
  unfolding wire_bytes
  some_bytes s b bs e = ground arith

  -- An SDO that the parser accepts is skipped exactly if its payload is an empty byte string, or
  -- one of more than INT_MAX bytes.
  pub wire_bytes-skipped :
      (s : Sdo)
      → IsSdo s
      → (wire_bytes single double s ≡ some none) ↔ (
          (bytes : List ℕ) × (s.value_bytes ≡ some bytes)
          × ((length bytes ≡ 0) ⊎ (int_max < length bytes)))
  wire_bytes-skipped s p = (skipped, λ (bytes, e, c). long bytes e c)
    where
      skipped :
          wire_bytes single double s ≡ some none
          → (bytes : List ℕ) × (s.value_bytes ≡ some bytes)
            × ((length bytes ≡ 0) ⊎ (int_max < length bytes))
      skipped w = elim (Option-cases s.value_bytes) [
        | inl n ↦ absurd (no_bytes s p n w)
        | inr ([], e) ↦ ([], e, inl refl)
        | inr (b ∷ bs, e) ↦ (b ∷ bs, e, inr ((some_bytes s b bs e).0 w))
      ]

      long :
          (bytes : List ℕ)
          → s.value_bytes ≡ some bytes
          → (length bytes ≡ 0) ⊎ (int_max < length bytes)
          → wire_bytes single double s ≡ some none
      long [] e c = empty_bytes s p e
      long (b ∷ bs) e (inl z) = absurd (omega arith)
      long (b ∷ bs) e (inr l) = (some_bytes s b bs e).1 l

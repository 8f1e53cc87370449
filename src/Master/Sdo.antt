-- ===== src/Master/Sdo.antt =====
-- src/master.c: the SDOs that are written to a slave at the start.
use ether_dog.Base.{
  ℕ, Bool, true, false, not, ◌||◌, ◌&&◌, ◌==◌, ◌+◌, ◌*◌, ◌%◌, ◌/◌, ◌^◌, ltb, if◌then◌else◌, Option,
  none, some, List, [], ◌∷◌, length,
}
use ether_dog.Base.Int.{ℤ, pos, negsuc, wrap, pos_part, leb_ℤ, ltb_ℤ}
use ether_dog.Protocol.{put_bytes}
use ether_dog.Config.Doubles.{Double, is_finite, truncate}
use ether_dog.Config.DataTypes.{data_type_size}
use ether_dog.Config.Types.{Sdo, DataType, dtype_real32, dtype_real64}

-- The conversion of a double to int64_t; `none` where C leaves it undefined.
unfoldable pub to_int64 : Double → Option ℤ
to_int64 v =
    if is_finite v
      && leb_ℤ (negsuc 9223372036854775807) (truncate v)
      && leb_ℤ (truncate v) (pos 9223372036854775807)
    then some (truncate v)
    else none

-- The integer path of `encode_sdo_value`: the low bytes of the int64_t.
unfoldable pub encode_integer : ℕ → Double → Option (List ℕ)
unfolding to_int64
encode_integer size v = elim (to_int64 v) [
  | none ↦ none
  | some i ↦ some (put_bytes size (wrap i (2 ^ 64)))
]

-- INT_MAX, and ECT_MBXPROT_COE as `mbx_proto & 0x04`
abbrev pub int_max : ℕ
int_max = 2147483647

abbrev pub has_coe : ℕ → Bool
has_coe mbx_proto = (mbx_proto / 4) % 2 == 1

-- The arguments of a call of ecx_SDOwrite.
pub record SdoWrite : Type 0 where
  pub slave : ℤ
  pub index : ℕ
  pub subindex : ℕ
  pub complete_access : Bool
  pub bytes : List ℕ
  pub timeout : ℤ

-- What the function reads of the context of SOEM.
pub record Context : Type 0 where
  pub soem_initialized : Bool
  pub slavecount : ℕ
  pub mbx_proto : ℕ

-- The bytes of a float and of a double.
module _ (single double : Double → List ℕ) where
  -- `encode_sdo_value`: the bytes written. There are none for a type without a size, and `none` where
  -- the conversion is undefined.
  unfoldable pub encode_sdo_value : DataType → Double → Option (List ℕ)
  unfolding encode_integer
  encode_sdo_value dtype_real32 v = some (single v)
  encode_sdo_value dtype_real64 v = some (double v)
  encode_sdo_value dt v =
      if data_type_size dt == 0 then some [] else encode_integer (data_type_size dt) v

  abbrev pub encoded : DataType → Double → Option (Option (List ℕ))
  encoded dt v = elim (encode_sdo_value dt v) [
    | none ↦ none
    | some [] ↦ some none
    | some (b ∷ bs) ↦ some (some (b ∷ bs))
  ]

  -- The bytes that go to the slave: `some none` where the SDO is skipped, `none` where it is undefined.
  unfoldable pub wire_bytes : Sdo → Option (Option (List ℕ))
  unfolding encode_sdo_value
  wire_bytes sdo = elim sdo.value_bytes [
    | none ↦ encoded sdo.parsed_type sdo.value
    | some [] ↦ encoded sdo.parsed_type sdo.value
    | some (b ∷ bs) ↦ if ltb int_max (length (b ∷ bs)) then some none else some (some (b ∷ bs))
  ]

-- Besides, strtol with base 16 as a uint16_t, and EC_TIMEOUTRXM.
module _ (single double : Double → List ℕ) (strtol : List ℕ → ℕ) (timeout_rxm : ℤ) where
  -- The time of a request in microseconds; `none` where the product overflows an int, which C leaves
  -- undefined.
  unfoldable pub sdo_timeout_us : ℤ → Option ℤ
  sdo_timeout_us ms =
      if not (ltb_ℤ (pos 0) ms)
      then some timeout_rxm
      else if ltb int_max (pos_part ms * 1000)
      then none
      else some (pos (pos_part ms * 1000))

  abbrev pub request : ℤ → ℤ → Sdo → List ℕ → SdoWrite
  request slave_pos timeout sdo bytes = record {
    slave = slave_pos;
    index = strtol sdo.index;
    subindex = sdo.subindex;
    complete_access = sdo.complete_access;
    bytes = bytes;
    timeout = timeout;
  }

  -- The loop: the requests made and the SDOs written. `answer i r` is the working counter that
  -- ecx_SDOwrite gives for the request of SDO `i`.
  unfoldable pub write_loop : (ℕ → SdoWrite → ℤ) → ℤ → ℤ → ℕ → List Sdo → Option (List SdoWrite × ℕ)
  unfolding wire_bytes sdo_timeout_us
  write_loop answer slave_pos ms i [] = some ([], 0)
  write_loop answer slave_pos ms i (sdo ∷ sdos) =
      let rest = write_loop answer slave_pos ms (i + 1) sdos in
      elim (wire_bytes single double sdo) [
        | none ↦ none
        | some none ↦ rest
        | some (some bytes) ↦ elim (sdo_timeout_us ms) [
          | none ↦ none
          | some timeout ↦ elim rest [
            | none ↦ none
            | some (requests, written) ↦
                let r = request slave_pos timeout sdo bytes in
                some (r ∷ requests, if ltb_ℤ (pos 0) (answer i r) then written + 1 else written)
          ]
        ]
      ]

  -- `ecat_master_write_sdos`: the requests made, and whether the result is 0.
  unfoldable pub write_sdos :
      (ℕ → SdoWrite → ℤ) → Context → ℤ → ℤ → List Sdo → Option (List SdoWrite × Bool)
  unfolding write_loop
  write_sdos answer c slave_pos ms sdos =
      if not c.soem_initialized || ltb_ℤ slave_pos (pos 1) || ltb_ℤ (pos c.slavecount) slave_pos
      then some ([], false)
      else if length sdos == 0
      then some ([], true)
      else if not (has_coe c.mbx_proto)
      then some ([], false)
      else elim (write_loop answer slave_pos ms 0 sdos) [
        | none ↦ none
        | some (requests, written) ↦ some (requests, not (ltb written (length sdos)))
      ]

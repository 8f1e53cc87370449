-- ===== src/Master/Stands.antt =====
-- src/master.c: the bytes that an SDO stands for, and the time of its request.
use ether_dog.Base.{
  ◌≢◌, ltb, not, ◌*◌, if◌then◌else◌, ◌⊎◌, ℕ, false, ◌≡◌, ◌≤◌, ◌<◌, refl, arith, Option, none, some,
  List, [], ◌∷◌, inl, inr, length,
}
use ether_dog.Base.Int.{ℤ, pos, ltb_ℤ}
use ether_dog.Config.Types.{Sdo, DataType}
use ether_dog.Config.Doubles.{Double}
use ether_dog.Master.Sdo.{encode_sdo_value, encoded, sdo_timeout_us, int_max, wire_bytes}

-- The bytes that an SDO stands for: those that it names, if it names any, of which an int can count;
-- otherwise those of its value in its type, of which there is one at least.
abbrev pub NamesBytes : Sdo → List ℕ → Type 0
NamesBytes sdo bytes = (sdo.value_bytes ≡ some bytes) × (bytes ≢ []) × (length bytes ≤ 2147483647)

abbrev pub NamesNone : Option (List ℕ) → Type 0
NamesNone o = (o ≡ none) ⊎ (o ≡ some [])

-- The time that a request may take, where it is an int: the one of the configuration, in microseconds,
-- or that of SOEM.
abbrev pub IsTimeout : ℤ → ℤ → ℤ → Type 0
IsTimeout timeout_rxm ms t =
    ((n : ℕ) × (ms ≡ pos n) × (0 < n) × (n * 1000 ≤ 2147483647) × (t ≡ pos (n * 1000)))
    ⊎ ((ltb_ℤ (pos 0) ms ≡ false) × (t ≡ timeout_rxm))

module _ (single double : Double → List ℕ) where
  abbrev pub HasValue : Sdo → List ℕ → Type 0
  HasValue sdo bytes =
      NamesNone sdo.value_bytes
      × (encode_sdo_value single double sdo.parsed_type sdo.value ≡ some bytes)
      × (bytes ≢ [])

  abbrev pub IsWire : Sdo → List ℕ → Type 0
  IsWire sdo bytes = NamesBytes sdo bytes ⊎ HasValue sdo bytes

  encoded_value :
      (dt : DataType) (v : Double) (bytes : List ℕ)
      → encoded single double dt v ≡ some (some bytes)
      → (encode_sdo_value single double dt v ≡ some bytes) × (bytes ≢ [])
  encoded_value dt v bytes h = by_result (encode_sdo_value single double dt v) refl h
    where
      by_result :
          (o : Option (List ℕ))
          → encode_sdo_value single double dt v ≡ o
          → elim o [ none ↦ none | some [] ↦ some none | some (b ∷ bs) ↦ some (some (b ∷ bs)) ]
            ≡ some (some bytes)
          → (encode_sdo_value single double dt v ≡ some bytes) × (bytes ≢ [])
      by_result none e h = cc
      by_result (some []) e h = cc
      by_result (some (b ∷ bs)) e h = (cc, λ q. cc)

  value-encoded :
      (dt : DataType) (v : Double) (bytes : List ℕ)
      → encode_sdo_value single double dt v ≡ some bytes
      → bytes ≢ []
      → encoded single double dt v ≡ some (some bytes)
  value-encoded dt v [] e n = absurd (n refl)
  value-encoded dt v (b ∷ bs) e n = rw (encoded, e) refl

  pub wire_bytes-IsWire :
      (sdo : Sdo) (bytes : List ℕ)
      → wire_bytes single double sdo ≡ some (some bytes)
      → IsWire sdo bytes
  unfolding wire_bytes
  wire_bytes-IsWire sdo bytes h = by_bytes sdo.value_bytes refl h
    where
      by_bytes :
          (o : Option (List ℕ))
          → sdo.value_bytes ≡ o
          → elim o [
            | none ↦ encoded single double sdo.parsed_type sdo.value
            | some [] ↦ encoded single double sdo.parsed_type sdo.value
            | some (b ∷ bs) ↦
                if ltb int_max (length (b ∷ bs)) then some none else some (some (b ∷ bs))
          ]
            ≡ some (some bytes)
          → IsWire sdo bytes
      by_bytes none e h =
          let v = encoded_value sdo.parsed_type sdo.value bytes h in inr (inl e, v.0, v.1)
      by_bytes (some []) e h =
          let v = encoded_value sdo.parsed_type sdo.value bytes h in inr (inr e, v.0, v.1)
      by_bytes (some (b ∷ bs)) e h = inl (given b bs e h)
        where
          given :
              (b : ℕ) (bs : List ℕ)
              → sdo.value_bytes ≡ some (b ∷ bs)
              → (if ltb int_max (length (b ∷ bs)) then some none else some (some (b ∷ bs)))
                ≡ some (some bytes)
              → NamesBytes sdo bytes
          given b bs e h = ground arith

  pub IsWire-wire_bytes :
      (sdo : Sdo) (bytes : List ℕ)
      → IsWire sdo bytes
      → wire_bytes single double sdo ≡ some (some bytes)
  unfolding wire_bytes
  IsWire-wire_bytes sdo [] (inl (e, n, l)) = absurd (n refl)
  IsWire-wire_bytes sdo (b ∷ bs) (inl (e, n, l)) = rw e (ground arith)
  IsWire-wire_bytes sdo bytes (inr (inl e, v, n)) =
      rw e (value-encoded sdo.parsed_type sdo.value bytes v n)
  IsWire-wire_bytes sdo bytes (inr (inr e, v, n)) =
      rw e (value-encoded sdo.parsed_type sdo.value bytes v n)

pub timeout_fits :
    (timeout_rxm ms t : ℤ) (single double : Double → List ℕ) (strtol : List ℕ → ℕ)
    → IsTimeout timeout_rxm ms t
    → sdo_timeout_us single double strtol timeout_rxm ms ≡ some t
unfolding sdo_timeout_us
timeout_fits timeout_rxm ms t single double strtol (inl (n, m, z, l, e)) =
    rw (m, e) (positive n z l)
  where
    positive :
        (n : ℕ)
        → 0 < n
        → n * 1000 ≤ 2147483647
        → (if not (ltb_ℤ (pos 0) (pos n))
            then some timeout_rxm
            else if ltb int_max (n * 1000)
            then none
            else some (pos (n * 1000)))
          ≡ some (pos (n * 1000))
    positive n z l = ground arith
timeout_fits timeout_rxm ms t single double strtol (inr (z, e)) = rw (z, e) refl

-- ===== src/Master/Fixed.antt =====
-- src/master.c: the check of fixed PDO mappings against what the slaves report.
use ether_dog.Base.{
  ℕ, ◌+◌, ◌*◌, ◌^◌, ◌%◌, Bool, true, false, not, ◌&&◌, ◌||◌, List, [], ◌∷◌, Option, none, some,
  ◌==◌, if◌then◌else◌, length,
}
use ether_dog.Base.Int.{ℤ, pos, ltb_ℤ}
use ether_dog.Protocol.{get_bytes}
use ether_dog.Config.Types.{Slave, Pdo, PdoEntry}

-- What the calls of SOEM give: the number of slaves and, for a position, whether the slave has a CoE
-- mailbox, and the bytes that ecx_SDOread of an index and a subindex brings, or `none` where its
-- working counter is not above 0.
pub record Mailboxes : Type 0 where
  pub slavecount : ℕ
  pub slave_has_coe : ℤ → Bool
  pub sdo_read : ℤ → ℕ → ℕ → Option (List ℕ)

-- A read that must bring `size` bytes, as a number; the bytes are little endian.
unfoldable pub read_value : ℕ → Option (List ℕ) → Option ℕ
read_value size none = none
read_value size (some bytes) = if length bytes == size then some (get_bytes bytes) else none

-- Whether the PDOs of a slave are left unchecked.
abbrev pub skips : Mailboxes → Slave → Bool
skips m slave =
    slave.modular.present
    || ltb_ℤ slave.position (pos 1)
    || ltb_ℤ (pos m.slavecount) slave.position
    || not (m.slave_has_coe slave.position)

-- The check of one number, and what follows it; what is not readable ends the check.
abbrev pub agrees : Option ℕ → ℕ → Bool → Bool
agrees none expected rest = true
agrees (some actual) expected rest = if not (actual == expected) then false else rest

-- strtoul with base 16, as a uint32_t
module _ (strtoul : List ℕ → ℕ) where
  -- The index in the high half, then the subindex and the length, each of a byte.
  unfoldable pub expected_entry : PdoEntry → ℕ
  expected_entry e = (strtoul e.index * 65536) % 2 ^ 32 + e.subindex * 256 + e.bit_length

  -- The entries from the one with number `e` on. An entry that is not readable ends the check.
  unfoldable pub verify_entries : (ℕ → Option (List ℕ)) → ℕ → List PdoEntry → Bool
  unfolding read_value expected_entry
  verify_entries read e [] = true
  verify_entries read e (entry ∷ entries) =
      agrees (read_value 4 (read e)) (expected_entry entry) (verify_entries read (e + 1) entries)

  -- One PDO of a slave. A mapping that is not readable is not verified.
  unfoldable pub verify_pdo : (ℕ → ℕ → Option (List ℕ)) → Pdo → Bool
  unfolding read_value verify_entries
  verify_pdo read pdo =
      let index = strtoul pdo.index % 65536 in
      if not pdo.fixed
      then true
      else agrees (read_value 1 (read index 0)) (length pdo.entries)
          (verify_entries (read index) 1 pdo.entries)

  -- `verify_fixed_direction`: whether the result is 0.
  unfoldable pub verify_fixed_direction : (ℕ → ℕ → Option (List ℕ)) → List Pdo → Bool
  unfolding verify_pdo
  verify_fixed_direction read [] = true
  verify_fixed_direction read (pdo ∷ pdos) = verify_pdo read pdo && verify_fixed_direction read pdos

  -- `ecat_master_verify_fixed_pdos`: whether the result is 0.
  unfoldable pub verify_fixed_pdos : Mailboxes → List Slave → Bool
  unfolding verify_fixed_direction
  verify_fixed_pdos m [] = true
  verify_fixed_pdos m (slave ∷ slaves) =
      (skips m slave
        || (verify_fixed_direction (m.sdo_read slave.position) slave.rx_pdos
            && verify_fixed_direction (m.sdo_read slave.position) slave.tx_pdos))
      && verify_fixed_pdos m slaves

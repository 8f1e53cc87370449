-- ===== src/Command/Requests.antt =====
-- src/bus.c: the parameters of the commands.
use Prim.Native.String.{String}
use ether_dog.Base.{
  ℕ, Bool, false, not, ◌||◌, ◌==◌, leb, if◌then◌else◌, List, Option, none, some, length,
}
use ether_dog.Base.Int.{ℤ, pos, pos_part}
use ether_dog.Base.Results.{Result, success, failure}
use ether_dog.Config.Doubles.{Double, nan, at_least, at_most, between}
use ether_dog.Config.Host.{Host, get_number}
use ether_dog.Iface.Apply.{iface_validate, any_platform}
use ether_dog.Command.State.{
  Refusal, not_numbers, master_out_of_range, bad_slave, name_length, name_format,
}

-- `v < c` and `v > c`
abbrev pub less : Double → ℤ → Bool
less nan c = false
less v c = not (at_least v c)

abbrev pub greater : Double → ℤ → Bool
greater nan c = false
greater v c = not (at_most v c)

-- `v != (double)i`
abbrev pub unequal : Double → ℤ → Bool
unequal v i = not (between i i v)

-- The tests of a master's index and of a slave's position.
unfoldable pub check_master : ℕ → ℤ × Double → Result Refusal ℕ
check_master count (i, v) =
    if less v (pos 0) || at_least v (pos count) || unequal v i
    then failure master_out_of_range
    else success (pos_part i)

unfoldable pub check_slave : ℤ × Double → Result Refusal ℕ
check_slave (i, v) =
    if less v (pos 1) || greater v (pos 65535) || unequal v i
    then failure bad_slave
    else success (pos_part i)

abbrev pub with_slave : ℕ → Result Refusal ℕ → Result Refusal (ℕ × ℕ)
with_slave master_idx (failure e) = failure e
with_slave master_idx (success slave_pos) = success (master_idx, slave_pos)

abbrev pub with_master : ℤ × Double → Result Refusal ℕ → Result Refusal (ℕ × ℕ)
with_master s (failure e) = failure e
with_master s (success master_idx) = with_slave master_idx (check_slave s)

-- The checks on the two numbers; `none` is a field that is no number.
unfoldable pub check_numbers :
    ℕ → Option (ℤ × Double) → Option (ℤ × Double) → Result Refusal (ℕ × ℕ)
unfolding check_master check_slave
check_numbers count (some m) (some s) = with_master s (check_master count m)
check_numbers count (some m) none = failure not_numbers
check_numbers count none s = failure not_numbers

-- `validate_interface_name`; ECAT_IFNAME_MAX is 128
unfoldable pub validate_interface_name : List ℕ → Result Refusal (Unit {0})
unfolding iface_validate
validate_interface_name ifname =
    if (length ifname == 0) || leb 128 (length ifname)
    then failure name_length
    else if not (iface_validate ifname any_platform)
    then failure name_format
    else success tt

module _ (h : Host) where
  abbrev pub param : Option h.Node → String → Option (ℤ × Double)
  param none key = none
  param (some params) key = get_number h params key

  -- `parse_master_slave`: the index of the master among `count`, and the position of the slave.
  unfoldable pub parse_master_slave : ℕ → h.Node → Result Refusal (ℕ × ℕ)
  unfolding check_numbers
  parse_master_slave count root =
      check_numbers count (param (h.item root "params") "master")
        (param (h.item root "params") "slave")

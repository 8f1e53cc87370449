-- ===== src/Iface/Apply.antt =====
-- src/iface_state.c and src/config.c: the tuning of an interface for a start, and its end.
use ether_dog.Base.{
  ℕ, Bool, false, not, ◌&&◌, ◌||◌, [], ◌∷◌, Option, none, some, leb, ◌==◌, if◌then◌else◌, length,
}
use ether_dog.Iface.Text.{Text, is_digit, every}
use ether_dog.Iface.Nic.{
  IfaceState, Tool, capture_nic_settings, apply_low_latency_nic, restore_nic_settings,
}
use ether_dog.Iface.Saved.{Writing, persist_state, load_state, blank}

-- isalpha and isalnum in the C locale
abbrev pub is_alpha : ℕ → Bool
is_alpha c = (leb b'A' c && leb c b'Z') || (leb b'a' c && leb c b'z')

abbrev pub is_alnum : ℕ → Bool
is_alnum c = is_digit c || is_alpha c

-- `ecat_iface_validate_mode_t`
pub data ValidateMode : Type 0 where
  linux_strict any_platform : ValidateMode

abbrev pub linux_char : ℕ → Bool
linux_char c = is_alnum c || (c == b'_') || (c == b'-')

abbrev pub platform_char : ℕ → Bool
platform_char c = linux_char c || (c == b'\\') || (c == b'{') || (c == b'}') || (c == b'.')

-- `ecat_iface_validate` on a name that is not NULL: ECAT_LINUX_IFNAME_MAX is 16, ECAT_IFNAME_MAX 128.
unfoldable pub iface_validate : Text → ValidateMode → Bool
iface_validate [] mode = false
iface_validate (c ∷ s) linux_strict =
    if leb 16 (length (c ∷ s))
    then false
    else if not (is_alpha c)
    then false
    else every linux_char (c ∷ s)
iface_validate (c ∷ s) any_platform =
    if leb 128 (length (c ∷ s)) then false else every platform_char (c ∷ s)

module _ (t : Tool) where
  -- The system, and the state file of the interface.
  pub record World : Type 0 where
    pub system : t.System
    pub file : Option Text

  abbrev pub undo : Option IfaceState → World → World
  undo none w = w
  undo (some prev) w = record { system = restore_nic_settings t prev w.system; file = none }

  -- `recover_from_crash`
  unfoldable pub recover_from_crash : Text → World → World
  unfolding load_state
  recover_from_crash iface w = undo (load_state iface w.file) w

  -- The part of `ecat_iface_state_apply` behind its checks.
  abbrev pub tune : Writing → Text → World → IfaceState × World
  tune writing iface w =
      let (s, sys) = capture_nic_settings t (blank iface) w.system in
      (
        s,
        record {
          system = apply_low_latency_nic t iface sys;
          file = persist_state writing s w.file;
        },
      )

  -- `ecat_iface_state_apply`, on a state that is there
  unfoldable pub apply_tuning : Writing → Text → IfaceState → World → IfaceState × World
  unfolding recover_from_crash iface_validate
  apply_tuning writing [] s w = (s, w)
  apply_tuning writing (c ∷ iface) s w =
      if not (iface_validate (c ∷ iface) linux_strict)
      then (blank [], w)
      else tune writing (c ∷ iface) (recover_from_crash (c ∷ iface) w)

  -- `ecat_iface_state_revert`
  unfoldable pub revert : IfaceState → World → IfaceState × World
  revert s w = elim s.iface [
    | [] ↦ (s, w)
    | c ∷ iface ↦ (
      record s { coalescing_saved = false; offloads_saved = false },
      record { system = restore_nic_settings t s w.system; file = none },
    )
  ]

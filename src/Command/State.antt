-- ===== src/Command/State.antt =====
-- src/bus.c: the masters that the commands work on.
use ether_dog.Base.{ℕ, Bool, List, [], ◌∷◌}
use ether_dog.Config.Parse.{NamedConfig}
use ether_dog.Bus.State.{Diag}
use ether_dog.Bus.Lifecycle.{Life}
use ether_dog.Data.Session.{Session}

-- The fields of `ecat_master_instance_t` that the commands read or change.
pub record Entry : Type 0 where
  pub named : NamedConfig
  pub life : Life
  pub soem_initialized : Bool
  pub diag : Diag
  pub data_session : Session

-- `g_masters` with its count, `g_config_path`, and the masters that were dropped from the array with a
-- thread still running.
pub record Masters : Type 0 where
  pub entries : List Entry
  pub config_path : List ℕ
  pub leaked : List Entry

abbrev pub lives : List Entry → List Life
lives [] = []
lives (e ∷ es) = e.life ∷ lives es

-- The refusals of the commands that the source prints as fixed texts.
pub data Refusal : Type 0 where
  bus_active out_of_memory invalid_configuration no_locks : Refusal
  not_numbers master_out_of_range bad_slave : Refusal
  name_length name_format : Refusal

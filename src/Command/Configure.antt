-- ===== src/Command/Configure.antt =====
-- src/bus.c: loading a configuration. The result of `ecat_config_parse_all`, the memory and the locks
-- are arguments.
use ether_dog.Base.{
  ℕ, ◌+◌, Bool, true, false, not, ◌&&◌, if◌then◌else◌, List, [], ◌∷◌, Option, none, some, take, map,
  ◌++◌,
}
use ether_dog.Base.Results.{Result, success, failure}
use ether_dog.Config.Types.{ConfigError}
use ether_dog.Config.Parse.{NamedConfig}
use ether_dog.Bus.State.{idle, diag_reset}
use ether_dog.Bus.Lifecycle.{any_active, destroys}
use ether_dog.Data.Session.{init}
use ether_dog.Command.State.{
  Entry, Masters, lives, Refusal, bus_active, out_of_memory, invalid_configuration, no_locks,
}

-- Whether the three locks of one master are made.
pub record Locks : Type 0 where
  pub slaves_mutex : Bool
  pub acyclic_lock : Bool
  pub data_init : Bool

-- `init_instance_locks`: whether the result is 0.
unfoldable pub init_instance_locks : Locks → Bool
init_instance_locks l =
    if not l.slaves_mutex then false else if not l.acyclic_lock then false else l.data_init

-- The loop over the masters: `locks i` is what is made for master `i`.
unfoldable pub init_all : (ℕ → Locks) → ℕ → List NamedConfig → Bool
unfolding init_instance_locks
init_all locks i [] = true
init_all locks i (n ∷ ns) = init_instance_locks (locks i) && init_all locks (i + 1) ns

-- A master that was just loaded.
abbrev pub loaded : NamedConfig → Entry
loaded n = record {
  named = n;
  life = record {
    bus_state = idle;
    bus_running = false;
    monitor_running = false;
    bus_threads = 0;
    monitor_threads = 0;
  };
  soem_initialized = false;
  diag = diag_reset;
  data_session = init;
}

-- The masters that `destroy_instance` does not free.
abbrev pub not_freed : List Entry → List Entry
not_freed [] = []
not_freed (e ∷ es) = if destroys e.life then not_freed es else (e ∷ not_freed es)

-- `free_masters` and the assignments that follow it: a master with a running thread is leaked.
abbrev pub replace_masters : List NamedConfig → List ℕ → Masters → Masters
replace_masters ns path ms = record {
  entries = map loaded ns;
  config_path = take 511 path;
  leaked = not_freed ms.entries ++ ms.leaked;
}

pub record Loading : Type 0 where
  pub memory : Bool
  pub parsed : List ℕ → Result ConfigError (List NamedConfig)
  pub locks : ℕ → Locks

abbrev pub Reply : Type 0
Reply = Result Refusal (Unit {0})

abbrev pub load_parsed :
    Loading → List ℕ → Result ConfigError (List NamedConfig) → Masters → Masters × Reply
load_parsed l path (failure e) ms = (ms, failure invalid_configuration)
load_parsed l path (success []) ms = (ms, failure invalid_configuration)
load_parsed l path (success (n ∷ ns)) ms =
    if not (init_all l.locks 0 (n ∷ ns))
    then (ms, failure no_locks)
    else (replace_masters (n ∷ ns) path ms, success tt)

abbrev pub load_path : Loading → List ℕ → Masters → Masters × Reply
load_path l [] ms = (replace_masters [] [] ms, success tt)
load_path l (c ∷ path) ms =
    if not l.memory
    then (ms, failure out_of_memory)
    else load_parsed l (c ∷ path) (l.parsed (c ∷ path)) ms

abbrev pub path_text : Option (List ℕ) → List ℕ
path_text none = []
path_text (some path) = path

-- `ecat_bus_configure`; a path of NULL and an empty one both clear the configuration.
unfoldable pub bus_configure : Loading → Option (List ℕ) → Masters → Masters × Reply
unfolding init_all
bus_configure l path ms =
    if any_active (lives ms.entries)
    then (ms, failure bus_active)
    else load_path l (path_text path) ms

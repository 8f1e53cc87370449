-- ===== src/Bus/Lifecycle.antt =====
-- src/bus.c: starting and stopping the masters. What the phases of a start return is an argument.
use ether_dog.Base.{
  ℕ, suc, Bool, true, false, not, ◌||◌, ◌&&◌, ◌+◌, ◌-◌, if◌then◌else◌, List, [], ◌∷◌,
}
use ether_dog.Bus.State.{BusState, idle, operational, error, stopped, exchanges}

-- The state of a master, the two running flags, and the threads that were created and not joined.
pub record Life : Type 0 where
  pub bus_state : BusState
  pub bus_running : Bool
  pub monitor_running : Bool
  pub bus_threads : ℕ
  pub monitor_threads : ℕ

-- What the phases of one start return (`true` for 0): the writes of each slave's SDOs come with its
-- `strict_sdo`.
pub record Startup : Type 0 where
  pub has_slaves : Bool
  pub open_and_scan : Bool
  pub write_sdos : List (Bool × Bool)
  pub verify_fixed_pdos : Bool
  pub configure : Bool
  pub layout_build : Bool
  pub alloc_buffers : Bool
  pub transition_to_op : Bool
  pub monitor_create : Bool
  pub bus_create : Bool

-- A slave's failed write ends the start where the slave is strict.
abbrev pub sdos_pass : List (Bool × Bool) → Bool
sdos_pass [] = true
sdos_pass ((ok, strict) ∷ ws) = (ok || not strict) && sdos_pass ws

-- The phases before the threads, in their order.
unfoldable pub phases_pass : Startup → Bool
phases_pass u =
    u.open_and_scan
    && sdos_pass u.write_sdos
    && u.verify_fixed_pdos
    && u.configure
    && u.layout_build
    && u.alloc_buffers
    && u.transition_to_op

abbrev failed : Life → Life
failed l = record l { bus_state = error }

-- The last phase: the bus thread.
unfoldable pub create_bus : Startup → Life → Life × Bool
create_bus u l =
    if u.bus_create
    then (record l { bus_running = true; bus_threads = l.bus_threads + 1 }, true)
    else (record l { bus_running = false; bus_state = error }, false)

-- The monitor thread, and then the bus thread.
unfoldable pub create_threads : Startup → Life → Life × Bool
unfolding create_bus
create_threads u l =
    if u.monitor_create
    then create_bus u (record l { monitor_running = true; monitor_threads = l.monitor_threads + 1 })
    else (record l { monitor_running = false; bus_state = error }, false)

-- `start_single_master`; the result is `true` for 0. A phase that fails closes the master and leaves
-- the error state.
unfoldable pub start_single_master : Startup → Life → Life × Bool
unfolding phases_pass create_threads
start_single_master u l =
    if not u.has_slaves
    then (l, false)
    else if not (phases_pass u)
    then (failed l, false)
    else create_threads u (record l { bus_state = operational })

-- The bus thread is joined where its flag is set.
unfoldable pub join_bus : Life → Life
join_bus l =
    if l.bus_running then record l { bus_running = false; bus_threads = l.bus_threads - 1 } else l

unfoldable pub join_monitor : Life → Life
join_monitor l =
    if l.monitor_running
    then record l { monitor_running = false; monitor_threads = l.monitor_threads - 1 }
    else l

-- ECAT_STATE_STOPPED or ECAT_STATE_IDLE
abbrev pub is_down : BusState → Bool
is_down idle = true
is_down stopped = true
is_down _ = false

-- `stop_single_master`
unfoldable pub stop_single_master : Life → Life
unfolding join_bus join_monitor
stop_single_master l =
    if is_down l.bus_state then l else record (join_monitor (join_bus l)) { bus_state = stopped }

-- ECAT_STATE_IDLE, ECAT_STATE_STOPPED or ECAT_STATE_ERROR: a start is tried.
abbrev pub can_start : BusState → Bool
can_start error = true
can_start s = is_down s

-- One master of `ecat_bus_start`, and whether it counts as started.
unfoldable pub start_master : Startup → Life → Life × Bool
unfolding start_single_master
start_master u l =
    if exchanges l.bus_state
    then (l, true)
    else if not (can_start l.bus_state)
    then (l, false)
    else start_single_master u l

-- `ecat_bus_start` over the masters: how many are started. The caller's result is -1 for 0.
unfoldable pub bus_start : List (Startup × Life) → List Life × ℕ
unfolding start_master
bus_start [] = ([], 0)
bus_start ((u, l) ∷ ms) =
    let (l', started) = start_master u l in
    let (ls, n) = bus_start ms in (l' ∷ ls, if started then suc n else n)

unfoldable pub bus_stop : List Life → List Life
unfolding stop_single_master
bus_stop [] = []
bus_stop (l ∷ ls) = stop_single_master l ∷ bus_stop ls

-- `ecat_bus_any_active`
unfoldable pub any_active : List Life → Bool
any_active [] = false
any_active (l ∷ ls) = not (can_start l.bus_state) || any_active ls

-- Whether `destroy_instance` frees the master.
abbrev pub destroys : Life → Bool
destroys l = not (l.bus_running || l.monitor_running)

-- Whether `free_masters` frees the array.
unfoldable pub free_masters : List Life → Bool
free_masters [] = true
free_masters (l ∷ ls) = destroys l && free_masters ls

-- The monitor thread when the recovery fails for good: the error state, with the threads as they are.
abbrev pub give_up : Life → Life
give_up l = record l { bus_state = error }

-- ===== src/Log/Ring.antt =====
-- src/log.c: recording an entry and querying the ring. The caller holds the mutex in both.
use ether_dog.Base.{
  ℕ, zero, suc, ◌%◌, ◌+◌, ◌-◌, ltb, leb, if◌then◌else◌, List, [], ◌∷◌, get_or, set, replicate,
}
use ether_dog.Base.Int.{ℤ, pos}

-- EDOG_LOG_RING_SIZE
abbrev pub ring_size : ℕ
ring_size = 1000

-- `edog_log_entry_t`. The levels EDOG_LOG_DEBUG to EDOG_LOG_ERROR are the numbers 0 to 3.
pub record LogEntry : Type 0 where
  pub id : ℕ
  pub timestamp : ℤ
  pub level : ℕ
  pub tag : List ℕ
  pub message : List ℕ

-- `g_ring`, `g_next_id` and `g_min_level`. The ids count the entries, and do not reach 2 ^ 64.
pub record Log : Type 0 where
  pub ring : List LogEntry
  pub next_id : ℕ
  pub min_level : ℕ

abbrev pub no_entry : LogEntry
no_entry = record { id = 0; timestamp = pos 0; level = 0; tag = []; message = [] }

-- EDOG_LOG_INFO is 1.
unfoldable pub initial : Log
initial = record { ring = replicate ring_size no_entry; next_id = 1; min_level = 1 }

abbrev pub numbered : ℕ → LogEntry → LogEntry
numbered id e = record e { id = id }

-- `vlog`, for an entry that is already formatted.
unfoldable pub vlog : LogEntry → Log → Log
vlog e l = if ltb e.level l.min_level then l else record l {
  ring = set l.ring (l.next_id % ring_size) (numbered l.next_id e);
  next_id = l.next_id + 1;
}

-- `edog_log_set_level`
unfoldable pub set_level : ℕ → Log → Log
set_level level l = record l { min_level = level }

-- `oldest_id_locked`
abbrev pub oldest_id : Log → ℕ
oldest_id l = if ltb ring_size l.next_id then l.next_id - ring_size else 1

-- The loop of `edog_log_query` over the `n` ids from `id` on, with room for `room` more entries.
unfoldable pub collect : List LogEntry → ℕ → ℕ → ℕ → ℕ → List LogEntry
collect ring level zero id room = []
collect ring level (suc n) id zero = []
collect ring level (suc n) id (suc room) =
    if leb level (get_or ring (id % ring_size) no_entry).level
    then get_or ring (id % ring_size) no_entry ∷ collect ring level n (id + 1) room
    else collect ring level n (id + 1) (suc room)

-- `edog_log_query`
unfoldable pub query : ℕ → ℕ → ℕ → Log → List LogEntry
unfolding collect
query min_id level room l =
    let id : ℕ = if ltb min_id (oldest_id l) then oldest_id l else min_id in
    collect l.ring level (l.next_id - id) id room

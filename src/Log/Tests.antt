-- ===== src/Log/Tests.antt =====
-- A run of the log.
use ether_dog.Base.{◌-◌, ◌≡◌, List, [], ◌∷◌, drop, max, length}
use ether_dog.Base.Int.{pos}
use ether_dog.Log.Ring.{LogEntry, query, initial}
use ether_dog.Log.History.{Call, record_entry, change_level, run, recorded}
use ether_dog.Log.Query.{selected}
use ether_dog.Log.Whole.{query-recorded}

abbrev debug_entry : LogEntry
debug_entry = record { id = 0; timestamp = pos 1; level = 0; tag = []; message = 1 ∷ [] }

-- A debug entry, which is not recorded, and one that is, behind a change of the level.
abbrev calls : List Call
calls = record_entry debug_entry ∷ change_level 0 ∷ record_entry debug_entry ∷ []

query-recorded_example :
    query 0 0 10 (run calls initial)
    ≡ selected 0 10 (drop (max (0 - 1) (length (recorded 1 1 calls) - 1000)) (recorded 1 1 calls))
query-recorded_example = query-recorded calls 0 0 10

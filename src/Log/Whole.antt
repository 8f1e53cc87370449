-- ===== src/Log/Whole.antt =====
-- src/log.c: a query after any run of calls, from the start of the program.
use ether_dog.Base.{
  ℕ, Bool, true, false, ◌+◌, ◌-◌, ◌≡◌, refl, sym, ap, subst, inl, inr, ◌∙◌, ltb, if◌then◌else◌,
  List, [], ◌∷◌, ◌++◌, append_nil, Bool-cases, drop, max, length,
}
use ether_dog.Log.Ring.{Log, LogEntry, vlog, set_level, query, initial, numbered}
use ether_dog.Log.History.{
  Holds, stored, stored-Holds, recorded, run, Call, record_entry, change_level, set_level-Holds,
}
use ether_dog.Log.Query.{initial-Holds, query-history, selected}

vlog_below : (e : LogEntry) (l : Log) → ltb e.level l.min_level ≡ true → vlog e l ≡ l
unfolding vlog
vlog_below e l h = ap (λ (b : Bool). if b then l else stored e l) h

vlog-stored : (e : LogEntry) (l : Log) → ltb e.level l.min_level ≡ false → vlog e l ≡ stored e l
unfolding vlog
vlog-stored e l h = ap (λ (b : Bool). if b then l else stored e l) h

append_one : (xs ys : List LogEntry) (y : LogEntry) → (xs ++ (y ∷ [])) ++ ys ≡ xs ++ (y ∷ ys)
append_one [] ys y = refl
append_one (x ∷ xs) ys y = ap (◌∷◌ x) (append_one xs ys y)

-- What the calls record, by the test of the first one.
recorded_as : LogEntry → List Call → Log → Bool → List LogEntry
recorded_as e cs l b =
    if b
    then recorded l.min_level l.next_id cs
    else numbered l.next_id e ∷ recorded l.min_level (l.next_id + 1) cs

run-Holds :
    (cs : List Call) (history : List LogEntry) (l : Log)
    → Holds history l
    → Holds (history ++ recorded l.min_level l.next_id cs) (run cs l)
unfolding recorded_as set_level
run-Holds [] history l v = subst (λ (h : List LogEntry). Holds h l) (sym (append_nil history)) v
run-Holds (change_level level ∷ cs) history l v =
    run-Holds cs history (set_level level l) (set_level-Holds level history l v)
run-Holds (record_entry e ∷ cs) history l v = elim (Bool-cases (ltb e.level l.min_level)) [
  | inl b ↦
      subst (λ (h : List LogEntry). Holds h (run cs (vlog e l)))
        (ap (λ (x : Bool). history ++ recorded_as e cs l x) (sym b))
        (subst (λ (k : Log). Holds (history ++ recorded l.min_level l.next_id cs) (run cs k))
          (sym (vlog_below e l b)) (run-Holds cs history l v))
  | inr b ↦
      subst (λ (h : List LogEntry). Holds h (run cs (vlog e l)))
        (append_one history (recorded l.min_level (l.next_id + 1) cs) (numbered l.next_id e)
          ∙ ap (λ (x : Bool). history ++ recorded_as e cs l x) (sym b))
        (subst
          (λ (k : Log).
            Holds
              ((history ++ (numbered l.next_id e ∷ [])) ++ recorded l.min_level (l.next_id + 1) cs)
              (run cs k))
          (sym (vlog-stored e l b))
          (run-Holds cs (history ++ (numbered l.next_id e ∷ [])) (stored e l)
            (stored-Holds e history l v)))
]

-- After any calls that record an entry or set the least level, from the start of the program with the
-- level INFO, a query returns the entries with at least the level and the id that are asked for among
-- the last 1000 that were recorded, oldest first, as many as there is room for.
pub query-recorded :
    (cs : List Call) (min_id level room : ℕ)
    → query min_id level room (run cs initial)
      ≡ selected level room
          (drop (max (min_id - 1) (length (recorded 1 1 cs) - 1000)) (recorded 1 1 cs))
unfolding initial
query-recorded cs min_id level room =
    query-history (recorded 1 1 cs) (run cs initial) min_id level room
      (run-Holds cs [] initial initial-Holds)

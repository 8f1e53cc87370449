-- ===== src/Log/History.antt =====
-- src/log.c: the ring against the history of all entries that were ever recorded.
use ether_dog.Base.{
  ℕ, zero, suc, Bool, true, false, ◌%◌, ◌+◌, ◌-◌, ◌≤◌, ◌<◌, ◌≡◌, ◌≢◌, refl, sym, ap, arith, inl,
  inr, ◌==◌, ltb, if◌then◌else◌, List, [], ◌∷◌, get_or, set, length, length-set, Bool-cases, ◌++◌,
  length-append, ◌∙◌, ==_iff,
}
use ether_dog.Log.Ring.{Log, LogEntry, ring_size, no_entry, vlog, set_level, numbered}

-- The calls that change the log.
pub data Call : Type 0 where
  record_entry : LogEntry → Call
  change_level : ℕ → Call

-- The entries that the calls record, in order: the level of each is at least the least one at its
-- time, and their ids count from `next` on.
abbrev pub recorded : ℕ → ℕ → List Call → List LogEntry
recorded min_level next [] = []
recorded min_level next (change_level level ∷ cs) = recorded level next cs
recorded min_level next (record_entry e ∷ cs) =
    if ltb e.level min_level
    then recorded min_level next cs
    else numbered next e ∷ recorded min_level (next + 1) cs

abbrev pub run : List Call → Log → Log
run [] l = l
run (change_level level ∷ cs) l = run cs (set_level level l)
run (record_entry e ∷ cs) l = run cs (vlog e l)

get_or-set :
    (xs : List LogEntry) (i : ℕ) (v : LogEntry) → i < length xs → get_or (set xs i v) i no_entry ≡ v
get_or-set [] i v h = absurd (omega arith)
get_or-set (x ∷ xs) zero v h = refl
get_or-set (x ∷ xs) (suc i) v h = get_or-set xs i v (omega arith)

get_or-set_other :
    (xs : List LogEntry) (i j : ℕ) (v : LogEntry)
    → i ≢ j
    → get_or (set xs i v) j no_entry ≡ get_or xs j no_entry
get_or-set_other [] i j v h = refl
get_or-set_other (x ∷ xs) zero zero v h = absurd (h refl)
get_or-set_other (x ∷ xs) zero (suc j) v h = refl
get_or-set_other (x ∷ xs) (suc i) zero v h = refl
get_or-set_other (x ∷ xs) (suc i) (suc j) v h = get_or-set_other xs i j v (λ e. h (ap suc e))

-- The ring holds the last entries of a history, whose entry number `i` from 0 has the id `i + 1`.
pub record Holds (history : List LogEntry) (l : Log) : Type 0 where
  pub counted : l.next_id ≡ length history + 1
  pub whole : length l.ring ≡ ring_size
  pub kept :
      (id : ℕ)
      → 1 ≤ id
      → id < l.next_id
      → l.next_id ≤ id + ring_size
      → get_or l.ring (id % ring_size) no_entry ≡ get_or history (id - 1) no_entry

slots_apart : (i n : ℕ) → i < n → n < i + ring_size → n % ring_size ≢ i % ring_size
slots_apart i n a b = omega arith

get_or_append :
    (xs : List LogEntry) (y : LogEntry) (i : ℕ)
    → i < length xs
    → get_or (xs ++ (y ∷ [])) i no_entry ≡ get_or xs i no_entry
get_or_append [] y i h = absurd (omega arith)
get_or_append (x ∷ xs) y zero h = refl
get_or_append (x ∷ xs) y (suc i) h = get_or_append xs y i (omega arith)

get_or_last :
    (xs : List LogEntry) (y : LogEntry) (i : ℕ)
    → i ≡ length xs
    → get_or (xs ++ (y ∷ [])) i no_entry ≡ y
get_or_last [] y zero h = refl
get_or_last [] y (suc i) h = absurd (omega arith)
get_or_last (x ∷ xs) y zero h = absurd (omega arith)
get_or_last (x ∷ xs) y (suc i) h = get_or_last xs y i (omega arith)

-- The log once an entry has the next id and its place in the ring.
abbrev pub stored : LogEntry → Log → Log
stored e l = record l {
  ring = set l.ring (l.next_id % ring_size) (numbered l.next_id e);
  next_id = l.next_id + 1;
}

kept_after :
    (e : LogEntry) (history : List LogEntry) (l : Log)
    → Holds history l
    → (id : ℕ) → 1 ≤ id
    → id < l.next_id + 1
    → l.next_id + 1 ≤ id + ring_size
    → get_or (set l.ring (l.next_id % ring_size) (numbered l.next_id e)) (id % ring_size) no_entry
      ≡ get_or (history ++ (numbered l.next_id e ∷ [])) (id - 1) no_entry
kept_after e history l v id a b c = elim (Bool-cases (id == l.next_id)) [
  | inl s ↦
      let same : id ≡ l.next_id = (==_iff id l.next_id).0 s in
      ap
        (λ (j : ℕ).
          get_or (set l.ring (l.next_id % ring_size) (numbered l.next_id e)) (j % ring_size)
            no_entry)
        same
      ∙ get_or-set l.ring (l.next_id % ring_size) (numbered l.next_id e) (within v.whole)
      ∙ sym (get_or_last history (numbered l.next_id e) (id - 1) (omega (arith, v.counted, same)))
  | inr s ↦
      let before : id < l.next_id = ground arith in
      get_or-set_other l.ring (l.next_id % ring_size) (id % ring_size) (numbered l.next_id e)
        (slots_apart id l.next_id before (omega arith))
      ∙ v.kept id a before (omega arith)
      ∙ sym (get_or_append history (numbered l.next_id e) (id - 1) (omega (arith, v.counted)))
]
  where
    within : length l.ring ≡ ring_size → l.next_id % ring_size < length l.ring
    within w = omega arith

pub stored-Holds :
    (e : LogEntry) (history : List LogEntry) (l : Log)
    → Holds history l
    → Holds (history ++ (numbered l.next_id e ∷ [])) (stored e l)
stored-Holds e history l v = record {
  counted = omega (arith, v.counted, length-append history (numbered l.next_id e ∷ []));
  whole = length-set l.ring (l.next_id % ring_size) (numbered l.next_id e) ∙ v.whole;
  kept = kept_after e history l v;
}

-- What a call adds to the history.
abbrev pub appended : LogEntry → Log → List LogEntry → List LogEntry
appended e l history =
    if ltb e.level l.min_level then history else history ++ (numbered l.next_id e ∷ [])

-- An entry below the least level changes nothing; any other is appended, under the next id, to the
-- history whose end the ring holds.
vlog-Holds :
    (e : LogEntry) (history : List LogEntry) (l : Log)
    → Holds history l
    → Holds (appended e l history) (vlog e l)
unfolding vlog
vlog-Holds e history l v = by_level (ltb e.level l.min_level)
  where
    by_level :
        (b : Bool)
        → Holds
            (if b then history else history ++ (numbered l.next_id e ∷ []))
            (if b then l else stored e l)
    by_level true = v
    by_level false = stored-Holds e history l v

pub set_level-Holds :
    (level : ℕ) (history : List LogEntry) (l : Log)
    → Holds history l
    → Holds history (set_level level l)
unfolding set_level
set_level-Holds level history l v = record { counted = v.counted; whole = v.whole; kept = v.kept }

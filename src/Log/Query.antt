-- ===== src/Log/Query.antt =====
-- src/log.c: a query of the ring is a query of the history.
use ether_dog.Base.{
  ℕ, zero, suc, false, ◌+◌, ◌-◌, ◌≤◌, ◌<◌, ◌≡◌, refl, sym, ap, ap₂, arith, inl, inr, ltb, leb,
  if◌then◌else◌, List, [], ◌∷◌, get_or, length, length-replicate, Bool-cases, drop, ◌∙◌, drop_all,
  max,
}
use ether_dog.Log.Ring.{Log, LogEntry, ring_size, no_entry, query, collect, oldest_id, initial}
use ether_dog.Log.History.{Holds}

-- The first `room` entries of at least a level.
abbrev pub selected : ℕ → ℕ → List LogEntry → List LogEntry
selected level zero es = []
selected level (suc room) [] = []
selected level (suc room) (e ∷ es) =
    if leb level e.level then e ∷ selected level room es else selected level (suc room) es

pub drop_step :
    (xs : List LogEntry) (i : ℕ)
    → i < length xs
    → drop i xs ≡ get_or xs i no_entry ∷ drop (suc i) xs
drop_step [] i h = absurd (omega arith)
drop_step (y ∷ xs) zero h = refl
drop_step (y ∷ xs) (suc i) h = drop_step xs i (omega arith)

collect-selected :
    (history : List LogEntry) (l : Log) (level n id room : ℕ)
    → Holds history l
    → l.next_id ≡ id + n
    → 1 ≤ id
    → l.next_id ≤ id + ring_size
    → collect l.ring level n id room ≡ selected level room (drop (id - 1) history)
unfolding collect
collect-selected history l level zero id zero v a b c = refl
collect-selected history l level zero id (suc room) v a b c =
    sym (ap (selected level (suc room)) (drop_all (id - 1) history (omega (arith, v.counted))))
collect-selected history l level (suc n) id zero v a b c = refl
collect-selected history l level (suc n) id (suc room) v a b c =
    let rest : (k : ℕ)
        → collect l.ring level n (id + 1) k ≡ selected level k (drop (suc (id - 1)) history) =
      λ k.
        collect-selected history l level n (id + 1) k v (omega arith) (omega arith) (omega arith)
        ∙ ap (λ (j : ℕ). selected level k (drop j history)) (next_place id b) in
    ap
      (λ (x : LogEntry).
        if leb level x.level
        then x ∷ collect l.ring level n (id + 1) room
        else collect l.ring level n (id + 1) (suc room))
      (v.kept id b (omega arith) c)
    ∙ ap₂
        (λ (xs : List LogEntry) (ys : List LogEntry).
          if leb level (get_or history (id - 1) no_entry).level
          then get_or history (id - 1) no_entry ∷ xs
          else ys)
        (rest room) (rest (suc room))
    ∙ sym (ap (selected level (suc room)) (drop_step history (id - 1) (omega (arith, v.counted))))
  where
    next_place : (i : ℕ) → 1 ≤ i → i + 1 - 1 ≡ suc (i - 1)
    next_place i h = omega arith

selected_none : (level room : ℕ) → selected level room [] ≡ []
selected_none level zero = refl
selected_none level (suc room) = refl

collect_from :
    (history : List LogEntry) (l : Log) (level id room : ℕ)
    → Holds history l
    → 1 ≤ id
    → l.next_id ≤ id + ring_size
    → collect l.ring level (l.next_id - id) id room ≡ selected level room (drop (id - 1) history)
unfolding collect
collect_from history l level id room v b c = elim (Bool-cases (leb id l.next_id)) [
  | inl h ↦ collect-selected history l level (l.next_id - id) id room v (ground arith) b c
  | inr h ↦
      ap (λ (n : ℕ). collect l.ring level n id room) (none_left id l.next_id h)
      ∙ sym (
          ap (selected level room) (drop_all (id - 1) history (past id l.next_id h v.counted))
          ∙ selected_none level room)
]
  where
    none_left : (i n : ℕ) → leb i n ≡ false → n - i ≡ 0
    none_left i n h = ground arith

    past : (i n : ℕ) → leb i n ≡ false → n ≡ length history + 1 → length history ≤ i - 1
    past i n h k = ground arith

-- A query of a ring returns, oldest first and as many as there is room for, the entries of at least a
-- level among the last 1000 of the history, from the id that is asked for on.
pub query-history :
    (history : List LogEntry) (l : Log) (min_id level room : ℕ)
    → Holds history l
    → query min_id level room l
      ≡ selected level room (drop (max (min_id - 1) (length history - 1000)) history)
unfolding query
query-history history l min_id level room v =
    ap (λ (id : ℕ). collect l.ring level (l.next_id - id) id room) (later_of min_id (oldest_id l))
    ∙ collect_from history l level (max min_id (oldest_id l)) room v (lowest l.next_id)
        (in_ring l.next_id)
    ∙ ap (λ (i : ℕ). selected level room (drop i history))
        (first_kept l.next_id (length history) v.counted)
  where
    later_of : (m o : ℕ) → (if ltb m o then o else m) ≡ max m o
    later_of m o = ground arith

    lowest : (n : ℕ) → 1 ≤ max min_id (if ltb ring_size n then n - ring_size else 1)
    lowest n = ground arith

    in_ring : (n : ℕ) → n ≤ max min_id (if ltb ring_size n then n - ring_size else 1) + ring_size
    in_ring n = ground arith

    first_kept :
        (n k : ℕ)
        → n ≡ k + 1
        → max min_id (if ltb ring_size n then n - ring_size else 1) - 1
          ≡ max (min_id - 1) (k - 1000)
    first_kept n k e = ground arith

pub initial-Holds : Holds [] initial
unfolding initial
initial-Holds = record {
  counted = omega arith;
  whole = length-replicate ring_size no_entry;
  kept = λ id a b c. absurd (omega arith);
}

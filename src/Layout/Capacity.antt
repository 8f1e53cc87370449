-- ===== src/Layout/Capacity.antt =====
-- src/layout.c: the array that ecat_layout_build allocates is large enough for the entries that it adds.
use ether_dog.Base.{suc}
use ether_dog.Base.{suc}
use ether_dog.Base.{suc}
use ether_dog.Base.{suc}
use ether_dog.Base.{suc}
use ether_dog.Base.{suc}
use ether_dog.Base.{
  suc, ℕ, Bool, true, false, ◌&&◌, ◌+◌, ◌≤◌, ◌≡◌, refl, ◌∙◌, arith, Option, none, some, List, [],
  ◌∷◌, length,
}
use ether_dog.Protocol.{frame_max_payload}
use ether_dog.Config.Types.{PdoEntry, Pdo, Slave}
use ether_dog.Layout.Build.{
  Layout, Direction, Group, SoemSlave, add_entry, add_entries, add_pdos, add_direction, add_slave,
  add_slaves, build, layout_init, count_entries, count_layout_max, get_slave, first_bit,
}
use ether_dog.Layout.Fits.{
  Fits, is_some, layout_of, add_entry-Fits, Fits-here, Fits-bind, Fits-bind_bit, layout_of-bind,
  Fits-at,
}

add_entries-Fits :
    (d : Direction) (pdo : Pdo) (es : List PdoEntry) (bit : ℕ) (l : Layout)
    → length l.entries + length es ≤ l.entry_capacity
    → Fits (length es) l (layout_of (add_entries d pdo es bit l))
unfolding add_entries
add_entries-Fits d pdo [] bit l h = Fits-here l
add_entries-Fits d pdo (e ∷ es) bit l h =
    Fits-at (1 + length es) (suc (length es)) l _ _ (omega arith)
      (layout_of-bind (add_entry d pdo e bit l) (λ b m. add_entries d pdo es b m))
      (Fits-bind_bit 1 (length es) l (add_entry d pdo e bit l)
        (λ b m. layout_of (add_entries d pdo es b m)) (add_entry-Fits d pdo e bit l (omega arith))
        (omega arith) (λ b m r. add_entries-Fits d pdo es b m r))

add_pdos-Fits :
    (d : Direction) (ps : List Pdo) (bit : ℕ) (l : Layout)
    → length l.entries + count_entries ps ≤ l.entry_capacity
    → Fits (count_entries ps) l (add_pdos d ps bit l)
unfolding add_pdos
add_pdos-Fits d [] bit l h = Fits-here l
add_pdos-Fits d (p ∷ ps) bit l h =
    Fits-bind_bit (length p.entries) (count_entries ps) l (add_entries d p p.entries bit l)
      (λ b m. add_pdos d ps b m) (add_entries-Fits d p p.entries bit l (omega arith)) h
      (λ b m r. add_pdos-Fits d ps b m r)

-- Nothing added fits as well.
Fits-same : (n : ℕ) (l : Layout) → Fits n l (some l)
Fits-same n l = record {
  layout = l;
  is_result = refl;
  has_capacity = refl;
  is_within = omega arith;
}

add_direction-Fits :
    (d : Direction) (ps : List Pdo) (b r : Option ℕ) (start_bit : ℕ) (l : Layout)
    → length l.entries + count_entries ps ≤ l.entry_capacity
    → Fits (count_entries ps) l (add_direction d ps b r start_bit l)
unfolding add_direction
add_direction-Fits d [] b r start_bit l h = Fits-same 0 l
add_direction-Fits d (p ∷ ps) none r start_bit l h = Fits-same (count_entries (p ∷ ps)) l
add_direction-Fits d (p ∷ ps) (some b) none start_bit l h = Fits-same (count_entries (p ∷ ps)) l
add_direction-Fits d (p ∷ ps) (some b) (some r) start_bit l h =
    add_pdos-Fits d (p ∷ ps) (first_bit b r start_bit) l h

add_slave-Fits :
    (g : Group) (s : Slave) (soem : SoemSlave) (l : Layout)
    → length l.entries + (count_entries s.rx_pdos + count_entries s.tx_pdos) ≤ l.entry_capacity
    → Fits (count_entries s.rx_pdos + count_entries s.tx_pdos) l (add_slave g s soem l)
unfolding add_slave
add_slave-Fits g s soem l h =
    Fits-bind (count_entries s.rx_pdos) (count_entries s.tx_pdos) l _ _
      (add_direction-Fits (record { position = s.position; is_output = true }) s.rx_pdos
        soem.outputs g.outputs soem.o_startbit l (omega arith))
      h
      (λ m e r.
        add_direction-Fits (record { position = s.position; is_output = false }) s.tx_pdos
          soem.inputs g.inputs soem.i_startbit m r)

-- Every configured slave is on the bus.
abbrev pub all_found : List SoemSlave → List Slave → Bool
all_found bus [] = true
all_found bus (s ∷ ss) = is_some (get_slave bus s.position) && all_found bus ss

add_slaves-Fits :
    (bus : List SoemSlave) (g : Group) (ss : List Slave) (l : Layout)
    → all_found bus ss ≡ true
    → length l.entries + count_layout_max ss ≤ l.entry_capacity
    → Fits (count_layout_max ss) l (add_slaves bus g ss l)
unfolding add_slaves count_layout_max
add_slaves-Fits bus g [] l a h = Fits-here l
add_slaves-Fits bus g (s ∷ ss) l a h = found (get_slave bus s.position) (ground arith) (λ soem.
    Fits-bind (count_entries s.rx_pdos + count_entries s.tx_pdos) (count_layout_max ss) l
      (add_slave g s soem l) (λ m. add_slaves bus g ss m) (add_slave-Fits g s soem l (omega arith))
      (omega arith) (λ m e r. add_slaves-Fits bus g ss m (ground arith) r))
  where
    found :
        (o : Option SoemSlave)
        → is_some o ≡ true
        → ((soem : SoemSlave)
            → Fits
                (count_layout_max (s ∷ ss))
                l
                (elim (add_slave g s soem l) [ none ↦ none | some m ↦ add_slaves bus g ss m ]))
        → Fits (count_layout_max (s ∷ ss)) l (elim o [
          | none ↦ none
          | some soem ↦ elim (add_slave g s soem l) [ none ↦ none | some m ↦ add_slaves bus g ss m ]
        ])
    found none e f = absurd (ground arith)
    found (some soem) e f = f soem

-- The layout that the loop over the slaves starts from.
abbrev fresh : Group → List Slave → Layout
fresh g ss = record {
  output_bytes = g.o_bytes;
  input_bytes = g.i_bytes;
  entries = [];
  entry_capacity = count_layout_max ss;
}

build-fresh :
    (bus : List SoemSlave) (g : Group) (ss : List Slave)
    → g.o_bytes ≤ frame_max_payload
    → g.i_bytes ≤ frame_max_payload
    → build bus true true g ss ≡ add_slaves bus g ss (fresh g ss)
unfolding build layout_init
build-fresh bus g ss ho hi = ground arith

-- With memory, a mapped bus, an image whose regions fit in a frame, and every configured slave on the
-- bus, building the layout succeeds, with no more entries than the array has room for.
pub build-returns :
    (bus : List SoemSlave) (g : Group) (ss : List Slave)
    → g.o_bytes ≤ frame_max_payload
    → g.i_bytes ≤ frame_max_payload
    → all_found bus ss ≡ true
    → (l : Layout) × (build bus true true g ss ≡ some l) × (length l.entries ≤ count_layout_max ss)
build-returns bus g ss ho hi a =
    let x = add_slaves-Fits bus g ss (fresh g ss) a (omega arith) in
    (x.layout, build-fresh bus g ss ho hi ∙ x.is_result, counted x.layout x.is_within)
  where
    counted :
        (l : Layout)
        → length l.entries ≤ 0 + count_layout_max ss
        → length l.entries ≤ count_layout_max ss
    counted l w = omega arith

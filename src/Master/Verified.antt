-- ===== src/Master/Verified.antt =====
-- src/master.c: which fixed PDO mappings pass.
use ether_dog.Base.{
  subst, ==_refl, ℕ, suc, ◌+◌, ◌^◌, ◌%◌, ◌<◌, Bool, true, false, not, ◌&&◌, ◌||◌, List, [], ◌∷◌,
  Option, some, ◌≡◌, ◌↔◌, refl, sym, ap, ap₂, ◌∙◌, arith, ◌==◌, if◌then◌else◌, length, map,
  get_elem?, Bool-cases, inl, inr, ==_iff,
}
use ether_dog.Base.Int.{ℤ}
use ether_dog.Protocol.{put_bytes}
use ether_dog.Protocol.Bytes.{length-put_bytes, get_bytes-put_bytes}
use ether_dog.Config.Types.{Slave, Pdo, PdoEntry}
use ether_dog.Master.Fixed.{
  agrees, Mailboxes, read_value, expected_entry, verify_entries, verify_pdo, verify_fixed_direction,
  verify_fixed_pdos, skips,
}

-- A slave shows a mapping as CoE has it: the number of its entries in subindex 0, in a byte, and each
-- entry in the subindex of its number, in four bytes.
pub record Shows (read : ℕ → Option (List ℕ)) (entries : List ℕ) : Type 0 where
  pub count_shown : read 0 ≡ some (put_bytes 1 (length entries))
  pub count_fits : length entries < 256
  pub entry_shown : (i v : ℕ) → get_elem? entries i ≡ some v → read (suc i) ≡ some (put_bytes 4 v)
  pub entry_fits : (i v : ℕ) → get_elem? entries i ≡ some v → v < 4294967296

read_value-put_bytes : (n v : ℕ) → v < 256 ^ n → read_value n (some (put_bytes n v)) ≡ some v
unfolding read_value
read_value-put_bytes n v h =
    rw (length-put_bytes n v) (rw (==_refl n) (ap some (get_bytes-put_bytes n v h)))

-- A number that is readable passes if it is the expected one.
agrees_iff :
    {P : Type 0} {o : Option ℕ} (v x : ℕ) (rest : Bool)
    → o ≡ some v
    → (v ≡ x → ((rest ≡ true) ↔ P))
    → ((agrees o x rest ≡ true) ↔ ((v ≡ x) × P))
agrees_iff {P} v x rest e h =
    subst (λ (p : Option ℕ). (agrees p x rest ≡ true) ↔ ((v ≡ x) × P)) (sym e)
      (agrees_some v x rest h)
  where
    agrees_some :
        (v x : ℕ) (rest : Bool)
        → (v ≡ x → ((rest ≡ true) ↔ P))
        → ((agrees (some v) x rest ≡ true) ↔ ((v ≡ x) × P))
    agrees_some v x rest h = elim (Bool-cases (v == x)) [
      | inl same ↦ let e = (==_iff v x).0 same in rw same (λ p. (e, (h e).0 p), λ q. (h e).1 q.1)
      | inr other ↦ rw other (λ p. absurd (cc), λ q. absurd (ground arith))
    ]

iff_trans : {A B C : Type 0} → (A ↔ B) → (B ↔ C) → (A ↔ C)
iff_trans f g = (λ a. g.0 (f.0 a), λ c. f.1 (g.1 c))

and_iff : (a b : Bool) → ((a && b) ≡ true) ↔ ((a ≡ true) × (b ≡ true))
and_iff true b = (λ p. (refl, p), λ q. q.1)
and_iff false b = (λ p. absurd (cc), λ q. q.0)

both_iff : {A B C D : Type 0} → (A ↔ B) → (C ↔ D) → ((A × C) ↔ (B × D))
both_iff f g = (λ p. (f.0 p.0, g.0 p.1), λ q. (f.1 q.0, g.1 q.1))

or_iff :
    {P : Type 0} {b : Bool} (a : Bool) → ((b ≡ true) ↔ P) → (((a || b) ≡ true) ↔ (a ≡ false → P))
or_iff true h = (λ p e. absurd (cc), λ q. refl)
or_iff false h = (λ p e. h.0 p, λ q. h.1 (q refl))

cons_iff : (v x : ℕ) (vs xs : List ℕ) → ((v ≡ x) × (vs ≡ xs)) ↔ ◌≡◌ {A = List ℕ} (v ∷ vs) (x ∷ xs)
cons_iff v x vs xs = (λ p. ap₂ ◌∷◌ p.0 p.1, λ p. (cc, cc))

module _ (strtoul : List ℕ → ℕ) where
  abbrev pub mapping_of : List PdoEntry → List ℕ
  mapping_of entries = map (expected_entry strtoul) entries

  -- What is left of a mapping from the entry with number `e` on.
  ShowsFrom : (ℕ → Option (List ℕ)) → ℕ → List ℕ → Type 0
  ShowsFrom read e vs = (i v : ℕ) → get_elem? vs i ≡ some v → read_value 4 (read (e + i)) ≡ some v

  verify_entries_iff :
      (read : ℕ → Option (List ℕ)) (e : ℕ) (entries : List PdoEntry) (vs : List ℕ)
      → length vs ≡ length entries
      → ShowsFrom read e vs
      → (verify_entries strtoul read e entries ≡ true) ↔ (vs ≡ mapping_of entries)
  unfolding verify_entries ShowsFrom
  verify_entries_iff read e [] [] l h = (λ p. refl, λ p. refl)
  verify_entries_iff read e [] (v ∷ vs) l h = absurd (omega arith)
  verify_entries_iff read e (x ∷ xs) [] l h = absurd (omega arith)
  verify_entries_iff read e (x ∷ xs) (v ∷ vs) l h =
      let rest =
        verify_entries_iff read (e + 1) xs vs (omega arith)
          (λ i w p. ap (λ (k : ℕ). read_value 4 (read k)) (omega arith) ∙ h (suc i) w p) in
      let first : read_value 4 (read e) ≡ some v =
        ap (λ (k : ℕ). read_value 4 (read k)) (omega arith) ∙ h 0 v refl in
      iff_trans (agrees_iff v (expected_entry strtoul x) _ first (λ e. rest))
        (cons_iff v (expected_entry strtoul x) vs (mapping_of xs))

  ShowsFrom-Shows : (read : ℕ → Option (List ℕ)) (vs : List ℕ) → Shows read vs → ShowsFrom read 1 vs
  unfolding ShowsFrom
  ShowsFrom-Shows read vs h i v e =
      ap (λ (k : ℕ). read_value 4 (read k)) (omega arith)
      ∙ ap (read_value 4) (h.entry_shown i v e)
      ∙ read_value-put_bytes 4 v (h.entry_fits i v e)

  length-mapping : (entries : List PdoEntry) → length (mapping_of entries) ≡ length entries
  length-mapping [] = refl
  length-mapping (e ∷ es) = ap suc (length-mapping es)

  abbrev pub index_of : Pdo → ℕ
  index_of pdo = strtoul pdo.index % 65536

  verify_free :
      (read : ℕ → ℕ → Option (List ℕ)) (pdo : Pdo)
      → pdo.fixed ≡ false
      → verify_pdo strtoul read pdo ≡ true
  unfolding verify_pdo
  verify_free read pdo e = ground arith

  verify_checked :
      (read : ℕ → ℕ → Option (List ℕ)) (pdo : Pdo)
      → pdo.fixed ≡ true
      → verify_pdo strtoul read pdo
        ≡ agrees
            (read_value 1 (read (index_of pdo) 0))
            (length pdo.entries)
            (verify_entries strtoul (read (index_of pdo)) 1 pdo.entries)
  unfolding verify_pdo
  verify_checked read pdo e =
      ap
        (λ (b : Bool).
          if not b
          then true
          else agrees (read_value 1 (read (index_of pdo) 0)) (length pdo.entries)
              (verify_entries strtoul (read (index_of pdo)) 1 pdo.entries))
        e

  verify_pdo_iff :
      (read : ℕ → ℕ → Option (List ℕ)) (pdo : Pdo) (vs : List ℕ)
      → (pdo.fixed ≡ true → Shows (read (index_of pdo)) vs)
      → (verify_pdo strtoul read pdo ≡ true) ↔ (pdo.fixed ≡ true → vs ≡ mapping_of pdo.entries)
  verify_pdo_iff read pdo vs h = elim (Bool-cases pdo.fixed) [
    | inr free ↦ (λ p e. absurd (cc), λ q. verify_free read pdo free)
    | inl fixed ↦
        let shown = h fixed in
        let count : read_value 1 (read (index_of pdo) 0) ≡ some (length vs) =
          ap (read_value 1) shown.count_shown
          ∙ read_value-put_bytes 1 (length vs) (omega (arith, shown.count_fits)) in
        let checked =
          agrees_iff (length vs) (length pdo.entries)
            (verify_entries strtoul (read (index_of pdo)) 1 pdo.entries) count
            (λ l.
              verify_entries_iff (read (index_of pdo)) 1 pdo.entries vs l
                (ShowsFrom-Shows (read (index_of pdo)) vs shown)) in
        (
          λ p e. (checked.0 (sym (verify_checked read pdo fixed) ∙ p)).1,
          λ q.
              verify_checked read pdo fixed
              ∙ checked.1 (ap length (q fixed) ∙ length-mapping pdo.entries, q fixed),
        )
  ]

  -- The fixed PDOs of a list as a slave shows them, and that they are as configured.
  abbrev pub AllShown : (ℕ → ℕ → Option (List ℕ)) → (ℕ → List ℕ) → List Pdo → Type 0
  AllShown read shown [] = Unit
  AllShown read shown (p ∷ ps) =
      (p.fixed ≡ true → Shows (read (index_of p)) (shown (index_of p))) × AllShown read shown ps

  abbrev pub AllAsConfigured : (ℕ → List ℕ) → List Pdo → Type 0
  AllAsConfigured shown [] = Unit
  AllAsConfigured shown (p ∷ ps) =
      (p.fixed ≡ true → shown (index_of p) ≡ mapping_of p.entries) × AllAsConfigured shown ps

  verify_direction_iff :
      (read : ℕ → ℕ → Option (List ℕ)) (shown : ℕ → List ℕ) (pdos : List Pdo)
      → AllShown read shown pdos
      → (verify_fixed_direction strtoul read pdos ≡ true) ↔ AllAsConfigured shown pdos
  unfolding verify_fixed_direction
  verify_direction_iff read shown [] h = (λ p. tt, λ q. refl)
  verify_direction_iff read shown (p ∷ ps) h = iff_trans (and_iff _ _) (
      both_iff (verify_pdo_iff read p (shown (index_of p)) h.0)
        (verify_direction_iff read shown ps h.1))

  -- The same for the slaves that are checked: `shown pos index` is what a slave shows.
  abbrev pub SlavesShown : Mailboxes → (ℤ → ℕ → List ℕ) → List Slave → Type 0
  SlavesShown m shown [] = Unit
  SlavesShown m shown (s ∷ ss) =
      (AllShown (m.sdo_read s.position) (shown s.position) s.rx_pdos
        × AllShown (m.sdo_read s.position) (shown s.position) s.tx_pdos)
      × SlavesShown m shown ss

  abbrev pub SlavesAsConfigured : Mailboxes → (ℤ → ℕ → List ℕ) → List Slave → Type 0
  SlavesAsConfigured m shown [] = Unit
  SlavesAsConfigured m shown (s ∷ ss) =
      (skips m s ≡ false
        → AllAsConfigured (shown s.position) s.rx_pdos
          × AllAsConfigured (shown s.position) s.tx_pdos)
      × SlavesAsConfigured m shown ss

  -- Where the slaves show the mapping of each fixed PDO, the check passes exactly if every slave that it
  -- does not skip shows for each of its fixed PDOs, in both directions, the configured entries in their
  -- order and no others.
  pub verify_fixed_pdos_iff :
      (m : Mailboxes) (shown : ℤ → ℕ → List ℕ) (slaves : List Slave)
      → SlavesShown m shown slaves
      → (verify_fixed_pdos strtoul m slaves ≡ true) ↔ SlavesAsConfigured m shown slaves
  unfolding verify_fixed_pdos
  verify_fixed_pdos_iff m shown [] h = (λ p. tt, λ q. refl)
  verify_fixed_pdos_iff m shown (s ∷ ss) h = iff_trans (and_iff _ _) (
      both_iff
        (or_iff (skips m s) (
          iff_trans (and_iff _ _) (
            both_iff
              (verify_direction_iff (m.sdo_read s.position) (shown s.position) s.rx_pdos h.0.0)
              (verify_direction_iff (m.sdo_read s.position) (shown s.position) s.tx_pdos h.0.1))))
        (verify_fixed_pdos_iff m shown ss h.1))

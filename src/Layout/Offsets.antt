-- ===== src/Layout/Offsets.antt =====
-- src/layout.c: the published entries of one direction lie one after the other, without overlap.
use ether_dog.Base.{
  ℕ, Bool, true, false, ◌+◌, ◌^◌, ◌≤◌, ◌<◌, ◌≡◌, refl, ap, subst, ◌∙◌, arith, inl, inr, some, List,
  [], ◌∷◌, ◌++◌, append_nil, Option-cases, get_elem?, take, zero, suc,
}
use ether_dog.Config.Types.{PdoEntry, Pdo}
use ether_dog.Layout.Build.{
  Layout, LayoutEntry, Direction, add_entry, add_entries, add_pdos, is_padding,
}

abbrev pub entry_bits : List PdoEntry → ℕ
entry_bits [] = 0
entry_bits (e ∷ es) = e.bit_length + entry_bits es

-- The bits that a list of PDOs takes, padding included.
abbrev pub total_bits : List Pdo → ℕ
total_bits [] = 0
total_bits (p ∷ ps) = entry_bits p.entries + total_bits ps

-- The entries lie between two bits of the image, in order and without overlap.
pub data Packed : ℕ → ℕ → List LayoutEntry → Type 0 where
  done : {lo hi : ℕ} → lo ≤ hi → Packed lo hi []
  entry :
      {lo hi : ℕ} {e : LayoutEntry} {es : List LayoutEntry}
      → lo ≤ e.bit_offset
      → Packed (e.bit_offset + e.bit_length) hi es
      → Packed lo hi (e ∷ es)

Packed-append :
    (lo mid hi : ℕ) (xs ys : List LayoutEntry)
    → Packed lo mid xs
    → Packed mid hi ys
    → Packed lo hi (xs ++ ys)
Packed-append lo mid hi [] [] (done h) (done k) = done (omega arith)
Packed-append lo mid hi [] (y ∷ ys) (done h) (entry k p) = entry (omega arith) p
Packed-append lo mid hi (x ∷ xs) ys (entry h p) q =
    entry h (Packed-append (x.bit_offset + x.bit_length) mid hi xs ys p q)

-- The entry that stands for an entry of a PDO, at a bit of the image.
abbrev pub entry_at : Direction → Pdo → PdoEntry → ℕ → LayoutEntry
entry_at d pdo e bit = record {
  slave_position = d.position;
  pdo_index = pdo.index;
  entry_index = e.index;
  entry_subindex = e.subindex;
  is_output = d.is_output;
  bit_offset = bit;
  bit_length = e.bit_length;
  data_type = e.parsed_type;
  name = e.name;
}

abbrev unless : Bool → LayoutEntry → List LayoutEntry
unless true x = []
unless false x = x ∷ []

-- What the entries of a PDO, and of all PDOs, are to add from a bit on: nothing for padding, which
-- only takes its bits.
abbrev pub entries_at : Direction → Pdo → List PdoEntry → ℕ → List LayoutEntry
entries_at d pdo [] bit = []
entries_at d pdo (e ∷ es) bit =
    unless (is_padding e) (entry_at d pdo e bit) ++ entries_at d pdo es (bit + e.bit_length)

abbrev pub pdos_at : Direction → List Pdo → ℕ → List LayoutEntry
pdos_at d [] bit = []
pdos_at d (p ∷ ps) bit = entries_at d p p.entries bit ++ pdos_at d ps (bit + entry_bits p.entries)

unless-Packed :
    (d : Direction) (pdo : Pdo) (e : PdoEntry) (bit : ℕ) (padding : Bool)
    → Packed bit (bit + e.bit_length) (unless padding (entry_at d pdo e bit))
unless-Packed d pdo e bit true = done (omega arith)
unless-Packed d pdo e bit false = entry (omega arith) (done (omega arith))

Packed-to : (lo hi hi' : ℕ) (xs : List LayoutEntry) → hi ≡ hi' → Packed lo hi xs → Packed lo hi' xs
Packed-to lo hi hi' xs e p = subst (λ (b : ℕ). Packed lo b xs) e p

entries_at-Packed :
    (d : Direction) (pdo : Pdo) (es : List PdoEntry) (bit : ℕ)
    → Packed bit (bit + entry_bits es) (entries_at d pdo es bit)
entries_at-Packed d pdo [] bit = done (omega arith)
entries_at-Packed d pdo (e ∷ es) bit =
    Packed-to bit (bit + e.bit_length + entry_bits es) (bit + entry_bits (e ∷ es)) _ (omega arith) (
      Packed-append bit (bit + e.bit_length) (bit + e.bit_length + entry_bits es) _ _
        (unless-Packed d pdo e bit (is_padding e))
        (entries_at-Packed d pdo es (bit + e.bit_length)))

pdos_at-Packed :
    (d : Direction) (ps : List Pdo) (bit : ℕ) → Packed bit (bit + total_bits ps) (pdos_at d ps bit)
pdos_at-Packed d [] bit = done (omega arith)
pdos_at-Packed d (p ∷ ps) bit =
    Packed-to bit (bit + entry_bits p.entries + total_bits ps) (bit + total_bits (p ∷ ps)) _
      (omega arith)
      (Packed-append bit (bit + entry_bits p.entries) (bit + entry_bits p.entries + total_bits ps) _
        _ (entries_at-Packed d p p.entries bit) (pdos_at-Packed d ps (bit + entry_bits p.entries)))

-- An entry is among those of a list.
pub data Among (x : LayoutEntry) : List LayoutEntry → Type 0 where
  first : {xs : List LayoutEntry} → Among x (x ∷ xs)
  later : {y : LayoutEntry} {xs : List LayoutEntry} → Among x xs → Among x (y ∷ xs)

Among-left : (x : LayoutEntry) (xs ys : List LayoutEntry) → Among x xs → Among x (xs ++ ys)
Among-left x [] ys m = elim m [ ]
Among-left x (_ ∷ xs) ys first = first
Among-left x (y ∷ xs) ys (later m) = later (Among-left x xs ys m)

Among-right : (x : LayoutEntry) (xs ys : List LayoutEntry) → Among x ys → Among x (xs ++ ys)
Among-right x [] ys m = m
Among-right x (y ∷ xs) ys m = later (Among-right x xs ys m)

Among-unless : (x : LayoutEntry) (b : Bool) → b ≡ false → Among x (unless b x)
Among-unless x true h = cc
Among-unless x false h = first

same : {A : Type 0} {a b : A} → some a ≡ some b → a ≡ b
same h = cc

entries_at-Among :
    (d : Direction) (pdo : Pdo) (es : List PdoEntry) (bit j : ℕ) (e : PdoEntry)
    → get_elem? es j ≡ some e
    → is_padding e ≡ false
    → Among (entry_at d pdo e (bit + entry_bits (take j es))) (entries_at d pdo es bit)
entries_at-Among d pdo [] bit j e g n = cc
entries_at-Among d pdo (x ∷ es) bit zero e g n =
    subst (λ (y : PdoEntry). Among (entry_at d pdo y (bit + 0)) (entries_at d pdo (x ∷ es) bit))
      (same g)
      (subst (λ (b : ℕ). Among (entry_at d pdo x b) (entries_at d pdo (x ∷ es) bit)) (omega arith)
        (Among-left (entry_at d pdo x bit) _ _ (
          Among-unless (entry_at d pdo x bit) (is_padding x)
            (ap (λ (y : PdoEntry). is_padding y) (same g) ∙ n))))
entries_at-Among d pdo (x ∷ es) bit (suc j) e g n =
    subst (λ (b : ℕ). Among (entry_at d pdo e b) (entries_at d pdo (x ∷ es) bit)) (omega arith)
      (Among-right _ (unless (is_padding x) (entry_at d pdo x bit)) _
        (entries_at-Among d pdo es (bit + x.bit_length) j e g n))

pdos_at-Among :
    (d : Direction) (ps : List Pdo) (bit k j : ℕ) (p : Pdo) (e : PdoEntry)
    → get_elem? ps k ≡ some p
    → get_elem? p.entries j ≡ some e
    → is_padding e ≡ false
    → Among
        (entry_at d p e (bit + total_bits (take k ps) + entry_bits (take j p.entries)))
        (pdos_at d ps bit)
pdos_at-Among d [] bit k j p e g f n = cc
pdos_at-Among d (x ∷ ps) bit zero j p e g f n =
    subst
      (λ (y : Pdo).
        Among (entry_at d y e (bit + 0 + entry_bits (take j y.entries))) (pdos_at d (x ∷ ps) bit))
      (same g)
      (subst (λ (b : ℕ). Among (entry_at d x e b) (pdos_at d (x ∷ ps) bit)) (omega arith)
        (Among-left _ _ _ (
          entries_at-Among d x x.entries bit j e
            (ap (λ (y : Pdo). get_elem? y.entries j) (same g) ∙ f) n)))
pdos_at-Among d (x ∷ ps) bit (suc k) j p e g f n =
    subst (λ (b : ℕ). Among (entry_at d p e b) (pdos_at d (x ∷ ps) bit)) (omega arith)
      (Among-right _ (entries_at d x x.entries bit) _
        (pdos_at-Among d ps (bit + entry_bits x.entries) k j p e g f n))

append_assoc : (xs ys zs : List LayoutEntry) → (xs ++ ys) ++ zs ≡ xs ++ (ys ++ zs)
append_assoc [] ys zs = refl
append_assoc (x ∷ xs) ys zs = ap (◌∷◌ x) (append_assoc xs ys zs)

add_entry_lem :
    (d : Direction) (pdo : Pdo) (e : PdoEntry) (bit b' : ℕ) (l l' : Layout)
    → add_entry d pdo e bit l ≡ some (b', l')
    → bit + e.bit_length < 2 ^ 32
    → (b' ≡ bit + e.bit_length)
      × (l'.entries ≡ l.entries ++ unless (is_padding e) (entry_at d pdo e bit))
unfolding add_entry
add_entry_lem d pdo e bit b' l l' h n = ground (arith, append_nil l.entries)

add_entries_lem :
    (d : Direction) (pdo : Pdo) (es : List PdoEntry) (bit b' : ℕ) (l l' : Layout)
    → add_entries d pdo es bit l ≡ some (b', l')
    → bit + entry_bits es < 2 ^ 32
    → (b' ≡ bit + entry_bits es) × (l'.entries ≡ l.entries ++ entries_at d pdo es bit)
unfolding add_entries
add_entries_lem d pdo [] bit b' l l' h n = ground (arith, append_nil l.entries)
add_entries_lem d pdo (e ∷ es) bit b' l l' h n = elim (Option-cases (add_entry d pdo e bit l)) [
  | inl none' ↦ absurd (ground arith)
  | inr ((b, m), some') ↦
      let (b_is, m_is) = add_entry_lem d pdo e bit b l m some' (omega arith) in
      let (b'_is, l_is) = add_entries_lem d pdo es b b' m l' (ground arith) (omega arith) in
      (
        omega arith,
        l_is
            ∙ ap (λ (xs : List LayoutEntry). xs ++ entries_at d pdo es b) m_is
            ∙ append_assoc l.entries (unless (is_padding e) (entry_at d pdo e bit)) _
            ∙ ap
                (λ (k : ℕ).
                  l.entries
                  ++ (unless (is_padding e) (entry_at d pdo e bit) ++ entries_at d pdo es k))
                b_is,
      )
]

add_pdos_lem :
    (d : Direction) (ps : List Pdo) (bit : ℕ) (l l' : Layout)
    → add_pdos d ps bit l ≡ some l'
    → bit + total_bits ps < 2 ^ 32
    → l'.entries ≡ l.entries ++ pdos_at d ps bit
unfolding add_pdos
add_pdos_lem d [] bit l l' h n = ground (arith, append_nil l.entries)
add_pdos_lem d (p ∷ ps) bit l l' h n = elim (Option-cases (add_entries d p p.entries bit l)) [
  | inl none' ↦ absurd (ground arith)
  | inr ((b, m), some') ↦
      let (b_is, m_is) = add_entries_lem d p p.entries bit b l m some' (omega arith) in
      add_pdos_lem d ps b m l' (ground arith) (omega arith)
      ∙ ap (λ (xs : List LayoutEntry). xs ++ pdos_at d ps b) m_is
      ∙ append_assoc l.entries (entries_at d p p.entries bit) _
      ∙ ap (λ (k : ℕ). l.entries ++ (entries_at d p p.entries bit ++ pdos_at d ps k)) b_is
]

-- A layout has the entries of another, and behind them those of a walk: in the order of the PDOs and
-- without overlap between the first and the last bit, each at the sum of the lengths in front of it.
pub record Extends (d : Direction) (ps : List Pdo) (bit : ℕ) (l l' : Layout) : Type 0 where
  pub is_appended : l'.entries ≡ l.entries ++ pdos_at d ps bit
  pub is_packed : Packed bit (bit + total_bits ps) (pdos_at d ps bit)
  pub each_at :
      (k j : ℕ) (p : Pdo) (e : PdoEntry)
      → get_elem? ps k ≡ some p
      → get_elem? p.entries j ≡ some e
      → is_padding e ≡ false
      → Among
          (entry_at d p e (bit + total_bits (take k ps) + entry_bits (take j p.entries)))
          (pdos_at d ps bit)

-- Where the bits fit in a uint32_t, a walk of the PDOs of one direction that succeeds appends exactly
-- the entries that are no padding, in their order, each at its first bit plus the lengths of all
-- entries in front of it, padding included; they lie without overlap up to the sum of the lengths.
pub add_pdos-Extends :
    (d : Direction) (ps : List Pdo) (bit : ℕ) (l l' : Layout)
    → add_pdos d ps bit l ≡ some l'
    → bit + total_bits ps < 2 ^ 32
    → Extends d ps bit l l'
add_pdos-Extends d ps bit l l' h n = record {
  is_appended = add_pdos_lem d ps bit l l' h n;
  is_packed = pdos_at-Packed d ps bit;
  each_at = pdos_at-Among d ps bit;
}

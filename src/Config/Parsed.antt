-- ===== src/Config/Parsed.antt =====
-- src/config.c: what the parser ensures of a slave, before any validation.
use ether_dog.Config.Shapes.{IsEntry, IsPdo, IsSdo, IsModular, IsParsed, has_bytes}
use ether_dog.Config.Text.{parse_hex_u32-print_hex}
use ether_dog.Base.{
  ◌==◌, ltb, if◌then◌else◌, ◌&&◌, not, ℕ, Bool, true, false, ◌||◌, ◌≡◌, ◌≤◌, ◌<◌, ◌^◌, refl, arith,
  Option, none, some, List, [], ◌∷◌, leb,
}
use ether_dog.Base.Int.{leb_ℤ, ℤ, pos, negsuc, pos_part, wrap, ltb_ℤ}
use ether_dog.Base.Results.{
  success, failure, All, all_none, all_more, Ensures, holds, fails, Ensures-bind, Ensures-skip,
  Ensures-refuse, Ensures-each, each,
}
use ether_dog.Config.Types.{invalid, SlotDef, Module, DataType}
use ether_dog.Config.Relations.{has_bounds}
use ether_dog.Config.Doubles.{Double}
use ether_dog.Config.Host.{get_int, Host, array_items, get_items, get_hex_u32}
use ether_dog.Config.Sdo.{
  print_hex, subindex_value, sdo_value_in_range, refuses_type, parse_sdo, parse_index,
  parse_subindex, parse_value, value_text,
}
use ether_dog.Config.Pdos.{
  is_hex16, parse_pdo_entry, parse_pdo, parse_pdo_array, parse_mandatory_pdos,
}
use ether_dog.Config.Modules.{parse_slot_def, parse_module, parse_modular}
use ether_dog.Config.Slaves.{parse_slave}

wrap_lt : (i : ℤ) → wrap i (2 ^ 8) < 256
wrap_lt (pos n) = omega arith
wrap_lt (negsuc n) = omega arith

not-false : (b : Bool) → not b ≡ false → b ≡ true
not-false true h = refl
not-false false h = cc

within :
    (i : ℤ)
    → (b : Bool) → (leb_ℤ (pos 0) i && leb_ℤ i (pos 255)) ≡ b
    → Ensures (λ (n : ℕ). n ≤ 255) (if b then success (pos_part i) else failure invalid)
within (pos n) true e = holds (ground arith)
within (negsuc n) true e = absurd (ground arith)
within i false e = fails

subindex_value_le : (v : Option (ℤ × Double)) → Ensures (λ (n : ℕ). n ≤ 255) (subindex_value v)
unfolding subindex_value
subindex_value_le none = fails
subindex_value_le (some (i, d)) = within i _ refl

printed_index :
    (b : Bool) (v : ℕ) → (b || (v == 0) || ltb 65535 v) ≡ false → is_hex16 1 (print_hex v) ≡ true
unfolding is_hex16
printed_index b v e = ground (arith, parse_hex_u32-print_hex v (ground arith))

slot_bounds :
    (i j : ℤ)
    → (ltb_ℤ i (pos 0) || ltb_ℤ j (pos 1) || ltb_ℤ j i) ≡ false
    → (leb 1 (pos_part j) && leb (pos_part i) (pos_part j) && true) ≡ true
slot_bounds (pos i) (pos j) e = ground arith
slot_bounds (pos i) (negsuc j) e = ground arith
slot_bounds (negsuc i) (pos j) e = ground arith
slot_bounds (negsuc i) (negsuc j) e = ground arith

slot_le : (i : ℤ) → ltb_ℤ i (pos 1) ≡ false → 1 ≤ pos_part i
slot_le (pos i) e = ground arith
slot_le (negsuc i) e = absurd (ground arith)

increment_le : (i : ℤ) → (ltb_ℤ i (pos 0) || ltb_ℤ (pos 4095) i) ≡ false → pos_part i ≤ 4095
increment_le (pos i) e = ground arith
increment_le (negsuc i) e = omega arith

All-has_bounds :
    (defs : List SlotDef)
    → All (λ (d : SlotDef). has_bounds (d ∷ []) ≡ true) defs
    → has_bounds defs ≡ true
All-has_bounds [] all_none = refl
All-has_bounds (d ∷ ds) (all_more p ps) = ground (arith, All-has_bounds ds ps)

module _ (h : Host) where
  parse_pdo_entry-IsEntry : (json : h.Node) → Ensures IsEntry (parse_pdo_entry h json)
  unfolding parse_pdo_entry
  parse_pdo_entry-IsEntry json =
      Ensures-refuse _ _ _ (λ e. holds (record { index = not-false _ e; bit_length = wrap_lt _ }))

  parse_pdo-IsPdo : (json : h.Node) → Ensures IsPdo (parse_pdo h json)
  unfolding parse_pdo
  parse_pdo-IsPdo json = Ensures-refuse _ _ _ (λ e.
      Ensures-skip (get_items h json "entries") _ (λ items.
        Ensures-bind (each (parse_pdo_entry h) items) _
          (Ensures-each _ items parse_pdo_entry-IsEntry)
          (λ entries es. holds (record { index = not-false _ e; entries = es }))))

  parse_pdo_array-IsPdo : (a : Option h.Node) → Ensures (All IsPdo) (parse_pdo_array h a)
  unfolding parse_pdo_array
  parse_pdo_array-IsPdo a =
      Ensures-skip (array_items h a) _ (λ items. Ensures-each _ items parse_pdo-IsPdo)

  parse_index-hex :
      (s : Option (List ℕ)) → Ensures (λ (x : List ℕ). is_hex16 1 x ≡ true) (parse_index h s)
  unfolding parse_index
  parse_index-hex none = fails
  parse_index-hex (some s) =
      Ensures-refuse _ _ _
        (λ e. Ensures-refuse _ _ _ (λ r. holds (printed_index _ (h.strtoul s).0 r)))

  parse_subindex_le : (si : Option h.Node) → Ensures (λ (n : ℕ). n ≤ 255) (parse_subindex h si)
  unfolding parse_subindex
  parse_subindex_le none = holds (omega arith)
  parse_subindex_le (some si) = subindex_value_le (h.number si)

  parse_value-IsSdo :
      (json : h.Node) (dt : DataType) (text : Option (List ℕ × Bool))
      → Ensures
          (λ (v : Double × Option (List ℕ)).
            (refuses_type dt (has_bytes v.1) ≡ false)
            × (v.1 ≡ none → sdo_value_in_range dt v.0 ≡ true))
          (parse_value h json dt text)
  unfolding parse_value
  parse_value-IsSdo json dt (some (s, available)) =
      Ensures-refuse _ _ _ (λ e. Ensures-skip _ _ (λ bytes. holds (e, λ n. absurd (cc n))))
  parse_value-IsSdo json dt none =
      Ensures-refuse _ _ _ (λ e. Ensures-refuse _ _ _ (λ r. holds (e, λ n. not-false _ r)))

  parse_sdo-IsSdo : (json : h.Node) → Ensures IsSdo (parse_sdo h json)
  unfolding parse_sdo
  parse_sdo-IsSdo json = Ensures-bind (parse_index h _) _ (parse_index-hex _) (λ index x.
      Ensures-bind (parse_subindex h _) _ (parse_subindex_le _) (λ subindex le.
        Ensures-bind _ _ (parse_value-IsSdo json _ (value_text h json))
          (λ v (t, r). holds (record { index = x; subindex = le; type' = t; value = r }))))

  parse_slot_def-has_bounds :
      (json : h.Node)
      → Ensures (λ (d : SlotDef). has_bounds (d ∷ []) ≡ true) (parse_slot_def h json)
  unfolding parse_slot_def
  parse_slot_def-has_bounds json = Ensures-refuse _ _ _ (λ e.
      Ensures-skip (get_items h json "module_classes") _ (λ class_items.
        Ensures-skip _ _ (λ classes.
          Ensures-skip (get_items h json "module_idents") _ (λ ident_items.
            Ensures-skip _ _ (λ idents. holds (
              slot_bounds (get_int h json "min_instances" (pos 0))
                (get_int h json "max_instances" (pos 0)) e))))))

  parse_module-slot : (json : h.Node) → Ensures (λ (m : Module). 1 ≤ m.slot) (parse_module h json)
  unfolding parse_module
  parse_module-slot json = Ensures-refuse _ _ _ (λ e.
      Ensures-skip (get_hex_u32 h json "ident" _) _
        (λ ident. holds (slot_le (get_int h json "slot" (pos 0)) e)))

  parse_modular-IsModular : (json : Option h.Node) → Ensures IsModular (parse_modular h json)
  unfolding parse_modular
  parse_modular-IsModular none =
      holds (record { increment = omega arith; bounds = refl; slots = all_none })
  parse_modular-IsModular (some json) = Ensures-refuse _ _ _ (λ o. Ensures-refuse _ _ _ (λ e.
      Ensures-skip (get_items h json "slots") _ (λ slot_items.
        Ensures-bind _ _ (Ensures-each _ slot_items parse_slot_def-has_bounds) (λ slots b.
          Ensures-skip (get_items h json "modules") _ (λ module_items.
            Ensures-bind _ _ (Ensures-each _ module_items parse_module-slot) (λ modules m.
              holds (record {
                increment = (increment_le (get_int h json "slot_index_increment" (pos 0)) e);
                bounds = All-has_bounds slots b;
                slots = m;
              })))))))

  -- A slave that the parser gives has SDOs whose numbers are in the range of their types, PDOs
  -- with 16-bit hex indices, and slot definitions and modules with sensible numbers.
  pub parse_slave-IsParsed : (json : h.Node) → Ensures IsParsed (parse_slave h json)
  unfolding parse_slave
  parse_slave-IsParsed json = Ensures-skip _ _ (λ v. Ensures-skip _ _ (λ p. Ensures-skip _ _ (λ r.
      Ensures-skip (get_items h json "channels") _ (λ channels.
        Ensures-skip (get_items h json "sdo_configurations") _ (λ items.
          Ensures-bind _ _ (Ensures-each _ items parse_sdo-IsSdo) (λ sdos s.
            Ensures-bind _ _ (parse_pdo_array-IsPdo _) (λ rx_pdos rx.
              Ensures-bind _ _ (parse_pdo_array-IsPdo _) (λ tx_pdos tx.
                Ensures-skip (parse_mandatory_pdos h json) _ (λ mandatory.
                  Ensures-bind _ _ (parse_modular-IsModular _) (λ m b.
                    holds (record { sdos = s; rx_pdos = rx; tx_pdos = tx; modular = b })))))))))))

-- ===== src/Iface/Reload.antt =====
-- src/iface_state.c: the file of a saved state gives that state back.
use ether_dog.Base.{
  ◌<◌, Bool, true, false, [], ◌++◌, some, ◌≡◌, refl, ap, ◌∙◌, arith, if◌then◌else◌, length,
  take_all,
}
use ether_dog.Base.Int.{ℤ, pos}
use ether_dog.Config.Host.{codes}
use ether_dog.Iface.Text.{Text, every, decimal}
use ether_dog.Iface.Nic.{IfaceState, on_off}
use ether_dog.Iface.Saved.{
  line_of, coalescing_lines, offload_lines, print_state, line_room, fgets_lines, load_field,
  load_lines, load_state, blank,
}
use ether_dog.Iface.Numbers.{plain, IsInt, atoi-decimal, decimal-plain, length-decimal}
use ether_dog.Iface.Lines.{load_lines-line_of}
use mathlib.Core.List.{append_assoc}

-- What a state that was captured on a valid interface is like.
pub record IsCaptured (s : IfaceState) : Type 0 where
  pub name_plain : every plain s.iface ≡ true
  pub name_short : length s.iface < 100
  pub rx_int : IsInt s.rx_usecs
  pub tx_int : IsInt s.tx_usecs
  pub no_coalescing : s.coalescing_saved ≡ false → (s.rx_usecs ≡ pos 0) × (s.tx_usecs ≡ pos 0)
  pub no_offloads : s.offloads_saved ≡ false → (s.gro ≡ false) × (s.gso ≡ false) × (s.tso ≡ false)

load_iface :
    (val rest : Text) (s : IfaceState)
    → every plain val ≡ true
    → length val < 100
    → load_lines (fgets_lines line_room (line_of (codes "iface") val ++ rest)) s
      ≡ load_lines (fgets_lines line_room rest) s
unfolding load_field
load_iface val rest s p h = load_lines-line_of (codes "iface") val rest s refl refl p (omega arith)

load_number_rx :
    (z : ℤ) (s : IfaceState)
    → load_field (codes "rx_usecs") (decimal z) s
      ≡ record s { rx_usecs = z; coalescing_saved = true }
unfolding load_field
load_number_rx z s =
    ap (λ (v : ℤ). record s { rx_usecs = v; coalescing_saved = true }) (atoi-decimal z)

load_number_tx :
    (z : ℤ) (s : IfaceState)
    → load_field (codes "tx_usecs") (decimal z) s
      ≡ record s { tx_usecs = z; coalescing_saved = true }
unfolding load_field
load_number_tx z s =
    ap (λ (v : ℤ). record s { tx_usecs = v; coalescing_saved = true }) (atoi-decimal z)

load_coalescing :
    (rx tx : ℤ) (rest : Text) (s : IfaceState)
    → IsInt rx
    → IsInt tx
    → load_lines
        (fgets_lines line_room (
          (line_of (codes "rx_usecs") (decimal rx) ++ line_of (codes "tx_usecs") (decimal tx))
          ++ rest))
        s
      ≡ load_lines
          (fgets_lines line_room rest)
          (record s { rx_usecs = rx; tx_usecs = tx; coalescing_saved = true })
load_coalescing rx tx rest s hrx htx =
    ap (λ (u : Text). load_lines (fgets_lines line_room u) s)
      (append_assoc (line_of (codes "rx_usecs") (decimal rx))
        (line_of (codes "tx_usecs") (decimal tx)) rest)
    ∙ load_lines-line_of (codes "rx_usecs") (decimal rx)
        (line_of (codes "tx_usecs") (decimal tx) ++ rest) s refl refl (decimal-plain rx)
        (omega (arith, length-decimal rx hrx))
    ∙ ap (load_lines (fgets_lines line_room (line_of (codes "tx_usecs") (decimal tx) ++ rest)))
        (load_number_rx rx s)
    ∙ load_lines-line_of (codes "tx_usecs") (decimal tx) rest _ refl refl (decimal-plain tx)
        (omega (arith, length-decimal tx htx))
    ∙ ap (load_lines (fgets_lines line_room rest)) (load_number_tx tx _)

-- The three offloads, at each of their values.
load_offloads :
    (gro gso tso : Bool) (s : IfaceState)
    → load_lines
        (fgets_lines line_room (
          line_of (codes "gro") (on_off gro)
          ++ (line_of (codes "gso") (on_off gso) ++ line_of (codes "tso") (on_off tso))))
        s
      ≡ record s { gro = gro; gso = gso; tso = tso; offloads_saved = true }
unfolding load_state
load_offloads true true true s = refl
load_offloads true true false s = refl
load_offloads true false true s = refl
load_offloads true false false s = refl
load_offloads false true true s = refl
load_offloads false true false s = refl
load_offloads false false true s = refl
load_offloads false false false s = refl

load_nothing : (s : IfaceState) → load_lines (fgets_lines line_room []) s ≡ s
unfolding fgets_lines
load_nothing s = refl

-- The two parts of the file, each there or not.
coalesced : IfaceState → IfaceState → IfaceState
coalesced s b =
    if s.coalescing_saved
    then record b { rx_usecs = s.rx_usecs; tx_usecs = s.tx_usecs; coalescing_saved = true }
    else b

offloaded : IfaceState → IfaceState → IfaceState
offloaded s b =
    if s.offloads_saved
    then record b { gro = s.gro; gso = s.gso; tso = s.tso; offloads_saved = true }
    else b

load-coalescing_lines :
    (saved : Bool) (s b : IfaceState) (rest : Text)
    → s.coalescing_saved ≡ saved
    → IsInt s.rx_usecs
    → IsInt s.tx_usecs
    → load_lines (fgets_lines line_room (coalescing_lines s ++ rest)) b
      ≡ load_lines (fgets_lines line_room rest) (coalesced s b)
unfolding coalesced
load-coalescing_lines true s b rest e hrx htx =
    rw e (load_coalescing s.rx_usecs s.tx_usecs rest b hrx htx)
load-coalescing_lines false s b rest e hrx htx = rw e refl

load-offload_lines :
    (saved : Bool) (s b : IfaceState)
    → s.offloads_saved ≡ saved
    → load_lines (fgets_lines line_room (offload_lines s)) b ≡ offloaded s b
unfolding offloaded
load-offload_lines true s b e = rw e (load_offloads s.gro s.gso s.tso b)
load-offload_lines false s b e = rw e (load_nothing b)

restored : (s : IfaceState) → IsCaptured s → offloaded s (coalesced s (blank s.iface)) ≡ s
unfolding offloaded coalesced
restored s c = ground (arith, c.no_coalescing, c.no_offloads, take_all 127 s.iface)

-- The state that `load_state` reads from the file that `persist_state` writes for a captured state is
-- that state.
pub load_state-print_state :
    (s : IfaceState) → IsCaptured s → load_state s.iface (some (print_state s)) ≡ some s
unfolding load_state print_state
load_state-print_state s c = ap some (
    load_iface s.iface (coalescing_lines s ++ offload_lines s) (blank s.iface) c.name_plain
      c.name_short
    ∙ load-coalescing_lines s.coalescing_saved s (blank s.iface) (offload_lines s) refl c.rx_int
        c.tx_int
    ∙ load-offload_lines s.offloads_saved s (coalesced s (blank s.iface)) refl
    ∙ restored s c)

-- ===== src/Iface/Restored.antt =====
-- src/iface_state.c: what an interface is set to after crashes, a start and a stop.
use ether_dog.Base.{
  subst, take_all, ℕ, zero, suc, Bool, true, [], ◌∷◌, Option, none, some, ◌≡◌, refl, sym, ap, ◌∙◌,
  arith, length, ◌<◌, ◌⊎◌, inl, inr,
}
use ether_dog.Base.Int.{ℤ}
use ether_dog.Config.Host.{codes}
use ether_dog.Iface.Text.{Text, every, decimal}
use ether_dog.Iface.Listing.{ShowsNumber, ShowsFlag, reads_rx, reads_tx, reads_flag}
use ether_dog.Iface.Numbers.{plain, IsInt}
use ether_dog.Iface.Nic.{
  IfaceState, Tool, ethtool, captured, set_coalescing, set_offloads, save_coalescing, save_offloads,
  capture_nic_settings, restore_nic_settings,
}
use ether_dog.Iface.Saved.{Writing, print_state, persist_state, load_state, blank}
use ether_dog.Iface.Reload.{IsCaptured, load_state-print_state}
use ether_dog.Iface.Apply.{
  undo, World, iface_validate, linux_strict, linux_char, recover_from_crash, apply_tuning, revert,
  tune,
}

-- The settings of an interface that the program changes.
pub record Nic : Type 0 where
  pub rx_usecs : ℤ
  pub tx_usecs : ℤ
  pub gro : Bool
  pub gso : Bool
  pub tso : Bool

-- What the property asks of ethtool on an interface: `-C` and `-K` take effect, on what they name and on
-- nothing else; `-c` and `-k` change nothing and show, in what fits in the buffer, each of the five
-- settings behind its key.
pub record IsEthtool (t : Tool) (iface : Text) (nic : t.System → Nic) : Type 0 where
  pub sets_coalescing :
      (rx tx : ℤ) (sys : t.System)
      → nic (set_coalescing t iface (decimal rx) (decimal tx) sys)
        ≡ record (nic sys) { rx_usecs = rx; tx_usecs = tx }
  pub sets_offloads :
      (gro gso tso : Bool) (sys : t.System)
      → nic (set_offloads t iface gro gso tso sys)
        ≡ record (nic sys) { gro = gro; gso = gso; tso = tso }
  pub coalescing_text : t.System → Text
  pub shows_coalescing :
      (sys : t.System) → t.run (ethtool "-c" iface []) sys ≡ (sys, some (coalescing_text sys))
  pub shows_rx :
      (sys : t.System)
      → IsInt ((nic sys).rx_usecs)
      → IsInt ((nic sys).tx_usecs)
      → ShowsNumber (captured (coalescing_text sys)) (codes "rx-usecs") ((nic sys).rx_usecs)
  pub shows_tx :
      (sys : t.System)
      → IsInt ((nic sys).rx_usecs)
      → IsInt ((nic sys).tx_usecs)
      → ShowsNumber (captured (coalescing_text sys)) (codes "tx-usecs") ((nic sys).tx_usecs)
  pub offload_text : t.System → Text
  pub shows_offloads :
      (sys : t.System) → t.run (ethtool "-k" iface []) sys ≡ (sys, some (offload_text sys))
  pub shows_gro :
      (sys : t.System)
      → ShowsFlag (captured (offload_text sys)) (codes "generic-receive-offload") ((nic sys).gro)
  pub shows_gso :
      (sys : t.System)
      → ShowsFlag
          (captured (offload_text sys))
          (codes "generic-segmentation-offload")
          ((nic sys).gso)
  pub shows_tso :
      (sys : t.System)
      → ShowsFlag (captured (offload_text sys)) (codes "tcp-segmentation-offload") ((nic sys).tso)

empty_name : iface_validate [] linux_strict ≡ true → ⊥
unfolding iface_validate
empty_name v = cc

linux_chars-plain : (s : Text) → every linux_char s ≡ true → every plain s ≡ true
linux_chars-plain [] h = refl
linux_chars-plain (c ∷ s) h = ground (arith, linux_chars-plain s)

-- What the strict validation accepts can stand in the file.
validate-plain :
    (s : Text) → iface_validate s linux_strict ≡ true → (every plain s ≡ true) × (length s < 16)
unfolding iface_validate
validate-plain [] h = cc
validate-plain (c ∷ s) h = ground (arith, linux_chars-plain (c ∷ s))

-- The state that records the settings `n`.
abbrev pub saved : Text → Nic → IfaceState
saved iface n = record {
  iface = iface;
  coalescing_saved = true;
  rx_usecs = n.rx_usecs;
  tx_usecs = n.tx_usecs;
  offloads_saved = true;
  gro = n.gro;
  gso = n.gso;
  tso = n.tso;
}

abbrev pub IsWritable : Writing → Type 0
IsWritable w = (w.directory ≡ true) × (w.opened ≡ true) × (w.renamed ≡ true)

saved-IsCaptured :
    (iface : Text) (n : Nic)
    → iface_validate iface linux_strict ≡ true
    → IsInt n.rx_usecs
    → IsInt n.tx_usecs
    → IsCaptured (saved iface n)
saved-IsCaptured iface n v rx tx = record {
  name_plain = (validate-plain iface v).0;
  name_short = omega (arith, (validate-plain iface v).1);
  rx_int = rx;
  tx_int = tx;
  no_coalescing = λ e. cc;
  no_offloads = λ e. cc;
}

module _ (t : Tool) (writing : Writing) (iface : Text) where
  -- So many processes that crash, each after its start: what is left is the system and the file.
  unfoldable pub crashes : ℕ → World t → World t
  crashes zero w = w
  crashes (suc n) w = crashes n (apply_tuning t writing iface (blank []) w).1

apply_tuning-tune :
    (t : Tool) (writing : Writing) (iface : Text)
    → iface_validate iface linux_strict ≡ true
    → (s : IfaceState) (w : World t)
    → apply_tuning t writing iface s w ≡ tune t writing iface (recover_from_crash t iface w)
unfolding apply_tuning
apply_tuning-tune t writing [] v s w = absurd (empty_name v)
apply_tuning-tune t writing (c ∷ iface) v s w = rw v refl

revert-saved :
    (t : Tool) (iface : Text)
    → iface_validate iface linux_strict ≡ true
    → (n : Nic) (w : World t)
    → (revert t (saved iface n) w).1
      ≡ record { system = restore_nic_settings t (saved iface n) w.system; file = none }
unfolding revert
revert-saved t [] v n w = absurd (empty_name v)
revert-saved t (c ∷ iface) v n w = refl

module _ (t : Tool) (writing : Writing) (iface : Text) (nic : t.System → Nic)
    (laws : IsEthtool t iface nic) (valid : iface_validate iface linux_strict ≡ true) where
  blank_name : (blank iface).iface ≡ iface
  blank_name = take_all 127 iface (omega (arith, (validate-plain iface valid).1))

  captures :
      (s : IfaceState) (sys : t.System)
      → s.iface ≡ iface
      → IsInt ((nic sys).rx_usecs)
      → IsInt ((nic sys).tx_usecs)
      → capture_nic_settings t s sys ≡ (saved iface (nic sys), sys)
  unfolding capture_nic_settings save_coalescing save_offloads
  captures s sys e rx tx = rw e (
      rw (laws.shows_coalescing sys) (
        rw (laws.shows_offloads sys) (
          rw
            (
              reads_rx _ _ (laws.shows_rx sys rx tx),
              reads_tx _ _ (laws.shows_tx sys rx tx),
              reads_flag b'g' (codes "eneric-receive-offload") _ _ (laws.shows_gro sys),
              reads_flag b'g' (codes "eneric-segmentation-offload") _ _ (laws.shows_gso sys),
              reads_flag b't' (codes "cp-segmentation-offload") _ _ (laws.shows_tso sys),
            )
            refl)))

  restores : (n : Nic) (sys : t.System) → nic (restore_nic_settings t (saved iface n) sys) ≡ n
  unfolding restore_nic_settings
  restores n sys =
      laws.sets_offloads n.gro n.gso n.tso _
      ∙ ap (λ (m : Nic). record m { gro = n.gro; gso = n.gso; tso = n.tso })
          (laws.sets_coalescing n.rx_usecs n.tx_usecs sys)

  -- The settings `n` are in force with no file, or the file has them.
  Tracks : Nic → World t → Type 0
  Tracks n w =
      ((nic w.system ≡ n) × (w.file ≡ none)) ⊎ (w.file ≡ some (print_state (saved iface n)))

  module _ (n : Nic) (rx : IsInt n.rx_usecs) (tx : IsInt n.tx_usecs)
      (writable : IsWritable writing) where
    reloads : load_state iface (some (print_state (saved iface n))) ≡ some (saved iface n)
    reloads = load_state-print_state (saved iface n) (saved-IsCaptured iface n valid rx tx)

    recovered :
        (w : World t)
        → Tracks n w
        → (nic (recover_from_crash t iface w).system ≡ n)
          × ((recover_from_crash t iface w).file ≡ none)
    unfolding recover_from_crash load_state Tracks
    recovered w (inl (e, f)) =
        let p : load_state iface w.file ≡ none = ap (load_state iface) f in
        (
          ap (λ (o : Option IfaceState). nic (undo t o w).system) p ∙ e,
          ap (λ (o : Option IfaceState). (undo t o w).file) p ∙ f,
        )
    recovered w (inr f) =
        let p : load_state iface w.file ≡ some (saved iface n) =
          ap (load_state iface) f ∙ reloads in
        (
          ap (λ (o : Option IfaceState). nic (undo t o w).system) p ∙ restores n w.system,
          ap (λ (o : Option IfaceState). (undo t o w).file) p,
        )

    tunes :
        (w : World t)
        → nic w.system ≡ n
        → ((tune t writing iface w).0 ≡ saved iface n)
          × ((tune t writing iface w).1.file ≡ some (print_state (saved iface n)))
    unfolding persist_state
    tunes w e =
        rw
          (captures (blank iface) w.system blank_name
            (subst (λ (m : Nic). IsInt m.rx_usecs) (sym e) rx)
            (subst (λ (m : Nic). IsInt m.tx_usecs) (sym e) tx))
          (rw e (refl, rw (writable.0, writable.1, writable.2) refl))

    -- A start, on an interface whose settings are known.
    starts :
        (s : IfaceState) (w : World t)
        → Tracks n w
        → ((apply_tuning t writing iface s w).0 ≡ saved iface n)
          × ((apply_tuning t writing iface s w).1.file ≡ some (print_state (saved iface n)))
    starts s w h =
        rw (apply_tuning-tune t writing iface valid s w)
          (tunes (recover_from_crash t iface w) (recovered w h).0)

    crashes-Tracks : (k : ℕ) (w : World t) → Tracks n w → Tracks n (crashes t writing iface k w)
    unfolding crashes Tracks
    crashes-Tracks zero w h = h
    crashes-Tracks (suc k) w h =
        crashes-Tracks k (apply_tuning t writing iface (blank []) w).1
          (inr (starts (blank []) w h).1)

    reverts :
        (s : IfaceState) (w : World t)
        → s ≡ saved iface n
        → (nic (revert t s w).1.system ≡ n) × ((revert t s w).1.file ≡ none)
    reverts s w e =
        rw (ap (λ (x : IfaceState). revert t x w) e, revert-saved t iface valid n w)
          (restores n w.system, refl)

  -- Where the calls of ethtool that set something take effect, its output shows each of the five settings
  -- behind its key, the name is one that Linux accepts and the state file can be written: from settings
  -- whose numbers are ints and without a state file, after any number of processes that crashed while
  -- the interface was tuned, a start and its stop leave the interface with the settings that it had
  -- before the first of them, and no file.
  pub apply_tuning-revert :
      IsWritable writing
      → (w : World t) → IsInt ((nic w.system).rx_usecs)
      → IsInt ((nic w.system).tx_usecs)
      → w.file ≡ none
      → (k : ℕ) (s : IfaceState)
      → let started = apply_tuning t writing iface s (crashes t writing iface k w) in
        (nic (revert t started.0 started.1).1.system ≡ nic w.system)
        × ((revert t started.0 started.1).1.file ≡ none)
  unfolding Tracks
  apply_tuning-revert writable w rx tx f k s =
      let h = crashes-Tracks (nic w.system) rx tx writable k w (inl (refl, f)) in
      reverts (nic w.system) rx tx writable _ _
        (starts (nic w.system) rx tx writable s (crashes t writing iface k w) h).0

-- ===== src/Master/Written.antt =====
-- src/master.c: when `ecat_master_write_sdos` reports that all SDOs are written.
use ether_dog.Base.{
  ◌∙◌, Option-cases, if◌then◌else◌, ◌⊎◌, ℕ, Bool, true, false, ◌≡◌, ◌↔◌, ◌≤◌, ◌<◌, ◌+◌, refl, ap,
  arith, Option, none, some, List, [], ◌∷◌, inl, inr, length, subst,
}
use ether_dog.Base.Int.{ℤ, pos, ltb_ℤ}
use ether_dog.Config.Types.{Sdo}
use ether_dog.Config.Doubles.{Double}
use ether_dog.Master.Sdo.{
  sdo_timeout_us, SdoWrite, Context, has_coe, wire_bytes, write_loop, write_sdos,
}
use ether_dog.Master.Stands.{IsTimeout, IsWire, wire_bytes-IsWire, IsWire-wire_bytes, timeout_fits}

module _ (single double : Double → List ℕ) (strtol : List ℕ → ℕ) (timeout_rxm : ℤ)
    (answer : ℕ → SdoWrite → ℤ) (slave_pos ms t : ℤ) where
  -- The request that an SDO stands for.
  abbrev pub sdo_request : Sdo → List ℕ → SdoWrite
  sdo_request sdo bytes = record {
    slave = slave_pos;
    index = strtol sdo.index;
    subindex = sdo.subindex;
    complete_access = sdo.complete_access;
    bytes = bytes;
    timeout = t;
  }

  -- Each SDO, the first of them with number `i`, has bytes for the wire, and its request was answered
  -- with a positive working counter; these are the requests, in their order.
  pub data Written : ℕ → List Sdo → List SdoWrite → Type 0 where
    done : {i : ℕ} → Written i [] []
    next :
        {i : ℕ} {sdo : Sdo} {sdos : List Sdo} {rs : List SdoWrite} (bytes : List ℕ)
        → IsWire single double sdo bytes
        → ltb_ℤ (pos 0) (answer i (sdo_request sdo bytes)) ≡ true
        → Written (i + 1) sdos rs
        → Written i (sdo ∷ sdos) (sdo_request sdo bytes ∷ rs)

  abbrev Fits : Type 0
  Fits = sdo_timeout_us single double strtol timeout_rxm ms ≡ some t

  abbrev loop : ℕ → List Sdo → Option (List SdoWrite × ℕ)
  loop = write_loop single double strtol timeout_rxm answer slave_pos ms

  abbrev IsStep : ℕ → Sdo → List Sdo → List SdoWrite → ℕ → Type 0
  IsStep i sdo sdos rs n =
      ((wire_bytes single double sdo ≡ some none) × (loop (i + 1) sdos ≡ some (rs, n)))
      ⊎ ((bytes : List ℕ) × (rs' : List SdoWrite) × (n' : ℕ) × (wire_bytes single double sdo
            ≡ some (some bytes))
          × (loop (i + 1) sdos ≡ some (rs', n'))
          × (sdo_request sdo bytes ∷ rs' ≡ rs)
          × ((if ltb_ℤ (pos 0) (answer i (sdo_request sdo bytes)) then n' + 1 else n') ≡ n))

  loop-IsStep :
      Fits
      → (i : ℕ) (sdo : Sdo) (sdos : List Sdo) (rs : List SdoWrite) (n : ℕ)
      → loop i (sdo ∷ sdos) ≡ some (rs, n)
      → IsStep i sdo sdos rs n
  unfolding write_loop
  loop-IsStep fit i sdo sdos rs n e = ground arith

  count_le :
      Fits
      → (i : ℕ) (sdos : List Sdo) (rs : List SdoWrite) (n : ℕ) → loop i sdos ≡ some (rs, n)
      → n ≤ length sdos
  unfolding write_loop
  count_le fit i [] rs n e = ground arith
  count_le fit i (sdo ∷ sdos) rs n e = elim (loop-IsStep fit i sdo sdos rs n e) [
    | inl (w, r) ↦ omega (arith, count_le fit (i + 1) sdos rs n r)
    | inr (bytes, rs', n', w, r, p, q) ↦ ground (arith, count_le fit (i + 1) sdos rs' n' r)
  ]

  loop-Written :
      Fits
      → (i : ℕ) (sdos : List Sdo) (rs : List SdoWrite) (n : ℕ) → loop i sdos ≡ some (rs, n)
      → length sdos ≤ n
      → Written i sdos rs
  unfolding write_loop
  loop-Written fit i [] rs n e l = subst (Written i []) (ground arith) done
  loop-Written fit i (sdo ∷ sdos) rs n e l = elim (loop-IsStep fit i sdo sdos rs n e) [
    | inl (w, r) ↦ absurd (omega (arith, count_le fit (i + 1) sdos rs n r))
    | inr (bytes, rs', n', w, r, p, q) ↦
        let c = count_le fit (i + 1) sdos rs' n' r in
        subst (Written i (sdo ∷ sdos)) p (
          next bytes (wire_bytes-IsWire single double sdo bytes w) (ground arith)
            (loop-Written fit (i + 1) sdos rs' n' r (ground arith)))
  ]

  Written-loop :
      Fits
      → (i : ℕ) (sdos : List Sdo) (rs : List SdoWrite) → Written i sdos rs
      → loop i sdos ≡ some (rs, length sdos)
  unfolding write_loop
  Written-loop fit i [] _ done = refl
  Written-loop fit i (sdo ∷ sdos) _ (next {rs} bytes w a more) =
      rw
        (
          write_loop,
          IsWire-wire_bytes single double sdo bytes w,
          fit,
          Written-loop fit (i + 1) sdos rs more,
          a,
        )
        (ap some (ap (λ (n : ℕ). (sdo_request sdo bytes ∷ rs, n)) (omega arith)))

  -- SOEM is initialised, the position is one of the bus, and the slave has a mailbox with CoE.
  pub record IsReady (c : Context) : Type 0 where
    pub soem_initialized : c.soem_initialized ≡ true
    pub low : ltb_ℤ slave_pos (pos 1) ≡ false
    pub high : ltb_ℤ (pos c.slavecount) slave_pos ≡ false
    pub mailbox : has_coe c.mbx_proto ≡ true

  abbrev run : Context → List Sdo → Option (List SdoWrite × Bool)
  run c sdos = write_sdos single double strtol timeout_rxm answer c slave_pos ms sdos

  run-loop :
      (c : Context) (sdos : List Sdo) (rs : List SdoWrite)
      → IsReady c
      → 0 < length sdos
      → run c sdos ≡ some (rs, true)
      → (n : ℕ) × (loop 0 sdos ≡ some (rs, n)) × (length sdos ≤ n)
  unfolding write_sdos
  run-loop c sdos rs r n e = elim (Option-cases (loop 0 sdos)) [
    | inl f ↦ absurd (ground arith)
    | inr ((rs', k), f) ↦
        let (p, l) : (rs' ≡ rs) × (length sdos ≤ k) = ground arith in
        (k, f ∙ ap (λ (x : List SdoWrite). some (x, k)) p, l)
  ]

  loop-run :
      (c : Context) (sdos : List Sdo) (rs : List SdoWrite)
      → IsReady c
      → 0 < length sdos
      → loop 0 sdos ≡ some (rs, length sdos)
      → run c sdos ≡ some (rs, true)
  unfolding write_sdos
  loop-run c sdos rs r n e = ground arith

  -- With SOEM initialised, a position on the bus, a mailbox with CoE, at least one SDO, and a time for
  -- the requests that is an int, `ecat_master_write_sdos` returns 0 exactly if every SDO stands for bytes
  -- and the requests of all of them, in their order, with the position, the index and subindex, the kind
  -- of access, the bytes and the time, were each answered with a positive working counter.
  pub write_sdos_iff :
      IsTimeout timeout_rxm ms t
      → (c : Context) (sdos : List Sdo) (rs : List SdoWrite) → IsReady c
      → 0 < length sdos
      → (write_sdos single double strtol timeout_rxm answer c slave_pos ms sdos ≡ some (rs, true))
        ↔ Written 0 sdos rs
  write_sdos_iff h c sdos rs r n =
      let fit = timeout_fits timeout_rxm ms t single double strtol h in
      (
        λ e. let (k, f, l) = run-loop c sdos rs r n e in loop-Written fit 0 sdos rs k f l,
        λ w. loop-run c sdos rs r n (Written-loop fit 0 sdos rs w),
      )

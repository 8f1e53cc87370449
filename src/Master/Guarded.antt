-- ===== src/Master/Guarded.antt =====
-- src/master.c: after a start every strict slave has its SM watchdog.
use ether_dog.Base.{
  min, ◌*◌, ℕ, zero, suc, Bool, true, false, not, ◌&&◌, ◌≡◌, refl, sym, ◌∙◌, ap, arith, some, ◌⊎◌,
  List, [], ◌∷◌, ◌++◌, get_elem?, inl, inr, Bool-cases, subst,
}
use ether_dog.Base.Int.{ℤ, pos, negsuc, pos_part}
use ether_dog.Config.Types.{Slave, Config}
use ether_dog.Master.Timing.{Watchdog, watchdog_ticks, configure_watchdog}
use ether_dog.Master.Iomap.{ImageBuffer, map_process_data}
use ether_dog.Master.Configure.{
  Bus, Write, on_bus, configure_watchdogs, configure, writes_of, watchdog_of,
}

-- A write is among those made.
pub data Made (w : Write) : List Write → Type 0 where
  first : {ws : List Write} → Made w (w ∷ ws)
  later : {v : Write} {ws : List Write} → Made w ws → Made w (v ∷ ws)

Made-left : (w : Write) (us vs : List Write) → Made w us → Made w (us ++ vs)
Made-left w [] vs m = elim m [ ]
Made-left w (_ ∷ us) vs first = first
Made-left w (u ∷ us) vs (later m) = later (Made-left w us vs m)

Made-right : (w : Write) (us vs : List Write) → Made w vs → Made w (us ++ vs)
Made-right w [] vs m = m
Made-right w (u ∷ us) vs m = later (Made-right w us vs m)

-- The write of the SM watchdog of a slave: sixteen ticks for each millisecond of its time, of which
-- 4095 fit in the register; a time that is not positive turns the watchdog off.
abbrev pub sm_write : Slave → Write
sm_write s = record {
  slave = s.position;
  register = 1056;
  value = 16 * min 4095 (pos_part s.settings.sm_watchdog_ms);
}

ticks_exact : (ms : ℤ) → watchdog_ticks ms ≡ 16 * min 4095 (pos_part ms)
unfolding watchdog_ticks
ticks_exact (pos n) = ground arith
ticks_exact (negsuc n) = ground arith

abbrev tail : List (ℕ × ℕ) → List (ℕ × ℕ)
tail [] = []
tail (w ∷ ws) = ws

one_head :
    (strict written : Bool) (wd : Watchdog)
    → wd.sm_watchdog_enabled ≡ true
    → (configure_watchdog strict written wd).0
      ≡ (1056, 16 * min 4095 (pos_part wd.sm_watchdog_ms))
        ∷ tail (configure_watchdog strict written wd).0
unfolding configure_watchdog
one_head strict written wd e = elim (Bool-cases (not written && strict)) [
  | inl b ↦ rw (configure_watchdog, e, b, ticks_exact wd.sm_watchdog_ms) refl
  | inr b ↦ rw (configure_watchdog, e, b, ticks_exact wd.sm_watchdog_ms) refl
]

one_made :
    (s : Slave) (strict written : Bool)
    → s.settings.sm_watchdog_enabled ≡ true
    → Made (sm_write s) (writes_of s.position (configure_watchdog strict written (watchdog_of s)).0)
one_made s strict written e =
    subst (λ (x : List (ℕ × ℕ)). Made (sm_write s) (writes_of s.position x))
      (sym (one_head strict written (watchdog_of s) e)) first

one_answered :
    (s : Slave) (strict written : Bool)
    → s.settings.sm_watchdog_enabled ≡ true
    → strict ≡ true
    → (configure_watchdog strict written (watchdog_of s)).1 ≡ true
    → written ≡ true
unfolding configure_watchdog
one_answered s strict written e t o = ground arith

module _ (n : ℕ) (answers : ℤ → Bool) where
  abbrev loop : List Slave → List Write × Bool
  loop = configure_watchdogs n answers

  abbrev one : Slave → List (ℕ × ℕ) × Bool
  one s = configure_watchdog s.settings.strict_sdo (answers s.position) (watchdog_of s)

  -- A pass of the loop that goes on.
  abbrev IsPass : Slave → List Slave → Type 0
  IsPass s ss =
      ((on_bus n s.position ≡ false) × (loop (s ∷ ss) ≡ loop ss))
      ⊎ (((one s).1 ≡ true)
          × (loop (s ∷ ss) ≡ (writes_of s.position (one s).0 ++ (loop ss).0, (loop ss).1)))

  loop-IsPass : (s : Slave) (ss : List Slave) → (loop (s ∷ ss)).1 ≡ true → IsPass s ss
  unfolding configure_watchdogs
  loop-IsPass s ss e = elim (Bool-cases (on_bus n s.position)) [
    | inr o ↦ inl (o, rw (configure_watchdogs, o) refl)
    | inl o ↦ elim (Bool-cases (one s).1) [
      | inl w ↦ inr (w, rw (configure_watchdogs, o, w) refl)
      | inr w ↦
          let stopped : (loop (s ∷ ss)).1 ≡ false = rw (configure_watchdogs, o, w) refl in
          absurd (cc (sym e ∙ stopped))
    ]
  ]

  -- Every strict slave on the bus with an SM watchdog has its register written, and has answered.
  abbrev pub IsGuarded : List Write → Slave → Type 0
  IsGuarded ws s = Made (sm_write s) ws × (answers s.position ≡ true)

  loop-IsGuarded :
      (ss : List Slave)
      → (loop ss).1 ≡ true
      → (k : ℕ) (s : Slave) → get_elem? ss k ≡ some s
      → on_bus n s.position ≡ true
      → s.settings.strict_sdo ≡ true
      → s.settings.sm_watchdog_enabled ≡ true
      → IsGuarded (loop ss).0 s
  loop-IsGuarded [] e k s g o t w = absurd (cc g)
  loop-IsGuarded (x ∷ ss) e zero s g o t w = elim (loop-IsPass x ss e) [
    | inl (f, q) ↦
        absurd (cc (sym f ∙ subst (λ (y : Slave). on_bus n y.position ≡ true) (sym (same g)) o))
    | inr (a, q) ↦
        subst (λ (y : Slave). IsGuarded (loop (x ∷ ss)).0 y) (same g)
          (
            subst (Made (sm_write x)) (sym (ap (λ (y : List Write × Bool). y.0) q)) (
                Made-left (sm_write x) _ _ (
                  one_made x x.settings.strict_sdo (answers x.position)
                    (ap (λ (y : Slave). y.settings.sm_watchdog_enabled) (same g) ∙ w))),
            one_answered x x.settings.strict_sdo (answers x.position)
                (ap (λ (y : Slave). y.settings.sm_watchdog_enabled) (same g) ∙ w)
                (ap (λ (y : Slave). y.settings.strict_sdo) (same g) ∙ t) a,
          )
  ]
    where
      same : {a b : Slave} → some a ≡ some b → a ≡ b
      same h = cc
  loop-IsGuarded (x ∷ ss) e (suc k) s g o t w = elim (loop-IsPass x ss e) [
    | inl (f, q) ↦
        subst (λ (y : List Write × Bool). IsGuarded y.0 s) (sym q)
          (loop-IsGuarded ss (ap (λ (y : List Write × Bool). y.1) (sym q) ∙ e) k s g o t w)
    | inr (a, q) ↦
        let (m, r) =
          loop-IsGuarded ss (ap (λ (y : List Write × Bool). y.1) (sym q) ∙ e) k s g o t w in
        (
          subst (Made (sm_write s)) (sym (ap (λ (y : List Write × Bool). y.0) q))
              (Made-right (sm_write s) _ _ m),
          r,
        )
  ]

configure_loop :
    (b : Bus) (c : Config) (i : ImageBuffer)
    → (configure b c i).3 ≡ true
    → ((configure_watchdogs b.slavecount b.sm_written c.slaves).1 ≡ true)
      × ((configure b c i).1 ≡ (configure_watchdogs b.slavecount b.sm_written c.slaves).0)
unfolding configure
configure_loop b c i e =
    elim (Bool-cases (map_process_data b.soem_initialized b.memory b.reported b.io_size i).1) [
      | inr m ↦
          let stopped : (configure b c i).3 ≡ false = rw (configure, m) refl in
          absurd (cc (sym e ∙ stopped))
      | inl m ↦ elim (Bool-cases (configure_watchdogs b.slavecount b.sm_written c.slaves).1) [
        | inl w ↦ (w, rw (configure, m, w) refl)
        | inr w ↦
            let stopped : (configure b c i).3 ≡ false = rw (configure, m, w) refl in
            absurd (cc (sym e ∙ stopped))
      ]
    ]

-- After `ecat_master_configure` has returned 0, the SM watchdog register of each strict slave on the
-- bus whose SM watchdog is enabled has been written with sixteen ticks for each millisecond of its
-- time, a time above 4095 ms counting as 4095 and one that is not positive as 0, and the slave has
-- answered.
pub configure-IsGuarded :
    (b : Bus) (c : Config) (i : ImageBuffer)
    → (configure b c i).3 ≡ true
    → (k : ℕ) (s : Slave) → get_elem? c.slaves k ≡ some s
    → on_bus b.slavecount s.position ≡ true
    → s.settings.strict_sdo ≡ true
    → s.settings.sm_watchdog_enabled ≡ true
    → IsGuarded b.slavecount b.sm_written (configure b c i).1 s
configure-IsGuarded b c i e k s g o t w =
    let (l, q) = configure_loop b c i e in
    subst (λ (ws : List Write). IsGuarded b.slavecount b.sm_written ws s) (sym q)
      (loop-IsGuarded b.slavecount b.sm_written c.slaves l k s g o t w)

-- ===== src/Config/Masters.antt =====
-- src/config.c: what holds of the masters that `ecat_config_parse_all` loads.
use ether_dog.Base.{
  le→ltb, ℕ, zero, suc, false, ◌≡◌, ◌≤◌, ◌<◌, refl, sym, ◌∙◌, ap, arith, Option, none, some, List,
  [], ◌∷◌, inl, inr, Option-cases, length, get_elem?, subst,
}
use ether_dog.Base.Results.{
  success, failure, ◌>>=◌, All, all_none, all_more, Ensures, holds, fails, Ensures-bind,
  Ensures-skip, Ensures-each, Ensures-success, >>=-success, success_inj,
}
use ether_dog.Config.Types.{ConfigError, Slave, Config, Status, ok, err_invalid}
use ether_dog.Config.Host.{Host, array_items}
use ether_dog.Config.Slaves.{parse_slaves_section}
use ether_dog.Config.Validate.{validate, last_slot}
use ether_dog.Config.Relations.{Covers, station}
use ether_dog.Config.Accepted.{validate_station-Covers}
use ether_dog.Config.Whole.{IsAccepted, validate-IsAccepted}
use ether_dog.Config.Shapes.{IsParsed}
use ether_dog.Config.Parsed.{parse_slave-IsParsed}
use ether_dog.Config.Loaded.{parse_pair, parse_all_iff}
use ether_dog.Config.Parse.{
  with_sections, NamedConfig, parse_config, parse_instance, parse_root, parse_all, validated,
  has_shared_interface, bare_config,
}

-- The validation accepts the configuration, and its slaves are as the parser gives them.
pub record IsLoaded (i : NamedConfig) : Type 0 where
  pub valid : validate i.config ≡ ok
  pub parsed : All IsParsed i.config.slaves

validated-ok :
    (c : Config)
    → All IsParsed c.slaves
    → Ensures (λ (d : Config). (validate d ≡ ok) × All IsParsed d.slaves) (validated c)
unfolding validated
validated-ok c p = go (validate c) refl
  where
    go :
        (s : Status)
        → validate c ≡ s
        → Ensures {E = ConfigError}
            (λ (d : Config). (validate d ≡ ok) × All IsParsed d.slaves)
            (elim s [ ok ↦ success c | err_invalid ↦ failure ConfigError.invalid ])
    go ok e = holds (e, p)
    go err_invalid e = fails

All-get :
    {A : Type 0} {P : A → Type 0} {xs : List A} {x : A} (i : ℕ)
    → All P xs
    → get_elem? xs i ≡ some x
    → P x
All-get {xs = []} i p e = absurd (cc e)
All-get {P} {xs = y ∷ xs} zero (all_more p ps) e = subst P (some_inj e) p
  where
    some_inj : {A : Type 0} {a b : A} → some a ≡ some b → a ≡ b
    some_inj h = cc
All-get {xs = y ∷ xs} (suc i) (all_more p ps) e = All-get i ps e

module _ (h : Host) where
  parse_instance-IsLoaded :
      (entry config_obj : h.Node) → Ensures IsLoaded (parse_instance h entry config_obj)
  unfolding parse_instance parse_config parse_slaves_section
  parse_instance-IsLoaded entry config_obj =
      Ensures-bind (parse_config h config_obj) _
        (Ensures-bind (parse_slaves_section h (h.item config_obj "slaves")) _
          (Ensures-skip (array_items h _) _
            (λ items. Ensures-each _ items (parse_slave-IsParsed h)))
          (λ slaves p. validated-ok (with_sections h config_obj slaves) p))
        (λ config (v, p). holds (record { valid = v; parsed = p }))

  root_bare :
      (max : ℕ) (root : h.Node)
      → 1 ≤ max
      → h.array root ≡ none
      → parse_all h max (some (some root))
        ≡ (parse_instance h root (bare_config h root) >>= λ (i : NamedConfig). success (i ∷ []))
  unfolding parse_all parse_root
  root_bare max root m a = rw (le→ltb max 1 m, parse_root, a)

  document-root :
      (max : ℕ) (document : Option (Option h.Node)) (is : List NamedConfig)
      → parse_all h max document ≡ success is
      → (root : h.Node) × (document ≡ some (some root)) × (1 ≤ max)
  unfolding parse_all
  document-root max none is e = absurd (ground arith)
  document-root max (some none) is e = absurd (ground arith)
  document-root max (some (some root)) is e = (root, refl, ground arith)

  parse_root-IsLoaded :
      (max : ℕ) (root : h.Node) (is : List NamedConfig)
      → 1 ≤ max
      → parse_all h max (some (some root)) ≡ success is
      → All IsLoaded is × (1 ≤ length is) × (length is ≤ max) × (has_shared_interface is ≡ false)
  parse_root-IsLoaded max root is m e = elim (Option-cases (h.array root)) [
    | inl a ↦
        let (i, p, t) =
          >>=-success (parse_instance h root (bare_config h root)) _
            (sym (root_bare max root m a) ∙ e) in
        subst
          (λ (xs : List NamedConfig).
            All IsLoaded xs
            × (1 ≤ length xs)
            × (length xs ≤ max)
            × (has_shared_interface xs ≡ false))
          (success_inj _ refl t)
          (
            all_more (Ensures-success _ i p (parse_instance-IsLoaded root (bare_config h root)))
                all_none,
            omega arith,
            m,
            refl,
          )
    | inr (entries, a) ↦
        let (r, n, l, s) = (parse_all_iff h max root entries is m a).0 e in
        (
          Ensures-success _ is r
              (Ensures-each (parse_pair h) _ (λ x. parse_instance-IsLoaded x.0 x.1)),
          n,
          l,
          s,
        )
  ]

  -- Where `ecat_config_parse_all` succeeds, it gives at least one and at most `max` masters, no two of
  -- them with the same interface; the validation accepts the configuration of each, and its slaves
  -- have SDOs whose numbers are in the range of their types, PDOs with 16-bit hex indices, and slot
  -- definitions and modules with numbers in their bounds.
  pub parse_all-IsLoaded :
      (max : ℕ) (document : Option (Option h.Node)) (is : List NamedConfig)
      → parse_all h max document ≡ success is
      → All IsLoaded is × (1 ≤ length is) × (length is ≤ max) × (has_shared_interface is ≡ false)
  parse_all-IsLoaded max document is e =
      let (root, d, m) = document-root max document is e in
      parse_root-IsLoaded max root is m (sym (ap (parse_all h max) d) ∙ e)

  -- In a loaded configuration a slave with slot definitions has a station that obeys them: its slots
  -- up to the last module fill the definitions in order, each with a number of slots within its
  -- bounds and with modules that it accepts.
  pub parse_all-Covers :
      (max : ℕ) (document : Option (Option h.Node)) (is : List NamedConfig)
      → parse_all h max document ≡ success is
      → (k j : ℕ) (i : NamedConfig) (s : Slave) → get_elem? is k ≡ some i
      → get_elem? i.config.slaves j ≡ some s
      → 0 < length s.modular.slots
      → Covers 0 s.modular.slots (station (last_slot 0 s.modular.modules) 1 s.modular.modules)
  parse_all-Covers max document is e k j i s f g n =
      let loaded : IsLoaded i = All-get k (parse_all-IsLoaded max document is e).0 f in
      let parsed' : IsParsed s = All-get j loaded.parsed g in
      let accepted : IsAccepted s = (validate-IsAccepted i.config loaded.valid).0 j s g in
      validate_station-Covers s.modular parsed'.modular.bounds n accepted.station

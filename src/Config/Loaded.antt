-- ===== src/Config/Loaded.antt =====
-- src/config.c: when `ecat_config_parse_all` loads the masters of a document, and which.
use ether_dog.Base.{
  le→ltb, Bool-cases, ℕ, false, ◌≡◌, ◌↔◌, ◌+◌, ◌≤◌, refl, sym, ◌∙◌, arith, none, some, List, [],
  ◌∷◌, inl, inr, Option-cases, length, leb, subst, ap,
}
use ether_dog.Base.Results.{
  Result, success, each, ◌>>=◌, refuse_if, >>=-success, refuse_if-success, success->>=, success_inj,
}
use ether_dog.Config.Types.{ConfigError, invalid}
use ether_dog.Config.Host.{Host}
use ether_dog.Config.Parse.{
  NamedConfig, parse_instance, parse_entries, parse_root, parse_all, ethercat_config, finish,
  has_shared_interface,
}

module _ (h : Host) where
  -- The entries of the document that configure an EtherCAT master, with their "config" objects.
  unfoldable pub ethercat_entries : List h.Node → List (h.Node × h.Node)
  ethercat_entries [] = []
  ethercat_entries (entry ∷ entries) =
      let rest = ethercat_entries entries in
      elim (ethercat_config h entry) [ none ↦ rest | some config_obj ↦ (entry, config_obj) ∷ rest ]

  abbrev pub parse_pair : h.Node × h.Node → Result ConfigError NamedConfig
  parse_pair (entry, config_obj) = parse_instance h entry config_obj

  abbrev after_instance : ℕ → ℕ → List h.Node → NamedConfig → Result ConfigError (List NamedConfig)
  after_instance max count entries i = do
    is ← parse_entries h max (count + 1) entries
    success (i ∷ is)

  parse_entries-none :
      (max count : ℕ) (entry : h.Node) (entries : List h.Node)
      → ethercat_config h entry ≡ none
      → (parse_entries h max count (entry ∷ entries) ≡ parse_entries h max count entries)
        × (ethercat_entries (entry ∷ entries) ≡ ethercat_entries entries)
  unfolding parse_entries ethercat_entries
  parse_entries-none max count entry entries e = (rw (e, parse_entries), rw (e, ethercat_entries))

  parse_entries-some :
      (max count : ℕ) (entry config_obj : h.Node) (entries : List h.Node)
      → ethercat_config h entry ≡ some config_obj
      → (parse_entries h max count (entry ∷ entries) ≡ (
          refuse_if (leb max count) invalid >>= λ _.
          parse_instance h entry config_obj >>= after_instance max count entries))
        × (ethercat_entries (entry ∷ entries) ≡ (entry, config_obj) ∷ ethercat_entries entries)
  unfolding parse_entries ethercat_entries
  parse_entries-some max count entry config_obj entries e =
      (rw (e, parse_entries), rw (e, ethercat_entries))

  loaded_head :
      (max count : ℕ) (entry config_obj : h.Node) (entries : List h.Node) (is : List NamedConfig)
      → (refuse_if (leb max count) invalid >>= λ _.
          parse_instance h entry config_obj >>= after_instance max count entries)
        ≡ success is
      → (i : NamedConfig) × (is' : List NamedConfig) × (leb max count ≡ false)
        × (parse_instance h entry config_obj ≡ success i)
        × (parse_entries h max (count + 1) entries ≡ success is')
        × (i ∷ is' ≡ is)
  loaded_head max count entry config_obj entries is e =
      let (n, r) = refuse_if-success _ _ _ e in
      let (i, p, r') = >>=-success (parse_instance h entry config_obj) _ r in
      let (is', q, t) = >>=-success (parse_entries h max (count + 1) entries) _ r' in
      (i, is', n, p, q, success_inj _ refl t)

  each-more :
      (x : h.Node × h.Node) (xs : List (h.Node × h.Node)) (i : NamedConfig) (is : List NamedConfig)
      → parse_pair x ≡ success i
      → each parse_pair xs ≡ success is
      → each parse_pair (x ∷ xs) ≡ success (i ∷ is)
  each-more x xs i is p q =
      success->>= (parse_pair x) _ p (success->>= (each parse_pair xs) _ q refl)

  entries_sound :
      (max count : ℕ) (entries : List h.Node) (is : List NamedConfig)
      → count ≤ max
      → parse_entries h max count entries ≡ success is
      → (each parse_pair (ethercat_entries entries) ≡ success is) × (count + length is ≤ max)
  unfolding parse_entries ethercat_entries
  entries_sound max count [] is b e = (
    e,
    subst (λ (xs : List NamedConfig). count + length xs ≤ max) (success_inj _ refl e) (omega arith),
  )
  entries_sound max count (entry ∷ entries) is b e = elim (Option-cases (ethercat_config h entry)) [
    | inl c ↦
        let (p, q) = parse_entries-none max count entry entries c in
        let (r, l) = entries_sound max count entries is b (sym p ∙ e) in
        (ap (each parse_pair) q ∙ r, l)
    | inr (config_obj, c) ↦
        let (p, q) = parse_entries-some max count entry config_obj entries c in
        let (i, is', n, f, g, t) = loaded_head max count entry config_obj entries is (sym p ∙ e) in
        let (r, l) = entries_sound max (count + 1) entries is' (ground arith) g in
        subst
          (λ (xs : List NamedConfig).
            (each parse_pair (ethercat_entries (entry ∷ entries)) ≡ success xs)
            × (count + length xs ≤ max))
          t (ap (each parse_pair) q ∙ each-more (entry, config_obj) _ i is' f r, omega arith)
  ]

  entries_complete :
      (max count : ℕ) (entries : List h.Node) (is : List NamedConfig)
      → each parse_pair (ethercat_entries entries) ≡ success is
      → count + length is ≤ max
      → parse_entries h max count entries ≡ success is
  unfolding parse_entries ethercat_entries
  entries_complete max count [] is e l = e
  entries_complete max count (entry ∷ entries) is e l =
      elim (Option-cases (ethercat_config h entry)) [
        | inl c ↦
            let (p, q) = parse_entries-none max count entry entries c in
            p ∙ entries_complete max count entries is (ap (each parse_pair) (sym q) ∙ e) l
        | inr (config_obj, c) ↦
            let (p, q) = parse_entries-some max count entry config_obj entries c in
            let (i, f, r) =
              >>=-success (parse_instance h entry config_obj) _
                (ap (each parse_pair) (sym q) ∙ e) in
            let (is', g, t) = >>=-success (each parse_pair (ethercat_entries entries)) _ r in
            let l' : count + 1 + length is' ≤ max =
              shorter max count i is' is (success_inj _ refl t) l in
            p
            ∙ success->>= (refuse_if (leb max count) invalid) _ (room max count is' l') (
                success->>= (parse_instance h entry config_obj) _ f (
                  success->>= (parse_entries h max (count + 1) entries) _
                    (entries_complete max (count + 1) entries is' g l') t))
      ]
    where
      shorter :
          (max count : ℕ) (i : NamedConfig) (is' is : List NamedConfig)
          → i ∷ is' ≡ is
          → count + length is ≤ max
          → count + 1 + length is' ≤ max
      shorter max count i is' is t l = omega (arith, ap length t)

      room :
          (max count : ℕ) (is' : List NamedConfig)
          → count + 1 + length is' ≤ max
          → refuse_if {E = ConfigError} (leb max count) invalid ≡ success tt
      room max count is' l = ground arith

  root_array :
      (max : ℕ) (root : h.Node) (entries : List h.Node)
      → 1 ≤ max
      → h.array root ≡ some entries
      → parse_all h max (some (some root)) ≡ (parse_entries h max 0 entries >>= finish)
  unfolding parse_all parse_root
  root_array max root entries m a = rw (le→ltb max 1 m, parse_root, a)

finish-loaded :
    (js is : List NamedConfig)
    → finish js ≡ success is
    → (js ≡ is) × (1 ≤ length is) × (has_shared_interface is ≡ false)
unfolding finish
finish-loaded [] is e = cc
finish-loaded (j ∷ js) is e = elim (Bool-cases (has_shared_interface (j ∷ js))) [
  | inl s ↦ absurd (ground arith)
  | inr s ↦
      subst
        (λ (xs : List NamedConfig).
          ((j ∷ js) ≡ xs) × (1 ≤ length xs) × (has_shared_interface xs ≡ false))
        (same s) (refl, omega arith, s)
]
  where
    same : has_shared_interface (j ∷ js) ≡ false → j ∷ js ≡ is
    same s = success_inj (finish (j ∷ js)) (rw (finish, s)) e

loaded-finish :
    (is : List NamedConfig)
    → 1 ≤ length is
    → has_shared_interface is ≡ false
    → finish is ≡ success is
unfolding finish
loaded-finish [] n s = absurd (omega arith)
loaded-finish (i ∷ is) n s = rw s

module _ (h : Host) where
  -- For a document that is an array, `ecat_config_parse_all` succeeds with the masters `is` exactly if
  -- these are what the entries of the protocol ETHERCAT with a "config" object parse to, each of
  -- them and in their order, there is at least one and not more than `max`, and no two have the
  -- same interface.
  pub parse_all_iff :
      (max : ℕ) (root : h.Node) (entries : List h.Node) (is : List NamedConfig)
      → 1 ≤ max
      → h.array root ≡ some entries
      → (parse_all h max (some (some root)) ≡ success is) ↔ (
          (each (parse_pair h) (ethercat_entries h entries) ≡ success is)
          × (1 ≤ length is)
          × (length is ≤ max)
          × (has_shared_interface is ≡ false))
  parse_all_iff max root entries is m a = (
    λ e.
        let (js, p, f) =
          >>=-success (parse_entries h max 0 entries) _
            (sym (root_array h max root entries m a) ∙ e) in
        let (t, n, s) = finish-loaded js is f in
        let (r, l) =
          entries_sound h max 0 entries is (omega arith)
            (subst (λ (xs : List NamedConfig). parse_entries h max 0 entries ≡ success xs) t p) in
        (r, n, omega arith, s),
    λ (r, n, l, s).
        root_array h max root entries m a
        ∙ success->>= (parse_entries h max 0 entries) _
            (entries_complete h max 0 entries is r (omega arith)) (loaded-finish is n s),
  )

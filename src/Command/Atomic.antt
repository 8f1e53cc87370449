-- ===== src/Command/Atomic.antt =====
-- src/bus.c: what loading a configuration leaves.
use ether_dog.Base.{
  ℕ, true, false, List, [], ◌∷◌, Option, take, map, ◌≡◌, ◌≢◌, ◌⊎◌, inl, inr, refl, sym, ap, ◌∙◌,
  ◌++◌, Bool-cases, subst, Bool, not, if◌then◌else◌,
}
use ether_dog.Base.Results.{Result, success, failure, failure-success, success_inj}
use ether_dog.Config.Types.{ConfigError}
use ether_dog.Config.Parse.{NamedConfig}
use ether_dog.Bus.Lifecycle.{any_active}
use ether_dog.Command.State.{Masters, lives, out_of_memory}
use ether_dog.Command.Configure.{
  Loading, Reply, init_all, loaded, load_parsed, load_path, path_text, not_freed, bus_configure,
}

-- The configuration that a path names can be loaded: it is parsed into these masters, of which there is
-- one at least, with memory and with locks for each.
abbrev pub Loads : Loading → List ℕ → List NamedConfig → Type 0
Loads l path ns =
    (l.memory ≡ true) × (l.parsed path ≡ success ns) × (ns ≢ []) × (init_all l.locks 0 ns ≡ true)

-- What an accepted request leaves: nothing for an empty path, and otherwise the masters of the
-- configuration, as they are before a start.
abbrev pub LoadedFrom : Loading → List ℕ → Masters → Type 0
LoadedFrom l [] ms = (ms.entries ≡ []) × (ms.config_path ≡ [])
LoadedFrom l (c ∷ path) ms =
    (ns : List NamedConfig) × Loads l (c ∷ path) ns
    × (ms.entries ≡ map loaded ns)
    × (ms.config_path ≡ take 511 (c ∷ path))

-- What a reply says of the masters after the request.
abbrev pub Replied : Loading → List ℕ → Masters → Masters × Reply → Type 0
Replied l path ms (ms', success u) =
    (any_active (lives ms.entries) ≡ false)
    × (ms'.leaked ≡ not_freed ms.entries ++ ms.leaked)
    × LoadedFrom l path ms'
Replied l path ms (ms', failure e) =
    (ms' ≡ ms)
    × ((any_active (lives ms.entries) ≡ true)
        ⊎ ((path ≢ []) × ((ns : List NamedConfig) → Loads l path ns → ⊥)))

load_parsed-Replied :
    (l : Loading) (c : ℕ) (path : List ℕ) (ms : Masters) (r : Result ConfigError (List NamedConfig))
    → l.parsed (c ∷ path) ≡ r
    → l.memory ≡ true
    → any_active (lives ms.entries) ≡ false
    → Replied l (c ∷ path) ms (load_parsed l (c ∷ path) r ms)
load_parsed-Replied l c path ms (failure e) p m a =
    (refl, inr (λ q. cc, λ ns h. absurd (failure-success (sym p ∙ h.1))))
load_parsed-Replied l c path ms (success []) p m a =
    (refl, inr (λ q. cc, λ ns h. h.2 (sym (success_inj (l.parsed (c ∷ path)) p h.1))))
load_parsed-Replied l c path ms (success (n ∷ ns)) p m a =
    elim (Bool-cases (init_all l.locks 0 (n ∷ ns))) [
      | inl made ↦ rw made (a, refl, ((n ∷ ns), (m, p, (λ q. cc), made), refl, refl))
      | inr failed ↦ rw failed (
        refl,
        inr (
          λ q. cc,
          λ ns' h.
              cc (ap (init_all l.locks 0) (success_inj (l.parsed (c ∷ path)) p h.1), h.3, failed),
        ),
      )
    ]

abbrev load_from : Loading → ℕ → List ℕ → Masters → Bool → Masters × Reply
load_from l c path ms memory =
    if not memory
    then (ms, failure out_of_memory)
    else load_parsed l (c ∷ path) (l.parsed (c ∷ path)) ms

load_path-Replied :
    (l : Loading) (path : List ℕ) (ms : Masters)
    → any_active (lives ms.entries) ≡ false
    → Replied l path ms (load_path l path ms)
load_path-Replied l [] ms a = (a, refl, (refl, refl))
load_path-Replied l (c ∷ path) ms a = elim (Bool-cases l.memory) [
  | inl there ↦
      subst (λ b. Replied l (c ∷ path) ms (load_from l c path ms b)) (sym there)
        (load_parsed-Replied l c path ms (l.parsed (c ∷ path)) refl there a)
  | inr short ↦
      subst (λ b. Replied l (c ∷ path) ms (load_from l c path ms b)) (sym short)
        (refl, inr (λ q. cc, λ ns h. cc (h.0, short)))
]

-- Loading a configuration is all or nothing. A request is accepted only while no master is active; it
-- then clears the configuration if it names no path, and otherwise replaces the masters by those of the
-- parsed file, each idle as before its first start; an old master is freed, or kept aside if one of its
-- threads still runs. A request that is refused leaves everything as it
-- was, and is refused only because a master is active or because the named file cannot be loaded.
pub bus_configure-Replied :
    (l : Loading) (path : Option (List ℕ)) (ms : Masters)
    → Replied l (path_text path) ms (bus_configure l path ms)
unfolding bus_configure
bus_configure-Replied l path ms = elim (Bool-cases (any_active (lives ms.entries))) [
  | inl active ↦ rw active (refl, inl active)
  | inr quiet ↦ rw quiet (load_path-Replied l (path_text path) ms quiet)
]

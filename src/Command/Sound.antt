-- ===== src/Command/Sound.antt =====
-- src/bus.c with src/config.c: the masters that the commands work on are those of a valid configuration.
use ether_dog.Base.{
  ℕ, ◌≤◌, false, List, [], ◌∷◌, Option, map, length, ◌≡◌, refl, sym, subst, ap, ◌∙◌, arith,
}
use ether_dog.Base.Results.{success, failure, All, all_none}
use ether_dog.Config.Host.{Host}
use ether_dog.Config.Parse.{NamedConfig, parse_all, has_shared_interface}
use ether_dog.Config.Masters.{IsLoaded, parse_all-IsLoaded}
use ether_dog.Command.State.{Entry, Masters}
use ether_dog.Command.Configure.{Loading, Reply, loaded, path_text, bus_configure}
use ether_dog.Command.Atomic.{Replied, bus_configure-Replied}

abbrev pub configured : List Entry → List NamedConfig
configured [] = []
configured (e ∷ es) = e.named ∷ configured es

configured-loaded : (ns : List NamedConfig) → configured (map loaded ns) ≡ ns
configured-loaded [] = refl
configured-loaded (n ∷ ns) = ap (λ (l : List NamedConfig). n ∷ l) (configured-loaded ns)

-- The validation accepts every master, there are at most `max`, and no two share an interface.
abbrev pub AreSound : ℕ → List NamedConfig → Type 0
AreSound max ns = All IsLoaded ns × (length ns ≤ max) × (has_shared_interface ns ≡ false)

module _ (h : Host) (max : ℕ) (document : List ℕ → Option (Option h.Node)) (l : Loading)
    (parses : (path : List ℕ) → l.parsed path ≡ parse_all h max (document path)) where
  Replied-AreSound :
      (path : List ℕ) (ms : Masters) (r : Masters × Reply)
      → Replied l path ms r
      → AreSound max (configured ms.entries)
      → AreSound max (configured r.0.entries)
  Replied-AreSound path ms (ms', failure e) p s =
      subst (λ (x : Masters). AreSound max (configured x.entries)) (sym p.0) s
  Replied-AreSound [] ms (ms', success u) p s =
      subst (λ (x : List Entry). AreSound max (configured x)) (sym p.2.0)
        (all_none, omega arith, refl)
  Replied-AreSound (c ∷ path) ms (ms', success u) (a, k, (ns, loads, e, q)) s =
      let made =
        parse_all-IsLoaded h max (document (c ∷ path)) ns (sym (parses (c ∷ path)) ∙ loads.1) in
      subst (λ (x : List NamedConfig). AreSound max x)
        (sym (ap configured e ∙ configured-loaded ns)) (made.0, made.2, made.3)

  -- Where the files are parsed by `ecat_config_parse_all`, a request to load a configuration keeps the
  -- masters sound, whether it is accepted or not: the validation accepts each of them with what it
  -- checks, there are at most as many as the array has room for, and no two use the same interface.
  pub bus_configure-AreSound :
      (path : Option (List ℕ)) (ms : Masters)
      → AreSound max (configured ms.entries)
      → AreSound max (configured (bus_configure l path ms).0.entries)
  bus_configure-AreSound path ms s =
      Replied-AreSound (path_text path) ms (bus_configure l path ms)
        (bus_configure-Replied l path ms) s

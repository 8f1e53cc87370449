-- ===== src/Iface/Manual.antt =====
-- src/iface_state.c: a small ethtool that shows and sets what the program asks for, for the tests.
use ether_dog.Base.{
  ℕ, ◌≤◌, Bool, true, false, not, ◌&&◌, ◌<◌, List, [], ◌∷◌, ◌++◌, Option, none, some, ◌≡◌, refl,
  sym, ap, ap₂, ◌∙◌, arith, if◌then◌else◌, length, length-append, take_all, ◌==◌,
}
use ether_dog.Base.Int.{ℤ}
use ether_dog.Config.Host.{codes}
use ether_dog.Dgram.{equal_bytes}
use ether_dog.Iface.Text.{after, Text, every, decimal, atoi, until_nul}
use ether_dog.Iface.Listing.{ShowsNumber, ShowsFlag, after_front}
use ether_dog.Iface.Numbers.{IsInt, atoi-decimal, every-decimal, every-append, length-decimal}
use ether_dog.Iface.Nic.{Tool, on_off, captured}
use ether_dog.Iface.Restored.{Nic, IsEthtool}

pub coalescing_of : Nic → Text
coalescing_of n =
    codes "rx-usecs: "
    ++ (decimal n.rx_usecs ++ (10 ∷ (codes "tx-usecs: " ++ (decimal n.tx_usecs ++ (10 ∷ [])))))

abbrev flags_text : Bool → Bool → Bool → Text
flags_text gro gso tso =
    codes "tcp-segmentation-offload: "
    ++ (on_off tso
        ++ (10
            ∷ (codes "generic-segmentation-offload: "
                ++ (on_off gso
                    ++ (10 ∷ (codes "generic-receive-offload: " ++ (on_off gro ++ (10 ∷ []))))))))

abbrev offloads_of : Nic → Text
offloads_of n = flags_text n.gro n.gso n.tso

abbrev set_usecs : List Text → Nic → Nic
set_usecs (a ∷ rx ∷ b ∷ tx ∷ []) n = record n { rx_usecs = atoi rx; tx_usecs = atoi tx }
set_usecs more n = n

abbrev is_on : Text → Bool
is_on s = equal_bytes s (codes "on")

abbrev set_flags : List Text → Nic → Nic
set_flags (a ∷ gro ∷ b ∷ gso ∷ c ∷ tso ∷ []) n = record n {
  gro = is_on gro;
  gso = is_on gso;
  tso = is_on tso;
}
set_flags more n = n

abbrev run : List Text → Nic → Nic × Option Text
run (prog ∷ option ∷ iface ∷ more) n =
    if equal_bytes option (codes "-C")
    then (set_usecs more n, some [])
    else if equal_bytes option (codes "-K")
    then (set_flags more n, some [])
    else if equal_bytes option (codes "-c")
    then (n, some (coalescing_of n))
    else (n, some (offloads_of n))
run args n = (n, none)

abbrev pub manual_tool : Tool
manual_tool = record { System = Nic; run = run }

abbrev no_nul : ℕ → Bool
no_nul c = not (c == 0)

until_nul_all : (u : Text) → every no_nul u ≡ true → until_nul u ≡ u
until_nul_all [] h = refl
until_nul_all (c ∷ u) h = ground (arith, until_nul_all u)

captured_all : (u : Text) → every no_nul u ≡ true → length u ≤ 2047 → captured u ≡ u
captured_all u h l = ap until_nul (take_all 2047 u l) ∙ until_nul_all u h

append_assoc : (xs ys zs : Text) → (xs ++ ys) ++ zs ≡ xs ++ (ys ++ zs)
append_assoc [] ys zs = refl
append_assoc (x ∷ xs) ys zs = ap (λ (s : Text). x ∷ s) (append_assoc xs ys zs)

tail_of : Text → Text
tail_of [] = []
tail_of (c ∷ s) = s

head_or : ℕ → Text → ℕ
head_or d [] = d
head_or d (c ∷ s) = c

-- A byte that a text does not have does not begin a key in it.
no_first :
    (k : ℕ) (u v a r : Text)
    → every (λ c. not (k == c)) u ≡ true
    → u ++ v ≡ a ++ (k ∷ r)
    → length a < length u
    → ⊥
unfolding tail_of head_or
no_first k [] v a r h e l = omega arith
no_first k (c ∷ u) v [] r h e l = let q : c ≡ k = ap (head_or 0) e in absurd (ground (arith, q))
no_first k (c ∷ u) v (d ∷ a) r h e l =
    no_first k u v a r (ground arith) (ap tail_of e) (omega arith)

abbrev is_none : Option Text → Bool
is_none none = true
is_none (some r) = false

-- Whether a key stands nowhere in front of a text.
abbrev none_before : Text → Text → Text → Bool
none_before key [] s = true
none_before key (c ∷ f) s = is_none (after key (c ∷ (f ++ s))) && none_before key f s

absent :
    (key s f a r : Text)
    → none_before key f s ≡ true
    → f ++ s ≡ a ++ (key ++ r)
    → length a < length f
    → ⊥
unfolding tail_of
absent key s [] a r h e l = omega arith
absent key s (c ∷ f) [] r h e l =
    let q : after key (c ∷ (f ++ s)) ≡ some r = ap (after key) e ∙ after_front key r in
    let w : is_none (after key (c ∷ (f ++ s))) ≡ false = ap is_none q in absurd (ground (arith, w))
absent key s (c ∷ f) (d ∷ a) r h e l =
    absent key s f a r (ground arith) (ap tail_of e) (omega arith)

module _ (n : Nic) (rx : IsInt n.rx_usecs) (tx : IsInt n.tx_usecs) where
  abbrev behind_rx : Text
  behind_rx = 10 ∷ (codes "tx-usecs: " ++ (decimal n.tx_usecs ++ (10 ∷ [])))

  short : length (coalescing_of n) ≤ 2047
  unfolding coalescing_of
  short = omega (
    arith,
    length-append (decimal n.rx_usecs) behind_rx,
    length-append (decimal n.tx_usecs) (10 ∷ []),
    length-decimal n.rx_usecs rx,
    length-decimal n.tx_usecs tx,
  )

  no_nuls : every no_nul (coalescing_of n) ≡ true
  unfolding coalescing_of
  no_nuls =
      every-append no_nul (decimal n.rx_usecs) behind_rx
        (every-decimal no_nul (λ d h. ground arith) refl n.rx_usecs)
        (every-append no_nul (decimal n.tx_usecs) (10 ∷ [])
          (every-decimal no_nul (λ d h. ground arith) refl n.tx_usecs) refl)

  shown : captured (coalescing_of n) ≡ coalescing_of n
  shown = captured_all (coalescing_of n) no_nuls short

  shows_rx : ShowsNumber (captured (coalescing_of n)) (codes "rx-usecs") n.rx_usecs
  unfolding coalescing_of
  shows_rx = record {
    front = [];
    rest = codes "tx-usecs: " ++ (decimal n.tx_usecs ++ (10 ∷ []));
    is_there = shown;
    is_first = λ a r c e l. absurd (omega arith);
  }

  abbrev rx_line : Text
  rx_line = codes "rx-usecs: " ++ (decimal n.rx_usecs ++ (10 ∷ []))

  rx_line-every : every (λ c. not (b't' == c)) rx_line ≡ true
  rx_line-every =
      every-append (λ c. not (b't' == c)) (decimal n.rx_usecs) (10 ∷ [])
        (every-decimal (λ c. not (b't' == c)) (λ d h. ground arith) refl n.rx_usecs) refl

  tx_there :
      captured (coalescing_of n)
      ≡ rx_line ++ (codes "tx-usecs" ++ (b':' ∷ (32 ∷ (decimal n.tx_usecs ++ (10 ∷ [])))))
  unfolding coalescing_of
  tx_there =
      shown
      ∙ ap (λ (s : Text). codes "rx-usecs: " ++ s)
          (sym (
            append_assoc (decimal n.rx_usecs) (10 ∷ [])
              (codes "tx-usecs: " ++ (decimal n.tx_usecs ++ (10 ∷ [])))))

  shows_tx : ShowsNumber (captured (coalescing_of n)) (codes "tx-usecs") n.tx_usecs
  shows_tx = record {
    front = rx_line;
    rest = [];
    is_there = tx_there;
    is_first = λ a r c e l.
        absurd (
          no_first b't' rx_line _ a (codes "x-usecs" ++ (c ∷ r)) rx_line-every (sym tx_there ∙ e)
            l);
  }

captured_flags : (gro gso tso : Bool) → captured (flags_text gro gso tso) ≡ flags_text gro gso tso
captured_flags true true true = refl
captured_flags true true false = refl
captured_flags true false true = refl
captured_flags true false false = refl
captured_flags false true true = refl
captured_flags false true false = refl
captured_flags false false true = refl
captured_flags false false false = refl

-- A flag that is shown behind a text in which its key does not stand.
flag_shown :
    (output key front rest : Text) (v : Bool)
    → output ≡ front ++ (key ++ (b':' ∷ (32 ∷ (on_off v ++ (10 ∷ rest)))))
    → none_before key front (key ++ (b':' ∷ (32 ∷ (on_off v ++ (10 ∷ rest))))) ≡ true
    → ShowsFlag output key v
flag_shown output key front rest v e h = record {
  front = front;
  rest = rest;
  is_there = e;
  is_first = λ a r q l. absent key _ front a r h (sym e ∙ q) l;
}

abbrev tso_line : Bool → Text
tso_line tso = codes "tcp-segmentation-offload: " ++ (on_off tso ++ (10 ∷ []))

abbrev gso_line : Bool → Text
gso_line gso = codes "generic-segmentation-offload: " ++ (on_off gso ++ (10 ∷ []))

abbrev gro_line : Bool → Text
gro_line gro = codes "generic-receive-offload: " ++ (on_off gro ++ (10 ∷ []))

shows_tso :
    (gro gso tso : Bool)
    → ShowsFlag (captured (flags_text gro gso tso)) (codes "tcp-segmentation-offload") tso
shows_tso gro gso tso = flag_shown _ _ [] (gso_line gso ++ gro_line gro) tso (split gso) refl
  where
    split :
        (gso : Bool)
        → captured (flags_text gro gso tso)
          ≡ codes "tcp-segmentation-offload"
            ++ (b':' ∷ (32 ∷ (on_off tso ++ (10 ∷ (gso_line gso ++ gro_line gro)))))
    split true = captured_flags gro true tso
    split false = captured_flags gro false tso

shows_gso :
    (gro gso tso : Bool)
    → ShowsFlag (captured (flags_text gro gso tso)) (codes "generic-segmentation-offload") gso
shows_gso gro gso true =
    flag_shown _ _ (tso_line true) (gro_line gro) gso (captured_flags gro gso true) refl
shows_gso gro gso false =
    flag_shown _ _ (tso_line false) (gro_line gro) gso (captured_flags gro gso false) refl

shows_gro :
    (gro gso tso : Bool)
    → ShowsFlag (captured (flags_text gro gso tso)) (codes "generic-receive-offload") gro
shows_gro gro true true =
    flag_shown _ _ (tso_line true ++ gso_line true) [] gro (captured_flags gro true true) refl
shows_gro gro true false =
    flag_shown _ _ (tso_line false ++ gso_line true) [] gro (captured_flags gro true false) refl
shows_gro gro false true =
    flag_shown _ _ (tso_line true ++ gso_line false) [] gro (captured_flags gro false true) refl
shows_gro gro false false =
    flag_shown _ _ (tso_line false ++ gso_line false) [] gro (captured_flags gro false false) refl

on_off_on : (b : Bool) → equal_bytes (on_off b) (codes "on") ≡ b
unfolding equal_bytes
on_off_on true = refl
on_off_on false = refl

pub manual_tool-IsEthtool : (iface : Text) → IsEthtool manual_tool iface (λ n. n)
unfolding equal_bytes
manual_tool-IsEthtool iface = record {
  sets_coalescing = λ rx tx n.
      ap₂ (λ (a b : ℤ). record n { rx_usecs = a; tx_usecs = b }) (atoi-decimal rx)
        (atoi-decimal tx);
  sets_offloads = λ gro gso tso n. rw (on_off_on gro, on_off_on gso, on_off_on tso) refl;
  coalescing_text = coalescing_of;
  shows_coalescing = λ n. refl;
  shows_rx = λ n rx tx. shows_rx n rx tx;
  shows_tx = λ n rx tx. shows_tx n rx tx;
  offload_text = λ n. offloads_of n;
  shows_offloads = λ n. refl;
  shows_gro = λ n. shows_gro n.gro n.gso n.tso;
  shows_gso = λ n. shows_gso n.gro n.gso n.tso;
  shows_tso = λ n. shows_tso n.gro n.gso n.tso;
}

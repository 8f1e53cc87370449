-- ===== src/Control/Serving.antt =====
-- src/control.c: the loop of `service_client` over a text that comes in two parts.
use mathlib.Core.List.{append_assoc, append-nil}
use ether_dog.Base.{
  subst, ℕ, Bool, true, false, ◌≡◌, refl, sym, ◌∙◌, ap, ◌==◌, Option, List, [], ◌∷◌, ◌++◌, inl, inr,
  Bool-cases,
}
use ether_dog.Base.Results.{All, all_none, all_more}
use ether_dog.Control.Client.{Request, Client, Reply}
use ether_dog.Control.Framing.{Served, is_over, reply_first, serve_line, serve}

-- A byte of a line, and a byte that is no NUL.
abbrev pub IsPlain : ℕ → Type 0
IsPlain b = ((b == 0) ≡ false) × ((b == 10) ≡ false)

abbrev pub IsByte : ℕ → Type 0
IsByte b = (b == 0) ≡ false

pub All-append : {P : ℕ → Type 0} (xs ys : List ℕ) → All P xs → All P ys → All P (xs ++ ys)
All-append [] ys all_none q = q
All-append (x ∷ xs) ys (all_more p ps) q = all_more p (All-append xs ys ps q)

-- Replies that were sent before.
pub reply_first-append :
    (r s : List Reply) (o : Served) → reply_first (r ++ s) o ≡ reply_first r (reply_first s o)
reply_first-append r s o =
    ap (λ (x : List Reply). record o { replies = x }) (append_assoc r s o.replies)

module _ (parse : List ℕ → Request) (token : Option (List ℕ)) where
  abbrev pub run : Client → List ℕ → List ℕ → Served
  run = serve parse token

  run-plain :
      (c : Client) (line : List ℕ) (b : ℕ) (bs : List ℕ)
      → IsPlain b
      → run c line (b ∷ bs) ≡ run c (line ++ (b ∷ [])) bs
  unfolding serve
  run-plain c line b bs (z, n) = rw (serve, z, n) refl

  pub run-over :
      (c : Client) (line : List ℕ) (b : ℕ) (bs : List ℕ)
      → (b == 0) ≡ false
      → (b == 10) ≡ true
      → is_over (serve_line parse token c line).0 (serve_line parse token c line).2 ≡ true
      → run c line (b ∷ bs) ≡ record {
        client = (serve_line parse token c line).0;
        replies = (serve_line parse token c line).1;
        exit_now = (serve_line parse token c line).2;
        rest = bs;
      }
  unfolding serve
  run-over c line b bs z n o = rw (serve, z, n, o) refl

  pub run-on :
      (c : Client) (line : List ℕ) (b : ℕ) (bs : List ℕ)
      → (b == 0) ≡ false
      → (b == 10) ≡ true
      → is_over (serve_line parse token c line).0 (serve_line parse token c line).2 ≡ false
      → run c line (b ∷ bs)
        ≡ reply_first
            (serve_line parse token c line).1
            (run (serve_line parse token c line).0 [] bs)
  unfolding serve
  run-on c line b bs z n o = rw (serve, z, n, o) refl

  -- The bytes of a line are taken into it.
  pub run-line :
      (c : Client) (line rest ys : List ℕ)
      → All IsPlain rest
      → run c line (rest ++ ys) ≡ run c (line ++ rest) ys
  run-line c line [] ys all_none = ap (λ (x : List ℕ). run c x ys) (sym (append-nil line))
  run-line c line (b ∷ rest) ys (all_more p ps) =
      run-plain c line b (rest ++ ys) p
      ∙ run-line c (line ++ (b ∷ [])) rest ys ps
      ∙ ap (λ (x : List ℕ). run c x ys) (append_assoc line (b ∷ []) rest)

  -- The rest is the beginning of a line, and `t` is what the loop makes of `ys` from there on.
  abbrev pub IsContinued : Served → List ℕ → Served → Type 0
  IsContinued o ys t = All IsPlain o.rest × (t ≡ reply_first o.replies (run o.client o.rest ys))

  abbrev pub ends : Served → Bool
  ends o = is_over o.client o.exit_now

  -- What is left of bytes without NUL, where the loop does not end early, is the beginning of a line,
  -- and the loop goes on from there with what comes next.
  pub run-append :
      (c : Client) (line xs ys : List ℕ)
      → All IsPlain line
      → All IsByte xs
      → ends (run c line xs) ≡ false
      → IsContinued (run c line xs) ys (run c line (xs ++ ys))
  unfolding serve
  run-append c line [] ys p all_none o = (p, refl)
  run-append c line (b ∷ xs) ys p (all_more z zs) o = elim (Bool-cases (b == 10)) [
    | inl n ↦ elim (Bool-cases (is_over c' s.2)) [
      | inl v ↦ absurd (cc (sym o ∙ ap ends (run-over c line b xs z n v) ∙ v))
      | inr v ↦
          let e = run-on c line b xs z n v in
          let (q, r) = run-append c' [] xs ys all_none zs (sym (ap ends e) ∙ o) in
          subst (λ (x : Served). IsContinued x ys (run c line (b ∷ (xs ++ ys)))) (sym e)
            (
              q,
              run-on c line b (xs ++ ys) z n v
                  ∙ ap (reply_first s.1) r
                  ∙ sym (reply_first-append s.1 (run c' [] xs).replies _),
            )
    ]
    | inr n ↦
        let e = run-plain c line b xs (z, n) in
        let (q, r) =
          run-append c (line ++ (b ∷ [])) xs ys
            (All-append line (b ∷ []) p (all_more (z, n) all_none)) zs (sym (ap ends e) ∙ o) in
        subst (λ (x : Served). IsContinued x ys (run c line (b ∷ (xs ++ ys)))) (sym e)
          (q, run-plain c line b (xs ++ ys) (z, n) ∙ r)
  ]
    where
      s : Client × List Reply × Bool
      s = serve_line parse token c line

      c' : Client
      c' = s.0

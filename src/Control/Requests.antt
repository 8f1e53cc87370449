-- ===== src/Control/Requests.antt =====
-- src/control.c: a client's bytes as the requests that they hold, and what an unauthenticated client
-- gets for them.
use ether_dog.Base.{
  ℕ, Bool, true, false, ◌≡◌, refl, sym, ◌∙◌, ap, arith, ◌==◌, if◌then◌else◌, Option, List, [], ◌∷◌,
  ◌++◌, length, inl, inr, Bool-cases, map,
}
use ether_dog.Control.Client.{Request, Client, Reply, handle_line, handle_lines, need_auth}
use ether_dog.Control.Auth.{handle_lines-refused, is_refusal, none_matches}
use ether_dog.Control.Framing.{
  Connection, Served, strip_line, is_over, serve_line, serve, service_client, dropped_connection,
}
use ether_dog.Control.Stream.{service_client-dropped}
use ether_dog.Control.Serving.{run, run-over, run-on}

module _ (parse : List ℕ → Request) where
  abbrev pub add_request : List ℕ → List Request → List Request
  add_request line rs = if length (strip_line line) == 0 then rs else parse (strip_line line) ∷ rs

  -- The requests of a text, with the bytes of its first line before it: its lines that are not empty,
  -- up to a NUL.
  unfoldable pub requests : List ℕ → List ℕ → List Request
  requests line [] = []
  requests line (b ∷ bs) = elim (b == 0) [
    | true ↦ []
    | false ↦ elim (b == 10) [
      | false ↦ requests (line ++ (b ∷ [])) bs
      | true ↦ add_request line (requests [] bs)
    ]
  ]

  abbrev outcome : Served → Client × List Reply × Bool
  outcome o = (o.client, o.replies, o.exit_now)

  module _ (token : Option (List ℕ)) where
    abbrev handled : Client → List Request → Client × List Reply × Bool
    handled = handle_lines token

    handled-empty :
        (c : Client) (line : List ℕ) (rs : List Request)
        → (length (strip_line line) == 0) ≡ true
        → (serve_line parse token c line ≡ (c, [], false)) × (add_request line rs ≡ rs)
    unfolding serve_line
    handled-empty c line rs e = (rw (serve_line, e) refl, rw e refl)

    handled-line :
        (c : Client) (line : List ℕ) (rs : List Request)
        → (length (strip_line line) == 0) ≡ false
        → (serve_line parse token c line ≡ (
          (handle_line token c (parse (strip_line line))).0,
          (handle_line token c (parse (strip_line line))).1 ∷ [],
          (handle_line token c (parse (strip_line line))).2,
        ))
          × (add_request line rs ≡ parse (strip_line line) ∷ rs)
    unfolding serve_line
    handled-line c line rs e = (rw (serve_line, e) refl, rw e refl)

    abbrev step : Client → Request → Client × Reply × Bool
    step = handle_line token

    -- The outcome of a text whose first line leads to `s`.
    abbrev next : Client × List Reply × Bool → List ℕ → Client × List Reply × Bool
    next s bs =
        let o = outcome (run parse token s.0 [] bs) in
        if is_over s.0 s.2 then s else (o.0, s.1 ++ o.1, o.2)

    serve-newline :
        (c : Client) (line : List ℕ) (b : ℕ) (bs : List ℕ)
        → (b == 0) ≡ false
        → (b == 10) ≡ true
        → outcome (run parse token c line (b ∷ bs)) ≡ next (serve_line parse token c line) bs
    serve-newline c line b bs z n =
        elim (Bool-cases
          (is_over (serve_line parse token c line).0 (serve_line parse token c line).2)) [
            | inl v ↦ ap outcome (run-over parse token c line b bs z n v) ∙ rw v refl
            | inr v ↦ ap outcome (run-on parse token c line b bs z n v) ∙ rw v refl
          ]

    requests-newline :
        (line : List ℕ) (b : ℕ) (bs : List ℕ)
        → (b == 0) ≡ false
        → (b == 10) ≡ true
        → requests line (b ∷ bs) ≡ add_request line (requests [] bs)
    unfolding requests
    requests-newline line b bs z n = rw (requests, z, n) refl

    not-over : (c : Client) (x : Bool) → is_over c x ≡ false → c.dropped ≡ false
    not-over c x v = ground arith

    handled-over :
        (c : Client) (r : Request) (rs : List Request)
        → is_over (step c r).0 (step c r).2 ≡ true
        → handled c (r ∷ rs) ≡ ((step c r).0, (step c r).1 ∷ [], (step c r).2)
    unfolding handle_lines
    handled-over c r rs v = rw (handle_lines, v) refl

    handled-on :
        (c : Client) (r : Request) (rs : List Request)
        → is_over (step c r).0 (step c r).2 ≡ false
        → handled c (r ∷ rs) ≡ (
          (handled (step c r).0 rs).0,
          (step c r).1 ∷ (handled (step c r).0 rs).1,
          (handled (step c r).0 rs).2,
        )
    unfolding handle_lines
    handled-on c r rs v = rw (handle_lines, v) refl

    next-handled :
        (c : Client) (r : Request) (bs : List ℕ)
        → ((c' : Client)
            → c'.dropped ≡ false
            → outcome (run parse token c' [] bs) ≡ handled c' (requests [] bs))
        → next ((step c r).0, (step c r).1 ∷ [], (step c r).2) bs ≡ handled c (r ∷ requests [] bs)
    next-handled c r bs ih = elim (Bool-cases (is_over (step c r).0 (step c r).2)) [
      | inl v ↦ rw v (sym (handled-over c r (requests [] bs) v))
      | inr v ↦ rw v (
          ap (λ (x : Client × List Reply × Bool). (x.0, (step c r).1 ∷ x.1, x.2))
            (ih (step c r).0 (not-over (step c r).0 (step c r).2 v))
          ∙ sym (handled-on c r (requests [] bs) v))
    ]

    next-quiet :
        (c : Client) (bs : List ℕ)
        → c.dropped ≡ false
        → next (c, [], false) bs ≡ outcome (run parse token c [] bs)
    next-quiet c bs d =
        ap (λ (x : Bool). if x then (c, [], false) else outcome (run parse token c [] bs)) d

    next-line :
        (c : Client) (line bs : List ℕ)
        → c.dropped ≡ false
        → ((c' : Client)
            → c'.dropped ≡ false
            → outcome (run parse token c' [] bs) ≡ handled c' (requests [] bs))
        → next (serve_line parse token c line) bs ≡ handled c (add_request line (requests [] bs))
    next-line c line bs d ih = elim (Bool-cases (length (strip_line line) == 0)) [
      | inl e ↦
          let (p, q) = handled-empty c line (requests [] bs) e in
          ap (λ (x : Client × List Reply × Bool). next x bs) p
          ∙ next-quiet c bs d
          ∙ ih c d
          ∙ ap (handled c) (sym q)
      | inr e ↦
          let (p, q) = handled-line c line (requests [] bs) e in
          ap (λ (x : Client × List Reply × Bool). next x bs) p
          ∙ next-handled c (parse (strip_line line)) bs ih
          ∙ ap (handled c) (sym q)
    ]

    -- What the loop does to the client, its replies and whether the server exits are those of the
    -- requests in the text.
    serve-handle_lines :
        (c : Client) (line text : List ℕ)
        → c.dropped ≡ false
        → outcome (run parse token c line text) ≡ handled c (requests line text)
    unfolding serve requests handle_lines
    serve-handle_lines c line [] d = refl
    serve-handle_lines c line (b ∷ bs) d = elim (Bool-cases (b == 0)) [
      | inl z ↦ rw (serve, requests, z) refl
      | inr z ↦ elim (Bool-cases (b == 10)) [
        | inr n ↦ rw (serve, requests, z, n) (serve-handle_lines c (line ++ (b ∷ [])) bs d)
        | inl n ↦
            serve-newline c line b bs z n
            ∙ next-line c line bs d (λ c' e. serve-handle_lines c' [] bs e)
            ∙ ap (handled c) (sym (requests-newline line b bs z n))
      ]
    ]

    -- With a token configured, an unauthenticated client whose bytes hold requests, none of which is
    -- a `hello` with the token, gets one refusal and no other reply, is dropped, and does not end
    -- the server, however many requests its bytes hold.
    pub service_client-refused :
        (k : Connection) (b : ℕ) (bs : List ℕ) (r : Request) (rs : List Request)
        → need_auth token ≡ true
        → k.client.dropped ≡ false
        → k.client.authenticated ≡ false
        → requests [] (k.buf ++ (b ∷ bs)) ≡ r ∷ rs
        → none_matches token (r ∷ rs) ≡ true
        → ((service_client parse token k (b ∷ bs)).0 ≡ dropped_connection)
          × (map is_refusal (service_client parse token k (b ∷ bs)).1 ≡ true ∷ [])
          × ((service_client parse token k (b ∷ bs)).2 ≡ false)
    service_client-refused k b bs r rs n d a q m =
        let e = serve-handle_lines k.client [] (k.buf ++ (b ∷ bs)) d ∙ ap (handled k.client) q in
        let (dropped', authenticated', replies', exit') =
          handle_lines-refused token k.client r rs n a m in
        let gone = ap (λ (x : Client × List Reply × Bool). x.0.dropped) e ∙ dropped' in
        let s = service_client-dropped parse token k b bs gone in
        (
          ap (λ (x : Connection × List Reply × Bool). x.0) s,
          ap (λ (x : Connection × List Reply × Bool). map is_refusal x.1) s
              ∙ ap (λ (x : Client × List Reply × Bool). map is_refusal x.1) e
              ∙ replies',
          ap (λ (x : Connection × List Reply × Bool). x.2) s
              ∙ ap (λ (x : Client × List Reply × Bool). x.2) e
              ∙ exit',
        )

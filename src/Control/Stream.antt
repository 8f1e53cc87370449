-- ===== src/Control/Stream.antt =====
-- src/control.c: how a client's bytes are cut into chunks does not matter.
use mathlib.Core.List.{append_assoc}
use ether_dog.Base.{
  subst, ℕ, Bool, true, false, ◌-◌, ◌≡◌, ◌<◌, refl, sym, ◌∙◌, ap, arith, leb, if◌then◌else◌, Option,
  List, [], ◌∷◌, ◌++◌, length, inl, inr, Bool-cases,
}
use ether_dog.Base.Results.{All, all_none, all_more}
use ether_dog.Control.Client.{Request, Reply, line_too_long}
use ether_dog.Control.Framing.{
  dropped_connection, max_line, Connection, Served, is_over, reply_first, service_client,
}
use ether_dog.Control.Serving.{IsPlain, IsByte, All-append, run, run-line, run-append}

-- What `service_client` makes of what its loop leaves.
abbrev settle : Served → Connection × List Reply × Bool
settle o =
    if o.client.dropped
    then (dropped_connection, o.replies, o.exit_now)
    else if leb (max_line - 1) (length o.rest)
    then (dropped_connection, o.replies ++ (line_too_long ∷ []), o.exit_now)
    else (record { client = o.client; buf = o.rest }, o.replies, o.exit_now)

settle-reply_first :
    (r : List Reply) (o : Served)
    → settle (reply_first r o) ≡ ((settle o).0, r ++ (settle o).1, (settle o).2)
settle-reply_first r o = elim (Bool-cases o.client.dropped) [
  | inl d ↦ rw d refl
  | inr d ↦ elim (Bool-cases (leb (max_line - 1) (length o.rest))) [
    | inl l ↦
        rw (d, l)
          (ap (λ (x : List Reply). (dropped_connection, x, o.exit_now))
            (append_assoc r o.replies (line_too_long ∷ [])))
    | inr l ↦ rw (d, l) refl
  ]
]

-- A connection that stays open and does not end the server.
settle-open :
    (o : Served)
    → (settle o).0.client.dropped ≡ false
    → (settle o).2 ≡ false
    → (is_over o.client o.exit_now ≡ false)
      × (settle o ≡ (record { client = o.client; buf = o.rest }, o.replies, false))
settle-open o d x = ground arith

settle-dropped :
    (o : Served) → o.client.dropped ≡ true → settle o ≡ (dropped_connection, o.replies, o.exit_now)
settle-dropped o d =
    ap
      (λ (x : Bool).
        if x
        then (dropped_connection, o.replies, o.exit_now)
        else if leb (max_line - 1) (length o.rest)
        then (dropped_connection, o.replies ++ (line_too_long ∷ []), o.exit_now)
        else (record { client = o.client; buf = o.rest }, o.replies, o.exit_now))
      d

module _ (parse : List ℕ → Request) (token : Option (List ℕ)) where
  service_client-settle :
      (k : Connection) (b : ℕ) (bs : List ℕ)
      → service_client parse token k (b ∷ bs)
        ≡ settle (run parse token k.client [] (k.buf ++ (b ∷ bs)))
  unfolding service_client
  service_client-settle k b bs = refl

  IsPlain-IsByte : (xs : List ℕ) → All IsPlain xs → All IsByte xs
  IsPlain-IsByte [] all_none = all_none
  IsPlain-IsByte (x ∷ xs) (all_more (z, n) ps) = all_more z (IsPlain-IsByte xs ps)

  pub service_client-dropped :
      (k : Connection) (b : ℕ) (bs : List ℕ)
      → (run parse token k.client [] (k.buf ++ (b ∷ bs))).client.dropped ≡ true
      → service_client parse token k (b ∷ bs) ≡ (
        dropped_connection,
        (run parse token k.client [] (k.buf ++ (b ∷ bs))).replies,
        (run parse token k.client [] (k.buf ++ (b ∷ bs))).exit_now,
      )
  service_client-dropped k b bs d = service_client-settle k b bs ∙ settle-dropped _ d

  -- Two chunks without NUL have the effect of one: where the first leaves the connection open and
  -- the server running, with what is left of an unfinished line in the buffer, both in one chunk
  -- lead to the same connection and exit, with the replies to the first before those to the second.
  pub service_client-append :
      (k k' : Connection) (b : ℕ) (bs : List ℕ) (c : ℕ) (cs : List ℕ) (replies : List Reply)
      → All IsPlain k.buf
      → All IsByte (b ∷ bs)
      → service_client parse token k (b ∷ bs) ≡ (k', replies, false)
      → k'.client.dropped ≡ false
      → All IsPlain k'.buf
        × (service_client parse token k ((b ∷ bs) ++ (c ∷ cs)) ≡ (
          (service_client parse token k' (c ∷ cs)).0,
          replies ++ (service_client parse token k' (c ∷ cs)).1,
          (service_client parse token k' (c ∷ cs)).2,
        ))
  service_client-append k k' b bs c cs replies p z e d =
      let f = sym (service_client-settle k b bs) ∙ e in
      let (v, g) =
        settle-open o (ap (λ (x : Connection × List Reply × Bool). x.0.client.dropped) f ∙ d)
          (ap (λ (x : Connection × List Reply × Bool). x.2) f) in
      let (q, r) =
        run-append parse token k.client [] (k.buf ++ (b ∷ bs)) (c ∷ cs) all_none
          (All-append k.buf (b ∷ bs) (IsPlain-IsByte k.buf p) z) v in
      subst
        (λ (x : Connection × List Reply × Bool).
          All IsPlain x.0.buf
          × (service_client parse token k ((b ∷ bs) ++ (c ∷ cs)) ≡ (
            (service_client parse token x.0 (c ∷ cs)).0,
            x.1 ++ (service_client parse token x.0 (c ∷ cs)).1,
            (service_client parse token x.0 (c ∷ cs)).2,
          )))
        (sym g ∙ f)
        (
          q,
          service_client-settle k b (bs ++ (c ∷ cs))
              ∙ ap (λ (x : List ℕ). settle (run parse token k.client [] x))
                  (sym (append_assoc k.buf (b ∷ bs) (c ∷ cs)))
              ∙ ap settle r
              ∙ settle-reply_first o.replies (run parse token o.client o.rest (c ∷ cs))
              ∙ ap (λ (x : Connection × List Reply × Bool). (x.0, o.replies ++ x.1, x.2))
                  (sym (
                    service_client-settle (record { client = o.client; buf = o.rest }) c cs
                    ∙ ap settle (run-line parse token o.client [] o.rest (c ∷ cs) q))),
        )
    where
      o : Served
      o = run parse token k.client [] (k.buf ++ (b ∷ bs))

  -- After each call the buffer has room for at least one more byte, so that recv is never asked for
  -- none, whose result would pass for the end of the stream.
  pub service_client-room :
      (k : Connection) (chunk : List ℕ)
      → length (service_client parse token k chunk).0.buf < max_line - 1
  unfolding service_client
  service_client-room k [] = omega arith
  service_client-room k (b ∷ bs) = ground arith

-- ===== src/Control/Auth.antt =====
-- src/control.c: the comparison of tokens, and what a client gets without one.
use ether_dog.Base.{
  ℕ, zero, suc, Bool, true, false, not, ◌||◌, ◌&&◌, ◌%◌, ◌+◌, ◌<◌, ◌≡◌, ◌↔◌, refl, sym, ap, ◌∙◌,
  arith, inl, inr, ◌==◌, if◌then◌else◌, Option, List, [], ◌∷◌, length, get_or, drop, Bool-cases,
  ==_iff, ==_refl, map,
}
use native.Mathlib.Nat.{mod-eq_of_lt}
use ether_dog.Control.Client.{
  logs, shutdown, other, Client, Request, hello, Reply, authentication_failed, authenticate_first,
  differs, constant_time_equals, need_auth, token_matches, handle_line, handle_lines,
}

-- `xs` and `ys` differ somewhere in their common part.
abbrev mismatch : List ℕ → List ℕ → Bool
mismatch [] ys = false
mismatch (x ∷ xs) [] = false
mismatch (x ∷ xs) (y ∷ ys) = not (x == y) || mismatch xs ys

mismatch_iff : (xs ys : List ℕ) → length xs ≡ length ys → (mismatch xs ys ≡ false) ↔ (xs ≡ ys)
mismatch_iff [] [] h = ground arith
mismatch_iff [] (y ∷ ys) h = absurd (omega arith)
mismatch_iff (x ∷ xs) [] h = absurd (omega arith)
mismatch_iff (x ∷ xs) (y ∷ ys) h = ground (arith, mismatch_iff xs ys, ==_iff x y)

drop_step : (b : List ℕ) (i : ℕ) → i < length b → drop i b ≡ get_or b i 0 ∷ drop (suc i) b
drop_step [] i h = absurd (omega arith)
drop_step (y ∷ b) zero h = refl
drop_step (y ∷ b) (suc i) h = drop_step b i (omega arith)

index_within : (i n : ℕ) → i < n → i % (if n == 0 then 1 else n) ≡ i
index_within i n h = elim (Bool-cases (n == 0)) [
  | inl e ↦ absurd (ground arith)
  | inr e ↦ ap (λ (b : Bool). i % (if b then 1 else n)) e ∙ mod-eq_of_lt h
]

differs_tail :
    (xs b : List ℕ) (i : ℕ) (diff : Bool)
    → i + length xs ≡ length b
    → differs xs b i diff ≡ (diff || mismatch xs (drop i b))
unfolding differs
differs_tail [] b i true h = refl
differs_tail [] b i false h = refl
differs_tail (x ∷ xs) b i diff h =
    let suc_is : i + 1 ≡ suc i = omega arith in
    let next : differs xs b (i + 1) (diff || not (x == get_or b i 0))
        ≡ ((diff || not (x == get_or b i 0)) || mismatch xs (drop (suc i) b)) =
      differs_tail xs b (i + 1) (diff || not (x == get_or b i 0)) (omega arith)
      ∙ ap (λ (j : ℕ). (diff || not (x == get_or b i 0)) || mismatch xs (drop j b)) suc_is in
    ap (λ (j : ℕ). differs xs b (i + 1) (diff || not (x == get_or b j 0)))
      (index_within i (length b) (omega arith))
    ∙ next
    ∙ or_assoc diff (not (x == get_or b i 0)) (mismatch xs (drop (suc i) b))
    ∙ ap (λ (l : List ℕ). diff || mismatch (x ∷ xs) l) (sym (drop_step b i (omega arith)))
  where
    or_assoc : (p q r : Bool) → ((p || q) || r) ≡ (p || (q || r))
    or_assoc true q r = refl
    or_assoc false q r = refl

differs-true : (xs b : List ℕ) (i : ℕ) → differs xs b i true ≡ true
unfolding differs
differs-true [] b i = refl
differs-true (x ∷ xs) b i = differs-true xs b (i + 1)

-- The comparison of tokens that looks at every byte decides their equality.
pub constant_time_equals_iff : (a b : List ℕ) → (constant_time_equals a b ≡ true) ↔ (a ≡ b)
unfolding constant_time_equals
constant_time_equals_iff a b = elim (Bool-cases (length a == length b)) [
  | inl e ↦
      let same : length a ≡ length b = (==_iff (length a) (length b)).0 e in
      ground (arith, differs_tail a b 0 false (omega arith), mismatch_iff a b same, same)
  | inr e ↦ (λ h. absurd (ground (arith, differs-true a b 0)), λ h. absurd (not_equal h e))
]
  where
    not_equal : a ≡ b → (length a == length b) ≡ false → ⊥
    not_equal h e = ground (arith, ==_refl (length b), ap (λ (l : List ℕ). length l == length b) h)

-- No `hello` of the lines has the token.
abbrev pub none_matches : Option (List ℕ) → List Request → Bool
none_matches token [] = true
none_matches token (hello tok ∷ rs) = not (token_matches tok token) && none_matches token rs
none_matches token (r ∷ rs) = none_matches token rs

abbrev pub is_refusal : Reply → Bool
is_refusal authentication_failed = true
is_refusal authenticate_first = true
is_refusal _ = false

-- With a token configured, a client that has not authenticated, none of whose requests is a
-- `hello` with the token, gets a refusal for its first request and nothing more, is dropped with
-- it, and does not end the server.
pub handle_lines-refused :
    (token : Option (List ℕ)) (c : Client) (r : Request) (rs : List Request)
    → need_auth token ≡ true
    → c.authenticated ≡ false
    → none_matches token (r ∷ rs) ≡ true
    → ((handle_lines token c (r ∷ rs)).0.dropped ≡ true)
      × ((handle_lines token c (r ∷ rs)).0.authenticated ≡ false)
      × (map is_refusal (handle_lines token c (r ∷ rs)).1 ≡ true ∷ [])
      × ((handle_lines token c (r ∷ rs)).2 ≡ false)
unfolding handle_lines handle_line
handle_lines-refused token c (hello tok) rs n a m = ground arith
handle_lines-refused token c logs rs n a m = ground arith
handle_lines-refused token c shutdown rs n a m = ground arith
handle_lines-refused token c other rs n a m = ground arith

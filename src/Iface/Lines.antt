-- ===== src/Iface/Lines.antt =====
-- src/iface_state.c: the lines of the state file, read back one by one.
use ether_dog.Base.{
  ℕ, ◌+◌, ◌-◌, ◌<◌, Bool, true, false, not, List, [], ◌∷◌, ◌++◌, some, ◌≡◌, refl, ap, ◌∙◌, arith,
  leb, ◌==◌, length, length-append,
}
use ether_dog.Iface.Text.{Text, every, until_nul}
use ether_dog.Iface.Nic.{IfaceState}
use ether_dog.Iface.Saved.{
  newline, line_of, line_room, glue, fgets_lines, strip_newline, split_line, load_field, load_line,
  load_lines,
}
use ether_dog.Iface.Numbers.{plain}
use mathlib.Core.List.{append_assoc}

fgets_newline :
    (room : ℕ) (rest : Text)
    → fgets_lines room (newline ∷ rest) ≡ (newline ∷ []) ∷ fgets_lines line_room rest
unfolding fgets_lines
fgets_newline room rest = refl

fgets_step :
    (c room : ℕ) (s : Text)
    → (c == newline) ≡ false
    → leb room 1 ≡ false
    → fgets_lines room (c ∷ s) ≡ glue c (fgets_lines (room - 1) s)
unfolding fgets_lines
fgets_step c room s e r = rw (e, r) refl

-- A line that fits is read whole.
fgets_line :
    (room : ℕ) (l rest : Text)
    → every plain l ≡ true
    → length l < room
    → fgets_lines room (l ++ (newline ∷ rest)) ≡ (l ++ (newline ∷ [])) ∷ fgets_lines line_room rest
fgets_line room [] rest p h = fgets_newline room rest
fgets_line room (c ∷ l) rest p h =
    fgets_step c room (l ++ (newline ∷ rest)) (ground arith) (ground arith)
    ∙ ap (glue c) (fgets_line (room - 1) l rest (ground arith) (omega arith))

until_nul-plain :
    (l : Text) → every plain l ≡ true → until_nul (l ++ (newline ∷ [])) ≡ l ++ (newline ∷ [])
until_nul-plain [] p = refl
until_nul-plain (c ∷ l) p = ground (arith, until_nul-plain l)

strip_newline-append : (l : Text) → strip_newline (l ++ (newline ∷ [])) ≡ l
strip_newline-append [] = refl
strip_newline-append (c ∷ []) = refl
strip_newline-append (c ∷ d ∷ l) = ap (◌∷◌ c) (strip_newline-append (d ∷ l))

-- A byte of a key.
abbrev pub no_equals : ℕ → Bool
no_equals c = not (c == b'=')

split_line-append :
    (key val : Text)
    → every no_equals key ≡ true
    → split_line (key ++ (b'=' ∷ val)) ≡ some (key, val)
split_line-append [] val h = refl
split_line-append (c ∷ key) val h = ground (arith, split_line-append key val)

load_line_stripped :
    (l key val : Text) (s : IfaceState)
    → every plain l ≡ true
    → split_line l ≡ some (key, val)
    → load_line (l ++ (newline ∷ [])) s ≡ load_field key val s
unfolding load_line
load_line_stripped l key val s p e = rw (until_nul-plain l p, strip_newline-append l, e) refl

every-join :
    (key val : Text)
    → every plain key ≡ true
    → every plain val ≡ true
    → every plain (key ++ (b'=' ∷ val)) ≡ true
every-join [] val hk hv = hv
every-join (c ∷ key) val hk hv = ground (arith, every-join key val)

field_line :
    (key val rest : Text) → line_of key val ++ rest ≡ (key ++ (b'=' ∷ val)) ++ (newline ∷ rest)
field_line key val rest = simp append_assoc

-- A line in front of the file is read first, and the rest of the file after it.
pub load_lines-line_of :
    (key val rest : Text) (s : IfaceState)
    → every plain key ≡ true
    → every no_equals key ≡ true
    → every plain val ≡ true
    → length key + length val < 126
    → load_lines (fgets_lines line_room (line_of key val ++ rest)) s
      ≡ load_lines (fgets_lines line_room rest) (load_field key val s)
load_lines-line_of key val rest s hk he hv h =
    let l : Text = key ++ (b'=' ∷ val) in
    let p : every plain l ≡ true = every-join key val hk hv in
    ap (λ (u : Text). load_lines (fgets_lines line_room u) s) (field_line key val rest)
    ∙ ap (λ (ls : List Text). load_lines ls s)
        (fgets_line line_room l rest p (omega (arith, length-append key (b'=' ∷ val))))
    ∙ ap (load_lines (fgets_lines line_room rest))
        (load_line_stripped l key val s p (split_line-append key val he))

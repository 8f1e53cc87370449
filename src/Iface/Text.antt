-- ===== src/Iface/Text.antt =====
-- The calls of the C library that src/iface_state.c makes on text, and its search in the output of
-- ethtool. Beyond the range of an int, where C leaves atoi undefined, atoi is the number that stands
-- there.
use ether_dog.Base.{
  ℕ, zero, suc, ◌+◌, ◌-◌, ◌*◌, ◌/◌, ◌%◌, Bool, true, false, ◌&&◌, ◌||◌, List, [], ◌∷◌, ◌++◌, Option,
  none, some, ltb, leb, ◌==◌, if◌then◌else◌, length,
}
use ether_dog.Base.Int.{ℤ, pos, negsuc, negate}

abbrev pub Text : Type 0
Text = List ℕ

abbrev pub is_digit : ℕ → Bool
is_digit c = leb b'0' c && leb c b'9'

abbrev pub every : (ℕ → Bool) → Text → Bool
every p [] = true
every p (c ∷ s) = p c && every p s

-- isspace in the C locale
abbrev pub is_space : ℕ → Bool
is_space c = (c == 32) || (leb 9 c && leb c 13)

unfoldable pub read_digits : ℕ → Text → ℕ
read_digits v [] = v
read_digits v (c ∷ s) = if is_digit c then read_digits (v * 10 + (c - b'0')) s else v

abbrev pub skip : (ℕ → Bool) → Text → Text
skip p [] = []
skip p (c ∷ s) = if p c then skip p s else c ∷ s

abbrev pub signed : Text → ℤ
signed [] = pos 0
signed (c ∷ s) =
    if c == b'-'
    then negate (read_digits 0 s)
    else if c == b'+'
    then pos (read_digits 0 s)
    else pos (read_digits 0 (c ∷ s))

unfoldable pub atoi : Text → ℤ
unfolding read_digits
atoi s = signed (skip is_space s)

-- The digits of a number below the fuel.
unfoldable pub digits : ℕ → ℕ → Text
digits zero n = []
digits (suc fuel) n =
    let more = digits fuel (n / 10) in
    if ltb n 10 then (b'0' + n) ∷ [] else more ++ ((b'0' + n % 10) ∷ [])

-- snprintf with "%d"
unfoldable pub decimal : ℤ → Text
unfolding digits
decimal (pos n) = digits (suc n) n
decimal (negsuc n) = b'-' ∷ digits (suc (suc n)) (suc n)

-- What follows the text `key` at the front, if it stands there.
abbrev pub after : Text → Text → Option Text
after [] s = some s
after (k ∷ ks) [] = none
after (k ∷ ks) (c ∷ s) = if k == c then after ks s else none

-- The loop over strstr in `parse_ethtool_int`: what follows the first occurrence of a key that is
-- accepted. An occurrence that is refused is skipped whole; `skipped` is what is left of it.
unfoldable pub find_key : (Text → Bool) → Text → ℕ → Text → Option Text
find_key accept key skipped [] = none
find_key accept key (suc k) (c ∷ s) = find_key accept key k s
find_key accept key zero (c ∷ s) =
    let refused = find_key accept key (length key - 1) s in
    let absent = find_key accept key 0 s in
    elim (after key (c ∷ s)) [ none ↦ absent | some r ↦ if accept r then some r else refused ]

abbrev pub is_separator : ℕ → Bool
is_separator c = (c == b':') || (c == 32) || (c == 9)

-- Whether a key ends here: "rx-usecs-irq" is not "rx-usecs".
abbrev pub key_ends : Text → Bool
key_ends [] = false
key_ends (c ∷ s) = is_separator c

abbrev pub number_at : Text → Option ℤ
number_at [] = none
number_at (c ∷ s) = if (c == b'-') || is_digit c then some (atoi (c ∷ s)) else none

abbrev pub number_behind : Option Text → Option ℤ
number_behind none = none
number_behind (some r) = number_at (skip is_separator r)

-- `parse_ethtool_int`
unfoldable pub parse_ethtool_int : Text → Text → Option ℤ
unfolding find_key atoi
parse_ethtool_int output key = number_behind (find_key key_ends key 0 output)

abbrev pub says_on : Text → Bool
says_on s = elim (after (b'o' ∷ b'n' ∷ []) s) [ none ↦ false | some r ↦ true ]

-- `parse_ethtool_bool`
unfoldable pub parse_ethtool_bool : Text → Text → Option Bool
unfolding find_key
parse_ethtool_bool output key = elim (find_key (λ r. true) key 0 output) [
  | none ↦ none
  | some r ↦ some (says_on (skip is_separator r))
]

-- A text up to its first NUL.
abbrev pub until_nul : Text → Text
until_nul [] = []
until_nul (c ∷ s) = if c == 0 then [] else c ∷ until_nul s

-- ===== src/Config/Text.antt =====
-- src/config.c: the hex strings that the parser prints and reads, there and back.
use ether_dog.Base.{
  ℕ, true, ◌≡◌, ◌<◌, ◌+◌, ◌*◌, ◌/◌, ◌%◌, ◌^◌, refl, sym, ◌∙◌, ap, arith, none, some, List, [], ◌∷◌,
  inl, inr, Option-cases, length, ltb,
}
use ether_dog.Base.Results.{
  ◌>>=◌, refuse_if, Result, success, failure, All, all_none, all_more, refuse_if-success,
  success_inj,
}
use ether_dog.Config.Types.{ConfigError}
use ether_dog.Config.Host.{Host}
use ether_dog.Config.Validate.{hex_digit, hex_value, parse_hex_u32, pdo_index_value}
use ether_dog.Config.Sdo.{hex_character, print_hex, hex_bytes, payload}
use ether_dog.Config.Pdos.{parse_mandatory_pdo}

hex_digit-hex_character : (d : ℕ) → d < 16 → hex_digit (hex_character d) ≡ some d
unfolding hex_digit
hex_digit-hex_character d h = ground arith

hex_value-hex_character :
    (v d : ℕ) (cs : List ℕ)
    → d < 16
    → v < 2 ^ 28
    → hex_value v (hex_character d ∷ cs) ≡ hex_value (v * 16 + d) cs
unfolding hex_value
hex_value-hex_character v d cs b w =
    rw (hex_value, hex_digit-hex_character d b) (ap (λ (x : ℕ). hex_value (x + d) cs) (omega arith))

-- The index that the parser prints reads back as itself.
pub parse_hex_u32-print_hex : (v : ℕ) → v < 65536 → parse_hex_u32 (print_hex v) ≡ some v
unfolding parse_hex_u32
parse_hex_u32-print_hex v b =
    hex_value-hex_character 0 (v / 4096)
      (hex_character ((v / 256) % 16) ∷ hex_character ((v / 16) % 16) ∷ hex_character (v % 16) ∷ [])
      (omega arith) (omega arith)
    ∙ ap
        (λ (x : ℕ). hex_value x (
          hex_character ((v / 256) % 16)
          ∷ hex_character ((v / 16) % 16)
          ∷ hex_character (v % 16)
          ∷ []))
        {x = 0 * 16 + v / 4096} {y = v / 4096} (omega arith)
    ∙ hex_value-hex_character (v / 4096) ((v / 256) % 16)
        (hex_character ((v / 16) % 16) ∷ hex_character (v % 16) ∷ []) (omega arith) (omega arith)
    ∙ hex_value-hex_character (v / 4096 * 16 + (v / 256) % 16) ((v / 16) % 16)
        (hex_character (v % 16) ∷ []) (omega arith) (omega arith)
    ∙ hex_value-hex_character ((v / 4096 * 16 + (v / 256) % 16) * 16 + (v / 16) % 16) (v % 16) []
        (omega arith) (omega arith)
    ∙ ap some (omega arith)

-- Two hex digits for each byte, as "value_bytes" has them behind its prefix.
unfoldable pub print_bytes : List ℕ → List ℕ
print_bytes [] = []
print_bytes (b ∷ bs) = hex_character (b / 16) ∷ hex_character (b % 16) ∷ print_bytes bs

hex_bytes-print_bytes :
    (bs : List ℕ) → All (λ (b : ℕ). b < 256) bs → hex_bytes (print_bytes bs) ≡ some bs
unfolding hex_bytes print_bytes
hex_bytes-print_bytes [] all_none = refl
hex_bytes-print_bytes (b ∷ bs) (all_more p ps) =
    rw
      (
        hex_bytes,
        hex_digit-hex_character (b / 16) (omega arith),
        hex_digit-hex_character (b % 16) (omega arith),
        hex_bytes-print_bytes bs ps,
      )
      (ap (λ (x : ℕ). some (x ∷ bs)) (omega arith))

length-print_bytes : (bs : List ℕ) → length (print_bytes bs) ≡ 2 * length bs
unfolding print_bytes
length-print_bytes [] = refl
length-print_bytes (b ∷ bs) = omega (arith, length-print_bytes bs)

-- Where calloc gives memory, bytes that are written as a string of pairs of hex digits after "0x"
-- are the payload, unless there are none.
pub payload-print_bytes :
    (bs : List ℕ)
    → All (λ (b : ℕ). b < 256) bs
    → 0 < length bs
    → payload true (b'0' ∷ b'x' ∷ print_bytes bs) ≡ success bs
unfolding payload
payload-print_bytes bs p n = ground (arith, length-print_bytes bs, hex_bytes-print_bytes bs p)

-- The value that "mandatory_pdos" holds for a string.
abbrev mandatory_text : List ℕ → Result ConfigError (List ℕ)
mandatory_text t = elim (parse_hex_u32 t) [
  | none ↦ failure ConfigError.invalid
  | some v ↦ refuse_if (ltb 65535 v) ConfigError.invalid >>= λ _. success (print_hex v)
]

text_value :
    (t s : List ℕ)
    → mandatory_text t ≡ success s
    → (v : ℕ) × (parse_hex_u32 t ≡ some v) × (v < 65536) × (print_hex v ≡ s)
text_value t s e = elim (Option-cases (parse_hex_u32 t)) [
  | inl n ↦ absurd (ground arith)
  | inr (v, n) ↦
      let (b, f) =
        refuse_if-success (ltb 65535 v) ConfigError.invalid (λ _. success (print_hex v))
          (sym (rw (mandatory_text, n)) ∙ e) in
      (v, n, ground arith, success_inj _ refl f)
]

index_values :
    (v : ℕ) (s t : List ℕ)
    → parse_hex_u32 t ≡ some v
    → parse_hex_u32 s ≡ some v
    → pdo_index_value s ≡ pdo_index_value t
unfolding pdo_index_value
index_values v s t e f = rw (pdo_index_value, e, f)

module _ (h : Host) where
  -- A mandatory PDO has the index value of the string in the document.
  pub parse_mandatory_pdo-value :
      (json : h.Node) (t s : List ℕ)
      → h.text json ≡ some t
      → parse_mandatory_pdo h json ≡ success s
      → pdo_index_value s ≡ pdo_index_value t
  unfolding parse_mandatory_pdo pdo_index_value
  parse_mandatory_pdo-value json t s e p =
      let (v, f, b, q) = text_value t s (sym (rw (parse_mandatory_pdo, e)) ∙ p) in
      index_values v s t f (ap parse_hex_u32 (sym q) ∙ parse_hex_u32-print_hex v b)

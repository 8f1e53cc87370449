-- ===== src/Protocol/Bytes.antt =====
-- Little-endian fields: what `edog_put_*` writes, `edog_get_*` reads.
use ether_dog.Base.{
  length-drop, length-take, take, drop, ℕ, zero, suc, ◌+◌, ◌/◌, ◌^◌, ◌≤◌, ◌<◌, ◌≡◌, refl, ◌∙◌, ap,
  ap₂, List, [], ◌∷◌, length, arith, subst,
}
use native.Mathlib.Nat.{pow-suc}
use ether_dog.Protocol.{get_field, put_bytes, get_bytes}

pub length-put_bytes : (n v : ℕ) → length (put_bytes n v) ≡ n
unfolding put_bytes
length-put_bytes zero v = refl
length-put_bytes (suc n) v = ap suc (length-put_bytes n (v / 256))

-- Bytes of a list, as the type `uint8_t` has them.
abbrev pub AllBytes : List ℕ → Type 0
AllBytes [] = Unit {0}
AllBytes (b ∷ bs) = (b < 256) × AllBytes bs

put_bytes-AllBytes : (n v : ℕ) → AllBytes (put_bytes n v)
unfolding put_bytes
put_bytes-AllBytes zero v = tt
put_bytes-AllBytes (suc n) v = (omega arith, put_bytes-AllBytes n (v / 256))

pub get_bytes-put_bytes : (n v : ℕ) → v < 256 ^ n → get_bytes (put_bytes n v) ≡ v
unfolding put_bytes get_bytes
get_bytes-put_bytes zero v h = omega arith
get_bytes-put_bytes (suc n) v h =
    omega (arith, get_bytes-put_bytes n (v / 256) (omega (arith, pow-suc 256 n)))

put_bytes-get_bytes : (bs : List ℕ) → AllBytes bs → put_bytes (length bs) (get_bytes bs) ≡ bs
unfolding put_bytes get_bytes
put_bytes-get_bytes [] a = refl
put_bytes-get_bytes (b ∷ bs) a =
    ap₂ ◌∷◌ (omega arith) (ap (put_bytes (length bs)) (omega arith) ∙ put_bytes-get_bytes bs a.1)

take-AllBytes : (n : ℕ) (p : List ℕ) → AllBytes p → AllBytes (take n p)
take-AllBytes zero p a = tt
take-AllBytes (suc n) [] a = tt
take-AllBytes (suc n) (b ∷ p) a = (a.0, take-AllBytes n p a.1)

drop-AllBytes : (n : ℕ) (p : List ℕ) → AllBytes p → AllBytes (drop n p)
drop-AllBytes zero p a = a
drop-AllBytes (suc n) [] a = tt
drop-AllBytes (suc n) (b ∷ p) a = drop-AllBytes n p a.1

-- A field that lies inside the buffer is written back as it was read.
pub put_bytes-get_field :
    (p : List ℕ) (at n : ℕ)
    → AllBytes p
    → at + n ≤ length p
    → put_bytes n (get_field p at n) ≡ take n (drop at p)
unfolding get_field
put_bytes-get_field p at n a h =
    let inside : length (take n (drop at p)) ≡ n =
      omega (arith, length-take n (drop at p), length-drop at p) in
    subst (λ (k : ℕ). put_bytes k (get_bytes (take n (drop at p))) ≡ take n (drop at p)) inside
      (put_bytes-get_bytes (take n (drop at p)) (take-AllBytes n _ (drop-AllBytes at p a)))

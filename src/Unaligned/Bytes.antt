-- ===== src/Unaligned/Bytes.antt =====
-- The bytes of a number, and the number of some bytes.
use mathlib.Core.List.{reverse, reverse-cons}
use fsvfs.Base.{
  ℕ, zero, suc, ◌+◌, ◌*◌, ◌/◌, ◌%◌, ◌^◌, ◌<◌, List, [], ◌∷◌, ◌++◌, ◌≡◌, refl, sym, ap, ap₂, ◌∙◌,
  arith, All, length, length-append, replicate,
}
use native.Mathlib.Nat.{
  mod-lt, mod-eq_of_lt, mul-add-mod_self_right, pow-succ', one-le-pow, mul_assoc, mul_comm,
  div-add-mod, div-div-eq-div-mul,
}
use fsvfs.Unaligned.{le_bytes, from_le_bytes}

pub length-le_bytes : (n v : ℕ) → length (le_bytes n v) ≡ n
unfolding le_bytes
length-le_bytes zero v = refl
length-le_bytes (suc n) v = ap suc (length-le_bytes n (v / 256))

-- The remainder modulo 256 times a number, by its lowest byte and the rest.
mod-bytes : (v p : ℕ) → 0 < p → v % (256 * p) ≡ v % 256 + 256 * (v / 256 % p)
mod-bytes v p h =
    let q = v / 256 / p in
    let r = v / 256 % p in
    let low = v % 256 + 256 * r in
    let whole : v / 256 ≡ p * q + r = sym (div-add-mod (v / 256) p) in
    let moved : 256 * (p * q) ≡ q * (256 * p) = sym (mul_assoc 256 p q) ∙ mul_comm (256 * p) q in
    let parts : v ≡ q * (256 * p) + low = omega (arith, whole, moved) in
    ap (λ t. t % (256 * p)) parts
    ∙ mul-add-mod_self_right q (256 * p) low
    ∙ mod-eq_of_lt (omega (arith, mod-lt (v / 256) h))

pub from_le_bytes-le_bytes : (n v : ℕ) → from_le_bytes (le_bytes n v) ≡ v % 256 ^ n
unfolding le_bytes from_le_bytes
from_le_bytes-le_bytes zero v = omega arith
from_le_bytes-le_bytes (suc n) v =
    ap (λ t. v % 256 + 256 * t) (from_le_bytes-le_bytes n (v / 256))
    ∙ sym (mod-bytes v (256 ^ n) (one-le-pow n 256 (omega arith)))
    ∙ ap (λ m. v % m) (sym (pow-succ' 256 n))

abbrev pub IsBytes : List ℕ → Type 0
IsBytes = All (λ x. x < 256)

pub le_bytes-from_le_bytes :
    (xs : List ℕ) → IsBytes xs → le_bytes (length xs) (from_le_bytes xs) ≡ xs
unfolding le_bytes from_le_bytes
le_bytes-from_le_bytes [] h = refl
le_bytes-from_le_bytes (x ∷ xs) h =
    let digit = h.0 in
    ap₂ (λ a b. a ∷ le_bytes (length xs) b) (omega arith) (omega arith)
    ∙ ap (λ t. x ∷ t) (le_bytes-from_le_bytes xs h.1)

-- The low bytes stand first.
pub le_bytes-append : (n k v : ℕ) → le_bytes (n + k) v ≡ le_bytes n v ++ le_bytes k (v / 256 ^ n)
unfolding le_bytes
le_bytes-append zero k v = ap₂ le_bytes (omega arith) (omega arith)
le_bytes-append (suc n) k v =
    let place : v / 256 / 256 ^ n ≡ v / 256 ^ suc n =
      div-div-eq-div-mul v 256 (256 ^ n) ∙ ap (λ m. v / m) (sym (pow-succ' 256 n)) in
    ap (λ m. le_bytes m v) {x = suc n + k} {y = suc (n + k)} (omega arith)
    ∙ ap (λ t. v % 256 ∷ t)
        (le_bytes-append n k (v / 256) ∙ ap (λ t. le_bytes n (v / 256) ++ le_bytes k t) place)

pub from_le_bytes-zeros :
    (xs : List ℕ) (k : ℕ) → from_le_bytes (xs ++ replicate k 0) ≡ from_le_bytes xs
unfolding from_le_bytes
from_le_bytes-zeros [] zero = refl
from_le_bytes-zeros [] (suc k) = omega (arith, from_le_bytes-zeros [] k)
from_le_bytes-zeros (x ∷ xs) k = ap (λ t. x + 256 * t) (from_le_bytes-zeros xs k)

pub length-reverse : (xs : List ℕ) → length (reverse xs) ≡ length xs
length-reverse [] = refl
length-reverse (x ∷ xs) =
    omega
      (arith, ap length (reverse-cons x xs), length-append (reverse xs) (x ∷ []), length-reverse xs)

-- ===== src/Unaligned/Laws.antt =====
-- The conversions of unaligned integers: round trips, truncation, and the range check.
use mathlib.Core.List.{reverse, reverse-cons, reverse-append, reverse-reverse}
use fsvfs.Base.{
  ℕ, zero, suc, ◌+◌, ◌-◌, ◌*◌, ◌/◌, ◌%◌, ◌^◌, ◌≤◌, List, [], ◌∷◌, ◌++◌, ltb, leb, if◌then◌else◌,
  none, some, ◌≡◌, refl, sym, ap, subst, ◌∙◌, arith, length, take, drop, replicate,
  take-length-append, drop-length-append, append-nil,
}
use native.Mathlib.Nat.{
  pow-succ', mul_assoc, suc-mul, one-le-pow, mod-eq_of_lt, mul-add-mod_self_right,
}
use fsvfs.Unaligned.{
  Endian, little, big, le_bytes, from_le_bytes, to_ne_bytes, from_ne_bytes, new, get, try_from,
}
use fsvfs.Unaligned.Bytes.{
  length-le_bytes, from_le_bytes-le_bytes, IsBytes, le_bytes-from_le_bytes, le_bytes-append,
  from_le_bytes-zeros, length-reverse,
}

zeros-append : (k : ℕ) → replicate {A = ℕ} k 0 ++ 0 ∷ [] ≡ replicate (suc k) 0
zeros-append zero = refl
zeros-append (suc k) = ap (λ t. 0 ∷ t) (zeros-append k)

reverse-zeros : (k : ℕ) → reverse (replicate {A = ℕ} k 0) ≡ replicate k 0
reverse-zeros zero = refl
reverse-zeros (suc k) =
    reverse-cons 0 (replicate k 0) ∙ ap (λ t. t ++ 0 ∷ []) (reverse-zeros k) ∙ zeros-append k

-- The bytes that are kept are those of an integer of `b` bytes.
new-bytes : (e : Endian) (b k v : ℕ) → new e b (b + k) v ≡ to_ne_bytes e b v
unfolding new
new-bytes little b k v =
    ap (take b) (le_bytes-append b k v)
    ∙ take-length-append (le_bytes b v) _ b (sym (length-le_bytes b v))
new-bytes big b k v =
    let low = le_bytes b v in
    let high = le_bytes k (v / 256 ^ b) in
    ap (λ t. take b (drop (b + k - b) t))
      (ap reverse (le_bytes-append b k v) ∙ reverse-append low high)
    ∙ ap (take b) (
        drop-length-append (reverse high) (reverse low) (b + k - b)
          (omega (arith, length-reverse high, length-le_bytes k (v / 256 ^ b))))
    ∙ ap (take b) (sym (append-nil (reverse low)))
    ∙ take-length-append (reverse low) [] b (sym (length-reverse low ∙ length-le_bytes b v))

get-bytes :
    (e : Endian) (b k : ℕ) (src : List ℕ)
    → length src ≡ b
    → get e b (b + k) src ≡ from_ne_bytes e src
unfolding get
get-bytes little b k src h = from_le_bytes-zeros src _
get-bytes big b k src h =
    let none_after : b + k - (b + k - b + length src) ≡ 0 = omega (arith, h) in
    let zeros : List ℕ = replicate (b + k - b) 0 in
    ap (λ n. from_le_bytes (reverse (zeros ++ (src ++ replicate n 0)))) none_after
    ∙ ap (λ t. from_le_bytes (reverse (zeros ++ t))) (append-nil src)
    ∙ ap from_le_bytes
        (reverse-append zeros src ∙ ap (λ t. reverse src ++ t) (reverse-zeros (b + k - b)))
    ∙ from_le_bytes-zeros (reverse src) (b + k - b)

pub length-to_ne_bytes : (e : Endian) (b v : ℕ) → length (to_ne_bytes e b v) ≡ b
length-to_ne_bytes little b v = length-le_bytes b v
length-to_ne_bytes big b v = length-reverse (le_bytes b v) ∙ length-le_bytes b v

from-to_ne_bytes : (e : Endian) (b v : ℕ) → from_ne_bytes e (to_ne_bytes e b v) ≡ v % 256 ^ b
from-to_ne_bytes little b v = from_le_bytes-le_bytes b v
from-to_ne_bytes big b v =
    ap from_le_bytes (reverse-reverse (le_bytes b v)) ∙ from_le_bytes-le_bytes b v

-- For every byte order and all `b` and `k`: an integer of `b + k` bytes that is cut to `b` bytes reads back as
-- its remainder modulo 256^b.
pub get-new : (e : Endian) (b k v : ℕ) → get e b (b + k) (new e b (b + k) v) ≡ v % 256 ^ b
get-new e b k v =
    ap (get e b (b + k)) (new-bytes e b k v)
    ∙ get-bytes e b k (to_ne_bytes e b v) (length-to_ne_bytes e b v)
    ∙ from-to_ne_bytes e b v

IsBytes-append : (xs ys : List ℕ) → IsBytes xs → IsBytes ys → IsBytes (xs ++ ys)
IsBytes-append [] ys h k = k
IsBytes-append (x ∷ xs) ys h k = (h.0, IsBytes-append xs ys h.1 k)

IsBytes-reverse : (xs : List ℕ) → IsBytes xs → IsBytes (reverse xs)
IsBytes-reverse [] h = tt
IsBytes-reverse (x ∷ xs) h =
    subst IsBytes (sym (reverse-cons x xs))
      (IsBytes-append (reverse xs) (x ∷ []) (IsBytes-reverse xs h.1) (h.0, tt))

to-from_ne_bytes :
    (e : Endian) (src : List ℕ)
    → IsBytes src
    → to_ne_bytes e (length src) (from_ne_bytes e src) ≡ src
to-from_ne_bytes little src h = le_bytes-from_le_bytes src h
to-from_ne_bytes big src h =
    ap (λ n. reverse (le_bytes n (from_le_bytes (reverse src)))) (sym (length-reverse src))
    ∙ ap reverse (le_bytes-from_le_bytes (reverse src) (IsBytes-reverse src h))
    ∙ reverse-reverse src

-- For every byte order, all `b` and `k` and `b` bytes: what they read as in an integer of `b + k` bytes is
-- stored as the same bytes.
pub new-get :
    (e : Endian) (b k : ℕ) (src : List ℕ)
    → length src ≡ b
    → IsBytes src
    → new e b (b + k) (get e b (b + k) src) ≡ src
new-get e b k src h bytes =
    new-bytes e b k _
    ∙ ap (to_ne_bytes e b) (get-bytes e b k src h)
    ∙ ap (λ n. to_ne_bytes e n (from_ne_bytes e src)) (sym h)
    ∙ to-from_ne_bytes e src bytes

pub length-new : (e : Endian) (b k v : ℕ) → length (new e b (b + k) v) ≡ b
length-new e b k v = ap length (new-bytes e b k v) ∙ length-to_ne_bytes e b v

-- The greatest value of `b + k` bytes, cut to `b` bytes.
power-multiple : (b k : ℕ) → (m : ℕ) × (256 ^ (b + k) ≡ suc m * 256 ^ b)
power-multiple b zero = (0, ap (λ n. 256 ^ n) {x = b + 0} {y = b} (omega arith) ∙ omega arith)
power-multiple b (suc k) =
    let (m, h) = power-multiple b k in
    let step : 256 ^ (b + suc k) ≡ 256 * 256 ^ (b + k) =
      ap (λ n. 256 ^ n) {x = b + suc k} {y = suc (b + k)} (omega arith) ∙ pow-succ' 256 (b + k) in
    (
      255 + 256 * m,
      step
          ∙ ap (λ t. 256 * t) h
          ∙ sym (mul_assoc 256 (suc m) (256 ^ b))
          ∙ ap (λ t. t * 256 ^ b) {x = 256 * suc m} {y = suc (255 + 256 * m)} (omega arith),
    )

greatest : (b k : ℕ) → (256 ^ (b + k) - 1) % 256 ^ b ≡ 256 ^ b - 1
greatest b k =
    let (m, h) = power-multiple b k in
    let positive = one-le-pow b 256 (omega arith) in
    let parts : 256 ^ (b + k) - 1 ≡ m * 256 ^ b + (256 ^ b - 1) =
      omega (arith, h, suc-mul m (256 ^ b), positive) in
    ap (λ t. t % 256 ^ b) parts
    ∙ mul-add-mod_self_right m (256 ^ b) (256 ^ b - 1)
    ∙ mod-eq_of_lt (omega (arith, positive))

leb-pred : (v p : ℕ) → 1 ≤ p → leb v (p - 1) ≡ ltb v p
leb-pred v p h = ground arith

-- For every byte order and all `b` and `k`: the checked conversion accepts exactly the values below 256^b, and
-- stores them as `new` does.
pub try_from_lem :
    (e : Endian) (b k v : ℕ)
    → try_from e b (b + k) v ≡ (if ltb v (256 ^ b) then some (new e b (b + k) v) else none)
unfolding try_from
try_from_lem e b k v =
    ap (λ t. if leb v t then some (new e b (b + k) v) else none) (get-new e b k _ ∙ greatest b k)
    ∙ ap (λ t. if t then some (new e b (b + k) v) else none)
        (leb-pred v (256 ^ b) (one-le-pow b 256 (omega arith)))

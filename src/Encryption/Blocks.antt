-- ===== src/Encryption/Blocks.antt =====
-- The ciphertext around one buffer: the block before it and the block behind it.
use fsvfs.Base.{
  ℕ, zero, suc, ◌-◌, ◌^◌, ◌<◌, min, List, [], ◌∷◌, ◌++◌, lt→ltb, Option, some, ◌>>=◌, ◌≡◌, refl,
  sym, ap, ap₂, ◌∙◌, arith, take, drop, replicate, length, length-replicate,
}
use fsvfs.Encryption.{
  pos, Buffer, Ciphertext, bytes_of, u32_offset, from_buffer, CiphertextBuffer, curr, next_buffer,
  prev_buffer,
}
use fsvfs.Encryption.Window.{after, recent, after-views}

drop-append : (k : ℕ) (xs ys : List ℕ) → drop k (xs ++ ys) ≡ drop k xs ++ drop (k - length xs) ys
drop-append zero xs ys = ap (λ i. xs ++ drop i ys) {x = 0} (omega arith)
drop-append (suc k) [] ys = ap (λ i. drop i ys) {x = suc k} {y = suc k - 0} (omega arith)
drop-append (suc k) (x ∷ xs) ys =
    drop-append k xs ys ∙ ap (λ i. drop k xs ++ drop i ys) (omega arith)

take-append : (k : ℕ) (xs ys : List ℕ) → take k (xs ++ ys) ≡ take k xs ++ take (k - length xs) ys
take-append zero xs ys = ap (λ i. take i ys) {x = 0} (omega arith)
take-append (suc k) [] ys = ap (λ i. take i ys) {x = suc k} {y = suc k - 0} (omega arith)
take-append (suc k) (x ∷ xs) ys =
    ap (λ t. x ∷ t) (take-append k xs ys ∙ ap (λ i. take k xs ++ take i ys) (omega arith))

drop-replicate : (k n : ℕ) → drop k (replicate {A = ℕ} n 0) ≡ replicate (n - k) 0
drop-replicate zero n = ap (λ i. replicate i 0) {x = n} (omega arith)
drop-replicate (suc k) zero = ap (λ i. replicate i 0) {x = 0} (omega arith)
drop-replicate (suc k) (suc n) = drop-replicate k n ∙ ap (λ i. replicate i 0) (omega arith)

take-replicate : (k n : ℕ) → take k (replicate {A = ℕ} n 0) ≡ replicate (min k n) 0
take-replicate zero n = ap (λ i. replicate i 0) {x = 0} (omega arith)
take-replicate (suc k) zero = ap (λ i. replicate i 0) {x = 0} (omega arith)
take-replicate (suc k) (suc n) =
    ap (λ t. 0 ∷ t) (take-replicate k n) ∙ ap (λ i. replicate i 0) {x = suc (min k n)} (omega arith)

take-min : (k : ℕ) (xs : List ℕ) → take (min (length xs) k) xs ≡ take k xs
take-min zero xs = ap (λ i. take i xs) {y = 0} (omega arith)
take-min (suc k) [] = ap (λ i. take {A = ℕ} i []) {y = 0} (omega arith)
take-min (suc k) (x ∷ xs) =
    ap (λ i. take i (x ∷ xs)) {y = suc (min (length xs) k)} (omega arith)
    ∙ ap (λ t. x ∷ t) (take-min k xs)

-- The last block of the bytes before, with zero bytes in front of them, and the first block of the bytes
-- behind, with zero bytes after them.
abbrev pub last_block : List ℕ → List ℕ
last_block bytes = drop (length bytes) (replicate 16 0 ++ bytes)

abbrev pub first_block : List ℕ → List ℕ
first_block bytes = take 16 (bytes ++ replicate 16 0)

last_block_lem :
    (bytes : List ℕ) (n : ℕ)
    → n ≡ 16
    → replicate (16 - length bytes) 0 ++ drop (length bytes - 16) bytes
      ≡ drop (length bytes) (replicate n 0 ++ bytes)
last_block_lem bytes n h = sym (
    drop-append (length bytes) (replicate n 0) bytes
    ∙ ap₂ ◌++◌ (drop-replicate (length bytes) n ∙ ap (λ i. replicate i 0) (omega (arith, h)))
        (ap (λ i. drop (length bytes - i) bytes) (length-replicate n 0 ∙ h)))

first_block_lem :
    (bytes : List ℕ) (n : ℕ)
    → n ≡ 16
    → take (min (length bytes) n) bytes ++ replicate (n - min (length bytes) n) 0
      ≡ take n (bytes ++ replicate n 0)
first_block_lem bytes n h = sym (
    take-append n bytes (replicate n 0)
    ∙ ap₂ ◌++◌ (sym (take-min n bytes))
        (take-replicate (n - length bytes) n ∙ ap (λ i. replicate i 0) (omega arith)))

-- `from_buffer`, by what the window's views give.
assemble : List ℕ → List ℕ → Option Buffer → Option Ciphertext
assemble before later current = current >>= λ b. u32_offset b.offset >>= λ file_offset.
    some (record {
      body = b.bytes;
      head = last_block before;
      tail = first_block later;
      file_offset = file_offset;
    })

from_buffer-assemble :
    (buf : CiphertextBuffer Buffer)
    → from_buffer buf
      ≡ assemble (bytes_of (prev_buffer buf)) (bytes_of (next_buffer buf)) (curr buf)
unfolding from_buffer assemble
from_buffer-assemble buf =
    ap₂
      (λ (h t : List ℕ). curr buf >>= λ b. u32_offset b.offset >>= λ file_offset.
        some (record { body = b.bytes; head = h; tail = t; file_offset = file_offset }))
      (last_block_lem (bytes_of (prev_buffer buf)) 16 refl)
      (first_block_lem (bytes_of (next_buffer buf)) 16 refl)

assemble-some :
    (before later : List ℕ) (b : Buffer) (n : ℕ)
    → b.offset ≡ pos n
    → n < 2 ^ 32
    → assemble before later (some b)
      ≡ some (record {
        body = b.bytes;
        head = last_block before;
        tail = first_block later;
        file_offset = n;
      })
unfolding assemble
assemble-some before later b n o fits = rw (o, lt→ltb n (2 ^ 32) fits) refl

-- Once a buffer was pushed and then another, or the end, and the buffer's offset is not negative and fits a
-- `u32`: the ciphertext has its bytes and its offset, the last block of the buffer that was pushed before
-- it, filled up in front with zero bytes, and the first block of the one behind it, filled up at its end.
pub from_buffer-after :
    (x : Option Buffer) (c : Buffer) (xs : List (Option Buffer)) (n : ℕ)
    → c.offset ≡ pos n
    → n < 2 ^ 32
    → from_buffer (after (x ∷ some c ∷ xs))
      ≡ some (record {
        body = c.bytes;
        head = last_block (bytes_of (recent 0 xs));
        tail = first_block (bytes_of x);
        file_offset = n;
      })
from_buffer-after x c xs n o fits =
    let b = after (x ∷ some c ∷ xs) in
    let (now, later, before) = after-views x c xs in
    from_buffer-assemble b
    ∙ ap (λ r. assemble (bytes_of (prev_buffer b)) (bytes_of (next_buffer b)) r) now
    ∙ ap₂ (λ p q. assemble (bytes_of p) (bytes_of q) (some c)) before later
    ∙ assemble-some (bytes_of (recent 0 xs)) (bytes_of x) c n o fits

-- ===== src/Aligned/Buffers.antt =====
-- src/dvdbnd/filesystem/aligned.rs: a buffer of the pool is given out once until it is given back.
use native.Mathlib.Nat.{pow-suc, one-le-pow, add-mod}
use fsvfs.Base.{
  ℕ, zero, suc, ◌+◌, ◌-◌, ◌*◌, ◌/◌, ◌%◌, ◌^◌, ◌==◌, ◌<◌, ltb, Bool-cases, true, false, none, some,
  ◌≡◌, ◌≢◌, refl, sym, ap, ap₂, subst, ◌∙◌, inl, inr, arith,
}
use fsvfs.Base.Bits.{bit_and-pred, bit_or-pow, next_power}
use fsvfs.Aligned.{buffer_len}
use fsvfs.Aligned.Pool.{array_blocks, trailing_zeros, alloc, free, allocate, deallocate}

trailing_zeros-pow : (digits k : ℕ) → k < digits → trailing_zeros digits (2 ^ k) ≡ k
unfolding trailing_zeros
trailing_zeros-pow zero k h = absurd (omega arith)
trailing_zeros-pow (suc digits) zero h = refl
trailing_zeros-pow (suc digits) (suc k) h = ground (arith, pow-suc 2 k, trailing_zeros-pow digits k)

doubled :
    (a q k : ℕ) → a / 2 ≡ (2 * q + 1) * 2 ^ k → (a % 2 == 1) ≡ false → a ≡ (2 * q + 1) * 2 ^ suc k
doubled a q k half even =
    let even_a : a % 2 ≡ 0 = ground arith in omega (arith, half, even_a, next_power (2 * q + 1) k)

-- A number that is not 0 has a lowest digit 1.
lowest_one :
    (digits a : ℕ)
    → a ≢ 0
    → a < 2 ^ digits
    → (k : ℕ) × (q : ℕ) × (k < digits) × (a ≡ (2 * q + 1) * 2 ^ k)
lowest_one zero a positive fits = absurd (positive (omega arith))
lowest_one (suc digits) a positive fits = elim (Bool-cases (a % 2 == 1)) [
  | inl odd ↦ (0, a / 2, omega arith, ground arith)
  | inr even ↦
      let (k, q, low, same) =
        lowest_one digits (a / 2) (ground arith) (omega (arith, pow-suc 2 digits)) in
      (suc k, q, omega arith, doubled a q k same even)
]

-- The mask with a buffer more.
abbrev with_buffer : ℕ → ℕ → ℕ
with_buffer q k = (2 * q + 1) * 2 ^ k

abbrev without_buffer : ℕ → ℕ → ℕ
without_buffer q k = 2 * q * 2 ^ k

alloc-lowest :
    (q k : ℕ) → k < 64 → alloc (with_buffer q k) ≡ some (k * buffer_len, without_buffer q k)
unfolding alloc
alloc-lowest q k low =
    let pow = one-le-pow k 2 (omega arith) in
    let spread : with_buffer q k ≡ without_buffer q k + 2 ^ k = grind arith in
    let some_left : (with_buffer q k == 0) ≡ false = ground (arith, spread, pow) in
    let lowest : with_buffer q k - without_buffer q k ≡ 2 ^ k = omega (arith, spread) in
    rw (some_left, bit_and-pred k q, lowest, trailing_zeros-pow 64 k low) refl

add-zero : (n : ℕ) → n + 0 ≡ n
add-zero n = omega arith

module _ (alignment : ℕ) (aligned : buffer_len % alignment ≡ 0) (positive : 0 < alignment) where
  multiple-aligned : (k : ℕ) → k * buffer_len % alignment ≡ 0
  multiple-aligned zero = grind arith
  multiple-aligned (suc k) =
      let whole : suc k * buffer_len ≡ k * buffer_len + buffer_len = omega arith in
      let none_left : 0 % alignment ≡ 0 = grind arith in
      ap (λ t. t % alignment) whole
      ∙ add-mod (k * buffer_len) buffer_len alignment
      ∙ ap₂ (λ a b. (a + b) % alignment) (multiple-aligned k) aligned
      ∙ none_left

  -- A buffer whose digit is 0 is put back where it was, and nothing else changes.
  free-add :
      (k q r : ℕ)
      → k < 64
      → r < 2 ^ k
      → free alignment (k * buffer_len) (without_buffer q k + r) ≡ some (with_buffer q k + r)
  unfolding free
  free-add k q r low fits =
      let at = multiple-aligned k in
      let passes : (k * buffer_len % alignment == 0) ≡ true = ground (arith, at) in
      let inside : ltb (k * buffer_len) (array_blocks * buffer_len) ≡ true = ground arith in
      let index : k * buffer_len / buffer_len % 64 ≡ k = omega arith in
      rw (passes, inside, index, bit_or-pow k q r fits) refl

  -- A length of buffers that is a multiple of the alignment: an empty pool has none to give. If there are some, of 64 at
  -- most, the one with the lowest digit 1 in the mask is given, at its distance from the pool's start, and exactly this
  -- digit is 0 afterwards; and if it is given back then, the pool is what it was. Also in any other mask whose digit
  -- for a buffer is 0, giving the buffer back sets this digit and no other.
  pub allocate-deallocate :
      (a k' q' r' : ℕ)
      → a ≢ 0
      → a < 2 ^ 64
      → k' < 64
      → r' < 2 ^ k'
      → (allocate buffer_len 0 ≡ none)
        × ((k : ℕ) × (q : ℕ) × (k < 64)
            × (a ≡ (2 * q + 1) * 2 ^ k)
            × (allocate buffer_len a ≡ some (k * buffer_len, 2 * q * 2 ^ k))
            × (deallocate alignment buffer_len (k * buffer_len) (2 * q * 2 ^ k) ≡ some a))
        × (deallocate alignment buffer_len (k' * buffer_len) (2 * q' * 2 ^ k' + r')
            ≡ some ((2 * q' + 1) * 2 ^ k' + r'))
  unfolding allocate deallocate alloc
  allocate-deallocate a k' q' r' some_there fits low' fits' =
      let (k, q, low, same) = lowest_one 64 a some_there fits in
      let back = free-add k q 0 low (one-le-pow k 2 (omega arith)) in
      (
        refl,
        (
          k,
          q,
          low,
          same,
          ap alloc same ∙ alloc-lowest q k low,
          subst (λ t. free alignment (k * buffer_len) t ≡ some a) (add-zero (without_buffer q k))
              (back ∙ ap some (add-zero (with_buffer q k) ∙ sym same)),
        ),
        free-add k' q' r' low' fits',
      )

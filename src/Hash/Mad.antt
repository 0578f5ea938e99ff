-- ===== src/Hash/Mad.antt =====
-- src/hash/mad.rs: the multiply-and-add hash of a byte string, over `u32` and over `u64`.
-- A word is a number below `modulus`; every operation of the source wraps.
use fsvfs.Base.{
  ℕ, zero, suc, ◌+◌, ◌*◌, ◌/◌, ◌%◌, ◌^◌, List, [], ◌∷◌, ◌&&◌, leb, ◌==◌, if◌then◌else◌, bit_or,
  take, drop, length,
}

-- The two implementations of `MadHash`: the word's modulus and its `PRIME`.
pub record Word : Type 0 where
  pub modulus : ℕ
  pub prime : ℕ

abbrev pub u32 : Word
u32 = record { modulus = 2 ^ 32; prime = 37 }

abbrev pub u64 : Word
u64 = record { modulus = 2 ^ 64; prime = 133 }

-- Upper-case letters are lowered, and a backslash is read as a slash.
unfoldable pub normalize : ℕ → ℕ
normalize c = if leb b'A' c && leb c b'Z' then bit_or c 32 else (if c == 0x5c then b'/' else c)

module _ (w : Word) where
  abbrev pub wrapping_add : ℕ → ℕ → ℕ
  wrapping_add a b = (a + b) % w.modulus

  abbrev pub wrapping_mul : ℕ → ℕ → ℕ
  wrapping_mul a b = (a * b) % w.modulus

  unfoldable pub wrapping_pow : ℕ → ℕ
  wrapping_pow zero = 1 % w.modulus
  wrapping_pow (suc n) = wrapping_mul w.prime (wrapping_pow n)

  -- `impl_powers!`, from the back: `powers[i - 1] = PRIME * powers[i]`, `i` from `N - 1` down to 1.
  unfoldable pub powers_down : ℕ → ℕ → List ℕ → List ℕ
  powers_down zero last acc = acc
  powers_down (suc i) last acc =
      powers_down i (wrapping_mul w.prime last) (wrapping_mul w.prime last ∷ acc)

  -- `POWERS: [Self; N]`.
  unfoldable pub powers : ℕ → List ℕ
  unfolding powers_down
  powers zero = []
  powers (suc i) = powers_down i 1 (1 ∷ [])

  -- The sum of `normalize(chunk[i]) * POWERS[i]`, from the left.
  unfoldable pub dot_from : ℕ → List ℕ → List ℕ → ℕ
  unfolding normalize
  dot_from dot (c ∷ cs) (p ∷ ps) = dot_from (wrapping_add dot (wrapping_mul (normalize c) p)) cs ps
  dot_from dot _ _ = dot

  -- One byte: `hash * PRIME + normalize(b)`.
  unfoldable pub absorb : ℕ → ℕ → ℕ
  unfolding normalize
  absorb hash b = wrapping_add (wrapping_mul hash w.prime) (normalize b)

  -- The byte loop of `mad_hash32` and `mad_hash64`, and the one over `mad_hash`'s remainder.
  unfoldable pub mad_bytes : ℕ → List ℕ → ℕ
  unfolding absorb
  mad_bytes hash [] = hash
  mad_bytes hash (b ∷ bs) = mad_bytes (absorb hash b) bs

  -- The loop over whole chunks of `n` bytes, `rounds` of them, and the remainder.
  unfoldable pub mad_chunks : ℕ → ℕ → ℕ → List ℕ → ℕ
  unfolding wrapping_pow powers dot_from mad_bytes
  mad_chunks n zero hash bytes = mad_bytes hash bytes
  mad_chunks n (suc rounds) hash bytes =
      mad_chunks n rounds
        (wrapping_add (wrapping_mul hash (wrapping_pow n)) (dot_from 0 (take n bytes) (powers n)))
        (drop n bytes)

  -- `mad_hash::<N, _>`: `as_chunks` gives `len / N` whole chunks and the rest.
  unfoldable pub mad_hash : ℕ → ℕ → List ℕ → ℕ
  unfolding mad_chunks
  mad_hash n init bytes = mad_chunks n (length bytes / n) init bytes

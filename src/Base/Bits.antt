-- ===== src/Base/Bits.antt =====
-- Laws of the bit operations at variables, one binary digit at a time.
use Prim.Native.Nat.{ℕ, zero, suc, ◌+◌, ◌-◌, ◌*◌, ◌/◌, ◌%◌, ◌^◌, ◌≤◌, ◌<◌, min, differ}
use Prim.Native.Nat.{max, bit_and, bit_or, bit_xor, digits, bitwise}
use Prim.Native.Nat.{bit_and-bitwise, bit_or-bitwise, bit_xor-bitwise}
use mathlib.Core.Path.{◌≡◌, refl, sym, ap, ◌∙◌}
use mathlib.Core.Bool.{Bool, true, ◌&&◌}
use native.Mathlib.Nat.{pow-suc, one-le-pow}
use native.Mathlib.Omega.{arith}

module _ (beyond : ℕ → ℕ) (digit : ℕ → ℕ → ℕ) where
  no_digits : (fuel y : ℕ) → digits beyond digit fuel 0 y ≡ beyond y
  no_digits zero y = refl
  no_digits (suc fuel) y = refl

  -- Fuel of at least the number gives all its digits.
  same_digits :
      (x y fuel more : ℕ)
      → x ≤ fuel
      → x ≤ more
      → digits beyond digit fuel x y ≡ digits beyond digit more x y
  same_digits zero y fuel more h k = no_digits fuel y ∙ sym (no_digits more y)
  same_digits (suc x) y zero more h k = absurd (omega arith)
  same_digits (suc x) y (suc fuel) zero h k = absurd (omega arith)
  same_digits (suc x) y (suc fuel) (suc more) h k =
      let rest = same_digits (suc x / 2) (y / 2) fuel more (omega arith) (omega arith) in
      ap (λ t. t * 2 + digit (suc x % 2) (y % 2)) rest

  lowest_digit :
      (x y : ℕ)
      → bitwise beyond digit (suc x) y
        ≡ bitwise beyond digit (suc x / 2) (y / 2) * 2 + digit (suc x % 2) (y % 2)
  lowest_digit x y =
      ap (λ t. t * 2 + digit (suc x % 2) (y % 2))
        (same_digits (suc x / 2) (y / 2) x (suc x / 2) (omega arith) (omega arith))

-- Each operation on the halves, and on the lowest digits.
pub bit_xor_step : (x y : ℕ) → bit_xor x y ≡ bit_xor (x / 2) (y / 2) * 2 + differ (x % 2) (y % 2)
bit_xor_step zero y = simp bit_xor-bitwise (omega arith)
bit_xor_step (suc x) y = simp bit_xor-bitwise (lowest_digit (λ r. r) differ x y)

pub bit_and_step : (x y : ℕ) → bit_and x y ≡ bit_and (x / 2) (y / 2) * 2 + min (x % 2) (y % 2)
bit_and_step zero y = simp bit_and-bitwise (omega arith)
bit_and_step (suc x) y = simp bit_and-bitwise (lowest_digit (λ r. 0) min x y)

pub bit_or_step : (x y : ℕ) → bit_or x y ≡ bit_or (x / 2) (y / 2) * 2 + max (x % 2) (y % 2)
bit_or_step zero y = simp bit_or-bitwise (omega arith)
bit_or_step (suc x) y = simp bit_or-bitwise (lowest_digit (λ r. r) max x y)

differ_lem : (x y : ℕ) → differ x y ≡ (x - y) + (y - x)
differ_lem zero y = omega arith
differ_lem (suc x) zero = omega arith
differ_lem (suc x) (suc y) = omega (arith, differ_lem x y)

-- A number is its half and its lowest digit; the bound is what the induction is on.
bit_xor-zero_below : (x bound : ℕ) → x ≤ bound → bit_xor x 0 ≡ x
bit_xor-zero_below zero bound h = refl
bit_xor-zero_below (suc x) zero h = absurd (omega arith)
bit_xor-zero_below (suc x) (suc bound) h =
    ground (
      arith,
      bit_xor_step (suc x) 0,
      differ_lem (suc x % 2) 0,
      bit_xor-zero_below (suc x / 2) bound,
    )

bit_and_self_below : (x bound : ℕ) → x ≤ bound → bit_and x x ≡ x
bit_and_self_below zero bound h = refl
bit_and_self_below (suc x) zero h = absurd (omega arith)
bit_and_self_below (suc x) (suc bound) h =
    ground (arith, bit_and_step (suc x) (suc x), bit_and_self_below (suc x / 2) bound)

pub next_power : (m k : ℕ) → m * 2 ^ suc k ≡ m * 2 ^ k * 2
next_power m k = omega (arith, ap (λ (p : ℕ). m * p) (pow-suc 2 k))

-- A mask of `k` ones complements the low `k` digits and keeps the others.
pub bit_xor_mask :
    (k q r : ℕ) → r < 2 ^ k → bit_xor (q * 2 ^ k + r) (2 ^ k - 1) ≡ q * 2 ^ k + (2 ^ k - 1 - r)
bit_xor_mask zero q r fits = ground (arith, bit_xor-zero_below q q)
bit_xor_mask (suc k) q r fits = ground (
  arith,
  bit_xor_step (q * 2 ^ suc k + r) (2 ^ suc k - 1),
  differ_lem (r % 2) 1,
  next_power q k,
  pow-suc 2 k,
  one-le-pow k 2,
  bit_xor_mask k q (r / 2),
)

-- Taking 1 off a number whose lowest 1 is digit `k`, and keeping the common digits, clears that digit.
pub bit_and-pred :
    (k q : ℕ) → bit_and ((2 * q + 1) * 2 ^ k) ((2 * q + 1) * 2 ^ k - 1) ≡ 2 * q * 2 ^ k
bit_and-pred zero q = ground (arith, bit_and_step (2 * q + 1) (2 * q), bit_and_self_below q q)
bit_and-pred (suc k) q = ground (
  arith,
  bit_and_step ((2 * q + 1) * 2 ^ suc k) ((2 * q + 1) * 2 ^ suc k - 1),
  next_power (2 * q + 1) k,
  next_power (2 * q) k,
  one-le-pow k 2,
  bit_and-pred k q,
)

bit_or-zero_below : (x bound : ℕ) → x ≤ bound → bit_or x 0 ≡ x
bit_or-zero_below zero bound h = refl
bit_or-zero_below (suc x) zero h = absurd (omega arith)
bit_or-zero_below (suc x) (suc bound) h =
    ground (arith, bit_or_step (suc x) 0, bit_or-zero_below (suc x / 2) bound)

-- Setting digit `k` where it is 0.
pub bit_or-pow :
    (k q r : ℕ) → r < 2 ^ k → bit_or (2 * q * 2 ^ k + r) (2 ^ k) ≡ (2 * q + 1) * 2 ^ k + r
bit_or-pow zero q r fits = ground (arith, bit_or_step (2 * q + r) 1, bit_or-zero_below q q)
bit_or-pow (suc k) q r fits = ground (
  arith,
  bit_or_step (2 * q * 2 ^ suc k + r) (2 ^ suc k),
  next_power (2 * q + 1) k,
  next_power (2 * q) k,
  pow-suc 2 k,
  one-le-pow k 2,
  bit_or-pow k q (r / 2),
)

-- A test of all numbers below a bound, by running it.
unfoldable pub holds_below : (ℕ → Bool) → ℕ → Bool
holds_below p zero = true
holds_below p (suc n) = holds_below p n && p n

pub holds_below_sound : (p : ℕ → Bool) (n x : ℕ) → x < n → holds_below p n ≡ true → p x ≡ true
unfolding holds_below
holds_below_sound p zero x lt h = absurd (omega arith)
holds_below_sound p (suc n) x lt h = ground (arith, holds_below_sound p n x)

-- ===== src/Crypto/Value.antt =====
-- The number that is read from bytes is their value in base 256, the highest first.
use mathlib.Core.List.{reverse, reverse_aux}
use fsvfs.Base.{ℕ, ◌+◌, ◌*◌, ◌^◌, ◌<◌, List, [], ◌∷◌, ◌≡◌, refl, ap, ◌∙◌, arith, All}
use fsvfs.Crypto.Naturals.{partial_limb, limbs_asc, from_limbs_asc, natural_from_bytes_be}

abbrev pub value_from : ℕ → List ℕ → ℕ
value_from acc [] = acc
value_from acc (b ∷ bs) = value_from (acc * 256 + b) bs

abbrev pub IsByte : ℕ → Type 0
IsByte b = b < 256

-- The value of bytes in reverse.
abbrev value_le : List ℕ → ℕ
value_le [] = 0
value_le (b ∷ bs) = b + 256 * value_le bs

value_le-reverse_aux : (xs r : List ℕ) → value_le (reverse_aux xs r) ≡ value_from (value_le r) xs
value_le-reverse_aux [] r = refl
value_le-reverse_aux (x ∷ xs) r =
    value_le-reverse_aux xs (x ∷ r) ∙ ap (λ t. value_from t xs) (omega arith)

All-reverse_aux : (xs r : List ℕ) → All IsByte xs → All IsByte r → All IsByte (reverse_aux xs r)
All-reverse_aux [] r h k = k
All-reverse_aux (x ∷ xs) r h k = All-reverse_aux xs (x ∷ r) h.1 (h.0, k)

partial_limb-value : (xs : List ℕ) → value_le xs < 2 ^ 64 → partial_limb xs ≡ value_le xs
partial_limb-value [] h = refl
partial_limb-value (x ∷ xs) h = omega (arith, partial_limb-value xs (omega arith))

last_limb :
    (xs : List ℕ) → value_le xs < 2 ^ 64 → from_limbs_asc (partial_limb xs ∷ []) ≡ value_le xs
unfolding from_limbs_asc
last_limb xs h = omega (arith, partial_limb-value xs h)

limbs_asc-value : (xs : List ℕ) → All IsByte xs → from_limbs_asc (limbs_asc xs) ≡ value_le xs
unfolding limbs_asc from_limbs_asc
limbs_asc-value (b₀ ∷ b₁ ∷ b₂ ∷ b₃ ∷ b₄ ∷ b₅ ∷ b₆ ∷ b₇ ∷ rest)
      (h₀, (h₁, (h₂, (h₃, (h₄, (h₅, (h₆, (h₇, h)))))))) =
    omega (arith, limbs_asc-value rest h)
limbs_asc-value [] h = refl
limbs_asc-value (a ∷ []) h = last_limb (a ∷ []) (omega (arith, h.0))
limbs_asc-value (a ∷ b ∷ []) h = last_limb (a ∷ b ∷ []) (omega (arith, h.0, h.1.0))
limbs_asc-value (a ∷ b ∷ c ∷ []) h = last_limb (a ∷ b ∷ c ∷ []) (omega (arith, h.0, h.1.0, h.1.1.0))
limbs_asc-value (a ∷ b ∷ c ∷ d ∷ []) h =
    last_limb (a ∷ b ∷ c ∷ d ∷ []) (omega (arith, h.0, h.1.0, h.1.1.0, h.1.1.1.0))
limbs_asc-value (a ∷ b ∷ c ∷ d ∷ e ∷ []) h =
    last_limb (a ∷ b ∷ c ∷ d ∷ e ∷ []) (omega (arith, h.0, h.1.0, h.1.1.0, h.1.1.1.0, h.1.1.1.1.0))
limbs_asc-value (a ∷ b ∷ c ∷ d ∷ e ∷ f ∷ []) h =
    last_limb (a ∷ b ∷ c ∷ d ∷ e ∷ f ∷ [])
      (omega (arith, h.0, h.1.0, h.1.1.0, h.1.1.1.0, h.1.1.1.1.0, h.1.1.1.1.1.0))
limbs_asc-value (a ∷ b ∷ c ∷ d ∷ e ∷ f ∷ g ∷ []) h =
    last_limb (a ∷ b ∷ c ∷ d ∷ e ∷ f ∷ g ∷ [])
      (omega (arith, h.0, h.1.0, h.1.1.0, h.1.1.1.0, h.1.1.1.1.0, h.1.1.1.1.1.0, h.1.1.1.1.1.1.0))

-- Read by limbs of 64 bits, bytes below 256 give their value in base 256, the first byte being the highest.
pub natural_from_bytes_be-value :
    (bytes : List ℕ) → All IsByte bytes → natural_from_bytes_be bytes ≡ value_from 0 bytes
unfolding natural_from_bytes_be
natural_from_bytes_be-value bytes h =
    limbs_asc-value (reverse bytes) (All-reverse_aux bytes [] h tt) ∙ value_le-reverse_aux bytes []

-- ===== src/Crypto/Naturals.antt =====
-- src/crypto/rsa.rs: natural numbers from bytes and to bytes, by limbs of 64 bits. A number of the crate `malachite`
-- is one of the library here. What the source takes from the end of the bytes is taken here from the start of the
-- reversed bytes.
use mathlib.Core.List.{reverse}
use fsvfs.Base.{ℕ, zero, suc, ◌+◌, ◌*◌, ◌/◌, ◌%◌, ◌^◌, List, [], ◌∷◌, ◌++◌}

-- The limb of a remainder: `(limb << 8) | b` over the bytes, the first byte of these last.
abbrev pub partial_limb : List ℕ → ℕ
partial_limb [] = 0
partial_limb (b ∷ bs) = (partial_limb bs * 256 % 2 ^ 64) + b

-- `Limb::from_be_bytes` of eight bytes in reverse.
abbrev pub from_be_bytes : ℕ → ℕ → ℕ → ℕ → ℕ → ℕ → ℕ → ℕ → ℕ
from_be_bytes b₀ b₁ b₂ b₃ b₄ b₅ b₆ b₇ =
    b₀ + 256 * (b₁ + 256 * (b₂ + 256 * (b₃ + 256 * (b₄ + 256 * (b₅ + 256 * (b₆ + 256 * b₇))))))

-- The limbs, the lowest first, of bytes in reverse.
unfoldable pub limbs_asc : List ℕ → List ℕ
limbs_asc (b₀ ∷ b₁ ∷ b₂ ∷ b₃ ∷ b₄ ∷ b₅ ∷ b₆ ∷ b₇ ∷ rest) =
    from_be_bytes b₀ b₁ b₂ b₃ b₄ b₅ b₆ b₇ ∷ limbs_asc rest
limbs_asc bytes = partial_limb bytes ∷ []

-- `Natural::from_owned_limbs_asc`, and `limbs`, followed by zeros, the first ones of them.
unfoldable pub from_limbs_asc : List ℕ → ℕ
from_limbs_asc [] = 0
from_limbs_asc (limb ∷ limbs) = limb + 2 ^ 64 * from_limbs_asc limbs

unfoldable pub natural_from_bytes_be : List ℕ → ℕ
unfolding limbs_asc from_limbs_asc
natural_from_bytes_be bytes = from_limbs_asc (limbs_asc (reverse bytes))

-- The lowest bytes of a limb, the lowest first.
unfoldable pub limb_bytes : ℕ → ℕ → List ℕ
limb_bytes zero limb = []
limb_bytes (suc n) limb = limb % 256 ∷ limb_bytes n (limb / 256)

-- The chunks of an output of some length, filled with the limbs of a number, in reverse.
unfoldable pub bytes_le : ℕ → ℕ → List ℕ
unfolding limb_bytes
bytes_le (suc (suc (suc (suc (suc (suc (suc (suc len)))))))) n =
    limb_bytes 8 (n % 2 ^ 64) ++ bytes_le len (n / 2 ^ 64)
bytes_le len n = limb_bytes len (n % 2 ^ 64)

-- `natural_to_bytes_be_in` an output of a length.
unfoldable pub natural_to_bytes_be : ℕ → ℕ → List ℕ
unfolding bytes_le
natural_to_bytes_be len n = reverse (bytes_le len n)

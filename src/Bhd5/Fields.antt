-- ===== src/Bhd5/Fields.antt =====
-- src/dvdbnd/bhd5/byte_order.rs, consts.rs and magic.rs: the values that the fields of the file's structures
-- may have, and how a structure is read from bytes. The crate `zerocopy` casts bytes to a packed structure;
-- here its fields are read at their offsets, and `none` is a cast that fails.
use fsvfs.Base.{
  ℕ, zero, suc, ◌^◌, List, [], ◌∷◌, Bool, true, false, ltb, leb, if◌then◌else◌, Option, none, some,
  ◌>>=◌, take, drop, length,
}
use fsvfs.Rofs.Path.{same_name}
use fsvfs.Unaligned.{Endian, little, big, from_le_bytes, from_ne_bytes}

-- The bytes of a field, and its number in the byte order of the file.
abbrev pub field : List ℕ → ℕ → ℕ → List ℕ
field bytes offset size = take size (drop offset bytes)

unfoldable pub uint : Endian → List ℕ → ℕ → ℕ → ℕ
unfolding from_le_bytes
uint o bytes offset size = from_ne_bytes o (field bytes offset size)

-- A field of type `I32` is held by its 32 bits.
abbrev pub is_negative : ℕ → Bool
is_negative n = leb (2 ^ 31) n

-- `usize::try_from` of an `i32`, and `max(0) as u32`.
abbrev pub usize_from : ℕ → Option ℕ
usize_from n = if is_negative n then none else some n

abbrev pub at_least_zero : ℕ → ℕ
at_least_zero n = if is_negative n then 0 else n

-- `Magic`, `Bom`, `OneU32`, `ZeroU32` and `bool`.
abbrev pub magic : List ℕ
magic = b'B' ∷ b'H' ∷ b'D' ∷ b'5' ∷ []

abbrev pub bom : Endian → List ℕ
bom little = 0xff ∷ []
bom big = 0 ∷ []

abbrev pub one_u32 : Endian → List ℕ
one_u32 little = 1 ∷ 0 ∷ 0 ∷ 0 ∷ []
one_u32 big = 0 ∷ 0 ∷ 0 ∷ 1 ∷ []

abbrev pub zero_u32 : List ℕ
zero_u32 = 0 ∷ 0 ∷ 0 ∷ 0 ∷ []

unfoldable pub is_bool : List ℕ → Option Bool
unfolding same_name
is_bool bytes =
    if same_name bytes (0 ∷ [])
    then some false
    else (if same_name bytes (1 ∷ []) then some true else none)

-- `bytes.get(offset..)`.
abbrev pub from_offset : List ℕ → ℕ → Option (List ℕ)
from_offset bytes offset = if leb offset (length bytes) then some (drop offset bytes) else none

module _ {B : Type 0} (size : ℕ) (read : List ℕ → Option B) where
  -- `try_ref_from_prefix_with_elems`: so many structures of one size, one after another.
  unfoldable pub elements : ℕ → List ℕ → Option (List B)
  elements zero bytes = some []
  elements (suc n) bytes = elim (ltb (length bytes) size) [
    | true ↦ none
    | false ↦ read (take size bytes) >>= λ b. elements n (drop size bytes) >>= λ bs. some (b ∷ bs)
  ]

  -- `try_ref_slice_helper`, with the count and the offset after their conversion to `usize`.
  unfoldable pub try_ref_slice_helper : Option ℕ → ℕ → List ℕ → Option (List B)
  unfolding elements
  try_ref_slice_helper count offset bytes =
      count >>= λ n. from_offset bytes offset >>= λ rest. elements n rest

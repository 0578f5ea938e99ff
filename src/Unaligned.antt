-- ===== src/Unaligned.antt =====
-- src/unaligned.rs: integers of `b` bytes (U16, U24, U32, U64) that convert to and from the machine
-- integer of `w` bytes. The order of bytes in memory is a parameter, since the source selects on it.
pub mod Bytes
pub mod Laws
mod Tests
use mathlib.Core.List.{reverse}
use fsvfs.Base.{
  ℕ, zero, suc, ◌+◌, ◌-◌, ◌*◌, ◌/◌, ◌%◌, ◌^◌, List, [], ◌∷◌, ◌++◌, leb, if◌then◌else◌, Option, none,
  some, take, drop, replicate, length,
}

pub data Endian : Type 0 where
  little big : Endian

-- The bytes of a number, the least one first.
unfoldable pub le_bytes : ℕ → ℕ → List ℕ
le_bytes zero v = []
le_bytes (suc n) v = v % 256 ∷ le_bytes n (v / 256)

unfoldable pub from_le_bytes : List ℕ → ℕ
from_le_bytes [] = 0
from_le_bytes (x ∷ xs) = x + 256 * from_le_bytes xs

-- `to_ne_bytes` and `from_ne_bytes` of the integer of `w` bytes.
abbrev pub to_ne_bytes : Endian → ℕ → ℕ → List ℕ
to_ne_bytes little w v = le_bytes w v
to_ne_bytes big w v = reverse (le_bytes w v)

abbrev pub from_ne_bytes : Endian → List ℕ → ℕ
from_ne_bytes little bytes = from_le_bytes bytes
from_ne_bytes big bytes = from_le_bytes (reverse bytes)

-- The first of the bytes that are kept; they are `b` in number.
abbrev pub first : Endian → ℕ → ℕ → ℕ
first little b w = 0
first big b w = w - b

module _ (e : Endian) (b w : ℕ) where
  -- `$ty::new`, with the loop's copy of a slice.
  unfoldable pub new : ℕ → List ℕ
  unfolding le_bytes
  new value = take b (drop (first e b w) (to_ne_bytes e w value))

  -- `$ty::get`: zero bytes with the slice written over them.
  unfoldable pub get : List ℕ → ℕ
  unfolding from_le_bytes
  get src =
      from_ne_bytes e
        (replicate (first e b w) 0 ++ (src ++ replicate (w - (first e b w + length src)) 0))

  -- `TryFrom`: `none` is the error. `MAX` is `new` of the integer's greatest value.
  unfoldable pub try_from : ℕ → Option (List ℕ)
  unfolding new get
  try_from value = if leb value (get (new (256 ^ w - 1))) then some (new value) else none

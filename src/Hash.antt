-- ===== src/Hash.antt =====
-- src/hash.rs: the part of a path that is hashed, and its 32-bit and 64-bit hash.
pub mod Mad
pub mod Chunks
pub mod Case
pub mod Spec
mod Tests
use fsvfs.Base.{ℕ, List, [], ◌∷◌, Option, none, some, Bool, ◌==◌, ◌||◌, if◌then◌else◌}
use Mad.{u32, u64, mad_hash, mad_bytes}
use mathlib.Core.Option

-- `s.split_once(c)`, of which the source keeps the second part: the text behind the first `c`.
unfoldable pub split_once : ℕ → List ℕ → Option (List ℕ)
split_once c [] = none
split_once c (x ∷ xs) = if x == c then some xs else split_once c xs

abbrev pub is_separator : ℕ → Bool
is_separator c = c == b'/' || c == 0x5c

-- The bytes behind the drive name.
unfoldable pub without_root : List ℕ → List ℕ
unfolding split_once
without_root s = elim (split_once b':' s) [ some rest ↦ rest | none ↦ s ]

-- The first byte is dropped if it is a separator; a text of fewer than two bytes has no hash.
unfoldable pub strip_separator : List ℕ → Option (List ℕ)
strip_separator [] = none
strip_separator (first ∷ []) = none
strip_separator (first ∷ x ∷ rest) =
    if is_separator first then some (x ∷ rest) else some (first ∷ x ∷ rest)

unfoldable pub normalize_suffix_as_bytes : List ℕ → Option (List ℕ)
unfolding without_root strip_separator
normalize_suffix_as_bytes s = strip_separator (without_root s)

-- Both start from the hash of "/".
unfoldable pub hash_path32 : List ℕ → Option ℕ
unfolding normalize_suffix_as_bytes mad_hash mad_bytes
hash_path32 s =
    Option.map (mad_hash u32 4 (mad_bytes u32 0 (b'/' ∷ []))) (normalize_suffix_as_bytes s)

unfoldable pub hash_path64 : List ℕ → Option ℕ
unfolding normalize_suffix_as_bytes mad_hash mad_bytes
hash_path64 s =
    Option.map (mad_hash u64 4 (mad_bytes u64 0 (b'/' ∷ []))) (normalize_suffix_as_bytes s)

-- ===== src/Mount/Projfs.antt =====
-- src/dvdbnd/mount/projfs.rs: the open directories of the mount by the Projected File System of Windows. The
-- system's comparison of names, `PrjFileNameCompare`, and its match of a name, `PrjFileNameMatch`, are parameters.
pub mod Table
pub mod Callbacks
pub mod Index
pub mod Pages
pub mod Scan
pub mod Lifetime
pub mod History
pub mod Writes
pub mod Setup
mod Tests
mod SetupTests
use fsvfs.Base.{
  ℕ, zero, suc, ◌+◌, ◌-◌, ◌*◌, ◌/◌, ◌%◌, ◌==◌, ltb, List, [], ◌∷◌, ◌++◌, Bool, true, false, min,
  if◌then◌else◌, Option, none, some, drop, length,
}
use fsvfs.Base.Sorting.{sort_by}
use fsvfs.Rofs.Path.{Name}
use fsvfs.Rofs.Lookup.{Entry, EntryKind, dir_entries, file_entry}
use fsvfs.Encryption.{ℤ, pos, negsuc}
use fsvfs.Mount.Read.{DvdbndFile, unpadded_len}

-- The fields of `PRJ_FILE_BASIC_INFO` that are set; the others are zero.
pub record BasicInfo : Type 0 where
  pub is_directory : Bool
  pub file_size : ℕ

abbrev pub file_basic_info : Entry DvdbndFile → BasicInfo
file_basic_info x = elim x.kind [
  | dir_entries start stop ↦ record { is_directory = true; file_size = 0 }
  | file_entry file ↦ record { is_directory = false; file_size = unpadded_len file }
]

-- The first byte of a UTF-8 sequence: how many bytes follow, and its bits.
abbrev pub lead : ℕ → ℕ × ℕ
lead b =
    if ltb b 0x80
    then (0, b)
    else if ltb b 0xe0
    then (1, b % 0x20)
    else if ltb b 0xf0
    then (2, b % 0x10)
    else (3, b % 8)

abbrev pub utf16_units : ℕ → List ℕ
utf16_units c =
    if ltb c 0x10000
    then c ∷ []
    else (0xd800 + (c - 0x10000) / 0x400) ∷ (0xdc00 + (c - 0x10000) % 0x400) ∷ []

-- Reads a text from within a sequence of which so many bytes follow.
unfoldable pub encode_from : ℕ → ℕ → Name → List ℕ
encode_from n bits [] = []
encode_from zero bits (b ∷ bs) =
    let (n, first) = lead b in (if n == 0 then utf16_units first else []) ++ encode_from n first bs
encode_from (suc n) bits (b ∷ bs) =
    let more = bits * 64 + b % 64 in
    (if n == 0 then utf16_units more else []) ++ encode_from n more bs

-- `str::encode_utf16`.
unfoldable pub encode_utf16 : Name → List ℕ
unfolding encode_from
encode_utf16 name = encode_from 0 0 name

-- A name as the system reads it through a pointer: all up to the first zero.
unfoldable pub until_zero : List ℕ → List ℕ
until_zero [] = []
until_zero (u ∷ us) = if u == 0 then [] else u ∷ until_zero us

unfoldable pub wide_at : List ℕ → ℕ → List ℕ
unfolding until_zero
wide_at store index = until_zero (drop index store)

pub record DirEnumeration : Type 0 where
  pub pos : ℕ
  pub index : List (ℕ × BasicInfo)
  pub store : List ℕ

-- A name and what is known of it, as the system is given them.
abbrev pub Shown : Type 0
Shown = List ℕ × BasicInfo

-- `cmp(&0)` of the comparison, and the order in which sorting leaves two elements.
abbrev pub not_greater : ℤ → Bool
not_greater (pos zero) = true
not_greater (pos (suc n)) = false
not_greater (negsuc n) = true

-- The loop over the directory's iterator.
unfoldable pub add_entries :
    List (ℕ × BasicInfo) → List ℕ → List (Entry DvdbndFile) → List (ℕ × BasicInfo) × List ℕ
unfolding encode_utf16
add_entries index store [] = (index, store)
add_entries index store (x ∷ xs) =
    add_entries (index ++ (length store, file_basic_info x) ∷ [])
      (store ++ (encode_utf16 x.name ++ 0 ∷ [])) xs

module _ (name_compare : List ℕ → List ℕ → ℤ) where
  abbrev pub index_le : List ℕ → ℕ × BasicInfo → ℕ × BasicInfo → Bool
  index_le store (a, _) (b, _) = not_greater (name_compare (wide_at store a) (wide_at store b))

  -- Names that compare as equal may stand in any order behind the source's sort.
  unfoldable pub from_dir_iter : List (Entry DvdbndFile) → DirEnumeration
  unfolding add_entries sort_by wide_at
  from_dir_iter entries =
      let (index, store) = add_entries [] [] entries in
      record { pos = 0; index = sort_by (index_le store) index; store = store }

module _ (name_match : List ℕ → List ℕ → Bool) where
  -- An expression that is null is `none`.
  abbrev pub passes : Option (List ℕ) → List ℕ → Bool
  passes none name = true
  passes (some expression) name = name_match name expression

  -- `enumerate().filter_map(..)` over the rest of the index, which starts at a position.
  unfoldable pub enumerate_from :
      List ℕ → Option (List ℕ) → ℕ → List (ℕ × BasicInfo) → List (ℕ × Shown)
  unfolding wide_at
  enumerate_from store expression p [] = []
  enumerate_from store expression p ((at, info) ∷ rest) =
      let more = enumerate_from store expression (suc p) rest in
      if passes expression (wide_at store at) then (p, (wide_at store at, info)) ∷ more else more

  unfoldable pub enumerate : DirEnumeration → Option (List ℕ) → List (ℕ × Shown)
  unfolding enumerate_from
  enumerate dir expression = enumerate_from dir.store expression dir.pos (drop dir.pos dir.index)

unfoldable pub set_pos : ℕ → DirEnumeration → DirEnumeration
set_pos new_pos dir = record dir { pos = min new_pos (length dir.index) }

unfoldable pub reset : DirEnumeration → DirEnumeration
reset dir = record dir { pos = 0 }

-- ===== src/Bhd5/Buckets.antt =====
-- src/dvdbnd/bhd5/format.rs: the buckets of entries and the encryption data of one entry.
use fsvfs.Base.{ℕ, List, [], ◌∷◌, Bool, ltb, if◌then◌else◌, Option, none, some, ◌>>=◌, drop, length}
use fsvfs.Rofs.Path.{same_name}
use fsvfs.Unaligned.{Endian}
use fsvfs.Bhd5.Fields.{
  field, uint, one_u32, usize_from, from_offset, elements, try_ref_slice_helper,
}
use fsvfs.Bhd5.Header.{Header}
use fsvfs.Bhd5.Entry.{FileEntry, read_ds, read_ds2, read_ds3, read_er, validate_all}

-- The layout of the entries, which is the constructor of `Buckets`.
pub data Layout : Type 0 where
  layout_ds layout_ds2 layout_ds3 layout_er : Layout

pub record Buckets : Type 0 where
  pub layout : Layout
  pub entries : List (List FileEntry)

pub record EncryptionRange : Type 0 where
  pub start_offset : ℕ
  pub end_offset : ℕ

-- `range_count` is held by its 32 bits.
pub record Encryption : Type 0 where
  pub key : List ℕ
  pub range_count : ℕ
  pub ranges : List EncryptionRange

-- `BucketHeaderAll` and `BucketHeaderDsr`, which differ in their size and in the width of the offset.
pub record BucketHeader : Type 0 where
  pub entry_count : ℕ
  pub entry_offset : ℕ

unfoldable pub read_header_all : Endian → List ℕ → Option BucketHeader
unfolding uint
read_header_all o bytes =
    some (record { entry_count = uint o bytes 0 4; entry_offset = uint o bytes 4 4 })

unfoldable pub read_header_dsr : Endian → List ℕ → Option BucketHeader
unfolding uint same_name
read_header_dsr o bytes =
    if same_name (field bytes 4 4) (one_u32 o)
    then some (record { entry_count = uint o bytes 0 4; entry_offset = uint o bytes 8 8 })
    else none

-- The size of an entry, and how it is read.
abbrev pub entry_size : Layout → ℕ
entry_size layout_ds = 16
entry_size layout_ds2 = 32
entry_size layout_ds3 = 40
entry_size layout_er = 40

abbrev pub read_entry : Layout → Endian → List ℕ → Option FileEntry
read_entry layout_ds = read_ds
read_entry layout_ds2 = read_ds2
read_entry layout_ds3 = read_ds3
read_entry layout_er = read_er

module _ (o : Endian) (bytes : List ℕ) (h : Header) where
  -- The entries of the buckets, one bucket after another, with the validator's state.
  unfoldable pub read_buckets : Layout → Bool → List BucketHeader → Option (List (List FileEntry))
  unfolding try_ref_slice_helper validate_all
  read_buckets l has [] = some []
  read_buckets l has (b ∷ bs) =
      try_ref_slice_helper (entry_size l) (read_entry l o) (usize_from b.entry_count) b.entry_offset
        bytes
      >>= λ entries. validate_all h has entries >>= λ has'.
          read_buckets l has' bs >>= λ rest. some (entries ∷ rest)

module _ (o : Endian) (bytes : List ℕ) where
  -- The encryption data at an offset; `none` is a malformed one.
  unfoldable pub read_range : List ℕ → Option EncryptionRange
  unfolding uint
  read_range at = some (record { start_offset = uint o at 0 8; end_offset = uint o at 8 8 })

  unfoldable pub read_encryption : ℕ → Option Encryption
  unfolding uint elements read_range
  read_encryption offset = from_offset bytes offset >>= λ rest.
      if ltb (length rest) 20
      then none
      else (let range_count = uint o rest 16 4 in
          usize_from range_count >>= λ n. elements 16 read_range n (drop 20 rest) >>= λ ranges.
          some (record { key = field rest 0 16; range_count = range_count; ranges = ranges }))

-- ===== src/Bhd5/Entry.antt =====
-- src/dvdbnd/bhd5/format.rs: the file entries of the four layouts, and their validation.
use fsvfs.Base.{
  ℕ, List, [], ◌∷◌, Bool, true, false, not, ◌&&◌, ◌||◌, ◌==◌, ltb, if◌then◌else◌, Option, none,
  some,
}
use fsvfs.Rofs.Path.{same_name}
use fsvfs.Unaligned.{Endian}
use fsvfs.Bhd5.Fields.{field, uint, is_negative, at_least_zero, zero_u32}
use fsvfs.Bhd5.Header.{Header}

pub record FileEntryDs : Type 0 where
  pub path_hash : ℕ
  pub file_size : ℕ
  pub file_offset : ℕ

pub record FileEntryDs2 : Type 0 where
  pub path_hash : ℕ
  pub file_size : ℕ
  pub file_offset : ℕ
  pub file_hash_offset : ℕ
  pub encryption_offset : ℕ

pub record FileEntryDs3 : Type 0 where
  pub path_hash : ℕ
  pub file_size : ℕ
  pub file_offset : ℕ
  pub file_hash_offset : ℕ
  pub encryption_offset : ℕ
  pub unpadded_file_size : ℕ

pub record FileEntryEr : Type 0 where
  pub path_hash : ℕ
  pub file_size : ℕ
  pub unpadded_file_size : ℕ
  pub file_offset : ℕ
  pub file_hash_offset : ℕ
  pub encryption_offset : ℕ

-- The types that implement `FileEntry`. Sizes are held by their 32 bits.
pub data FileEntry : Type 0 where
  ds : FileEntryDs → FileEntry
  ds2 : FileEntryDs2 → FileEntry
  ds3 : FileEntryDs3 → FileEntry
  er : FileEntryEr → FileEntry

module _ (o : Endian) (bytes : List ℕ) where
  unfoldable pub read_ds : Option FileEntry
  unfolding uint
  read_ds = some (
      ds (record {
        path_hash = uint o bytes 0 4;
        file_size = uint o bytes 4 4;
        file_offset = uint o bytes 8 8;
      }))

  unfoldable pub read_ds2 : Option FileEntry
  unfolding uint
  read_ds2 = some (
      ds2 (record {
        path_hash = uint o bytes 0 4;
        file_size = uint o bytes 4 4;
        file_offset = uint o bytes 8 8;
        file_hash_offset = uint o bytes 16 8;
        encryption_offset = uint o bytes 24 8;
      }))

  unfoldable pub read_ds3 : Option FileEntry
  unfolding uint same_name
  read_ds3 =
      if same_name (field bytes 36 4) zero_u32
      then some (
          ds3 (record {
            path_hash = uint o bytes 0 4;
            file_size = uint o bytes 4 4;
            file_offset = uint o bytes 8 8;
            file_hash_offset = uint o bytes 16 8;
            encryption_offset = uint o bytes 24 8;
            unpadded_file_size = uint o bytes 32 4;
          }))
      else none

  unfoldable pub read_er : Option FileEntry
  unfolding uint
  read_er = some (
      er (record {
        path_hash = uint o bytes 0 8;
        file_size = uint o bytes 8 4;
        unpadded_file_size = uint o bytes 12 4;
        file_offset = uint o bytes 16 8;
        file_hash_offset = uint o bytes 24 8;
        encryption_offset = uint o bytes 32 8;
      }))

-- `U64_HASH`.
abbrev pub u64_hash : FileEntry → Bool
u64_hash (er e) = true
u64_hash (ds e) = false
u64_hash (ds2 e) = false
u64_hash (ds3 e) = false

abbrev pub path_hash : FileEntry → ℕ
path_hash (ds e) = e.path_hash
path_hash (ds2 e) = e.path_hash
path_hash (ds3 e) = e.path_hash
path_hash (er e) = e.path_hash

abbrev pub file_offset : FileEntry → ℕ
file_offset (ds e) = e.file_offset
file_offset (ds2 e) = e.file_offset
file_offset (ds3 e) = e.file_offset
file_offset (er e) = e.file_offset

abbrev pub file_size : FileEntry → ℕ
file_size (ds e) = at_least_zero e.file_size
file_size (ds2 e) = at_least_zero e.file_size
file_size (ds3 e) = at_least_zero e.file_size
file_size (er e) = at_least_zero e.file_size

-- `NonZero::new`.
abbrev pub non_zero : ℕ → Option ℕ
non_zero n = if n == 0 then none else some n

abbrev pub unpadded_file_size : FileEntry → Option ℕ
unpadded_file_size (ds e) = none
unpadded_file_size (ds2 e) = none
unpadded_file_size (ds3 e) = non_zero (at_least_zero e.unpadded_file_size)
unpadded_file_size (er e) = non_zero (at_least_zero e.unpadded_file_size)

abbrev pub encryption_offset : FileEntry → Option ℕ
encryption_offset (ds e) = none
encryption_offset (ds2 e) = non_zero e.encryption_offset
encryption_offset (ds3 e) = non_zero e.encryption_offset
encryption_offset (er e) = non_zero e.encryption_offset

-- The two offsets against the header.
abbrev pub are_valid_offsets : Header → ℕ → ℕ → Bool
are_valid_offsets h encryption hash =
    if h.has_crypto
    then ltb encryption h.file_size && ltb hash h.file_size
    else encryption == 0 && hash == 0

-- The two sizes, which are signed.
abbrev pub are_valid_sizes : ℕ → ℕ → Bool
are_valid_sizes size unpadded =
    if is_negative size || is_negative unpadded || ltb size unpadded then false else true

abbrev pub is_valid : Header → FileEntry → Bool
is_valid h (ds e) = not (is_negative e.file_size)
is_valid h (ds2 e) =
    if is_negative e.file_size
    then false
    else are_valid_offsets h e.encryption_offset e.file_hash_offset
is_valid h (ds3 e) =
    if are_valid_sizes e.file_size e.unpadded_file_size
    then are_valid_offsets h e.encryption_offset e.file_hash_offset
    else false
is_valid h (er e) =
    if are_valid_sizes e.file_size e.unpadded_file_size
    then are_valid_offsets h e.encryption_offset e.file_hash_offset
    else false

-- `FileEntryValidator::is_valid`: the answer, and `has_offset_0` afterwards.
abbrev pub validate : Header → Bool → FileEntry → Bool × Bool
validate h has_offset_0 e =
    let is_offset_0 = file_offset e == 0 in
    (if is_offset_0 && has_offset_0 then false else is_valid h e, has_offset_0 || is_offset_0)

-- `entries.iter().all(…)`: the state afterwards if all are valid.
unfoldable pub validate_all : Header → Bool → List FileEntry → Option Bool
validate_all h has [] = some has
validate_all h has (e ∷ es) =
    let (valid, has') = validate h has e in
    elim valid [ true ↦ validate_all h has' es | false ↦ none ]

-- ===== src/Dvdbnd/Builder.antt =====
-- src/dvdbnd/filesystem.rs: the files of one header. An error is one of `store_encryption`.
use fsvfs.Base.{
  ℕ, zero, suc, ◌+◌, ◌-◌, ◌/◌, ◌%◌, ◌^◌, List, [], ◌∷◌, ◌++◌, Bool, true, false, ltb, if◌then◌else◌,
  Option, none, some, replicate, length,
}
use fsvfs.Base.Results.{Result, ok, ◌>>=◌}
use fsvfs.Rofs.Path.{Name}
use fsvfs.Unaligned.{Endian}
use fsvfs.Bhd5.Entry.{FileEntry, path_hash, file_offset, file_size, unpadded_file_size}
use fsvfs.Bhd5.Buckets.{Encryption, layout_ds, layout_ds2, layout_ds3, layout_er}
use fsvfs.Bhd5.File.{File, flatten}
use fsvfs.Encryption.Store.{StoreError, store_encryption}
use fsvfs.Mount.Read.{DvdbndFile}
use fsvfs.Dvdbnd.Dictionary.{Dictionary, hash_paths32, hash_paths64, get_path}

-- `{:x}`, with its padding in front.
abbrev pub hex_digit : ℕ → ℕ
hex_digit n = if ltb n 10 then b'0' + n else b'a' + (n - 10)

unfoldable pub to_hex : ℕ → ℕ → Name
to_hex zero n = []
to_hex (suc digits) n =
    let rest = to_hex digits (n / 16) in (if ltb n 16 then [] else rest) ++ hex_digit (n % 16) ∷ []

abbrev pub pad : ℕ → ℕ → Name → Name
pad c width text = replicate (width - length text) c ++ text

-- The path of a file whose name is not known.
unfoldable pub unknown_path : Name → ℕ → Name
unfolding to_hex
unknown_path name hash =
    let hex = to_hex 16 hash in
    if ltb hash (2 ^ 32)
    then b'.'
      ∷ (name ++ (b'/' ∷ (pad b'0' 2 (to_hex 16 (hash / 2 ^ 24)) ++ (b'/' ∷ pad b'0' 8 hex))))
    else b'.'
      ∷ (name ++ (b'/' ∷ (pad b'0' 2 (to_hex 16 (hash / 2 ^ 56)) ++ (b'/' ∷ pad b' ' 16 hex))))

-- `Hashes`: the names by hashes of 32 bits or of 64.
pub data Hashes : Type 0 where
  by_u32 by_u64 : List (ℕ × Name) → Hashes

unfoldable pub known_path : Option Hashes → ℕ → Option Name
unfolding get_path
known_path none hash = none
known_path (some (by_u32 hashes)) hash = get_path (hash % 2 ^ 32) hashes
known_path (some (by_u64 hashes)) hash = get_path hash hashes

unfoldable pub path_of : Option Hashes → Name → ℕ → Name
unfolding known_path unknown_path
path_of hashes name hash = elim (known_path hashes hash) [
  | some path ↦ path
  | none ↦ unknown_path name hash
]

abbrev pub or_zero : Option ℕ → ℕ
or_zero none = 0
or_zero (some n) = n

-- The order of bytes is that of the machine, in which a store is written for headers of either order.
-- The id of an entry's encryption data, and the store afterwards.
unfoldable pub store_some :
    Endian → FileEntry → Option Encryption → List ℕ → Result StoreError (Option ℕ × List ℕ)
unfolding store_encryption
store_some o entry none out = ok (none, out)
store_some o entry (some encryption) out =
    store_encryption o entry encryption out >>= λ r. ok (some r.0, r.1)

-- One file.
abbrev pub file_of : Option Hashes → Name → List ℕ → FileEntry → Option ℕ → Name × DvdbndFile
file_of hashes name src_id entry id = (
  path_of hashes name (path_hash entry),
  record {
    data_offset = file_offset entry;
    len = file_size entry;
    unpadded_len = or_zero (unpadded_file_size entry);
    src_id = src_id;
    encryption_id = id;
  },
)

module _ (o : Endian) (hashes : Option Hashes) (name : Name) (src_id : List ℕ) where
  -- The entries with their encryption data, and the store so far.
  unfoldable pub files_of :
      List FileEntry
      → List (Option Encryption)
      → List ℕ
      → Result StoreError (List (Name × DvdbndFile) × List ℕ)
  unfolding store_some path_of
  files_of [] encryption out = ok ([], out)
  files_of (entry ∷ entries) [] out = ok ([], out)
  files_of (entry ∷ entries) (x ∷ encryption) out = store_some o entry x out >>= λ r.
      files_of entries encryption r.1 >>= λ rest.
      ok (file_of hashes name src_id entry r.0 ∷ rest.0, rest.1)

-- `process_files`, with `U64_HASH`.
abbrev pub hashes_of : Bool → Name → Option Dictionary → Option Hashes
hashes_of u64 name none = none
hashes_of true name (some dict) = some (by_u64 (hash_paths64 dict name))
hashes_of false name (some dict) = some (by_u32 (hash_paths32 dict name))

module _ (o : Endian) (dict : Option Dictionary) where
  unfoldable pub process_files :
      Bool
      → List FileEntry
      → Name
      → List ℕ
      → List (Option Encryption)
      → Result StoreError (List (Name × DvdbndFile) × List ℕ)
  unfolding files_of hash_paths32 hash_paths64
  process_files u64 entries name src_id encryption =
      files_of o (hashes_of u64 name dict) name src_id entries encryption []

  -- `process_bhd`; the name is the prefix of the header file's name.
  unfoldable pub process_bhd :
      File → Name → List ℕ → Result StoreError (List (Name × DvdbndFile) × List ℕ)
  unfolding process_files
  process_bhd bhd name src_id =
      let entries = flatten bhd.buckets.entries in
      elim bhd.buckets.layout [
        | layout_ds ↦ process_files false entries name src_id bhd.encryption
        | layout_ds2 ↦ process_files false entries name src_id bhd.encryption
        | layout_ds3 ↦ process_files false entries name src_id bhd.encryption
        | layout_er ↦ process_files true entries name src_id bhd.encryption
      ]

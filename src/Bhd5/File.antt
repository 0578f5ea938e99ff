-- ===== src/Bhd5/File.antt =====
-- src/dvdbnd/bhd5/format.rs, `File`: the encryption of all entries, and the choice of a layout.
-- src/dvdbnd/bhd5.rs: the choice of a byte order, and the names of header files.
use fsvfs.Base.{
  ℕ, ◌+◌, ◌-◌, ◌%◌, ◌^◌, List, [], ◌∷◌, ◌++◌, map, false, ◌==◌, leb, if◌then◌else◌, Option, none,
  some, take, drop, replicate, length,
}
use fsvfs.Base.Results.{Result, ok, err, ◌>>=◌}
use fsvfs.Rofs.Path.{Name, same_name, lower}
use fsvfs.Unaligned.{Endian, little, big}
use fsvfs.Bhd5.Fields.{try_ref_slice_helper}
use fsvfs.Bhd5.Header.{
  Header, try_ref_header, is_dsr_format, bucket_count, bucket_offset, salt_len, salt_offset,
}
use fsvfs.Bhd5.Entry.{FileEntry, encryption_offset}
use fsvfs.Bhd5.Buckets.{
  Layout, layout_ds, layout_ds2, layout_ds3, layout_er, Buckets, Encryption, BucketHeader,
  read_header_all, read_header_dsr, read_buckets, read_encryption,
}

pub data TryRefFileError : Type 0 where
  header_error bucket_error encryption_error : TryRefFileError

pub data Format : Type 0 where
  dark_souls dark_souls_remastered dark_souls_2 dark_souls_3 elden_ring : Format

pub record File : Type 0 where
  pub format : Format
  pub buckets : Buckets
  pub encryption : List (Option Encryption)
  pub salt : Option (List ℕ)

-- `ok_or`.
abbrev pub ok_or {ℓ κ} : {E : Type κ} {A : Type ℓ} → E → Option A → Result E A
ok_or e none = err e
ok_or e (some a) = ok a

-- The entries of all buckets.
abbrev pub flatten : List (List FileEntry) → List FileEntry
flatten [] = []
flatten (es ∷ rest) = es ++ flatten rest

module _ (o : Endian) (bytes : List ℕ) where
  -- One entry's part of `try_ref_encryption_inner`.
  unfoldable pub entry_encryption : FileEntry → Result TryRefFileError (Option Encryption)
  unfolding read_encryption
  entry_encryption e = elim (encryption_offset e) [
    | none ↦ ok none
    | some offset ↦ elim (read_encryption o bytes offset) [
      | none ↦ err encryption_error
      | some x ↦ ok (some x)
    ]
  ]

  -- `try_ref_encryption_inner`.
  unfoldable pub encryption_of : List FileEntry → Result TryRefFileError (List (Option Encryption))
  unfolding entry_encryption
  encryption_of [] = ok []
  encryption_of (e ∷ es) = entry_encryption e >>= λ x. encryption_of es >>= λ xs. ok (x ∷ xs)

  unfoldable pub try_ref_encryption : Buckets → Result TryRefFileError (List (Option Encryption))
  unfolding encryption_of
  try_ref_encryption b = elim b.layout [
    | layout_ds ↦ ok (replicate (length (flatten b.entries)) none)
    | layout_ds2 ↦ encryption_of (flatten b.entries)
    | layout_ds3 ↦ encryption_of (flatten b.entries)
    | layout_er ↦ encryption_of (flatten b.entries)
  ]

  -- `try_ref_buckets`, with the size of a bucket's header and how it is read.
  unfoldable pub try_ref_buckets :
      Header
      → ℕ
      → (List ℕ → Option BucketHeader)
      → Layout
      → Result TryRefFileError (Buckets × List (Option Encryption))
  unfolding try_ref_slice_helper bucket_offset read_buckets try_ref_encryption
  try_ref_buckets h size read l =
      ok_or bucket_error
        (try_ref_slice_helper size read (some (bucket_count h)) (bucket_offset o h) bytes)
      >>= λ headers. ok_or bucket_error (read_buckets o bytes h l false headers) >>= λ entries.
          (let b : Buckets = record { layout = l; entries = entries } in
            try_ref_encryption b >>= λ encryption. ok (b, encryption))

  abbrev pub with_format : Format → Option (List ℕ) → Buckets × List (Option Encryption) → File
  with_format f salt (b, encryption) = record {
    format = f;
    buckets = b;
    encryption = encryption;
    salt = salt;
  }

  unfoldable pub try_ref_ds1 : Header → Result TryRefFileError File
  unfolding try_ref_buckets read_header_all
  try_ref_ds1 h =
      try_ref_buckets h 8 (read_header_all o) layout_ds >>= λ r. ok (with_format dark_souls none r)

  unfoldable pub try_ref_dsr : Header → Result TryRefFileError File
  unfolding try_ref_buckets read_header_dsr
  try_ref_dsr h = try_ref_buckets h 16 (read_header_dsr o) layout_ds >>= λ r.
      ok (with_format dark_souls_remastered none r)

  -- `bytes.get(salt_start..end)`.
  abbrev pub salt_at : ℕ → Option (List ℕ)
  salt_at len =
      if leb (salt_offset + len) (length bytes)
      then some (take len (drop salt_offset bytes))
      else none

  -- The first layout that fits.
  unfoldable pub try_ref_ds3_ds2_er : Header → ℕ → Result TryRefFileError File
  unfolding try_ref_buckets read_header_all
  try_ref_ds3_ds2_er h len =
      let read = read_header_all o in
      let salt = salt_at len in
      elim (try_ref_buckets h 8 read layout_ds3) [
        | ok r ↦ ok (with_format dark_souls_3 salt r)
        | err _ ↦ elim (try_ref_buckets h 8 read layout_ds2) [
          | ok r ↦ ok (with_format dark_souls_2 salt r)
          | err _ ↦ try_ref_buckets h 8 read layout_er >>= λ r. ok (with_format elden_ring salt r)
        ]
      ]

  -- `File::try_ref_from_bytes`.
  unfoldable pub try_ref_from_bytes : Result TryRefFileError File
  unfolding try_ref_header salt_len try_ref_ds3_ds2_er try_ref_dsr try_ref_ds1
  try_ref_from_bytes = ok_or header_error (try_ref_header o bytes) >>= λ h. elim (salt_len o h) [
    | some len ↦ try_ref_ds3_ds2_er h len
    | none ↦ if is_dsr_format h then try_ref_dsr h else try_ref_ds1 h
  ]

-- `Bhd5File`: a file in the byte order that was found.
pub data Bhd5File : Type 0 where
  bhd5_le bhd5_be : File → Bhd5File

-- `Bhd5File::try_ref_from_bytes`; an error is both errors.
unfoldable pub bhd5_from_bytes : List ℕ → Result (TryRefFileError × TryRefFileError) Bhd5File
unfolding try_ref_from_bytes
bhd5_from_bytes bytes = elim (try_ref_from_bytes little bytes) [
  | ok file ↦ ok (bhd5_le file)
  | err e ↦ elim (try_ref_from_bytes big bytes) [
    | ok file ↦ ok (bhd5_be file)
    | err e' ↦ err (e, e')
  ]
]

-- `str::strip_suffix("5")`, or the name itself.
unfoldable pub strip_five : Name → Name
strip_five [] = []
strip_five (c ∷ []) = if c == b'5' then [] else c ∷ []
strip_five (c ∷ d ∷ cs) = c ∷ strip_five (d ∷ cs)

-- `strip_bhd_extension`. The index of the split wraps, and then it is past the end.
unfoldable pub strip_bhd_extension : Name → Option Name
unfolding strip_five same_name
strip_bhd_extension name =
    let stem = strip_five name in
    let index = (length stem + 2 ^ 64 - 4) % 2 ^ 64 in
    if leb index (length stem)
    then (if same_name (map lower (drop index stem)) (b'.' ∷ b'b' ∷ b'h' ∷ b'd' ∷ [])
        then some (take index stem)
        else none)
    else none

-- ===== src/Bhd5/Header.antt =====
-- src/dvdbnd/bhd5/format.rs: the structure `Header`.
use fsvfs.Base.{
  ℕ, ◌+◌, ◌^◌, List, [], ◌∷◌, Bool, ◌&&◌, ◌==◌, leb, ltb, if◌then◌else◌, Option, none, some, ◌>>=◌,
  take, length,
}
use fsvfs.Rofs.Path.{same_name}
use fsvfs.Unaligned.{Endian, from_le_bytes, from_ne_bytes}
use fsvfs.Bhd5.Fields.{field, uint, usize_from, magic, bom, one_u32, is_bool}

-- `bucket_count` is held by its 32 bits, and `bucket_offset2_or_salt_len` by its eight bytes.
pub record Header : Type 0 where
  pub has_crypto : Bool
  pub file_size : ℕ
  pub bucket_count_bits : ℕ
  pub bucket_offset_32 : ℕ
  pub bucket_offset2_or_salt_len : List ℕ

-- `BHD5_HEADER_LEN`.
abbrev pub header_len : ℕ
header_len = 32

-- The constant fields.
unfoldable pub has_constants : Endian → List ℕ → Bool
unfolding same_name
has_constants o bytes =
    same_name (field bytes 0 4) magic
    && same_name (field bytes 4 1) (bom o)
    && same_name (field bytes 6 2) (0 ∷ 0 ∷ [])
    && same_name (field bytes 8 4) (one_u32 o)

unfoldable pub try_ref_header : Endian → List ℕ → Option Header
unfolding has_constants is_bool uint
try_ref_header o bytes =
    if ltb (length bytes) header_len
    then none
    else (if has_constants o bytes
        then (is_bool (field bytes 5 1) >>= λ has_crypto. some (record {
          has_crypto = has_crypto;
          file_size = uint o bytes 12 4;
          bucket_count_bits = uint o bytes 16 4;
          bucket_offset_32 = uint o bytes 20 4;
          bucket_offset2_or_salt_len = field bytes 24 8;
        }))
        else none)

-- `SALT_OFFSET`: the offset of `bucket_offset`, and four.
abbrev pub salt_offset : ℕ
salt_offset = 24

abbrev pub is_dsr_format : Header → Bool
is_dsr_format h = h.bucket_offset_32 == 0

abbrev pub bucket_count : Header → ℕ
bucket_count h = elim (usize_from h.bucket_count_bits) [ none ↦ 0 | some n ↦ n ]

unfoldable pub bucket_offset : Endian → Header → ℕ
unfolding from_le_bytes
bucket_offset o h =
    if is_dsr_format h then from_ne_bytes o h.bucket_offset2_or_salt_len else h.bucket_offset_32

-- The first four bytes of `bucket_offset2_or_salt_len` are the length. `checked_add` is in 32 bits.
unfoldable pub salt_len : Endian → Header → Option ℕ
unfolding from_le_bytes
salt_len o h =
    if is_dsr_format h
    then none
    else (let len = from_ne_bytes o (take 4 h.bucket_offset2_or_salt_len) in
        if ltb (salt_offset + len) (2 ^ 32)
        then (if leb (salt_offset + len) h.bucket_offset_32 then some len else none)
        else none)

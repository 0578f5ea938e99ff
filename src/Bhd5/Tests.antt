-- ===== src/Bhd5/Tests.antt =====
-- The headers of the source's tests, and the theorems at them.
use fsvfs.Base.{ℕ, List, [], ◌∷◌, some, none, replicate, ◌≡◌, refl}
use fsvfs.Unaligned.{little, big}
use fsvfs.Bhd5.Header.{try_ref_header, bucket_count, bucket_offset, salt_len}
use fsvfs.Base.Results.{ok, err}
use fsvfs.Bhd5.Entry.{ds3, read_ds3}
use fsvfs.Bhd5.Buckets.{layout_ds3}
use fsvfs.Bhd5.File.{header_error, File, dark_souls_3, try_ref_from_bytes, strip_bhd_extension}
use fsvfs.Bhd5.Valid.{IsFile, try_ref_from_bytes-IsFile}
use fsvfs.Bhd5.Order.{try_ref_from_bytes-other}
use fsvfs.Base.Text.{codes}
use mathlib.Core.Option

abbrev ds3_header : List ℕ
ds3_header =
    0x42 ∷ 0x48 ∷ 0x44 ∷ 0x35 ∷ 0xFF ∷ 0x01 ∷ 0x00 ∷ 0x00 ∷ 0x01 ∷ 0x00 ∷ 0x00 ∷ 0x00 ∷ 0xA5 ∷ 0x9F
    ∷ 0x01 ∷ 0x00 ∷ 0x67 ∷ 0x00 ∷ 0x00 ∷ 0x00 ∷ 0x25 ∷ 0x00 ∷ 0x00 ∷ 0x00 ∷ 0x09 ∷ 0x00 ∷ 0x00
    ∷ 0x00 ∷ 0x46 ∷ 0x44 ∷ 0x50 ∷ 0x5F ∷ 0x70 ∷ 0x61 ∷ 0x72 ∷ 0x74 ∷ 0x73 ∷ []

ds3_fields :
    (Option.map bucket_count (try_ref_header little ds3_header) ≡ some 103)
    × (Option.map (bucket_offset little) (try_ref_header little ds3_header) ≡ some 37)
    × (Option.map (salt_len little) (try_ref_header little ds3_header) ≡ some (some 9))
    × (try_ref_header big ds3_header ≡ none)
unfolding try_ref_header salt_len bucket_offset
ds3_fields = (refl, refl, refl, refl)

-- A file of one bucket with one entry, whose data are encrypted.
abbrev pub ds3_bytes : List ℕ
ds3_bytes =
    0x42 ∷ 0x48 ∷ 0x44 ∷ 0x35 ∷ 0xFF ∷ 1 ∷ 0 ∷ 0 ∷ 1 ∷ 0 ∷ 0 ∷ 0 ∷ 116 ∷ 0 ∷ 0 ∷ 0 ∷ 1 ∷ 0 ∷ 0 ∷ 0
    ∷ 32 ∷ 0 ∷ 0 ∷ 0 ∷ 4 ∷ 0 ∷ 0 ∷ 0 ∷ 0x46 ∷ 0x44 ∷ 0x50 ∷ 0x5F ∷ 1 ∷ 0 ∷ 0 ∷ 0 ∷ 40 ∷ 0 ∷ 0 ∷ 0
    ∷ 7 ∷ 0 ∷ 0 ∷ 0 ∷ 32 ∷ 0 ∷ 0 ∷ 0 ∷ 0 ∷ 1 ∷ 0 ∷ 0 ∷ 0 ∷ 0 ∷ 0 ∷ 0 ∷ 0 ∷ 0 ∷ 0 ∷ 0 ∷ 0 ∷ 0 ∷ 0 ∷ 0
    ∷ 80 ∷ 0 ∷ 0 ∷ 0 ∷ 0 ∷ 0 ∷ 0 ∷ 0 ∷ 20 ∷ 0 ∷ 0 ∷ 0 ∷ 0 ∷ 0 ∷ 0 ∷ 0 ∷ 9 ∷ 9 ∷ 9 ∷ 9 ∷ 9 ∷ 9 ∷ 9
    ∷ 9 ∷ 9 ∷ 9 ∷ 9 ∷ 9 ∷ 9 ∷ 9 ∷ 9 ∷ 9 ∷ 1 ∷ 0 ∷ 0 ∷ 0 ∷ 0 ∷ 0 ∷ 0 ∷ 0 ∷ 0 ∷ 0 ∷ 0 ∷ 0 ∷ 16 ∷ 0 ∷ 0
    ∷ 0 ∷ 0 ∷ 0 ∷ 0 ∷ 0 ∷ []

abbrev ds3_value : File
ds3_value = record {
  format = dark_souls_3;
  buckets = record {
    layout = layout_ds3;
    entries =
        (ds3 (record {
          path_hash = 7;
          file_size = 32;
          file_offset = 256;
          file_hash_offset = 0;
          encryption_offset = 80;
          unpadded_file_size = 20;
        })
          ∷ [])
        ∷ [];
  };
  encryption =
      some (record {
        key = replicate 16 9;
        range_count = 1;
        ranges = record { start_offset = 0; end_offset = 16 } ∷ [];
      })
      ∷ [];
  salt = some (4 ∷ 0 ∷ 0 ∷ 0 ∷ []);
}

ds3_parsed : try_ref_from_bytes little ds3_bytes ≡ ok ds3_value
unfolding try_ref_from_bytes read_ds3
ds3_parsed = refl

try_ref_from_bytes-IsFile_example : IsFile little ds3_bytes ds3_value
try_ref_from_bytes-IsFile_example = try_ref_from_bytes-IsFile little ds3_bytes ds3_value ds3_parsed

try_ref_from_bytes-other_example : try_ref_from_bytes big ds3_bytes ≡ err header_error
try_ref_from_bytes-other_example = try_ref_from_bytes-other ds3_bytes ds3_value ds3_parsed

strip_data :
    (strip_bhd_extension (codes "DATA1.BHD5") ≡ some (codes "DATA1"))
    × (strip_bhd_extension (codes "data1.bdt") ≡ none)
unfolding strip_bhd_extension
strip_data = (refl, refl)

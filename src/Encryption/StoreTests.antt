-- ===== src/Encryption/StoreTests.antt =====
-- Encryption data that are stored and loaded, and a body that is decrypted.
use fsvfs.Base.{arith, ℕ, ◌+◌, List, [], ◌∷◌, ◌++◌, map, replicate, some, ◌≡◌, refl}
use fsvfs.Base.Results.{ok}
use fsvfs.Unaligned.{little}
use fsvfs.Bhd5.Entry.{FileEntry, ds2}
use fsvfs.Bhd5.Buckets.{Encryption}
use fsvfs.Encryption.Store.{Range, store_range, store_encryption, load}
use fsvfs.Encryption.Ranges.{AreStored}
use fsvfs.Encryption.Loaded.{load-store_encryption}
use fsvfs.Encryption.Aes.{decrypt}

abbrev stored_entry : FileEntry
stored_entry = ds2 (record {
  path_hash = 1;
  file_size = 100;
  file_offset = 5;
  file_hash_offset = 0;
  encryption_offset = 9;
})

abbrev stored_key : List ℕ
stored_key = replicate 16 7

abbrev data_of_entry : Encryption
data_of_entry = record {
  key = stored_key;
  range_count = 3;
  ranges =
      record { start_offset = 32; end_offset = 64 }
      ∷ record { start_offset = 4; end_offset = 4 }
      ∷ record { start_offset = 0; end_offset = 16 }
      ∷ [];
}

abbrev record_bytes : List ℕ
record_bytes =
    0
    ∷ (stored_key
        ++ 2 ∷ 0 ∷ 0 ∷ 0 ∷ 0 ∷ 0 ∷ 0 ∷ 1 ∷ 0 ∷ 0 ∷ 0 ∷ 32 ∷ 0 ∷ 0 ∷ 0 ∷ 2 ∷ 0 ∷ 0 ∷ 0 ∷ [])

stored :
    store_encryption little stored_entry data_of_entry (1 ∷ []) ≡ ok (4294967294, 1 ∷ record_bytes)
unfolding store_encryption
stored = refl

load-store_encryption_example :
    (ranges : List Range) × AreStored stored_entry data_of_entry.ranges ranges
    × (load little 4294967294 ((1 ∷ record_bytes) ++ 5 ∷ []) ≡ some (stored_key, ranges))
load-store_encryption_example =
    load-store_encryption little stored_entry data_of_entry (1 ∷ []) 4294967294 (1 ∷ record_bytes)
      (5 ∷ []) stored refl
      ((omega arith, omega arith), ((omega arith, omega arith), ((omega arith, omega arith), tt)))

-- A range that starts the file and reaches over its end is not refused.
store_range-over_end :
    store_range stored_entry (record { start_offset = 0; end_offset = 112 })
    ≡ ok (some (record { start_offset = 0; block_count = 7 }))
unfolding store_range
store_range-over_end = refl

-- A body that starts in the middle of a block. Eight of its bytes are behind that block and are not decrypted.
abbrev add_hundred : List ℕ → List ℕ
add_hundred block = map (λ b. b + 100) block

half_block :
    decrypt add_hundred (record { start_offset = 0; block_count = 2 } ∷ []) (record {
      body = replicate 24 1;
      head = replicate 16 0;
      tail = replicate 16 0;
      file_offset = 8;
    })
    ≡ replicate 8 101 ++ (replicate 8 1 ++ replicate 8 101)
unfolding decrypt
half_block = refl

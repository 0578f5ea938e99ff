-- ===== src/Dvdbnd/Tests.antt =====
-- A dictionary of two names, and a header's two entries.
use fsvfs.Base.{arith, ℕ, ◌%◌, ◌^◌, List, [], ◌∷◌, ◌++◌, replicate, none, some, ◌≡◌, refl}
use fsvfs.Base.Results.{ok}
use fsvfs.Base.Text.{codes}
use fsvfs.Hash.{hash_path32, hash_path64}
use fsvfs.Rofs.Path.{Name}
use fsvfs.Unaligned.{little}
use fsvfs.Bhd5.Entry.{FileEntry, ds2}
use fsvfs.Bhd5.Buckets.{Encryption}
use fsvfs.Mount.Read.{DvdbndFile}
use fsvfs.Dvdbnd.Dictionary.{Dictionary, hash_paths32, hash_paths64}
use fsvfs.Dvdbnd.Builder.{by_u32, by_u64, known_path, unknown_path, files_of}
use fsvfs.Dvdbnd.Paths.{known_path-hash}
use fsvfs.Dvdbnd.Files.{AreFiles, files_of-AreFiles}

abbrev dictionary : Dictionary
dictionary = (codes "data1", codes "/a.txt" ++ (13 ∷ 10 ∷ codes "/b/c.bin")) ∷ []

by_64 :
    known_path (some (by_u64 (hash_paths64 dictionary (codes "DATA1")))) 35143072550126630
    ≡ some (codes "/b/c.bin")
unfolding known_path hash_paths64
by_64 = refl

by_32 :
    known_path (some (by_u32 (hash_paths32 dictionary (codes "DATA1")))) 3443452994
    ≡ some (codes "/a.txt")
unfolding known_path hash_paths32
by_32 = refl

known_path-hash_example :
    (hash_path64 (codes "/b/c.bin") ≡ some 35143072550126630)
    × (hash_path32 (codes "/a.txt") ≡ some (3443452994 % 2 ^ 32))
known_path-hash_example =
    known_path-hash dictionary (codes "DATA1") 35143072550126630 3443452994 (codes "/b/c.bin")
      (codes "/a.txt") by_64 by_32

unknown_32 : unknown_path (codes "data1") 0x0a0b0c ≡ codes ".data1/00/000a0b0c"
unfolding unknown_path
unknown_32 = refl

-- The hash is padded with spaces.
unknown_64 : unknown_path (codes "data1") 0x10a0b0c0d ≡ codes ".data1/00/       10a0b0c0d"
unfolding unknown_path
unknown_64 = refl

abbrev first_entry : FileEntry
first_entry = ds2 (record {
  path_hash = 1;
  file_size = 100;
  file_offset = 5;
  file_hash_offset = 0;
  encryption_offset = 9;
})

abbrev second_entry : FileEntry
second_entry = ds2 (record {
  path_hash = 2;
  file_size = 10;
  file_offset = 105;
  file_hash_offset = 0;
  encryption_offset = 0;
})

abbrev first_data : Encryption
first_data = record {
  key = replicate 16 7;
  range_count = 1;
  ranges = record { start_offset = 0; end_offset = 16 } ∷ [];
}

abbrev first_record : List ℕ
first_record = 0 ∷ (replicate 16 7 ++ 1 ∷ 0 ∷ 0 ∷ 0 ∷ 0 ∷ 0 ∷ 0 ∷ 1 ∷ 0 ∷ 0 ∷ 0 ∷ [])

abbrev both_files : List (Name × DvdbndFile)
both_files =
    (
      codes ".data1/00/00000001",
      record {
        data_offset = 5;
        len = 100;
        unpadded_len = 0;
        src_id = [];
        encryption_id = some 0xffffffff;
      },
    )
    ∷ (
      codes ".data1/00/00000002",
      record { data_offset = 105; len = 10; unpadded_len = 0; src_id = []; encryption_id = none },
    )
    ∷ []

processed :
    files_of little none
      (codes "data1")
      []
      (first_entry ∷ second_entry ∷ [])
      (some first_data ∷ none ∷ [])
      []
    ≡ ok (both_files, first_record)
unfolding files_of
processed = refl

files_of-AreFiles_example :
    AreFiles little none
      (codes "data1")
      []
      first_record
      (first_entry ∷ second_entry ∷ [])
      (some first_data ∷ none ∷ [])
      both_files
files_of-AreFiles_example =
    files_of-AreFiles little none (codes "data1") [] (first_entry ∷ second_entry ∷ [])
      (some first_data ∷ none ∷ []) [] (both_files, first_record) processed
      ((refl, ((omega arith, omega arith), tt)), (tt, tt))

-- ===== src/Mount/Tests.antt =====
-- A mount of two files in one archive, and the theorems at it.
use fsvfs.Base.{ℕ, ◌+◌, List, [], ◌∷◌, map, Bool, true, false, none, some, ◌≡◌, refl, arith}
use fsvfs.Base.Results.{ok}
use fsvfs.Rofs.Path.{dvdbnd_config}
use fsvfs.Rofs.Node.{dir, file, Rofs, read_name}
use fsvfs.Rofs.Lookup.{Entry, file_entry, entry}
use fsvfs.Rofs.Tests.{plain, linear_search}
use fsvfs.Aligned.Streams.{slice}
use fsvfs.Aligned.Read.{ReadAt}
use fsvfs.Mount.Read.{DvdbndFile, read_plain, collect, finished}
use fsvfs.Mount.Plain.{IsRun, IsStored, read_plain-collect}
use fsvfs.Mount.Decrypt.{Storage}
use fsvfs.Mount.Fuser.{FileAttr, file_attr, DirEntry, dir_entry, numbered}
use fsvfs.Mount.Handlers.{lookup, getattr, read, listing}
use fsvfs.Mount.Replies.{getattr-lookup, read-slice}
use fsvfs.Mount.Listing.{list_from, list_from-listing}

abbrev pub archive_bytes : List ℕ
archive_bytes = 1 ∷ 2 ∷ 3 ∷ 4 ∷ 5 ∷ 6 ∷ 7 ∷ 8 ∷ 9 ∷ 10 ∷ 11 ∷ 12 ∷ []

abbrev pub system_read : ReadAt
system_read n position = ok (some (slice archive_bytes position (position + n)))

abbrev pub file_a : DvdbndFile
file_a = record { data_offset = 2; len = 8; unpadded_len = 5; src_id = []; encryption_id = none }

abbrev pub file_b : DvdbndFile
file_b = record { data_offset = 10; len = 2; unpadded_len = 0; src_id = []; encryption_id = none }

pub file_a-IsStored : IsStored file_a archive_bytes
file_a-IsStored = record {
  inside = omega arith;
  small = omega arith;
  fits = omega arith;
  padded = omega arith;
}

read_plain-collect_example :
    (chunks : List (List ℕ × ℕ)) × (read_plain system_read file_a 3 100
      ≡ record { given = chunks; ending = finished })
    × IsRun 3 chunks 5
    × (collect chunks ≡ 6 ∷ 7 ∷ [])
read_plain-collect_example =
    read_plain-collect system_read archive_bytes file_a 3 100 (λ n position some_bytes fits h. refl)
      file_a-IsStored

abbrev pub mounted : Rofs DvdbndFile
mounted = record {
  nodes =
      record { content = dir 1 2; name_index = 0 }
      ∷ record { content = file 0; name_index = 1 }
      ∷ record { content = file 1; name_index = 3 }
      ∷ [];
  files = file_a ∷ file_b ∷ [];
  names = 0 ∷ 1 ∷ b'a' ∷ 1 ∷ b'b' ∷ [];
}

abbrev pub entry_a : Entry DvdbndFile
entry_a = record { inode = 0; name = b'a' ∷ []; kind = file_entry file_a }

abbrev pub entry_b : Entry DvdbndFile
entry_b = record { inode = 1; name = b'b' ∷ []; kind = file_entry file_b }

abbrev pub storage : Storage
storage = record { archive = λ f. system_read; decrypt = λ f id text. ok []; window = 64 }

read-slice_example : read dvdbnd_config mounted storage true 2 2 3 100 ≡ some (ok (6 ∷ 7 ∷ []))
unfolding entry read_name
read-slice_example =
    read-slice dvdbnd_config mounted storage 2 3 100 entry_a file_a archive_bytes refl refl refl
      (λ n position some_bytes fits h. refl) file_a-IsStored

abbrev attr_b : FileAttr
attr_b = file_attr 7 3 entry_b

lookup-b : lookup dvdbnd_config plain mounted 7 1 (some (b'b' ∷ [])) ≡ some (ok attr_b)
unfolding lookup linear_search read_name file_attr
lookup-b = refl

getattr-lookup_example : getattr dvdbnd_config plain mounted 7 3 ≡ some (ok attr_b)
unfolding file_attr
getattr-lookup_example =
    getattr-lookup dvdbnd_config plain mounted 7 1 (some (b'b' ∷ [])) attr_b lookup-b

listing-mounted : listing dvdbnd_config mounted 1 ≡ some (ok (numbered 1 (entry_a ∷ entry_b ∷ [])))
unfolding listing read_name
listing-mounted = refl

-- A reply that takes one entry.
abbrev takes_one : List DirEntry → DirEntry → Bool
takes_one [] x = false
takes_one (y ∷ ys) x = true

list_from-listing_example :
    list_from dvdbnd_config mounted takes_one 1 3 0
    ≡ some (map dir_entry (numbered 1 (entry_a ∷ entry_b ∷ [])))
list_from-listing_example =
    list_from-listing dvdbnd_config mounted takes_one 1 (entry_a ∷ entry_b ∷ []) listing-mounted
      (λ x. refl)

-- ===== src/Mount/OpenTests.antt =====
-- Two archives are mounted, one of them from the cache.
use mathlib.Core.List.{Memᴰ}
use fsvfs.Rofs.Node.{dir, file}
use fsvfs.Base.{
  replicate, ◌++◌, ℕ, ◌*◌, ◌^◌, ◌==◌, List, [], ◌∷◌, map, length, Option, none, some, if◌then◌else◌,
  ◌≡◌, refl, ◌↔◌,
}
use fsvfs.Base.Results.{Result, ok, err}
use fsvfs.Base.Text.{codes}
use fsvfs.Rofs.Path.{dvdbnd_config, same_name}
use fsvfs.Rofs.Tests.{plain}
use fsvfs.Rofs.Object.{nil}
use fsvfs.Unaligned.{little}
use fsvfs.Bhd5.Tests.{ds3_bytes}
use fsvfs.Bhd5.Entry.{read_ds3}
use fsvfs.Crypto.Rsa.{RsaKey}
use fsvfs.Dvdbnd.Finish.{DvdbndRofs, SrcIdMap}
use fsvfs.Mount.Open.{OpenError, DvdbndRofsCached, io_failed, from_keys_and_dict}
use fsvfs.Mount.Opened.{header_id, from_keys_and_dict-ids}
use fsvfs.Mount.Opened.Ids.{ids}

abbrev read : ℕ → Result OpenError (List ℕ)
read path = if path == 1 then ok ds3_bytes else (if path == 2 then ok (1 ∷ []) else err io_failed)

abbrev hash : List ℕ → ℕ
hash bytes = length bytes * 2 ^ 32

abbrev open_bdt : ℕ → Result OpenError ℕ
open_bdt path = ok path

abbrev cache_get : List ℕ → Option DvdbndRofsCached
cache_get id =
    if same_name id (0 ∷ 0 ∷ 0 ∷ 0 ∷ 0 ∷ 0 ∷ 0 ∷ 0 ∷ 0 ∷ 0 ∷ 0 ∷ 1 ∷ [])
    then some (record { root = nil; files = [] }, [])
    else none

abbrev keys : List (ℕ × Option RsaKey)
keys = (1, none) ∷ (2, none) ∷ []

abbrev run : Option (Result OpenError (DvdbndRofs × SrcIdMap ℕ))
run =
    from_keys_and_dict (λ c e n. c) (λ path. codes "data1") dvdbnd_config plain 20 little read hash
      open_bdt cache_get none keys

abbrev parsed_id : List ℕ
parsed_id = 0 ∷ 0 ∷ 0 ∷ 0 ∷ 0 ∷ 0 ∷ 0 ∷ 0 ∷ 0 ∷ 0 ∷ 0 ∷ 116 ∷ []

abbrev cached_id : List ℕ
cached_id = 0 ∷ 0 ∷ 0 ∷ 0 ∷ 0 ∷ 0 ∷ 0 ∷ 0 ∷ 0 ∷ 0 ∷ 0 ∷ 1 ∷ []

-- The file of the first archive, in three directories, and the stores of both.
abbrev opened : DvdbndRofs
opened = record {
  inner = record {
    nodes =
        record { content = dir 1 1; name_index = 0 }
        ∷ record { content = dir 2 1; name_index = 1 }
        ∷ record { content = dir 3 1; name_index = 8 }
        ∷ record { content = file 0; name_index = 11 }
        ∷ [];
    files =
        record {
          data_offset = 256;
          len = 32;
          unpadded_len = 20;
          src_id = parsed_id;
          encryption_id = some 0xffffffff;
        }
        ∷ [];
    names = 0 ∷ 6 ∷ codes ".data1" ++ (2 ∷ codes "00" ++ (8 ∷ codes "00000007"));
  };
  encryption_store =
      (cached_id, [])
      ∷ (parsed_id, 0 ∷ replicate 16 9 ++ (1 ∷ 0 ∷ 0 ∷ 0 ∷ 0 ∷ 0 ∷ 0 ∷ 1 ∷ 0 ∷ 0 ∷ 0 ∷ []))
      ∷ [];
}

abbrev data_files : SrcIdMap ℕ
data_files = (parsed_id, 1) ∷ (cached_id, 2) ∷ []

run-opened : run ≡ some (ok (opened, data_files))
unfolding from_keys_and_dict read_ds3
run-opened = refl

from_keys_and_dict-ids_example :
    (Memᴰ cached_id (ids opened.encryption_store)
      ↔ Memᴰ cached_id (map (λ k. header_id read hash k.0) keys))
    × (Memᴰ cached_id (ids data_files) ↔ Memᴰ cached_id (map (λ k. header_id read hash k.0) keys))
from_keys_and_dict-ids_example =
    from_keys_and_dict-ids (λ c e n. c) (λ path. codes "data1") dvdbnd_config plain 20 little read
      hash open_bdt cache_get none keys opened data_files cached_id run-opened

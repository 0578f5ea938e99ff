-- ===== src/Hash/Tests.antt =====
-- Runs of the two path hashes on the inputs of the source's own tests, and the theorems at concrete
-- inputs.
use fsvfs.Base.{ℕ, List, ◌≡◌, refl, arith, none, some}
use fsvfs.Base.Text.{codes}
use fsvfs.Hash.{hash_path32, hash_path64}
use fsvfs.Hash.Mad.{u32, u64, mad_hash, mad_bytes}
use fsvfs.Hash.Chunks.{mad_hash-eq-mad_bytes}
use fsvfs.Hash.Spec.{drive, slash, hash_path_lem}

abbrev event_names : List ℕ
event_names = codes "/action/eventnameid.txt"

hash_eq :
    (hash_path32 event_names ≡ some 0xec09d5de)
    × (hash_path64 event_names ≡ some 0x800c9074f004323e)
unfolding hash_path32 hash_path64
hash_eq = (refl, refl)

hash_none :
    (hash_path32 (codes "") ≡ none)
    × (hash_path32 (codes "/data3:") ≡ none)
    × (hash_path32 (codes "/data3:/") ≡ none)
    × (hash_path32 (codes "a") ≡ none)
unfolding hash_path32
hash_none = (refl, refl, refl, refl)

mad_hash-eq-mad_bytes_example : mad_hash u32 8 0 event_names ≡ mad_bytes u32 0 event_names
mad_hash-eq-mad_bytes_example =
    mad_hash-eq-mad_bytes u32 8 0 event_names (omega arith) (omega arith)

hash_path_lem_example :
    (hash_path32 (codes "d:/ab") ≡ some (mad_bytes u32 0 (codes "/ab")))
    × (hash_path64 (codes "d:/ab") ≡ some (mad_bytes u64 0 (codes "/ab")))
hash_path_lem_example =
    hash_path_lem (drive (codes "d") (codes "/ab") (omega arith, tt)) (slash b'a' (codes "b"))

-- ===== src/Dvdbnd/Finish.antt =====
-- src/dvdbnd/filesystem.rs: `DvdbndRofsBuilder`, from the headers and the cached objects to the filesystem. The steps
-- that run in parallel are taken one after another; a hash map is a list of its entries in the order of insertion.
use mathlib.Core.Option
use fsvfs.Base.{ℕ, List, [], ◌∷◌, map, Option, some, ◌>>=◌, if◌then◌else◌, take}
use mathlib.Core.List.{reverse}
use fsvfs.Base.Results.{Result, ok, err, collect_ok}
use fsvfs.Rofs.Path.{Name, Config, same_name}
use fsvfs.Rofs.Node.{Eytzinger, Rofs}
use fsvfs.Rofs.Object.{RofsObject, new}
use fsvfs.Rofs.Object.Reduce.{merge_all}
use fsvfs.Rofs.Layout.{into_rofs}
use fsvfs.Unaligned.{Endian, le_bytes, from_le_bytes}
use fsvfs.Bhd5.File.{File}
use fsvfs.Encryption.Store.{StoreError}
use fsvfs.Mount.Read.{DvdbndFile}
use fsvfs.Dvdbnd.Dictionary.{Dictionary}
use fsvfs.Dvdbnd.Builder.{process_bhd}

-- `SrcId::from`: the first twelve of the bytes of a number of 128 bits, the highest first.
unfoldable pub src_id_from : ℕ → List ℕ
unfolding le_bytes
src_id_from value = take 12 (reverse (le_bytes 16 value))

-- `SrcIdHasher`: the first eight bytes as a number.
unfoldable pub src_id_hash : List ℕ → ℕ
unfolding from_le_bytes
src_id_hash bytes = from_le_bytes (reverse (take 8 bytes))

-- A map by the ids of sources.
abbrev pub SrcIdMap : Type 0 → Type 0
SrcIdMap V = List (List ℕ × V)

unfoldable pub put_src : {V : Type 0} → List ℕ → V → SrcIdMap V → SrcIdMap V
unfolding same_name
put_src id v [] = (id, v) ∷ []
put_src id v ((other, w) ∷ rest) =
    if same_name other id then (id, v) ∷ rest else (other, w) ∷ put_src id v rest

-- `par_extend`.
unfoldable pub extend : {V : Type 0} → SrcIdMap V → List (List ℕ × V) → SrcIdMap V
unfolding put_src
extend known [] = known
extend known ((id, v) ∷ rest) = extend (put_src id v known) rest

-- A header with the prefix of its file's name, its byte order, and the id of its source.
pub record BhdSource : Type 0 where
  pub prefix : Name
  pub order : Endian
  pub bhd : File
  pub src_id : List ℕ

-- What is made of one header: its files and the store of their encryption data.
pub record ProcessedBhd : Type 0 where
  pub files : List (Name × DvdbndFile)
  pub store : List ℕ
  pub src_id : List ℕ

-- One header's part of the `map`. Its order of bytes plays no part any more: a store has that of the machine.
unfoldable pub processed_bhd :
    Endian → Option Dictionary → BhdSource → Result StoreError ProcessedBhd
unfolding process_bhd
processed_bhd machine dict b = elim (process_bhd machine dict b.bhd b.prefix b.src_id) [
  | err e ↦ err e
  | ok made ↦ ok (record { files = made.0; store = made.1; src_id = b.src_id })
]

-- The `collect` over all headers: the first error, or all.
unfoldable pub process_bhds :
    Endian → Option Dictionary → List BhdSource → Result StoreError (List ProcessedBhd)
unfolding processed_bhd
process_bhds machine dict = collect_ok (processed_bhd machine dict)

abbrev pub stores_of : List ProcessedBhd → List (List ℕ × List ℕ)
stores_of = map (λ p. (p.src_id, p.store))

-- The objects of the headers; `none` is a panic of `RofsObject::new`.
unfoldable pub objects_from :
    Config → List ProcessedBhd → Option (List (List ℕ × RofsObject DvdbndFile))
unfolding new
objects_from c [] = some []
objects_from c (p ∷ rest) =
    new c p.files >>= λ o. objects_from c rest >>= λ more. some ((p.src_id, o) ∷ more)

abbrev pub values : {V : Type 0} → SrcIdMap V → List V
values = map (λ e. e.1)

pub record DvdbndRofs : Type 0 where
  pub inner : Rofs DvdbndFile
  pub encryption_store : SrcIdMap (List ℕ)

-- What was cached of a source: its object and its store.
abbrev pub Cached : Type 0
Cached = List ℕ × (RofsObject DvdbndFile × List ℕ)

abbrev pub cached_objects : List Cached → SrcIdMap (RofsObject DvdbndFile)
cached_objects cached = extend [] (map (λ e. (e.0, e.1.0)) cached)

abbrev pub cached_stores : List Cached → SrcIdMap (List ℕ)
cached_stores cached = extend [] (map (λ e. (e.0, e.1.1)) cached)

module _ (c : Config) (e : Eytzinger) (fuel : ℕ) where
  -- The tail of `finish`, once all headers are processed.
  unfoldable pub assemble_rofs : List ProcessedBhd → List Cached → Option DvdbndRofs
  unfolding objects_from extend merge_all into_rofs
  assemble_rofs processed cached = objects_from c processed >>= λ objects.
      merge_all (values (extend (cached_objects cached) objects)) >>= λ o.
      into_rofs e fuel o >>= λ inner. some (record {
        inner = inner;
        encryption_store = extend (cached_stores cached) (stores_of processed);
      })

  -- `finish`: a panic, an error of the encryption data, or the filesystem.
  unfoldable pub finish_rofs :
      Endian
      → Option Dictionary
      → List BhdSource
      → List Cached
      → Option (Result StoreError DvdbndRofs)
  unfolding process_bhds assemble_rofs
  finish_rofs machine dict bhds cached = elim (process_bhds machine dict bhds) [
    | err x ↦ some (err x)
    | ok processed ↦ Option.map ok (assemble_rofs processed cached)
  ]

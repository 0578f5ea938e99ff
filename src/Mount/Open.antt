-- ===== src/Mount/Open.antt =====
-- src/dvdbnd/mount.rs: `DvdbndMount::from_keys_and_dict`, from the keys of the archives to the filesystem and the data
-- files. A path is a number; the steps that run in parallel are taken one after another. A panic is `none`.
use mathlib.Core.Option
use fsvfs.Base.{ℕ, List, [], ◌∷◌, Option, none, some, take}
use fsvfs.Base.Results.{Result, ok, err, collect_ok}
use fsvfs.Rofs.Path.{Name, Config}
use fsvfs.Rofs.Node.{Eytzinger}
use fsvfs.Rofs.Object.{RofsObject}
use fsvfs.Unaligned.{Endian, little, big}
use fsvfs.Bhd5.File.{TryRefFileError, Bhd5File, bhd5_le, bhd5_be, bhd5_from_bytes}
use fsvfs.Crypto.Rsa.{RsaKey, DecryptError, decrypt_blocks_in_place}
use fsvfs.Encryption.Store.{StoreError}
use fsvfs.Mount.Read.{DvdbndFile}
use fsvfs.Dvdbnd.Dictionary.{Dictionary}
use fsvfs.Dvdbnd.Finish.{BhdSource, Cached, DvdbndRofs, SrcIdMap, extend, finish_rofs, src_id_from}

-- What makes the mount fail: a call of the system, a key, a header, or its encryption data.
pub data OpenError : Type 0 where
  io_failed : OpenError
  not_decrypted : DecryptError → OpenError
  not_parsed : TryRefFileError × TryRefFileError → OpenError
  not_stored : StoreError → OpenError

abbrev pub or_error : {E A : Type 0} → (E → OpenError) → Result E A → Result OpenError A
or_error f (ok a) = ok a
or_error f (err e) = err (f e)

-- A header file that was read: its path, its bytes, its id and its key.
pub record BhdFile : Type 0 where
  pub path : ℕ
  pub bytes : List ℕ
  pub src_id : List ℕ
  pub key : Option RsaKey

-- `DvdbndRofsCached`: an object and the store of its encryption data.
abbrev pub DvdbndRofsCached : Type 0
DvdbndRofsCached = RofsObject DvdbndFile × List ℕ

module _ (read : ℕ → Result OpenError (List ℕ)) (hash : List ℕ → ℕ) where
  -- A header's file with its key, or `none` where it needs none.
  unfoldable pub read_header : ℕ × Option RsaKey → Result OpenError BhdFile
  unfolding src_id_from
  read_header (path, key) = elim (read path) [
    | err e ↦ err e
    | ok bytes ↦
        ok (record { path = path; bytes = bytes; src_id = src_id_from (hash bytes); key = key })
  ]

-- A data file with the id of its header.
unfoldable pub open_data_file :
    {B : Type 0} → (ℕ → Result OpenError B) → BhdFile → Result OpenError (List ℕ × B)
open_data_file open_bdt f = elim (open_bdt f.path) [ err e ↦ err e | ok bdt ↦ ok (f.src_id, bdt) ]

-- `files.retain`: the files that stay, and what was cached of the others.
unfoldable pub retain :
    (List ℕ → Option DvdbndRofsCached) → List BhdFile → List BhdFile × List Cached
retain cache_get [] = ([], [])
retain cache_get (f ∷ rest) =
    let (files, cached) = retain cache_get rest in
    elim (cache_get f.src_id) [
      | some c ↦ (files, (f.src_id, c) ∷ cached)
      | none ↦ (f ∷ files, cached)
    ]

module _ (mod_pow : ℕ → ℕ → ℕ → ℕ) (prefix_of : ℕ → Name) where
  -- A header's bytes, decrypted where there is a key.
  unfoldable pub decrypt_header : BhdFile → Result OpenError (List ℕ)
  unfolding decrypt_blocks_in_place
  decrypt_header f = elim f.key [
    | none ↦ ok f.bytes
    | some key ↦ elim (decrypt_blocks_in_place mod_pow key f.bytes) [
      | err e ↦ err (not_decrypted e)
      | ok r ↦ ok (take r.0 r.1)
    ]
  ]

  abbrev pub source_of : BhdFile → Bhd5File → BhdSource
  source_of f (bhd5_le file) = record {
    prefix = prefix_of f.path;
    order = little;
    bhd = file;
    src_id = f.src_id;
  }
  source_of f (bhd5_be file) = record {
    prefix = prefix_of f.path;
    order = big;
    bhd = file;
    src_id = f.src_id;
  }

  unfoldable pub parse_bhd : BhdFile → Result OpenError BhdSource
  unfolding decrypt_header bhd5_from_bytes
  parse_bhd f = elim (decrypt_header f) [
    | err e ↦ err e
    | ok bytes ↦ elim (bhd5_from_bytes bytes) [
      | err e ↦ err (not_parsed e)
      | ok file ↦ ok (source_of f file)
    ]
  ]

module _ (mod_pow : ℕ → ℕ → ℕ → ℕ) (prefix_of : ℕ → Name) (c : Config) (e : Eytzinger) (fuel : ℕ)
    (machine : Endian) where
  -- The filesystem, once the headers are read.
  unfoldable pub build_rofs :
      (List ℕ → Option DvdbndRofsCached)
      → Option Dictionary
      → List BhdFile
      → Option (Result OpenError DvdbndRofs)
  unfolding retain parse_bhd finish_rofs
  build_rofs cache_get dict files =
      let (left, cached) = retain cache_get files in
      elim (collect_ok (parse_bhd mod_pow prefix_of) left) [
        | err x ↦ some (err x)
        | ok bhds ↦ Option.map (or_error not_stored) (finish_rofs c e fuel machine dict bhds cached)
      ]

  -- `from_keys_and_dict`: the filesystem and the data files by the ids of their headers.
  unfoldable pub from_keys_and_dict :
      {B : Type 0}
      → (ℕ → Result OpenError (List ℕ))
      → (List ℕ → ℕ)
      → (ℕ → Result OpenError B)
      → (List ℕ → Option DvdbndRofsCached)
      → Option Dictionary
      → List (ℕ × Option RsaKey)
      → Option (Result OpenError (DvdbndRofs × SrcIdMap B))
  unfolding read_header open_data_file build_rofs extend
  from_keys_and_dict read hash open_bdt cache_get dict keys =
      elim (collect_ok (read_header read hash) keys) [
        | err x ↦ some (err x)
        | ok files ↦ elim (collect_ok (open_data_file open_bdt) files) [
          | err x ↦ some (err x)
          | ok bdts ↦
              Option.map (λ r. elim r [ err x ↦ err x | ok fs ↦ ok (fs, extend [] bdts) ])
                (build_rofs cache_get dict files)
        ]
      ]

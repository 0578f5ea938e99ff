-- ===== src/Mount/Opened.antt =====
-- src/dvdbnd/mount.rs: of which archives a mount has the data file and the store of encryption data.
pub mod Ids
mod Steps
use mathlib.Core.List.{Memᴰ}
use mathlib.Core.List.Memᴰ
use fsvfs.Unaligned.{Endian}
use fsvfs.Base.{
  ℕ, List, [], ◌∷◌, map, Bool-cases, true, false, Option, none, some, ◌≡◌, refl, sym, ap, subst,
  ◌∙◌, ◌⊎◌, inl, inr, ◌↔◌, ◌>>=◌, some_inj, >>=-eq-some, Option-cases,
}
use fsvfs.Base.Results.{Result, ok, err, Result-cases, collect_ok, map-collect_ok, ok_inj}
use fsvfs.Rofs.Path.{same_name}
use fsvfs.Rofs.Layout.Names.{same_name→eq}
use fsvfs.Dvdbnd.Finish.{
  SrcIdMap, put_src, extend, BhdSource, ProcessedBhd, Cached, DvdbndRofs, cached_stores, stores_of,
  assemble_rofs, process_bhds, processed_bhd, finish_rofs, objects_from, values, cached_objects,
  src_id_from,
}
use mathlib.Core.Option
use fsvfs.Rofs.Object.Reduce.{merge_all}
use fsvfs.Rofs.Layout.{into_rofs}
use fsvfs.Dvdbnd.Builder.{process_bhd}
use fsvfs.Rofs.Path.{Name, Config}
use fsvfs.Dvdbnd.Dictionary.{Dictionary}
use fsvfs.Rofs.Node.{Eytzinger}
use fsvfs.Mount.Open.{
  BhdFile, DvdbndRofsCached, retain, decrypt_header, source_of, parse_bhd, build_rofs, not_parsed,
  from_keys_and_dict, read_header, open_data_file, OpenError, not_stored, or_error,
}
use fsvfs.Crypto.Rsa.{RsaKey}
use fsvfs.Bhd5.File.{Bhd5File, bhd5_le, bhd5_be, bhd5_from_bytes}
use fsvfs.Mount.Opened.Ids.{Among, ids, extend-Among, taken, swapped, ids-map, joined, from_none}
use fsvfs.Mount.Opened.Steps.{after_ok, next_ok, or_error_ok, paired_ok, some_ok, last_of}

-- The ids of the headers that were read.
abbrev src_ids : List BhdFile → List (List ℕ)
src_ids = map (λ f. f.src_id)

-- Each header is either parsed or taken from the cache.
retain-Among :
    (cache_get : List ℕ → Option DvdbndRofsCached) (x : List ℕ) (files : List BhdFile)
    → Among x (src_ids files)
      ↔ (Among x (ids (retain cache_get files).1) ⊎ Among x (src_ids (retain cache_get files).0))
unfolding retain
retain-Among cache_get x [] = (inr, λ h. elim h [ inl m ↦ m | inr m ↦ m ])
retain-Among cache_get x (f ∷ rest) =
    let later = retain-Among cache_get x rest in
    let (left, cached) = retain cache_get rest in
    elim (Option-cases (cache_get f.src_id)) [
      | inl absent ↦ rw (absent, retain) (swapped (taken x f.src_id _ _ _ (swapped later)))
      | inr (c, there) ↦ rw (there, retain) (taken x f.src_id _ _ _ later)
    ]

module _ (c : Config) (e : Eytzinger) (fuel : ℕ) (machine : Endian) where
  assemble_rofs-store :
      (processed : List ProcessedBhd) (cached : List Cached) (fs : DvdbndRofs)
      → assemble_rofs c e fuel processed cached ≡ some fs
      → fs.encryption_store ≡ extend (cached_stores cached) (stores_of processed)
  unfolding assemble_rofs
  assemble_rofs-store processed cached fs made =
      let (inner, same) =
        last_of (objects_from c processed)
          (λ objects. merge_all (values (extend (cached_objects cached) objects)))
          (into_rofs e fuel)
          (λ inner. record {
            inner = inner;
            encryption_store = extend (cached_stores cached) (stores_of processed);
          })
          fs made in
      sym (ap (λ r. r.encryption_store) same)

  processed_bhd-src_id :
      (dict : Option Dictionary) (b : BhdSource) (p : ProcessedBhd)
      → processed_bhd machine dict b ≡ ok p
      → p.src_id ≡ b.src_id
  unfolding processed_bhd
  processed_bhd-src_id dict b p made =
      let (made, _, same) =
        next_ok (process_bhd machine dict b.bhd b.prefix b.src_id) (λ e. e)
          (λ made. ok (record { files = made.0; store = made.1; src_id = b.src_id })) p made in
      sym (ap (λ r. r.src_id) (ok_inj _ p same))

  -- The ids of the store are those of the headers and of what was cached.
  finish_rofs-Among :
      (dict : Option Dictionary) (bhds : List BhdSource) (cached : List Cached) (fs : DvdbndRofs)
      (x : List ℕ)
      → finish_rofs c e fuel machine dict bhds cached ≡ some (ok fs)
      → Among x (ids fs.encryption_store)
        ↔ (Among x (ids cached) ⊎ Among x (map (λ b. b.src_id) bhds))
  unfolding finish_rofs process_bhds
  finish_rofs-Among dict bhds cached fs x made =
      let (processed, of_bhds, assembled) =
        after_ok (process_bhds machine dict bhds) (λ x. x)
          (λ processed. Option.map ok (assemble_rofs c e fuel processed cached)) fs made in
      let one = some_ok (assemble_rofs c e fuel processed cached) fs assembled in
      let same_ids =
        map-collect_ok (processed_bhd machine dict) (λ b. b.src_id) (λ p. p.src_id)
          (processed_bhd-src_id dict) bhds processed of_bhds in
      let cached_part : Among x (ids (cached_stores cached)) ↔ Among x (ids cached) =
        subst (λ l. Among x (ids (cached_stores cached)) ↔ Among x l)
          (ids-map (λ e. (e.0, e.1.1)) cached) (from_none x (map (λ e. (e.0, e.1.1)) cached)) in
      let whole : Among x (ids (extend (cached_stores cached) (stores_of processed)))
          ↔ (Among x (ids (cached_stores cached)) ⊎ Among x (map (λ b. b.src_id) bhds)) =
        subst
          (λ l.
            Among x (ids (extend (cached_stores cached) (stores_of processed)))
            ↔ (Among x (ids (cached_stores cached)) ⊎ Among x l))
          (ids-map (λ p. (p.src_id, p.store)) processed ∙ same_ids)
          (extend-Among x (cached_stores cached) (stores_of processed)) in
      subst (λ m. Among x (ids m) ↔ (Among x (ids cached) ⊎ Among x (map (λ b. b.src_id) bhds)))
        (sym (assemble_rofs-store processed cached fs one)) (joined whole cached_part)

module _ (mod_pow : ℕ → ℕ → ℕ → ℕ) (prefix_of : ℕ → Name) where
  source_of-src_id :
      (f : BhdFile) (file : Bhd5File) → (source_of mod_pow prefix_of f file).src_id ≡ f.src_id
  source_of-src_id f (bhd5_le file) = refl
  source_of-src_id f (bhd5_be file) = refl

  parse_bhd-src_id :
      (f : BhdFile) (b : BhdSource) → parse_bhd mod_pow prefix_of f ≡ ok b → b.src_id ≡ f.src_id
  unfolding parse_bhd
  parse_bhd-src_id f b made =
      let (bytes, _, parsed) =
        next_ok (decrypt_header mod_pow prefix_of f) (λ e. e)
          (λ bytes. elim (bhd5_from_bytes bytes) [
            | err e ↦ err (not_parsed e)
            | ok file ↦ ok (source_of mod_pow prefix_of f file)
          ])
          b made in
      let (file, _, same) =
        next_ok (bhd5_from_bytes bytes) not_parsed (λ file. ok (source_of mod_pow prefix_of f file))
          b parsed in
      sym (ap (λ r. r.src_id) (ok_inj _ b same)) ∙ source_of-src_id f file

  module _ (c : Config) (e : Eytzinger) (fuel : ℕ) (machine : Endian) where
    build_rofs-Among :
        (cache_get : List ℕ → Option DvdbndRofsCached) (dict : Option Dictionary)
        (files : List BhdFile) (fs : DvdbndRofs) (x : List ℕ)
        → build_rofs mod_pow prefix_of c e fuel machine cache_get dict files ≡ some (ok fs)
        → Among x (ids fs.encryption_store) ↔ Among x (src_ids files)
    unfolding build_rofs
    build_rofs-Among cache_get dict files fs x made =
        let (left, cached) = retain cache_get files in
        let (bhds, of_left, made₁) =
          after_ok (collect_ok (parse_bhd mod_pow prefix_of) left) (λ e. e)
            (λ bhds.
              Option.map (or_error not_stored) (finish_rofs c e fuel machine dict bhds cached))
            fs made in
        let finished =
          or_error_ok (finish_rofs c e fuel machine dict bhds cached) not_stored fs made₁ in
        let same_ids =
          map-collect_ok (parse_bhd mod_pow prefix_of) (λ f. f.src_id) (λ b. b.src_id)
            parse_bhd-src_id left bhds of_left in
        let whole : Among x (ids fs.encryption_store)
            ↔ (Among x (ids cached) ⊎ Among x (src_ids left)) =
          subst (λ l. Among x (ids fs.encryption_store) ↔ (Among x (ids cached) ⊎ Among x l))
            same_ids (finish_rofs-Among c e fuel machine dict bhds cached fs x finished) in
        let split = retain-Among cache_get x files in
        (λ m. split.1 (whole.0 m), λ m. whole.1 (split.0 m))

module _ (read : ℕ → Result OpenError (List ℕ)) (hash : List ℕ → ℕ) where
  -- The id of a header by its path.
  abbrev pub header_id : ℕ → List ℕ
  header_id path = elim (read path) [ err e ↦ [] | ok bytes ↦ src_id_from (hash bytes) ]

  read_header-src_id :
      (k : ℕ × Option RsaKey) (f : BhdFile)
      → read_header read hash k ≡ ok f
      → f.src_id ≡ header_id k.0
  unfolding read_header
  read_header-src_id k f made =
      let (bytes, there, same) =
        next_ok (read k.0) (λ e. e)
          (λ bytes.
            ok (record { path = k.0; bytes = bytes; src_id = src_id_from (hash bytes); key = k.1 }))
          f made in
      sym (ap (λ r. r.src_id) (ok_inj _ f same))
      ∙ ap (λ r. elim r [ err e ↦ [] | ok bytes ↦ src_id_from (hash bytes) ]) (sym there)

open_data_file-src_id :
    {B : Type 0} (open_bdt : ℕ → Result OpenError B) (f : BhdFile) (b : List ℕ × B)
    → open_data_file open_bdt f ≡ ok b
    → b.0 ≡ f.src_id
unfolding open_data_file
open_data_file-src_id open_bdt f b made =
    let (bdt, _, same) = next_ok (open_bdt f.path) (λ e. e) (λ bdt. ok (f.src_id, bdt)) b made in
    sym (ap (λ r. r.0) (ok_inj _ b same))

module _ (mod_pow : ℕ → ℕ → ℕ → ℕ) (prefix_of : ℕ → Name) (c : Config) (e : Eytzinger) (fuel : ℕ)
    (machine : Endian) where
  -- Where the mount succeeds, with or without cached objects: an id is in the store of encryption data exactly if it is
  -- that of one of the headers, and the same holds of the data files.
  pub from_keys_and_dict-ids :
      {B : Type 0} (read : ℕ → Result OpenError (List ℕ)) (hash : List ℕ → ℕ)
      (open_bdt : ℕ → Result OpenError B) (cache_get : List ℕ → Option DvdbndRofsCached)
      (dict : Option Dictionary) (keys : List (ℕ × Option RsaKey)) (fs : DvdbndRofs)
      (bdts : SrcIdMap B) (x : List ℕ)
      → from_keys_and_dict mod_pow prefix_of c e fuel machine read hash open_bdt cache_get dict keys
        ≡ some (ok (fs, bdts))
      → (Memᴰ x (ids fs.encryption_store) ↔ Memᴰ x (map (λ k. header_id read hash k.0) keys))
        × (Memᴰ x (ids bdts) ↔ Memᴰ x (map (λ k. header_id read hash k.0) keys))
  unfolding from_keys_and_dict
  from_keys_and_dict-ids read hash open_bdt cache_get dict keys fs bdts x made =
      let (files, of_keys, made₁) =
        after_ok (collect_ok (read_header read hash) keys) (λ e. e)
          (λ files. elim (collect_ok (open_data_file open_bdt) files) [
            | err x ↦ some (err x)
            | ok bdts ↦
                Option.map (λ r. elim r [ err x ↦ err x | ok fs ↦ ok (fs, extend [] bdts) ])
                  (build_rofs mod_pow prefix_of c e fuel machine cache_get dict files)
          ])
          (fs, bdts) made in
      let (opened, of_files, made₂) =
        after_ok (collect_ok (open_data_file open_bdt) files) (λ e. e)
          (λ bdts.
            Option.map (λ r. elim r [ err x ↦ err x | ok fs ↦ ok (fs, extend [] bdts) ])
              (build_rofs mod_pow prefix_of c e fuel machine cache_get dict files))
          (fs, bdts) made₁ in
      let (finished, same) =
        paired_ok (build_rofs mod_pow prefix_of c e fuel machine cache_get dict files) fs
          (extend [] opened) bdts made₂ in
      let headers =
        map-collect_ok (read_header read hash) (λ k. header_id read hash k.0) (λ f. f.src_id)
          (read_header-src_id read hash) keys files of_keys in
      let data_files =
        map-collect_ok (open_data_file open_bdt) (λ f. f.src_id) (λ b. b.0)
          (open_data_file-src_id open_bdt) files opened of_files in
      (
        subst (λ l. Memᴰ x (ids fs.encryption_store) ↔ Memᴰ x l) headers
            (build_rofs-Among mod_pow prefix_of c e fuel machine cache_get dict files fs x
              finished),
        subst (λ m. Memᴰ x (ids m) ↔ Memᴰ x (map (λ k. header_id read hash k.0) keys)) same
            (subst (λ l. Memᴰ x (ids (extend [] opened)) ↔ Memᴰ x l) (data_files ∙ headers)
              (from_none x opened)),
      )

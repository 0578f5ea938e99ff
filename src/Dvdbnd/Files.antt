-- ===== src/Dvdbnd/Files.antt =====
-- What is known of the files of one header.
use fsvfs.Base.{
  ℕ, List, [], ◌∷◌, ◌++◌, Option, none, some, ◌≡◌, refl, sym, ap, subst, ◌∙◌, All, length,
  append_assoc, append-nil,
}
use fsvfs.Base.Results.{ok, >>=-eq-ok, ok_inj}
use fsvfs.Rofs.Path.{Name}
use fsvfs.Unaligned.{Endian}
use fsvfs.Bhd5.Entry.{FileEntry, path_hash, file_offset, file_size, unpadded_file_size}
use fsvfs.Encryption.Ranges.{IsU64, AreStored}
use fsvfs.Bhd5.Buckets.{Encryption}
use fsvfs.Encryption.Store.{
  Range, store_ranges, sort_ranges, range_count, index_or, store_encryption, load, header_bytes,
  ranges_bytes,
}
use fsvfs.Encryption.Loaded.{load-store_encryption}
use fsvfs.Mount.Read.{DvdbndFile}
use fsvfs.Dvdbnd.Builder.{Hashes, path_of, or_zero, store_some, file_of, files_of}

module _ (o : Endian) where
  -- Encryption data with a key of 16 bytes, and with bounds of 64 bits.
  abbrev pub HasKey : Option Encryption → Type 0
  HasKey none = Unit
  HasKey (some x) = (length x.key ≡ 16) × All IsU64 x.ranges

  -- An id loads the key and the ranges of the encryption data, and there is none without.
  abbrev pub IsLoaded : List ℕ → FileEntry → Option Encryption → Option ℕ → Type 0
  IsLoaded store entry none id = id ≡ none
  IsLoaded store entry (some x) id =
      (i : ℕ) × (id ≡ some i)
      × (ranges : List Range) × AreStored entry x.ranges ranges
      × (load o i store ≡ some (x.key, ranges))

  store_encryption-append :
      (entry : FileEntry) (x : Encryption) (out : List ℕ) (r : ℕ × List ℕ)
      → store_encryption o entry x out ≡ ok r
      → (more : List ℕ) × (r.1 ≡ out ++ more)
  unfolding store_encryption
  store_encryption-append entry x out r h =
      let (found, first, e₁) = >>=-eq-ok (store_ranges entry x.ranges) _ r h in
      let (count, second, e₂) = >>=-eq-ok (range_count o (length (sort_ranges found))) _ r e₁ in
      let (id, third, made) = >>=-eq-ok (index_or o (length out)) _ r e₂ in
      (
        header_bytes o x.key count ++ ranges_bytes o (sort_ranges found),
        ap (λ t. t.1) (sym (ok_inj (id, _) r made)),
      )

  store_some-append :
      (entry : FileEntry) (x : Option Encryption) (out : List ℕ) (r : Option ℕ × List ℕ)
      → store_some o entry x out ≡ ok r
      → (more : List ℕ) × (r.1 ≡ out ++ more)
  unfolding store_some
  store_some-append entry none out r h =
      ([], ap (λ t. t.1) (sym (ok_inj (none, out) r h)) ∙ sym (append-nil out))
  store_some-append entry (some x) out r h =
      let (s, stored, made) = >>=-eq-ok (store_encryption o entry x out) _ r h in
      let (more, same) = store_encryption-append entry x out s stored in
      (more, ap (λ t. t.1) (sym (ok_inj (some s.0, s.1) r made)) ∙ same)

  store_some-IsLoaded :
      (entry : FileEntry) (x : Option Encryption) (out : List ℕ) (r : Option ℕ × List ℕ)
      (more : List ℕ)
      → store_some o entry x out ≡ ok r
      → HasKey x
      → IsLoaded (r.1 ++ more) entry x r.0
  unfolding store_some
  store_some-IsLoaded entry none out r more h k = ap (λ t. t.0) (sym (ok_inj (none, out) r h))
  store_some-IsLoaded entry (some x) out r more h k =
      let (s, stored, made) = >>=-eq-ok (store_encryption o entry x out) _ r h in
      let (ranges, are_stored, loads) =
        load-store_encryption o entry x out s.0 s.1 more stored k.0 k.1 in
      subst (λ t. IsLoaded (t.1 ++ more) entry (some x) t.0) (ok_inj (some s.0, s.1) r made)
        (s.0, refl, ranges, are_stored, loads)

module _ (o : Endian) (hashes : Option Hashes) (name : Name) (src_id : List ℕ) where
  -- A length of 0 stands for none.
  abbrev pub IsUnpadded : Option ℕ → ℕ → Type 0
  IsUnpadded none n = n ≡ 0
  IsUnpadded (some m) n = n ≡ m

  -- A file has the path, the offset and the sizes of its entry.
  abbrev pub IsFileOf : FileEntry → Name × DvdbndFile → Type 0
  IsFileOf entry (path, file) =
      (path ≡ path_of hashes name (path_hash entry))
      × (file.data_offset ≡ file_offset entry)
      × (file.len ≡ file_size entry)
      × IsUnpadded (unpadded_file_size entry) file.unpadded_len
      × (file.src_id ≡ src_id)

  or_zero-IsUnpadded : (n : Option ℕ) → IsUnpadded n (or_zero n)
  or_zero-IsUnpadded none = refl
  or_zero-IsUnpadded (some n) = refl

  file_of-IsFileOf :
      (entry : FileEntry) (id : Option ℕ) → IsFileOf entry (file_of hashes name src_id entry id)
  file_of-IsFileOf entry id =
      (refl, refl, refl, or_zero-IsUnpadded (unpadded_file_size entry), refl)

  -- The files of entries with their encryption data, in a store.
  abbrev pub AreFiles :
      List ℕ → List FileEntry → List (Option Encryption) → List (Name × DvdbndFile) → Type 0
  AreFiles store [] encryption files = files ≡ []
  AreFiles store (entry ∷ entries) [] files = files ≡ []
  AreFiles store (entry ∷ entries) (x ∷ encryption) [] = ⊥
  AreFiles store (entry ∷ entries) (x ∷ encryption) (file ∷ files) =
      IsFileOf entry file
      × IsLoaded o store entry x file.1.encryption_id
      × AreFiles store entries encryption files

  files_of-append :
      (entries : List FileEntry) (encryption : List (Option Encryption)) (out : List ℕ)
      (r : List (Name × DvdbndFile) × List ℕ)
      → files_of o hashes name src_id entries encryption out ≡ ok r
      → (more : List ℕ) × (r.1 ≡ out ++ more)
  unfolding files_of
  files_of-append [] encryption out r h =
      ([], ap (λ t. t.1) (sym (ok_inj ([], out) r h)) ∙ sym (append-nil out))
  files_of-append (entry ∷ entries) [] out r h =
      ([], ap (λ t. t.1) (sym (ok_inj ([], out) r h)) ∙ sym (append-nil out))
  files_of-append (entry ∷ entries) (x ∷ encryption) out r h =
      let (s, stored, e₁) = >>=-eq-ok (store_some o entry x out) _ r h in
      let (rest, others, made) =
        >>=-eq-ok (files_of o hashes name src_id entries encryption s.1) _ r e₁ in
      let (a, first) = store_some-append o entry x out s stored in
      let (b, second) = files_of-append entries encryption s.1 rest others in
      (
        a ++ b,
        ap (λ t. t.1) (sym (ok_inj (_, rest.1) r made))
            ∙ second
            ∙ ap (λ t. t ++ b) first
            ∙ append_assoc out a b,
      )

  -- If the entries of a header and their encryption data, each with a key of 16 bytes and bounds of 64 bits, are
  -- processed without an error: the files are those of the entries that have an item of encryption data, in order, each
  -- with the path, the offset and the sizes of its entry and the id of the source; and in the store that is made of all
  -- of them, each file's id still loads the key and the ranges of its own entry, those that are not empty sorted by
  -- their end, and only a file without encryption data has no id.
  pub files_of-AreFiles :
      (entries : List FileEntry) (encryption : List (Option Encryption)) (out : List ℕ)
      (r : List (Name × DvdbndFile) × List ℕ)
      → files_of o hashes name src_id entries encryption out ≡ ok r
      → All (HasKey o) encryption
      → AreFiles r.1 entries encryption r.0
  unfolding files_of
  files_of-AreFiles [] encryption out r h keys = ap (λ t. t.0) (sym (ok_inj ([], out) r h))
  files_of-AreFiles (entry ∷ entries) [] out r h keys = ap (λ t. t.0) (sym (ok_inj ([], out) r h))
  files_of-AreFiles (entry ∷ entries) (x ∷ encryption) out r h keys =
      let (s, stored, e₁) = >>=-eq-ok (store_some o entry x out) _ r h in
      let (rest, others, made) =
        >>=-eq-ok (files_of o hashes name src_id entries encryption s.1) _ r e₁ in
      let (b, behind) = files_of-append entries encryption s.1 rest others in
      let loads = store_some-IsLoaded o entry x out s b stored keys.0 in
      subst (λ t. AreFiles t.1 (entry ∷ entries) (x ∷ encryption) t.0)
        (ok_inj (file_of hashes name src_id entry s.0 ∷ rest.0, rest.1) r made)
        (
          file_of-IsFileOf entry s.0,
          subst (λ t. IsLoaded o t entry x s.0) (sym behind) loads,
          files_of-AreFiles entries encryption s.1 rest others keys.1,
        )

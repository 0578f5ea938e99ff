-- ===== src/Mount/Replies.antt =====
-- The replies of the handlers to lookups, attributes and reads.
use fsvfs.Base.{
  ℕ, ◌+◌, ◌-◌, ◌==◌, ==_iff, min, List, true, Option, Option-cases, none, some, some_inj, ◌≡◌, refl,
  ap, ap₂, subst, ◌∙◌, ◌⊎◌, inl, inr, arith,
}
use fsvfs.Base.Results.{ok, ok_inj}
use fsvfs.Rofs.Path.{Name, Config}
use fsvfs.Rofs.Node.{Eytzinger, Rofs}
use fsvfs.Rofs.Lookup.{Entry, EntryKind, file_entry, entry, lookup_in_dir}
use fsvfs.Rofs.Lookup
use fsvfs.Aligned.Read.{IoError}
use fsvfs.Aligned.Streams.{slice, Holds}
use fsvfs.Mount.Read.{DvdbndFile, unpadded_len, read_plain, collect, Reading, finished}
use fsvfs.Mount.Plain.{clamped, IsStored, read_plain-collect}
use fsvfs.Mount.Decrypt.{Storage, read_opened, read_encrypted, read_file}
use fsvfs.Mount.Fuser.{enoent, FileAttr, file_attr}
use fsvfs.Mount.Handlers.{lookup, getattr, read, read_part, found_or}

Result-cases :
    (r : Lookup.Result ℕ)
    → ((a : ℕ) × (r ≡ Lookup.ok a))
      ⊎ (r ≡ Lookup.err Lookup.not_found)
      ⊎ (r ≡ Lookup.err Lookup.is_dir)
Result-cases (Lookup.ok a) = inl (a, refl)
Result-cases (Lookup.err Lookup.not_found) = inr (inl refl)
Result-cases (Lookup.err Lookup.is_dir) = inr (inr refl)

module _ (c : Config) (e : Eytzinger) (fs : Rofs DvdbndFile) (timestamp : ℕ) where
  replied :
      (ino : ℕ) (r : Lookup.Result (Entry DvdbndFile)) (attr : FileAttr)
      → entry c fs ino ≡ some r
      → found_or enoent (some r) (λ x. some (ok (file_attr timestamp ino x))) ≡ some (ok attr)
      → getattr c e fs timestamp attr.ino ≡ some (ok attr)
  unfolding getattr file_attr
  replied ino (Lookup.err _) attr found h = absurd (cc)
  replied ino (Lookup.ok x) attr found h =
      let same : file_attr timestamp ino x ≡ attr = ok_inj _ attr (some_inj _ (ok attr) h) in
      let number : ino ≡ attr.ino = ap (λ t. t.ino) same in
      subst (λ t. getattr c e fs timestamp t ≡ some (ok attr)) number
        (rw (getattr, found) (ap (λ t. some (ok t)) same))

  -- The attributes that a lookup replies with are those that the inode in them has.
  pub getattr-lookup :
      (parent : ℕ) (name : Option Name) (attr : FileAttr)
      → lookup c e fs timestamp parent name ≡ some (ok attr)
      → getattr c e fs timestamp attr.ino ≡ some (ok attr)
  unfolding lookup getattr file_attr
  getattr-lookup parent none attr h = absurd (cc)
  getattr-lookup parent (some name) attr h =
      elim (Result-cases (lookup_in_dir c e fs parent name)) [
        | inl (ino, at) ↦ elim (Option-cases (entry c fs ino)) [
          | inl panics ↦ absurd (cc (rw (lookup, at, panics) at h))
          | inr (r, found) ↦ replied ino r attr found (rw (lookup, at, found) at h)
        ]
        | inr (inl missed) ↦ absurd (cc (rw (lookup, missed) at h))
        | inr (inr missed) ↦ absurd (cc (rw (lookup, missed) at h))
      ]

same_test : (n : ℕ) → (n == n) ≡ true
same_test n = (==_iff n n).1 refl

module _ (c : Config) (fs : Rofs DvdbndFile) (storage : Storage) where
  pub read_opened-plain :
      (file : DvdbndFile) (offset len : ℕ)
      → file.encryption_id ≡ none
      → read_opened c fs storage file offset len ≡ read_plain (storage.archive file) file offset len
  read_opened-plain file offset len plain =
      ap
        (λ i. elim i as (λ x. Reading IoError) [
          | none ↦ read_plain (storage.archive file) file offset len
          | some id ↦
              read_encrypted (storage.decrypt file id) storage.window (storage.archive file) file
                offset len
        ])
        plain

  read-given :
      (ino offset size : ℕ) (x : Entry DvdbndFile) (file : DvdbndFile) (chunks : List (List ℕ × ℕ))
      → entry c fs ino ≡ some (Lookup.ok x)
      → x.kind ≡ file_entry file
      → file.encryption_id ≡ none
      → read_plain
          (storage.archive file)
          file
          (read_part c fs file offset size).0
          (read_part c fs file offset size).1
        ≡ record { given = chunks; ending = finished }
      → read c fs storage true ino ino offset size ≡ some (ok (collect chunks))
  unfolding read read_file
  read-given ino offset size x file chunks found is_file plain given =
      let (o, n) = read_part c fs file offset size in
      let opened = read_opened-plain file o n plain ∙ given in
      rw (read, same_test ino, found, is_file, read_file, found, is_file, opened) refl

  -- A read of a file without encryption, through a handle of its own inode, where the system reads the bytes of an
  -- archive in which the file is stored, with at most one buffer of the pool in a call: the reply is the bytes of the
  -- file from the offset on, as many as were asked for or as the unpadded length has left.
  pub read-slice :
      (ino offset size : ℕ) (x : Entry DvdbndFile) (file : DvdbndFile) (bytes : List ℕ)
      → entry c fs ino ≡ some (Lookup.ok x)
      → x.kind ≡ file_entry file
      → file.encryption_id ≡ none
      → Holds (storage.archive file) bytes
      → IsStored file bytes
      → let (o, n) = clamped file offset size in
        read c fs storage true ino ino offset size
        ≡ some (ok (slice bytes (file.data_offset + o) (file.data_offset + o + n)))
  read-slice ino offset size x file bytes found is_file plain holds stored =
      let o = min offset (unpadded_len file) in
      let n = min size (unpadded_len file - o) in
      let (chunks, given, run, same) =
        read_plain-collect (storage.archive file) bytes file o n holds stored in
      let part : n ≡ min (unpadded_len file - o) size = omega arith in
      let o_again : min o (unpadded_len file) ≡ o = omega arith in
      let n_again : min n (unpadded_len file - min o (unpadded_len file)) ≡ n = omega arith in
      read-given ino offset size x file chunks found is_file plain (
        subst
          (λ t.
            read_plain (storage.archive file) file o t
            ≡ record { given = chunks; ending = finished })
          part given)
      ∙ ap (λ t. some (ok t)) same
      ∙ ap₂ (λ a b. some (ok (slice bytes (file.data_offset + a) (file.data_offset + a + b))))
          o_again n_again

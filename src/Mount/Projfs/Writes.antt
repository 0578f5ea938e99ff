-- ===== src/Mount/Projfs/Writes.antt =====
-- src/dvdbnd/mount/projfs.rs: what a read of a file writes.
use fsvfs.Base.{ℕ, ◌+◌, ◌-◌, List, [], ◌∷◌, Bool, true, none, some, ◌≡◌, refl, ◌∙◌, min}
use fsvfs.Base.Results.{ok}
use fsvfs.Rofs.Path.{Name, Config}
use fsvfs.Rofs.Node.{Eytzinger, Rofs}
use fsvfs.Rofs.Lookup.{Entry, EntryKind, file_entry, lookup, entry}
use fsvfs.Rofs.Lookup
use fsvfs.Aligned.Streams.{slice, Holds}
use fsvfs.Mount.Read.{DvdbndFile, unpadded_len, collect, finished}
use fsvfs.Mount.Plain.{IsRun, IsStored, read_plain-collect}
use fsvfs.Mount.Decrypt.{Storage, read_file, read_opened}
use fsvfs.Mount.Replies.{read_opened-plain}
use fsvfs.Mount.Projfs.Callbacks.{s_ok, e_pending, write_all, call_async, get_file_data}

module _ (write : List ℕ × ℕ → Bool) (writes : (chunk : List ℕ × ℕ) → write chunk ≡ true) where
  write_all-written :
      (chunks : List (List ℕ × ℕ)) → write_all write finished chunks ≡ (s_ok, chunks)
  unfolding write_all
  write_all-written [] = refl
  write_all-written (chunk ∷ rest) = rw (writes chunk, write_all-written rest) refl

  module _ (c : Config) (e : Eytzinger) (fs : Rofs DvdbndFile) (storage : Storage) where
    call_async-chunks :
        (inode o n : ℕ) (x : Entry DvdbndFile) (file : DvdbndFile) (chunks : List (List ℕ × ℕ))
        → entry c fs inode ≡ some (Lookup.ok x)
        → x.kind ≡ file_entry file
        → read_opened c fs storage file o n ≡ record { given = chunks; ending = finished }
        → call_async write c e fs storage true inode o n
          ≡ record { code = e_pending; completed = some s_ok; sent = chunks }
    unfolding call_async read_file
    call_async-chunks inode o n x file chunks found is_file given =
        rw (read_file, found, is_file, given, write_all-written chunks) refl

    -- A path that leads to a file without encryption, where the system reads the bytes of an archive in which the
    -- file is stored, with at most one buffer of the pool in a call, the dispatcher takes the task and the system takes what is written: the callback says that the
    -- answer is pending, the command is completed with success, and the pieces that are written follow on one
    -- another from the offset on, none of them empty, and are together the bytes of the file from the offset on, as
    -- many as were asked for or as the unpadded length has left.
    pub get_file_data-slice :
        (path : Name) (inode offset len : ℕ) (x : Entry DvdbndFile) (file : DvdbndFile)
        (bytes : List ℕ)
        → lookup c e fs path ≡ Lookup.ok inode
        → entry c fs inode ≡ some (Lookup.ok x)
        → x.kind ≡ file_entry file
        → file.encryption_id ≡ none
        → Holds (storage.archive file) bytes
        → IsStored file bytes
        → let o = min offset (unpadded_len file) in
          let n = min len (unpadded_len file - o) in
          (chunks : List (List ℕ × ℕ)) × (get_file_data write c e fs storage true true
              (ok path)
              offset
              len
            ≡ record { code = e_pending; completed = some s_ok; sent = chunks })
          × IsRun o chunks (o + n)
          × (collect chunks ≡ slice bytes (file.data_offset + o) (file.data_offset + o + n))
    unfolding get_file_data
    get_file_data-slice path inode offset len x file bytes leads found is_file plain holds stored =
        let (chunks, given, run, same) =
          read_plain-collect (storage.archive file) bytes file offset len holds stored in
        (
          chunks,
          rw leads (
              call_async-chunks inode offset len x file chunks found is_file
                (read_opened-plain c fs storage file offset len plain ∙ given)),
          run,
          same,
        )

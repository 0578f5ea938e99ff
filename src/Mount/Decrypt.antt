-- ===== src/Mount/Decrypt.antt =====
-- src/dvdbnd/mount.rs: reads of files that are encrypted, and `read_file`. The decryption of one piece of
-- ciphertext in its place, the trait's `EncryptionStore::decrypt`, is a parameter; Encryption/Aes has its
-- implementation.
use fsvfs.Base.{
  ℕ, ◌+◌, ◌-◌, ◌%◌, ◌^◌, ltb, leb, ◌||◌, Bool, true, min, List, [], ◌∷◌, if◌then◌else◌, Option,
  none, some, ◌>>=◌, take, length,
}
use fsvfs.Base.Results.{Result, ok, err}
use fsvfs.Rofs.Path.{Config}
use fsvfs.Rofs.Node.{Rofs}
use fsvfs.Rofs.Lookup.{dir_entries, file_entry, entry}
use fsvfs.Rofs.Lookup
use fsvfs.Encryption.{
  ℤ, pos, negsuc, Buffer, Ciphertext, CiphertextBuffer, set_slot, prev, has_predecessor,
  empty_buffer, push, finish, is_empty, curr, from_buffer,
}
use fsvfs.Aligned.Read.{IoError, ReadAt, window_items}
use fsvfs.Mount.Read.{
  DvdbndFile, unpadded_len, deliver, finished, panicked, failed, Reading, ends, give, read_plain,
}

-- The assignment to the current buffer.
unfoldable pub set_curr : Buffer → CiphertextBuffer Buffer → CiphertextBuffer Buffer
unfolding has_predecessor
set_curr b cbuf = set_slot (if has_predecessor cbuf then prev cbuf.pos else cbuf.pos) (some b) cbuf

-- Whether a buffer starts before the range or behind it: one of the windows.
abbrev pub is_outside : ℕ → ℕ → ℤ → Bool
is_outside start end (pos n) = ltb n start || leb end n
is_outside start end (negsuc n) = true

-- The truncation to what is asked for, and the rest of a block.
abbrev pub truncated : ℕ → ℕ → List ℕ → List ℕ
truncated end file_offset bytes =
    let buffer_end = (file_offset + length bytes % 2 ^ 32) % 2 ^ 32 in
    if ltb buffer_end end
    then bytes
    else take (length bytes % 2 ^ 32 - (buffer_end - end) + 15) bytes

-- `as u32` of an offset.
abbrev pub as_u32 : ℤ → ℕ
as_u32 (pos n) = n % 2 ^ 32
as_u32 (negsuc n) = 2 ^ 32 - 1 - n % 2 ^ 32

module _ (decrypt : Ciphertext → Result IoError (List ℕ)) (start end : ℕ) where
  -- The loop's body behind the push: the window afterwards, and the buffer for the callback.
  unfoldable pub decrypt_curr :
      CiphertextBuffer Buffer → Option (Result IoError (CiphertextBuffer Buffer × Option Buffer))
  unfolding curr set_curr from_buffer
  decrypt_curr cbuf = curr cbuf >>= λ b.
      if is_outside start end b.offset
      then some (ok (cbuf, none))
      else (let cut =
            set_curr (record b { bytes = truncated end (as_u32 b.offset) b.bytes }) cbuf in
          from_buffer cut >>= λ ciphertext. some (elim (decrypt ciphertext) [
            | err e ↦ err e
            | ok body ↦
                ok (set_curr (record b { bytes = body }) cut, some (record b { bytes = body }))
          ]))

  -- `read_and_decrypt_file` over the items of the stream; each decrypted buffer is given to the callback of
  -- `read_file`, which knows the end of what was asked for.
  unfoldable pub decrypt_items :
      ℕ → List (Result IoError Buffer) → CiphertextBuffer Buffer → Reading IoError
  unfolding push finish decrypt_curr deliver
  decrypt_items limit [] cbuf = elim (decrypt_curr (finish cbuf)) [
    | none ↦ ends panicked
    | some (err e) ↦ ends (failed e)
    | some (ok (after, none)) ↦ ends finished
    | some (ok (after, some b)) ↦ give limit b (ends finished)
  ]
  decrypt_items limit (err e ∷ rest) cbuf = ends (failed e)
  decrypt_items limit (ok b ∷ rest) cbuf =
      let more = decrypt_items limit rest in
      let pushed = push b cbuf in
      if is_empty cbuf then more pushed else elim (decrypt_curr pushed) [
        | none ↦ ends panicked
        | some (err e) ↦ ends (failed e)
        | some (ok (after, none)) ↦ more after
        | some (ok (after, some out)) ↦ give limit out (more after)
      ]

-- The file behind an inode, or why there is none to read.
pub data ReadError : Type 0 where
  not_found is_dir : ReadError
  io : IoError → ReadError

abbrev pub as_read_error : Reading IoError → Reading ReadError
as_read_error r = record {
  given = r.given;
  ending = elim r.ending [ finished ↦ finished | panicked ↦ panicked | failed e ↦ failed (io e) ];
}

-- `file.encryption_id` with what `open` and `encryption_store` give for the file, `window` being `WINDOW_SIZE`.
unfoldable pub read_encrypted :
    (Ciphertext → Result IoError (List ℕ)) → ℕ → ReadAt → DvdbndFile → ℕ → ℕ → Reading IoError
unfolding window_items decrypt_items
read_encrypted decrypt window read_managed_at file offset requested =
    let file_len = unpadded_len file in
    let file_offset = min offset file_len in
    let len = min requested (file_len - file_offset) in
    let data_start = (file.data_offset + file_offset) % 2 ^ 64 in
    let start = (data_start + 2 ^ 64 - file.data_offset) % 2 ^ 32 in
    elim (window_items read_managed_at file.data_offset window data_start len file.len) [
      | none ↦ ends panicked
      | some items ↦
          decrypt_items decrypt start (start + len) (file_offset + len) items empty_buffer
    ]

-- What the mount has of the system and of the filesystem: the archive of a file, opened; the decryption with
-- the encryption store of a file's source; and `WINDOW_SIZE`.
pub record Storage : Type 0 where
  pub archive : DvdbndFile → ReadAt
  pub decrypt : DvdbndFile → ℕ → Ciphertext → Result IoError (List ℕ)
  pub window : ℕ

module _ (c : Config) (fs : Rofs DvdbndFile) (storage : Storage) where
  abbrev pub read_opened : DvdbndFile → ℕ → ℕ → Reading IoError
  read_opened file offset len = elim file.encryption_id [
    | none ↦ read_plain (storage.archive file) file offset len
    | some id ↦
        read_encrypted (storage.decrypt file id) storage.window (storage.archive file) file offset
          len
  ]

  -- `read_file`.
  unfoldable pub read_file : ℕ → ℕ → ℕ → Reading ReadError
  unfolding entry read_plain read_encrypted
  read_file inode offset len = elim (entry c fs inode) [
    | none ↦ ends panicked
    | some (Lookup.err e) ↦ ends (failed not_found)
    | some (Lookup.ok x) ↦ elim x.kind [
      | dir_entries start stop ↦ ends (failed is_dir)
      | file_entry file ↦ as_read_error (read_opened file offset len)
    ]
  ]

-- ===== src/Mount/Handlers.antt =====
-- src/dvdbnd/mount/fuser.rs: the handlers of the mount by the crate `fuser`.
use mathlib.Core.Option
use fsvfs.Base.{
  ℕ, ◌+◌, ◌-◌, ◌%◌, ◌^◌, ◌==◌, min, List, [], ◌∷◌, map, Bool, if◌then◌else◌, Option, none, some,
  drop,
}
use fsvfs.Base.Results.{Result, ok, err}
use fsvfs.Rofs.Path.{Name, Config}
use fsvfs.Rofs.Node.{Eytzinger, Rofs}
use fsvfs.Rofs.Lookup.{
  Entry, EntryKind, dir_entries, file_entry, lookup_in_dir, entry, iterate, file_count,
}
use fsvfs.Rofs.Lookup
use fsvfs.Mount.Read.{Reading, finished, panicked, failed, DvdbndFile, unpadded_len, collect}
use fsvfs.Mount.Decrypt.{ReadError, Storage, read_file}
use fsvfs.Mount.Fuser.{
  Errno, enosys, enoent, erofs, enotdir, estale, eio, enotsup, eacces, FileAttr, file_attr,
  block_size, max_name, div_ceil, OpenAccMode, is_rdonly, fill, numbered, DirEntry, dir_entry, Done,
  done,
}

-- The entry of an inode; an error is the one errno that the handler replies with.
abbrev pub found_or {ℓ} :
    {A : Type ℓ} {T : Type 0}
    → Errno
    → Option (Lookup.Result T)
    → (T → Option (Result Errno A))
    → Option (Result Errno A)
found_or errno none f = none
found_or errno (some (Lookup.err e)) f = some (err errno)
found_or errno (some (Lookup.ok x)) f = f x

-- `sum` of the archives' sizes in blocks.
abbrev pub sum_blocks : List ℕ → ℕ
sum_blocks [] = 0
sum_blocks (size ∷ sizes) = (div_ceil size block_size + sum_blocks sizes) % 2 ^ 64

pub record Statfs : Type 0 where
  pub blocks : ℕ
  pub bfree : ℕ
  pub bavail : ℕ
  pub files : ℕ
  pub ffree : ℕ
  pub bsize : ℕ
  pub namelen : ℕ
  pub frsize : ℕ

module _ (c : Config) (e : Eytzinger) (fs : Rofs DvdbndFile) (timestamp : ℕ) where
  -- A name that is no UTF-8 text is `none`.
  unfoldable pub lookup : ℕ → Option Name → Option (Result Errno FileAttr)
  unfolding lookup_in_dir entry file_attr
  lookup parent none = some (err enosys)
  lookup parent (some name) = elim (lookup_in_dir c e fs parent name) [
    | Lookup.err _ ↦ some (err enoent)
    | Lookup.ok ino ↦ found_or enoent (entry c fs ino) (λ x. some (ok (file_attr timestamp ino x)))
  ]

  unfoldable pub getattr : ℕ → Option (Result Errno FileAttr)
  unfolding entry file_attr
  getattr ino = found_or enoent (entry c fs ino) (λ x. some (ok (file_attr timestamp ino x)))

-- `open`, which gives the inode as the handle.
abbrev pub open_file : ℕ → OpenAccMode → Result Errno ℕ
open_file ino mode = if is_rdonly mode then ok ino else err erofs

module _ (c : Config) (fs : Rofs DvdbndFile) where
  unfoldable pub opendir : ℕ → OpenAccMode → Option (Result Errno ℕ)
  unfolding entry
  opendir ino mode =
      if is_rdonly mode
      then found_or enoent (entry c fs ino) (λ x. elim x.kind [
        | dir_entries start stop ↦ some (ok ino)
        | file_entry file ↦ some (err enotdir)
      ])
      else some (err erofs)

  -- The part of a file that `read` asks for.
  abbrev pub read_part : DvdbndFile → ℕ → ℕ → ℕ × ℕ
  read_part file offset size =
      let file_offset = min offset (unpadded_len file) in
      (file_offset, min (unpadded_len file - file_offset) size)

  -- The reply once the read has ended.
  abbrev reply_of : Reading ReadError → Option (Result Errno (List ℕ))
  reply_of r = elim r.ending [
    | finished ↦ some (ok (collect r.given))
    | panicked ↦ none
    | failed e ↦ some (err eio)
  ]

  -- `read`; `dispatched` is whether the dispatcher took the task.
  unfoldable pub read : Storage → Bool → ℕ → ℕ → ℕ → ℕ → Option (Result Errno (List ℕ))
  unfolding entry read_file collect
  read storage dispatched ino fh offset size =
      if ino == fh
      then found_or estale (entry c fs ino) (λ x. elim x.kind [
        | dir_entries start stop ↦ some (err estale)
        | file_entry file ↦
            let (file_offset, len) = read_part file offset size in
            if dispatched
            then reply_of (read_file c fs storage ino file_offset len)
            else some (err eio)
      ])
      else some (err estale)

  unfoldable pub release : ℕ → ℕ → Option (Result Errno Done)
  unfolding entry
  release ino fh =
      if ino == fh
      then found_or estale (entry c fs ino) (λ x. elim x.kind [
        | dir_entries start stop ↦ some (err estale)
        | file_entry file ↦ some (ok done)
      ])
      else some (err estale)

  unfoldable pub releasedir : ℕ → ℕ → Option (Result Errno Done)
  unfolding entry
  releasedir ino fh =
      if ino == fh
      then found_or estale (entry c fs ino) (λ x. elim x.kind [
        | dir_entries start stop ↦ some (ok done)
        | file_entry file ↦ some (err estale)
      ])
      else some (err estale)

  -- The entries of a directory, each with the offset behind it. They are all computed first, so that a panic
  -- behind the last one that fits shows here.
  unfoldable pub listing : ℕ → Option (Result Errno (List (Entry DvdbndFile × ℕ)))
  unfolding entry iterate numbered
  listing ino = found_or enoent (entry c fs ino) (λ x. elim x.kind [
    | dir_entries start stop ↦ Option.map (λ xs. ok (numbered 1 xs)) (iterate c fs x.kind)
    | file_entry file ↦ some (err enoent)
  ])

  abbrev pub page :
      {B : Type 0}
      → (List B → B → Bool)
      → (Entry DvdbndFile × ℕ → B)
      → ℕ
      → Result Errno (List (Entry DvdbndFile × ℕ))
      → Result Errno (List B)
  page is_full show offset (err errno) = err errno
  page is_full show offset (ok xs) = ok (fill is_full [] (map show (drop offset xs)))

  unfoldable pub readdir :
      (List DirEntry → DirEntry → Bool) → ℕ → ℕ → Option (Result Errno (List DirEntry))
  unfolding listing fill
  readdir is_full ino offset = Option.map (page is_full dir_entry offset) (listing ino)

  abbrev pub dir_entry_plus : ℕ → Entry DvdbndFile × ℕ → DirEntry × FileAttr
  dir_entry_plus timestamp (x, next) = (dir_entry (x, next), file_attr timestamp x.inode x)

  unfoldable pub readdirplus :
      ℕ
      → (List (DirEntry × FileAttr) → DirEntry × FileAttr → Bool)
      → ℕ
      → ℕ
      → Option (Result Errno (List (DirEntry × FileAttr)))
  unfolding listing fill file_attr
  readdirplus timestamp is_full ino offset =
      Option.map (page is_full (dir_entry_plus timestamp) offset) (listing ino)

  -- The sizes of the archives are those that were read when they were opened.
  unfoldable pub statfs : List ℕ → Statfs
  statfs sizes = record {
    blocks = sum_blocks sizes;
    bfree = 0;
    bavail = 0;
    files = file_count c fs;
    ffree = 0;
    bsize = block_size;
    namelen = max_name;
    frsize = block_size;
  }

-- `fsync` and `fsyncdir`, `getxattr`, and `access` with whether the mask has `W_OK`.
abbrev pub fsync : Result Errno Done
fsync = ok done

abbrev pub getxattr : Result Errno Done
getxattr = err enotsup

abbrev pub access : Bool → Result Errno Done
access has_w_ok = if has_w_ok then err eacces else ok done

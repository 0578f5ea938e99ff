-- ===== src/Mount/Fuser.antt =====
-- src/dvdbnd/mount/fuser.rs: the handlers of the mount by the crate `fuser`. `ok` is a reply, `err` one with an
-- errno; `none` is a panic of the filesystem. Times are numbers.
use fsvfs.Base.{ℕ, suc, ◌+◌, ◌-◌, ◌/◌, List, [], ◌∷◌, ◌++◌, Bool, true, false, if◌then◌else◌}
use fsvfs.Rofs.Path.{Name}
use fsvfs.Rofs.Lookup.{Entry, EntryKind, dir_entries, file_entry}
use fsvfs.Mount.Read.{DvdbndFile, unpadded_len}

pub data Errno : Type 0 where
  enosys enoent erofs enotdir estale eio enotsup eacces : Errno

-- A reply without a value.
pub data Done : Type 0 where
  done : Done

pub data FileType : Type 0 where
  directory regular_file : FileType

pub record FileAttr : Type 0 where
  pub ino : ℕ
  pub size : ℕ
  pub blocks : ℕ
  pub atime : ℕ
  pub mtime : ℕ
  pub ctime : ℕ
  pub crtime : ℕ
  pub kind : FileType
  pub perm : ℕ
  pub nlink : ℕ
  pub uid : ℕ
  pub gid : ℕ
  pub rdev : ℕ
  pub blksize : ℕ
  pub flags : ℕ

abbrev pub max_name : ℕ
max_name = 255

abbrev pub block_size : ℕ
block_size = 512

-- The access mode of the flags to open with.
pub data OpenAccMode : Type 0 where
  rdonly wronly rdwr : OpenAccMode

abbrev pub is_rdonly : OpenAccMode → Bool
is_rdonly rdonly = true
is_rdonly wronly = false
is_rdonly rdwr = false

abbrev pub file_type : EntryKind DvdbndFile → FileType
file_type (dir_entries start stop) = directory
file_type (file_entry file) = regular_file

-- `div_ceil`.
abbrev pub div_ceil : ℕ → ℕ → ℕ
div_ceil a b = (a + (b - 1)) / b

abbrev pub size_of : EntryKind DvdbndFile → ℕ
size_of (dir_entries start stop) = 0
size_of (file_entry file) = unpadded_len file

unfoldable pub file_attr : ℕ → ℕ → Entry DvdbndFile → FileAttr
file_attr timestamp ino x = record {
  ino = ino;
  size = size_of x.kind;
  blocks = div_ceil (size_of x.kind) block_size;
  atime = timestamp;
  mtime = timestamp;
  ctime = timestamp;
  crtime = timestamp;
  kind = file_type x.kind;
  perm = 0o555;
  nlink = 1;
  uid = 0;
  gid = 0;
  rdev = 0;
  blksize = block_size;
  flags = 0;
}

-- A reply of a directory's listing: what was added, up to the first entry that does not fit. The reply's
-- `add` is a parameter: whether the entry is too much, after those that were added.
module _ {B : Type 0} (is_full : List B → B → Bool) where
  unfoldable pub fill : List B → List B → List B
  fill added [] = []
  fill added (x ∷ xs) =
      let rest = fill (added ++ x ∷ []) xs in if is_full added x then [] else x ∷ rest

-- `zip(1..)`.
unfoldable pub numbered : {B : Type 0} → ℕ → List B → List (B × ℕ)
numbered next [] = []
numbered next (x ∷ xs) = (x, next) ∷ numbered (suc next) xs

pub record DirEntry : Type 0 where
  pub inode : ℕ
  pub next : ℕ
  pub kind : FileType
  pub name : Name

abbrev pub dir_entry : Entry DvdbndFile × ℕ → DirEntry
dir_entry (x, next) = record {
  inode = x.inode;
  next = next;
  kind = file_type x.kind;
  name = x.name;
}

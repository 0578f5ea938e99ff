-- ===== src/Mount/Read.antt =====
-- src/dvdbnd/mount.rs: reads of files that are not encrypted; and the files themselves.
use fsvfs.Base.{
  ℕ, ◌+◌, ◌-◌, ◌%◌, ◌^◌, ◌==◌, min, List, [], ◌∷◌, ◌++◌, if◌then◌else◌, Option, none, some, take,
  length,
}
use fsvfs.Base.Results.{Result, ok, err}
use fsvfs.Encryption.{Buffer, u32_offset}
use fsvfs.Aligned.Read.{IoError, ReadAt, stream_items}

-- src/dvdbnd/filesystem.rs: `DvdbndFile`.
pub record DvdbndFile : Type 0 where
  pub data_offset : ℕ
  pub len : ℕ
  pub unpadded_len : ℕ
  pub src_id : List ℕ
  pub encryption_id : Option ℕ

abbrev pub unpadded_len : DvdbndFile → ℕ
unpadded_len file = if file.unpadded_len == 0 then file.len else file.unpadded_len

-- What the callback is given for a buffer, if anything. Sums of 32 bits wrap.
unfoldable pub deliver : ℕ → Buffer → Option (List ℕ × ℕ)
deliver end buffer = elim (u32_offset buffer.offset) [
  | none ↦ none
  | some file_offset ↦
      let buffer_end = (file_offset + length buffer.bytes % 2 ^ 32) % 2 ^ 32 in
      elim (take (min buffer_end end - file_offset) buffer.bytes) [
        | [] ↦ none
        | b ∷ bs ↦ some (b ∷ bs, file_offset)
      ]
]

-- How a read ends, and what it has given to its callback until then.
pub data Ending (E : Type 0) : Type 0 where
  finished panicked : Ending E
  failed : E → Ending E

pub record Reading (E : Type 0) : Type 0 where
  pub given : List (List ℕ × ℕ)
  pub ending : Ending E

abbrev pub ends : {E : Type 0} → Ending E → Reading E
ends e = record { given = []; ending = e }

-- A buffer is given in front of what follows.
abbrev pub give : {E : Type 0} → ℕ → Buffer → Reading E → Reading E
give end buffer more = elim (deliver end buffer) [
  | none ↦ more
  | some chunk ↦ record { given = chunk ∷ more.given; ending = more.ending }
]

-- The loop over a stream, up to the first error.
unfoldable pub deliver_all : ℕ → List (Result IoError Buffer) → Reading IoError
unfolding deliver
deliver_all end [] = ends finished
deliver_all end (err e ∷ rest) = ends (failed e)
deliver_all end (ok buffer ∷ rest) = give end buffer (deliver_all end rest)

-- `read_file` of a file without encryption, once it is open.
unfoldable pub read_plain : ReadAt → DvdbndFile → ℕ → ℕ → Reading IoError
unfolding stream_items deliver_all
read_plain read_managed_at file offset requested =
    let file_len = unpadded_len file in
    let file_offset = min offset file_len in
    let len = min requested (file_len - file_offset) in
    let data_start = (file.data_offset + file_offset) % 2 ^ 64 in
    elim (stream_items read_managed_at file.data_offset data_start len file.len) [
      | none ↦ ends panicked
      | some items ↦ deliver_all (file_offset + len) items
    ]

-- The bytes of all that the callback was given, which `Filesystem::read` collects.
unfoldable pub collect : List (List ℕ × ℕ) → List ℕ
collect [] = []
collect ((bytes, offset) ∷ rest) = bytes ++ collect rest

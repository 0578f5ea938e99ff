-- ===== src/Mount/Projfs/Callbacks.antt =====
-- src/dvdbnd/mount/projfs.rs: the callbacks of the Projected File System. What the system does in a callback is
-- a parameter: the decoding of the callback's path, `PrjFillDirEntryBuffer`, `PrjWritePlaceholderInfo` and
-- `PrjWriteFileData`. Callbacks run one after another.
use fsvfs.Base.{
  ℕ, suc, ◌==◌, List, [], ◌∷◌, ◌++◌, Bool, true, false, ◌&&◌, not, if◌then◌else◌, Option, none,
  some,
}
use fsvfs.Base.Results.{Result, ok, err}
use fsvfs.Rofs.Path.{Name, Config}
use fsvfs.Rofs.Node.{Eytzinger, Rofs}
use fsvfs.Rofs.Lookup.{EntryKind, dir_entries, file_entry, lookup, entry, iterate}
use fsvfs.Rofs.Lookup
use fsvfs.Encryption.{ℤ}
use fsvfs.Mount.Read.{DvdbndFile, Ending, finished, panicked, failed, Reading}
use fsvfs.Mount.Decrypt.{ReadError, Storage, read_file}
use fsvfs.Mount.Fuser.{Done, done}
use fsvfs.Mount.Projfs.{
  BasicInfo, file_basic_info, DirEnumeration, Shown, from_dir_iter, enumerate, set_pos, reset,
}
use fsvfs.Mount.Projfs.Table.{get, insert, remove}

-- The codes that the callbacks name, and any other of the system's.
pub data Hresult : Type 0 where
  s_ok e_abort e_fail e_invalidarg e_pending e_buffer : Hresult
  error_file_not_found error_directory : Hresult
  other : ℕ → Hresult

abbrev pub is_e_buffer : Hresult → Bool
is_e_buffer e_buffer = true
is_e_buffer s_ok = false
is_e_buffer e_abort = false
is_e_buffer e_fail = false
is_e_buffer e_invalidarg = false
is_e_buffer e_pending = false
is_e_buffer error_file_not_found = false
is_e_buffer error_directory = false
is_e_buffer (other n) = false

abbrev pub Enumerations : Type 0
Enumerations = List (ℕ × DirEnumeration)

-- What a callback's closure gives: its result, where `none` is a panic, and the state.
abbrev pub Outcome : Type 0 → Type 0
Outcome S = Option (Result Hresult Done) × S

abbrev pub code_of : Option (Result Hresult Done) → Hresult
code_of none = e_fail
code_of (some (ok done)) = s_ok
code_of (some (err code)) = code

-- `call`, with whether the context is alive.
unfoldable pub call : {S : Type 0} → Bool → (S → Outcome S) → S → Hresult × S
call alive f s = if alive then (let (r, after) = f s in (code_of r, after)) else (e_abort, s)

abbrev pub fails_with : {S : Type 0} → Hresult → S → Outcome S
fails_with code s = (some (err code), s)

module _ (c : Config) (e : Eytzinger) (fs : Rofs DvdbndFile) where
  -- What a path leads to, by `lookup` and `entry`: the code of the failure where there is none.
  unfoldable pub start_at : (List ℕ → List ℕ → ℤ) → ℕ → Name → Enumerations → Outcome Enumerations
  unfolding lookup entry iterate from_dir_iter insert
  start_at name_compare id path s = elim (lookup c e fs path) [
    | Lookup.err _ ↦ fails_with error_file_not_found s
    | Lookup.ok inode ↦ elim (entry c fs inode) [
      | none ↦ (none, s)
      | some (Lookup.err _) ↦ fails_with error_directory s
      | some (Lookup.ok x) ↦ elim x.kind [
        | file_entry file ↦ fails_with error_directory s
        | dir_entries start stop ↦ elim (iterate c fs x.kind) [
          | none ↦ (none, s)
          | some entries ↦ (some (ok done), insert id (from_dir_iter name_compare entries) s)
        ]
      ]
    ]
  ]

  unfoldable pub start_directory_enumeration :
      (List ℕ → List ℕ → ℤ) → Bool → Result Hresult Name → ℕ → Enumerations → Hresult × Enumerations
  unfolding call start_at
  start_directory_enumeration name_compare alive file_path id = call alive (λ s. elim file_path [
    | err code ↦ fails_with code s
    | ok path ↦ start_at name_compare id path s
  ])

  unfoldable pub get_placeholder_info :
      (BasicInfo → Result Hresult Done) → Bool → Result Hresult Name → Hresult
  unfolding call lookup entry
  get_placeholder_info write alive file_path =
      (call {S = Unit {0}} alive
        (λ s. elim file_path [
          | err code ↦ fails_with code s
          | ok path ↦ elim (lookup c e fs path) [
            | Lookup.err _ ↦ fails_with error_file_not_found s
            | Lookup.ok inode ↦ elim (entry c fs inode) [
              | none ↦ (none, s)
              | some (Lookup.err _) ↦ fails_with e_fail s
              | some (Lookup.ok x) ↦ (some (write (file_basic_info x)), s)
            ]
          ]
        ])
        tt).0

unfoldable pub end_directory_enumeration : Bool → ℕ → Enumerations → Hresult × Enumerations
unfolding call remove
end_directory_enumeration alive id = call alive (λ s. (some (ok done), remove id s))

-- What follows the loop of `get_directory_enumeration`.
abbrev pub filled :
    ℕ
    → DirEnumeration
    → Enumerations
    → Result Hresult ℕ × List Shown
    → Outcome (Enumerations × List Shown)
filled id dir s (ok end_pos, added) = (some (ok done), (insert id (set_pos end_pos dir) s, added))
filled id dir s (err code, added) = (some (err code), (insert id dir s, added))

module _ (fill_dir_entry_buffer : List Shown → Shown → Option Hresult) where
  -- The loop over the matching entries: the end position, or the code of the error, and what the buffer has.
  unfoldable pub fill_entries :
      ℕ → ℕ → List Shown → List (ℕ × Shown) → Result Hresult ℕ × List Shown
  fill_entries start_pos end_pos added [] = (ok end_pos, added)
  fill_entries start_pos end_pos added ((pos, shown) ∷ rest) =
      let more = fill_entries start_pos (suc pos) (added ++ shown ∷ []) rest in
      elim (fill_dir_entry_buffer added shown) [
        | none ↦ more
        | some code ↦
            if is_e_buffer code && not (start_pos == end_pos)
            then (ok end_pos, added)
            else (err code, added)
      ]

module _ (fill_dir_entry_buffer : List Shown → Shown → Option Hresult)
    (name_match : List ℕ → List ℕ → Bool) where
  -- The rest of the callback, once the directory is at its start.
  unfoldable pub fill_from :
      Option (List ℕ) → ℕ → DirEnumeration → Enumerations → Outcome (Enumerations × List Shown)
  unfolding fill_entries enumerate set_pos insert
  fill_from expression id dir s =
      filled id dir s (
        fill_entries fill_dir_entry_buffer dir.pos dir.pos [] (enumerate name_match dir expression))

  -- With whether the flag to restart is set, and the expression. The buffer is empty before the call.
  unfoldable pub get_directory_enumeration :
      Bool → ℕ → Bool → Option (List ℕ) → Enumerations → Hresult × (Enumerations × List Shown)
  unfolding call fill_from get reset
  get_directory_enumeration alive id restart expression table =
      call alive
        (λ (s : Enumerations × List Shown). elim (get id s.0) [
          | none ↦ fails_with e_invalidarg s
          | some dir ↦ fill_from expression id (if restart then reset dir else dir) s.0
        ])
        (table, [])

-- What is known once a read was begun: the code that the callback gives, the code of `PrjCompleteCommand` if the
-- command is ever completed, and the pieces that were written.
pub record FileData : Type 0 where
  pub code : Hresult
  pub completed : Option Hresult
  pub sent : List (List ℕ × ℕ)

abbrev pub not_read : Hresult → FileData
not_read code = record { code = code; completed = none; sent = [] }

module _ (write_file_data : List ℕ × ℕ → Bool) where
  -- The future that is dispatched: the pieces are written in turn, up to one that is not written, or until the
  -- read ends. A panic is caught.
  abbrev pub ending_code : Ending ReadError → Hresult
  ending_code finished = s_ok
  ending_code panicked = e_fail
  ending_code (failed e) = e_fail

  unfoldable pub write_all : Ending ReadError → List (List ℕ × ℕ) → Hresult × List (List ℕ × ℕ)
  write_all ending [] = (ending_code ending, [])
  write_all ending (chunk ∷ rest) =
      let (code, written) = write_all ending rest in
      if write_file_data chunk then (code, chunk ∷ written) else (e_fail, [])

  abbrev pub complete : Reading ReadError → Hresult × List (List ℕ × ℕ)
  complete r = write_all r.ending r.given

module _ (write_file_data : List ℕ × ℕ → Bool) (c : Config) (e : Eytzinger) (fs : Rofs DvdbndFile)
    (storage : Storage) where
  -- `call_async`: the result of `dispatch` is thrown away.
  unfoldable pub call_async : Bool → ℕ → ℕ → ℕ → FileData
  unfolding read_file write_all
  call_async dispatched inode byte_offset len =
      if dispatched
      then (let (code, written) =
            complete write_file_data (read_file c fs storage inode byte_offset len) in
          record { code = e_pending; completed = some code; sent = written })
      else not_read e_pending

  unfoldable pub get_file_data : Bool → Bool → Result Hresult Name → ℕ → ℕ → FileData
  unfolding call_async lookup
  get_file_data alive dispatched file_path byte_offset len =
      if alive
      then elim file_path [
        | err code ↦ not_read code
        | ok path ↦ elim (lookup c e fs path) [
          | Lookup.err _ ↦ not_read error_file_not_found
          | Lookup.ok inode ↦ call_async dispatched inode byte_offset len
        ]
      ]
      else not_read e_abort

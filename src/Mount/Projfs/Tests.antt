-- ===== src/Mount/Projfs/Tests.antt =====
-- The callbacks at a mount of two files, and the theorems at it.
use mathlib.Core.List.{Perm}
use fsvfs.Base.{
  ℕ, List, [], ◌∷◌, map, true, false, Option, none, some, ◌≡◌, refl, arith, ltb, if◌then◌else◌, inl,
  inr, ◌⊎◌,
}
use fsvfs.Base.Results.{ok, err}
use fsvfs.Base.Sorting.{IsSorted}
use fsvfs.Rofs.Path.{dvdbnd_config, same_name}
use fsvfs.Rofs.Node.{read_name}
use fsvfs.Rofs.Lookup.{dir_entries, lookup, entry, iterate}
use fsvfs.Rofs.Lookup
use fsvfs.Rofs.Tests.{plain, linear_search}
use fsvfs.Encryption.{ℤ, pos}
use fsvfs.Mount.Read.{DvdbndFile, collect}
use fsvfs.Mount.Plain.{IsRun}
use fsvfs.Mount.Tests.{file_a, file_a-IsStored, archive_bytes, mounted, entry_a, entry_b, storage}
use fsvfs.Mount.Fuser.{done}
use fsvfs.Mount.Projfs.{Shown, not_greater, encode_utf16, DirEnumeration}
use fsvfs.Mount.Projfs.Callbacks.{
  Hresult, s_ok, e_fail, e_pending, e_invalidarg, e_buffer, error_file_not_found, error_directory,
  start_directory_enumeration, get_placeholder_info, get_file_data,
}
use fsvfs.Mount.Projfs.Index.{shown_entry, shown_le}
use fsvfs.Mount.Projfs.Pages.{IsBuffer, passing}
use fsvfs.Mount.Projfs.Scan.{scan, scan-start}
use fsvfs.Mount.Projfs.Lifetime.{Request, start, finish, next, is_open, AllWithin}
use fsvfs.Mount.Projfs.History.{respond, run, open_after, run-open_after}
use fsvfs.Mount.Projfs.Callbacks.{complete, write_all}
use fsvfs.Mount.Read.{failed}
use fsvfs.Mount.Decrypt.{is_dir}
use fsvfs.Mount.Projfs.Writes.{get_file_data-slice}

-- é and an emoji, outside the basic plane.
encode_utf16-accent : encode_utf16 (0xc3 ∷ 0xa9 ∷ b'a' ∷ []) ≡ 0xe9 ∷ b'a' ∷ []
unfolding encode_utf16
encode_utf16-accent = refl

encode_utf16-pair : encode_utf16 (0xf0 ∷ 0x9f ∷ 0x98 ∷ 0x80 ∷ []) ≡ 0xd83d ∷ 0xde00 ∷ []
unfolding encode_utf16
encode_utf16-pair = refl

-- A comparison by the first letter alone.
abbrev first_letter : List ℕ → ℕ
first_letter [] = 0
first_letter (u ∷ us) = u

abbrev compare_first : List ℕ → List ℕ → ℤ
compare_first a b = if ltb (first_letter b) (first_letter a) then pos 1 else pos 0

compare_first_total :
    (a b : List ℕ)
    → not_greater (compare_first a b) ≡ false
    → not_greater (compare_first b a) ≡ true
compare_first_total a b h = ground arith

-- A buffer for one entry.
abbrev one_entry : List Shown → Shown → Option Hresult
one_entry [] x = none
one_entry (y ∷ ys) x = some e_buffer

one_entry-IsBuffer : IsBuffer one_entry
one_entry-IsBuffer = record {
  has_room = λ x. refl;
  refuses = λ added x.
      elim added as (λ xs. (one_entry xs x ≡ none) ⊎ (one_entry xs x ≡ some e_buffer)) [
        | [] ↦ inl refl
        | y ∷ ys ↦ inr refl
      ];
}

abbrev root : Lookup.Entry DvdbndFile
root = record { inode = 18446744073709551615; name = []; kind = dir_entries 1 3 }

scan-start_example :
    let (code, after) =
      start_directory_enumeration dvdbnd_config plain mounted compare_first true (ok []) 9 [] in
    (code ≡ s_ok)
    × ((xs : List Shown) × (scan one_entry same_name 9 (some (b'b' ∷ [])) 3 true after
          ≡ some (passing same_name (some (b'b' ∷ [])) xs))
        × Perm xs (map shown_entry (entry_a ∷ entry_b ∷ []))
        × IsSorted (shown_le compare_first) xs)
unfolding lookup linear_search read_name entry iterate encode_utf16
scan-start_example =
    scan-start compare_first dvdbnd_config plain mounted 9 [] 1 root 1 3 (entry_a ∷ entry_b ∷ []) []
      refl refl refl refl one_entry one_entry-IsBuffer same_name (some (b'b' ∷ []))
      ((refl, tt), ((refl, tt), tt)) compare_first_total

-- A directory that is opened, listed to its end, and closed.
abbrev requests : List Request
requests =
    start (ok []) 9
    ∷ next 9 true none
    ∷ start (err e_fail) 4
    ∷ start (ok (b'a' ∷ [])) 5
    ∷ next 9 false none
    ∷ next 9 false none
    ∷ finish 9
    ∷ []

abbrev answer : Request → List (ℕ × DirEnumeration) → Hresult × List (ℕ × DirEnumeration)
answer = respond compare_first same_name one_entry dvdbnd_config plain mounted

abbrev history : List Hresult × List (ℕ × DirEnumeration)
history = run compare_first same_name one_entry dvdbnd_config plain mounted requests []

history-codes : history.0 ≡ s_ok ∷ s_ok ∷ e_fail ∷ error_directory ∷ s_ok ∷ s_ok ∷ s_ok ∷ []
unfolding run lookup linear_search read_name entry iterate encode_utf16
history-codes = refl

run-open_after_example :
    AllWithin history.1
    × (is_open 9 history.1 ≡ open_after 9 false requests history.0)
    × (open_after 9 false requests history.0 ≡ false
        → answer (next 9 true none) history.1 ≡ (e_invalidarg, history.1))
run-open_after_example =
    run-open_after compare_first same_name one_entry dvdbnd_config plain mounted requests 9 true
      none (tt, (tt, (refl, (tt, (tt, (tt, (tt, tt)))))))

get_placeholder_info-missing :
    get_placeholder_info dvdbnd_config plain mounted (λ info. ok done) true (ok (b'c' ∷ []))
    ≡ error_file_not_found
unfolding get_placeholder_info lookup linear_search read_name
get_placeholder_info-missing = refl

-- A command that the dispatcher does not take is pending for ever.
get_file_data-stuck :
    get_file_data
      (λ chunk. true)
      dvdbnd_config
      plain
      mounted
      storage
      true
      false
      (ok (b'a' ∷ []))
      0
      4
    ≡ record { code = e_pending; completed = none; sent = [] }
unfolding get_file_data lookup linear_search read_name
get_file_data-stuck = refl

-- A read that fails behind its first piece has written that piece.
complete-failed :
    complete (λ chunk. true) (record { given = (5 ∷ [], 0) ∷ []; ending = failed is_dir })
    ≡ (e_fail, (5 ∷ [], 0) ∷ [])
unfolding write_all
complete-failed = refl

get_file_data-slice_example :
    (chunks : List (List ℕ × ℕ)) × (get_file_data
        (λ chunk. true)
        dvdbnd_config
        plain
        mounted
        storage
        true
        true
        (ok (b'a' ∷ []))
        3
        100
      ≡ record { code = e_pending; completed = some s_ok; sent = chunks })
    × IsRun 3 chunks 5
    × (collect chunks ≡ 6 ∷ 7 ∷ [])
unfolding lookup linear_search read_name entry
get_file_data-slice_example =
    get_file_data-slice (λ chunk. true) (λ chunk. refl) dvdbnd_config plain mounted storage
      (b'a' ∷ []) 2 3 100 entry_a file_a archive_bytes refl refl refl refl
      (λ n position some_bytes fits h. refl) file_a-IsStored

-- ===== src/Dvdbnd/Walk.antt =====
-- src/dvdbnd.rs: the files below a directory. The reading of one directory is a parameter.
use mathlib.Core.Option
use fsvfs.Base.{ℕ, zero, suc, List, [], ◌∷◌, ◌++◌, Bool, true, false, Option, none, some}
use fsvfs.Base.Results.{Result, ok, err, ◌>>=◌}

-- An entry of a directory: its path, and whether it is a directory itself; each can fail.
abbrev pub WalkEntry : Type 0 → Type 0 → Type 0
WalkEntry E P = Result E (P × Result E Bool)

module _ {E P : Type 0} where
  -- `map_result`: what is given for an entry, and the directories that are left to read.
  unfoldable pub map_result : WalkEntry E P → List P → Option (Result E P) × List P
  map_result (err e) dirs = (some (err e), dirs)
  map_result (ok (path, ok true)) dirs = (none, dirs ++ path ∷ [])
  map_result (ok (path, ok false)) dirs = (some (ok path), dirs)
  map_result (ok (path, err e)) dirs = (some (err e), dirs)

  abbrev pub given : Option (Result E P) → List (Result E P) → List (Result E P)
  given none rest = rest
  given (some r) rest = r ∷ rest

  -- The loop over one directory's entries.
  unfoldable pub read_entries : List (WalkEntry E P) → List P → List (Result E P) × List P
  unfolding map_result
  read_entries [] dirs = ([], dirs)
  read_entries (entry ∷ rest) dirs =
      let (r, more) = map_result entry dirs in
      let (found, left) = read_entries rest more in (given r found, left)

module _ {E P : Type 0} (read_dir : P → Result E (List (WalkEntry E P))) where
  -- What the iterator gives once the first directory is at its end, on one unit of fuel for each directory.
  unfoldable pub read_dirs : ℕ → List P → Option (List (Result E P))
  unfolding read_entries
  read_dirs zero dirs = none
  read_dirs (suc fuel) [] = some []
  read_dirs (suc fuel) (path ∷ dirs) =
      let more = read_dirs fuel in
      elim (read_dir path) [
        | err e ↦ Option.map (λ rest. err e ∷ rest) (more dirs)
        | ok entries ↦
            let (found, left) = read_entries entries dirs in
            Option.map (λ rest. found ++ rest) (more left)
      ]

  -- `recursive_read_files`: an error of the directory itself, or all that the iterator gives.
  unfoldable pub recursive_read_files : ℕ → P → Result E (Option (List (Result E P)))
  unfolding read_entries read_dirs
  recursive_read_files fuel dir = read_dir dir >>= λ entries.
      let (found, left) = read_entries entries [] in
      ok (Option.map (λ rest. found ++ rest) (read_dirs fuel left))

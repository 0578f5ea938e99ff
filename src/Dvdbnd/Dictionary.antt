-- ===== src/Dvdbnd/Dictionary.antt =====
-- src/dvdbnd/dict.rs: the dictionary's names by their hashes. A hash map is the list of what was inserted, and finds
-- what was inserted last.
use fsvfs.Base.{ℕ, List, [], ◌∷◌, ◌++◌, map, ◌==◌, if◌then◌else◌, Option, none, some}
use fsvfs.Rofs.Path.{Name, same_name, lower}
use fsvfs.Hash.{hash_path32, hash_path64}

-- `Dictionary`: the contents of a file of names, by the name of the archive.
abbrev pub Dictionary : Type 0
Dictionary = List (Name × Name)

unfoldable pub contents_of : Name → Dictionary → Option Name
unfolding same_name
contents_of name [] = none
contents_of name ((n, contents) ∷ rest) =
    let more = contents_of name rest in
    elim more [ some found ↦ some found | none ↦ if same_name n name then some contents else none ]

-- A line that ended in a line feed, without the carriage return in front of it.
unfoldable pub without_return : Name → Name
without_return [] = []
without_return (c ∷ []) = if c == 13 then [] else c ∷ []
without_return (c ∷ d ∷ cs) = c ∷ without_return (d ∷ cs)

-- `str::lines`, with the bytes of the line so far.
unfoldable pub lines_from : Name → Name → List Name
unfolding without_return
lines_from [] [] = []
lines_from (c ∷ cs) [] = (c ∷ cs) ∷ []
lines_from line (b ∷ bs) =
    let ended = lines_from [] bs in
    let longer = lines_from (line ++ b ∷ []) bs in
    if b == 10 then without_return line ∷ ended else longer

module _ (hash : Name → Option ℕ) where
  -- `filter_map(|path| f(path).zip(Some(path)))`.
  unfoldable pub hash_lines : List Name → List (ℕ × Name)
  hash_lines [] = []
  hash_lines (path ∷ rest) = elim (hash path) [
    | none ↦ hash_lines rest
    | some h ↦ (h, path) ∷ hash_lines rest
  ]

  unfoldable pub hash_path_iter : Dictionary → Name → List (ℕ × Name)
  unfolding contents_of lines_from hash_lines
  hash_path_iter dict bnd_name = elim (contents_of (map lower bnd_name) dict) [
    | none ↦ []
    | some contents ↦ hash_lines (lines_from [] contents)
  ]

unfoldable pub hash_paths32 : Dictionary → Name → List (ℕ × Name)
unfolding hash_path_iter hash_path32
hash_paths32 = hash_path_iter hash_path32

unfoldable pub hash_paths64 : Dictionary → Name → List (ℕ × Name)
unfolding hash_path_iter hash_path64
hash_paths64 = hash_path_iter hash_path64

-- `HashMap::get`.
unfoldable pub get_path : ℕ → List (ℕ × Name) → Option Name
get_path h [] = none
get_path h ((k, path) ∷ rest) =
    let more = get_path h rest in
    elim more [ some found ↦ some found | none ↦ if k == h then some path else none ]

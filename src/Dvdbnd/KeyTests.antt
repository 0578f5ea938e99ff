-- ===== src/Dvdbnd/KeyTests.antt =====
-- Files, directories and keys, and the theorems at them.
use mathlib.Core.List.{Perm}
use fsvfs.Base.{
  ℕ, ◌==◌, ◌*◌, List, [], ◌∷◌, map, Bool, true, false, if◌then◌else◌, Option, none, some, ◌≡◌, refl,
  All,
}
use fsvfs.Base.Results.{Result, ok, err}
use fsvfs.Rofs.Path.{Name}
use fsvfs.Dvdbnd.Walk.{WalkEntry, recursive_read_files}
use fsvfs.Dvdbnd.Tree.{
  Items, nil, file, folder, unread, entries_of, all_of, recursive_read_files-perm,
}
use fsvfs.Dvdbnd.Keys.{PemPathMap, search_game, fold_paths, into_keys_for_game_with_filter, Keys}
use fsvfs.Dvdbnd.Matched.{HasEntry, IsRight, into_keys_for_game_with_filter-Settled}
use fsvfs.Dvdbnd.Pems.{IsOrdered, paths_of, keys_of, fold_paths-keys}

-- A directory 1 with the file 10, a directory 2, and a directory 3 that cannot be read; in 2 there are the file 20 and a
-- directory 4 with the file 40.
abbrev below_4 : Items Bool ℕ
below_4 = file 40 nil

abbrev below_2 : Items Bool ℕ
below_2 = folder 4 below_4 (file 20 nil)

abbrev below_1 : Items Bool ℕ
below_1 = folder 2 below_2 (unread 3 true (file 10 nil))

abbrev read_dir : ℕ → Result Bool (List (WalkEntry Bool ℕ))
read_dir dir =
    if dir == 1
    then ok (entries_of below_1)
    else (if dir == 2
        then ok (entries_of below_2)
        else (if dir == 4 then ok (entries_of below_4) else err true))

walk-order : recursive_read_files read_dir 4 1 ≡ ok (some (ok 10 ∷ ok 20 ∷ err true ∷ ok 40 ∷ []))
unfolding recursive_read_files
walk-order = refl

recursive_read_files-perm_example :
    (xs : List (Result Bool ℕ)) × (recursive_read_files read_dir 4 1 ≡ ok (some xs))
    × Perm xs (all_of below_1)
recursive_read_files-perm_example =
    recursive_read_files-perm read_dir 1 below_1 refl (refl, (refl, tt, tt), (refl, tt))

-- The keys 5 and 7 in the directory a, the key 6 in B, and the text 8.
abbrev extension_of : ℕ → Option Name
extension_of path = if path == 8 then some (b't' ∷ []) else some (b'P' ∷ b'e' ∷ b'm' ∷ [])

abbrev parent_of : ℕ → Option Name
parent_of path = if path == 6 then some (b'B' ∷ []) else some (b'a' ∷ [])

fold_paths-keys_example :
    (out : PemPathMap) × (fold_paths extension_of parent_of {E = Bool} []
        (map ok (6 ∷ 5 ∷ 8 ∷ 7 ∷ []))
      ≡ ok out)
    × IsOrdered out
    × ((game : Name) → paths_of game out ≡ keys_of extension_of parent_of game (6 ∷ 5 ∷ 8 ∷ 7 ∷ []))
fold_paths-keys_example = fold_paths-keys extension_of parent_of (6 ∷ 5 ∷ 8 ∷ 7 ∷ [])

abbrev games : PemPathMap
games = (b'a' ∷ [], 5 ∷ 7 ∷ []) ∷ (b'b' ∷ [], 6 ∷ []) ∷ []

fold_paths-games :
    fold_paths extension_of parent_of {E = Bool} [] (map ok (6 ∷ 5 ∷ 8 ∷ 7 ∷ [])) ≡ ok games
unfolding fold_paths
fold_paths-games = refl

-- The archive 0 needs no key, the archive 1 the key 70, and the archive 2 the key 60.
abbrev opens_with : ℕ → Option ℕ → Bool
opens_with archive none = archive == 0
opens_with archive (some key) =
    if archive == 1 then key == 70 else (if archive == 2 then key == 60 else false)

into_keys_for_game_with_filter-Settled_example :
    (s : Keys ℕ ℕ) × (into_keys_for_game_with_filter {E = Bool}
        (λ a k. ok (opens_with a k))
        (λ path. ok (path * 10))
        games
        (0 ∷ 1 ∷ 2 ∷ [])
        (some (b'a' ∷ []))
      ≡ some (ok s))
    × (s.game ≡ some (b'a' ∷ []))
    × All (IsRight opens_with) s.by_path
    × All
        (λ a.
          (opens_with a none ≡ true → HasEntry a s.by_path)
          × (opens_with a none ≡ false
              → All
                  (λ path. opens_with a (some (path * 10)) ≡ true → HasEntry a s.by_path)
                  (5 ∷ 7 ∷ [])))
        (0 ∷ 1 ∷ 2 ∷ [])
unfolding search_game
into_keys_for_game_with_filter-Settled_example =
    into_keys_for_game_with_filter-Settled (λ a k. ok (opens_with a k)) (λ path. ok (path * 10))
      opens_with (λ path. path * 10) (λ a k. refl) (λ path. refl) games (b'a' ∷ []) 0 (b'a' ∷ [])
      (5 ∷ 7 ∷ []) refl refl (0 ∷ 1 ∷ 2 ∷ [])

-- Without a game, the first key that opens an archive tells it.
into_keys-unknown :
    into_keys_for_game_with_filter {E = Bool}
      (λ a k. ok (opens_with a k))
      (λ path. ok (path * 10))
      games
      (0 ∷ 2 ∷ 1 ∷ [])
      none
    ≡ some (
        ok (record {
          game = some (b'b' ∷ []);
          game_index = some 1;
          cache = (6, 60) ∷ (7, 70) ∷ (5, 50) ∷ [];
          by_path = (2, some 60) ∷ (0, none) ∷ [];
        }))
unfolding into_keys_for_game_with_filter
into_keys-unknown = refl

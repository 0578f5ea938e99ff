-- ===== src/Dvdbnd/Keys.antt =====
-- src/dvdbnd/keys.rs: the keys that decrypt the headers of a game's archives. A path is a number, and what
-- `std::path` says of it is a parameter: its extension, and the name of its parent. The reading of a directory, of a
-- key's file, and the test of a key at an archive are parameters too; their error type is one.
use fsvfs.Base.{
  ℕ, zero, suc, ltb, ◌==◌, ◌||◌, ◌&&◌, List, [], ◌∷◌, ◌++◌, map, Bool, true, false, if◌then◌else◌,
  Option, none, some, get_elem?,
}
use fsvfs.Base.Results.{Result, ok, err, ◌>>=◌}
use fsvfs.Rofs.Path.{Name, same_name, lower}

-- `str::cmp` as a test: whether the first text is before the second.
unfoldable pub name_lt : Name → Name → Bool
name_lt [] [] = false
name_lt [] (y ∷ ys) = true
name_lt (x ∷ xs) [] = false
name_lt (x ∷ xs) (y ∷ ys) = ltb x y || (x == y && name_lt xs ys)

-- The games with the paths of their keys, in the order of their names.
abbrev pub PemPathMap : Type 0
PemPathMap = List (Name × List ℕ)

abbrev pub shift : Result ℕ ℕ → Result ℕ ℕ
shift (ok i) = ok (suc i)
shift (err i) = err (suc i)

-- `binary_search_by_key`: the place of a game, or where it would go. Where the map is sorted, as it always is here,
-- the search from the left finds the same.
unfoldable pub search_game : Name → PemPathMap → Result ℕ ℕ
unfolding same_name name_lt
search_game game [] = err 0
search_game game ((name, paths) ∷ rest) =
    let later = search_game game rest in
    if same_name name game then ok 0 else (if name_lt game name then err 0 else shift later)

-- `map[i].1.push(path)` and `map.insert(i, (game, [path]))`.
unfoldable pub push_at : ℕ → ℕ → PemPathMap → PemPathMap
push_at i path [] = []
push_at zero path ((name, paths) ∷ rest) = (name, paths ++ path ∷ []) ∷ rest
push_at (suc i) path (entry ∷ rest) = entry ∷ push_at i path rest

unfoldable pub insert_at : ℕ → Name × List ℕ → PemPathMap → PemPathMap
insert_at zero new rest = new ∷ rest
insert_at (suc i) new [] = new ∷ []
insert_at (suc i) new (entry ∷ rest) = entry ∷ insert_at i new rest

unfoldable pub add_path : Name → ℕ → PemPathMap → PemPathMap
unfolding search_game push_at insert_at
add_path game path games = elim (search_game game games) [
  | ok i ↦ push_at i path games
  | err i ↦ insert_at i (game, path ∷ []) games
]

abbrev pub eq_ignore_ascii_case : Name → Name → Bool
eq_ignore_ascii_case a b = same_name (map lower a) (map lower b)

module _ (extension : ℕ → Option Name) (parent_name : ℕ → Option Name) where
  abbrev pub is_pem : ℕ → Bool
  is_pem path = elim (extension path) [
    | none ↦ false
    | some ext ↦ eq_ignore_ascii_case ext (b'p' ∷ b'e' ∷ b'm' ∷ [])
  ]

  abbrev pub game_of : ℕ → Name
  game_of path = elim (parent_name path) [ none ↦ [] | some name ↦ map lower name ]

  -- `find_pem_paths`, on what the walk over the directory gives: the first error, or the map.
  unfoldable pub fold_paths {ℓ} :
      {E : Type ℓ} → PemPathMap → List (Result E ℕ) → Result E PemPathMap
  unfolding add_path
  fold_paths games [] = ok games
  fold_paths games (err e ∷ rest) = err e
  fold_paths games (ok path ∷ rest) =
      fold_paths (if is_pem path then add_path (game_of path) path games else games) rest

-- The loop's variables. `by_path` holds what was inserted, the last insertion first.
pub record Keys (A K : Type 0) : Type 0 where
  pub game : Option Name
  pub game_index : Option ℕ
  pub cache : List (ℕ × K)
  pub by_path : List (A × Option K)

abbrev pub cached {ℓ} : {K : Type ℓ} → ℕ → List (ℕ × K) → Option K
cached path [] = none
cached path ((p, key) ∷ rest) = if p == path then some key else cached path rest

-- `get_or_insert`, and `ok`.
abbrev pub get_or_insert : Option Name → Name → Option Name
get_or_insert none name = some name
get_or_insert (some game) name = some game

abbrev pub found : Result ℕ ℕ → Option ℕ
found (ok i) = some i
found (err i) = none

-- The index of the game: the one at hand, or what the search for the game's name finds.
abbrev pub index_or_else : PemPathMap → Option ℕ → Option Name → Option ℕ
index_or_else games (some i) game = some i
index_or_else games none none = none
index_or_else games none (some game) = found (search_game game games)

module _ {E A K : Type 0} (opens : A → Option K → Result E Bool) (read_key : ℕ → Result E K) where
  -- The key of a path, from the cache where it is there.
  unfoldable pub key_of : ℕ → Keys A K → Result E (K × Keys A K)
  key_of path s = elim (cached path s.cache) [
    | some key ↦ ok (key, s)
    | none ↦ read_key path >>= λ key. ok (key, record s { cache = (path, key) ∷ s.cache })
  ]

  abbrev pub insert_key : A → Name → K → Bool → Keys A K → Keys A K
  insert_key archive name key false s = s
  insert_key archive name key true s = record s {
    by_path = (archive, some key) ∷ s.by_path;
    game = get_or_insert s.game name;
  }

  -- The loop over the keys of one game, and the loop over games.
  unfoldable pub try_paths : A → Name → List ℕ → Keys A K → Result E (Keys A K)
  unfolding key_of
  try_paths archive name [] s = ok s
  try_paths archive name (path ∷ rest) s = key_of path s >>= λ r.
      opens archive (some r.0) >>= λ hit.
      try_paths archive name rest (insert_key archive name r.0 hit r.1)

  unfoldable pub try_games : A → PemPathMap → Keys A K → Result E (Keys A K)
  unfolding try_paths
  try_games archive [] s = ok s
  try_games archive ((name, paths) ∷ rest) s =
      try_paths archive name paths s >>= λ s'. try_games archive rest s'

  -- `game_index.or_else(..)`.
  abbrev pub with_index : PemPathMap → Keys A K → Keys A K
  with_index games s = record s { game_index = index_or_else games s.game_index s.game }

  -- The games whose keys are tried; `none` is an index out of bounds.
  abbrev pub candidates : PemPathMap → Option ℕ → Option PemPathMap
  candidates games none = some games
  candidates games (some i) = elim (get_elem? games i) [
    | none ↦ none
    | some entry ↦ some (entry ∷ [])
  ]

  abbrev pub try_candidates : A → Option PemPathMap → Keys A K → Option (Result E (Keys A K))
  try_candidates archive none s = none
  try_candidates archive (some games) s = some (try_games archive games s)

  -- One archive: `none` is a panic.
  unfoldable pub match_archive : PemPathMap → A → Keys A K → Option (Result E (Keys A K))
  unfolding try_games search_game
  match_archive games archive s = elim (opens archive none) [
    | err e ↦ some (err e)
    | ok true ↦ some (ok (record s { by_path = (archive, none) ∷ s.by_path }))
    | ok false ↦
        let indexed = with_index games s in
        try_candidates archive (candidates games indexed.game_index) indexed
  ]

  unfoldable pub match_archives : PemPathMap → List A → Keys A K → Option (Result E (Keys A K))
  unfolding match_archive
  match_archives games [] s = some (ok s)
  match_archives games (archive ∷ rest) s =
      let more = match_archives games rest in
      elim (match_archive games archive s) [
        | none ↦ none
        | some (err e) ↦ some (err e)
        | some (ok s') ↦ more s'
      ]

  abbrev pub first_keys : Option Name → Keys A K
  first_keys game = record { game = game; game_index = none; cache = []; by_path = [] }

  -- `into_keys_for_game_with_filter`.
  unfoldable pub into_keys_for_game_with_filter :
      PemPathMap → List A → Option Name → Option (Result E (Keys A K))
  unfolding match_archives
  into_keys_for_game_with_filter games archives game =
      match_archives games archives (first_keys game)

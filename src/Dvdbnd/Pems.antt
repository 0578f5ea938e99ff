-- ===== src/Dvdbnd/Pems.antt =====
-- src/dvdbnd/keys.rs: the paths of keys by game.
use fsvfs.Base.{
  ℕ, zero, suc, ◌&&◌, List, [], ◌∷◌, ◌++◌, map, Bool-cases, true, false, if◌then◌else◌, Option, ◌≡◌,
  refl, sym, ap, ◌∙◌, inl, inr, arith, append_assoc, append-nil,
}
use fsvfs.Base.Results.{Result, ok, err}
use fsvfs.Rofs.Path.{Name, same_name}
use fsvfs.Rofs.Layout.Names.{same_name→eq}
use fsvfs.Dvdbnd.Keys.{
  name_lt, PemPathMap, search_game, shift, push_at, insert_at, is_pem, game_of, fold_paths,
}

-- The paths that a map has for a game.
abbrev pub found_paths : Result ℕ ℕ → PemPathMap → List ℕ
found_paths (err i) games = []
found_paths (ok i) [] = []
found_paths (ok zero) ((name, paths) ∷ rest) = paths
found_paths (ok (suc i)) ((name, paths) ∷ rest) = found_paths (ok i) rest

abbrev pub paths_of : Name → PemPathMap → List ℕ
paths_of game games = found_paths (search_game game games) games

-- `add_path` without the place.
abbrev added : Name → ℕ → PemPathMap → PemPathMap
added game path [] = (game, path ∷ []) ∷ []
added game path ((name, paths) ∷ rest) =
    if same_name name game
    then (name, paths ++ path ∷ []) ∷ rest
    else (if name_lt game name
        then (game, path ∷ []) ∷ (name, paths) ∷ rest
        else (name, paths) ∷ added game path rest)

abbrev added_at : Name → ℕ → PemPathMap → Result ℕ ℕ → PemPathMap
added_at game path games (ok i) = push_at i path games
added_at game path games (err i) = insert_at i (game, path ∷ []) games

added_at-shift :
    (game : Name) (path : ℕ) (entry : Name × List ℕ) (rest : PemPathMap) (r : Result ℕ ℕ)
    → added_at game path (entry ∷ rest) (shift r) ≡ entry ∷ added_at game path rest r
unfolding push_at insert_at
added_at-shift game path entry rest (ok i) = refl
added_at-shift game path entry rest (err i) = refl

add_path-added :
    (game : Name) (path : ℕ) (games : PemPathMap)
    → added_at game path games (search_game game games) ≡ added game path games
unfolding search_game push_at insert_at
add_path-added game path [] = refl
add_path-added game path ((name, paths) ∷ rest) = elim (Bool-cases (same_name name game)) [
  | inl same ↦ rw same refl
  | inr differs ↦ elim (Bool-cases (name_lt game name)) [
    | inl before ↦ rw (differs, before) refl
    | inr behind ↦
        rw (differs, behind)
          (added_at-shift game path (name, paths) rest (search_game game rest)
            ∙ ap (λ t. (name, paths) ∷ t) (add_path-added game path rest))
  ]
]

name_lt_trans : (a b c : Name) → name_lt a b ≡ true → name_lt b c ≡ true → name_lt a c ≡ true
unfolding name_lt
name_lt_trans [] [] c h k = absurd (cc)
name_lt_trans [] (y ∷ b) [] h k = absurd (cc)
name_lt_trans [] (y ∷ b) (z ∷ c) h k = refl
name_lt_trans (x ∷ a) [] c h k = absurd (cc)
name_lt_trans (x ∷ a) (y ∷ b) [] h k = absurd (cc)
name_lt_trans (x ∷ a) (y ∷ b) (z ∷ c) h k = ground (arith, name_lt_trans a b c)

name_lt-same_name : (a b : Name) → name_lt a b ≡ true → same_name b a ≡ false
unfolding name_lt same_name
name_lt-same_name [] [] h = absurd (cc)
name_lt-same_name [] (y ∷ b) h = refl
name_lt-same_name (x ∷ a) [] h = absurd (cc)
name_lt-same_name (x ∷ a) (y ∷ b) h = ground (arith, name_lt-same_name a b)

name_lt_total : (a b : Name) → same_name b a ≡ false → name_lt a b ≡ false → name_lt b a ≡ true
unfolding name_lt same_name
name_lt_total [] [] h k = absurd (cc)
name_lt_total [] (y ∷ b) h k = absurd (cc)
name_lt_total (x ∷ a) [] h k = refl
name_lt_total (x ∷ a) (y ∷ b) h k = ground (arith, name_lt_total a b)

found_paths-shift :
    (r : Result ℕ ℕ) (name : Name) (paths : List ℕ) (rest : PemPathMap)
    → found_paths (shift r) ((name, paths) ∷ rest) ≡ found_paths r rest
found_paths-shift (ok i) name paths rest = refl
found_paths-shift (err i) name paths rest = refl

-- One step of the search.
paths_of-cons :
    (game name : Name) (paths : List ℕ) (rest : PemPathMap)
    → paths_of game ((name, paths) ∷ rest) ≡ (
        if same_name name game
        then paths
        else (if name_lt game name then [] else paths_of game rest))
unfolding search_game
paths_of-cons game name paths rest = elim (Bool-cases (same_name name game)) [
  | inl same ↦ rw same refl
  | inr differs ↦ elim (Bool-cases (name_lt game name)) [
    | inl before ↦ rw (differs, before) refl
    | inr behind ↦ rw (differs, behind) (found_paths-shift (search_game game rest) name paths rest)
  ]
]

paths_of-added :
    (game other : Name) (path : ℕ) (games : PemPathMap)
    → paths_of other (added game path games)
      ≡ (if same_name game other then paths_of other games ++ path ∷ [] else paths_of other games)
unfolding search_game
paths_of-added game other path [] = ground (arith, paths_of-cons other game (path ∷ []) [])
paths_of-added game other path ((name, paths) ∷ rest) = ground (
  arith,
  paths_of-cons other name paths rest,
  paths_of-cons other name (paths ++ path ∷ []) rest,
  paths_of-cons other name paths (added game path rest),
  paths_of-cons other game (path ∷ []) ((name, paths) ∷ rest),
  paths_of-added game other path rest,
  name_lt_trans other game name,
  name_lt-same_name other name,
  same_name→eq game other,
  same_name→eq name game,
  same_name→eq name other,
)

-- The games stand in the strict order of their names.
abbrev pub IsAbove : Name → PemPathMap → Type 0
IsAbove low [] = Unit {0}
IsAbove low ((name, paths) ∷ rest) = (name_lt low name ≡ true) × IsAbove name rest

abbrev pub IsOrdered : PemPathMap → Type 0
IsOrdered [] = Unit {0}
IsOrdered ((name, paths) ∷ rest) = IsAbove name rest

added-IsAbove :
    (low game : Name) (path : ℕ) (games : PemPathMap)
    → name_lt low game ≡ true
    → IsAbove low games
    → IsAbove low (added game path games)
added-IsAbove low game path [] h above = (h, tt)
added-IsAbove low game path ((name, paths) ∷ rest) h above =
    elim (Bool-cases (same_name name game)) [
      | inl same ↦ rw same above
      | inr differs ↦ elim (Bool-cases (name_lt game name)) [
        | inl before ↦ rw (differs, before) (h, (before, above.1))
        | inr behind ↦
            rw (differs, behind)
              (
                above.0,
                added-IsAbove name game path rest (name_lt_total game name differs behind) above.1,
              )
      ]
    ]

added-IsOrdered :
    (game : Name) (path : ℕ) (games : PemPathMap)
    → IsOrdered games
    → IsOrdered (added game path games)
added-IsOrdered game path [] ordered = tt
added-IsOrdered game path ((name, paths) ∷ rest) ordered = elim (Bool-cases (same_name name game)) [
  | inl same ↦ rw same ordered
  | inr differs ↦ elim (Bool-cases (name_lt game name)) [
    | inl before ↦ rw (differs, before) (before, ordered)
    | inr behind ↦
        rw (differs, behind)
          (added-IsAbove name game path rest (name_lt_total game name differs behind) ordered)
  ]
]

module _ (extension : ℕ → Option Name) (parent_name : ℕ → Option Name) where
  -- The paths of a game's keys among paths: those with the extension, in a directory of the game's name.
  abbrev pub keys_of : Name → List ℕ → List ℕ
  keys_of game [] = []
  keys_of game (path ∷ rest) =
      let more = keys_of game rest in
      if is_pem extension parent_name path && same_name (game_of extension parent_name path) game
      then path ∷ more
      else more

  -- The map behind the first path.
  abbrev stepped : PemPathMap → ℕ → PemPathMap
  stepped games path =
      if is_pem extension parent_name path
      then added (game_of extension parent_name path) path games
      else games

  fold_paths-stepped :
      {E : Type 0} (games : PemPathMap) (path : ℕ) (rest : List (Result E ℕ))
      → fold_paths extension parent_name games (ok path ∷ rest)
        ≡ fold_paths extension parent_name (stepped games path) rest
  unfolding fold_paths
  fold_paths-stepped games path rest =
      ap
        (λ t.
          fold_paths extension parent_name (if is_pem extension parent_name path then t else games)
            rest)
        (add_path-added (game_of extension parent_name path) path games)

  stepped-IsOrdered :
      (games : PemPathMap) (path : ℕ) → IsOrdered games → IsOrdered (stepped games path)
  stepped-IsOrdered games path ordered = elim (Bool-cases (is_pem extension parent_name path)) [
    | inl pem ↦ rw pem (added-IsOrdered (game_of extension parent_name path) path games ordered)
    | inr other ↦ rw other ordered
  ]

  paths_of-stepped :
      (games : PemPathMap) (path : ℕ) (rest : List ℕ) (game : Name)
      → paths_of game (stepped games path) ++ keys_of game rest
        ≡ paths_of game games ++ keys_of game (path ∷ rest)
  paths_of-stepped games path rest game =
      let owner = game_of extension parent_name path in
      elim (Bool-cases (is_pem extension parent_name path)) [
        | inl pem ↦ elim (Bool-cases (same_name owner game)) [
          | inl same ↦
              rw (pem, paths_of-added owner game path games, same)
                (append_assoc (paths_of game games) (path ∷ []) (keys_of game rest))
          | inr differs ↦ rw (pem, paths_of-added owner game path games, differs) refl
        ]
        | inr other ↦ rw other refl
      ]

  fold_paths-from :
      {E : Type 0} (paths : List ℕ) (games : PemPathMap)
      → IsOrdered games
      → (out : PemPathMap) × (fold_paths extension parent_name {E = E} games (map ok paths)
          ≡ ok out)
        × IsOrdered out
        × ((game : Name) → paths_of game out ≡ paths_of game games ++ keys_of game paths)
  unfolding fold_paths
  fold_paths-from [] games ordered =
      (games, refl, ordered, λ game. sym (append-nil (paths_of game games)))
  fold_paths-from (path ∷ rest) games ordered =
      let (out, gives, ordered', same) =
        fold_paths-from rest (stepped games path) (stepped-IsOrdered games path ordered) in
      (
        out,
        fold_paths-stepped games path (map ok rest) ∙ gives,
        ordered',
        λ game. same game ∙ paths_of-stepped games path rest game,
      )

  -- Where the walk over the directory gives no error: the map that is made of its paths has its games in the strict
  -- order of their names, and for each name, in their order, the paths with the extension of keys in a directory of this
  -- name in lower case.
  pub fold_paths-keys :
      {E : Type 0} (paths : List ℕ)
      → (out : PemPathMap) × (fold_paths extension parent_name {E = E} [] (map ok paths) ≡ ok out)
        × IsOrdered out
        × ((game : Name) → paths_of game out ≡ keys_of game paths)
  unfolding search_game
  fold_paths-keys paths = fold_paths-from paths [] tt

-- ===== src/Rofs/Path.antt =====
-- src/filesystem.rs, src/cow.rs: paths as byte strings, their components, and their normal form.
use mathlib.Core.List.{reverse}
use fsvfs.Base.{
  ℕ, ◌+◌, List, [], ◌∷◌, ◌++◌, map, Bool, true, false, ◌&&◌, ◌||◌, leb, ◌==◌, if◌then◌else◌,
}

-- A component of a path, or a whole path, by its bytes. All separators are ASCII, so that a byte of a
-- longer UTF-8 sequence is never taken for one.
abbrev pub Name : Type 0
Name = List ℕ

-- The trait `Config`: `INODE_ROOT` and `SEPARATORS`.
pub record Config : Type 0 where
  pub inode_root : ℕ
  pub separators : List ℕ

abbrev pub default_config : Config
default_config = record { inode_root = 1; separators = b'/' ∷ [] }

abbrev pub dvdbnd_config : Config
dvdbnd_config = record { inode_root = 1; separators = b'/' ∷ 0x5c ∷ [] }

unfoldable pub same_name : Name → Name → Bool
same_name [] [] = true
same_name [] (y ∷ ys) = false
same_name (x ∷ xs) [] = false
same_name (x ∷ xs) (y ∷ ys) = x == y && same_name xs ys

unfoldable pub elem : ℕ → List ℕ → Bool
elem c [] = false
elem c (x ∷ xs) = x == c || elem c xs

-- `str::split`: the parts between separators, of which there is always one.
unfoldable pub split : List ℕ → Name → List Name
split seps [] = [] ∷ []
split seps (c ∷ cs) = if elem c seps then [] ∷ split seps cs else put_first c (split seps cs)
  where
    put_first : ℕ → List Name → List Name
    put_first c [] = (c ∷ []) ∷ []
    put_first c (p ∷ ps) = (c ∷ p) ∷ ps

-- The test `matches!(c, "" | ".")`.
unfoldable pub is_skipped : Name → Bool
is_skipped [] = true
is_skipped (c ∷ []) = c == b'.'
is_skipped (c ∷ d ∷ cs) = false

unfoldable pub is_parent : Name → Bool
is_parent (c ∷ d ∷ []) = c == b'.' && d == b'.'
is_parent _ = false

unfoldable pub keep : List Name → List Name
unfolding is_skipped
keep [] = []
keep (p ∷ ps) = if is_skipped p then keep ps else p ∷ keep ps

unfoldable pub components : Config → Name → List Name
unfolding keep split elem
components c path = keep (split c.separators path)

-- `path.contains("..")`.
unfoldable pub contains_dots : Name → Bool
contains_dots [] = false
contains_dots (c ∷ []) = false
contains_dots (c ∷ d ∷ cs) = (c == b'.' && d == b'.') || contains_dots (d ∷ cs)

-- `Vec::join("/")`.
unfoldable pub join : List Name → Name
join [] = []
join (p ∷ []) = p
join (p ∷ q ∷ ps) = p ++ b'/' ∷ join (q ∷ ps)

-- `Vec::pop`, on the vector with its last element first.
abbrev pub pop : List Name → List Name
pop [] = []
pop (p ∷ ps) = ps

-- The loop over the parts; the vector is held with its last element first.
unfoldable pub resolve : List Name → List Name → List Name
unfolding is_skipped is_parent
resolve stack [] = reverse stack
resolve stack (p ∷ ps) =
    resolve (if is_skipped p then stack else (if is_parent p then pop stack else p ∷ stack)) ps

unfoldable pub normalize_path : Config → Name → Name
unfolding contains_dots resolve join split elem
normalize_path c [] = b'.' ∷ []
normalize_path c (x ∷ xs) =
    if contains_dots (x ∷ xs) then join (resolve [] (split c.separators (x ∷ xs))) else x ∷ xs

abbrev pub is_ascii_uppercase : ℕ → Bool
is_ascii_uppercase c = leb b'A' c && leb c b'Z'

abbrev pub lower : ℕ → ℕ
lower c = if is_ascii_uppercase c then c + 32 else c

-- Whether there was an upper-case letter, and the text with all of them lowered.
unfoldable pub had_uppercase : Name → Bool
had_uppercase [] = false
had_uppercase (c ∷ cs) = is_ascii_uppercase c || had_uppercase cs

unfoldable pub to_ascii_lowercase : Name → Name × Bool
unfolding had_uppercase
to_ascii_lowercase path = if had_uppercase path then (map lower path, true) else (path, false)

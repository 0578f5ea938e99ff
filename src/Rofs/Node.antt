-- ===== src/Rofs/Node.antt =====
-- src/filesystem.rs: the nodes of a finished filesystem, their names, and the library that orders
-- the children of a directory.
use fsvfs.Base.{
  ℕ, List, [], ◌∷◌, Bool, true, false, ◌&&◌, ◌||◌, ltb, ◌==◌, if◌then◌else◌, Option, none, some,
  ◌≡◌, ◌≢◌, ◌⊎◌, take, drop, length, get_elem?,
}
use fsvfs.Rofs.Path.{Name}

pub data NodeContent : Type 0 where
  dir : ℕ → ℕ → NodeContent
  file : ℕ → NodeContent

pub record Node : Type 0 where
  pub content : NodeContent
  pub name_index : ℕ

-- The bytes of a name, from its length byte. A read out of bounds, which the source does not check
-- for, is cut short here; `NameAt` is what excludes it.
unfoldable pub read_name : List ℕ → ℕ → Name
read_name names index = elim (drop index names) [ [] ↦ [] | len ∷ rest ↦ take len rest ]

-- `Rofs::node_name`.
abbrev pub node_name : List ℕ → Node → Name
node_name names node = read_name names node.name_index

-- The order of byte slices.
unfoldable pub le_name : Name → Name → Bool
le_name [] ys = true
le_name (x ∷ xs) [] = false
le_name (x ∷ xs) (y ∷ ys) = ltb x y || (x == y && le_name xs ys)

-- `sort_unstable_by_key`; the names in one directory are distinct, so that the order of equal keys
-- does not matter.
module _ (key : Node → Name) where
  unfoldable pub insert_sorted : Node → List Node → List Node
  unfolding le_name
  insert_sorted m [] = m ∷ []
  insert_sorted m (x ∷ xs) = if le_name (key m) (key x) then m ∷ x ∷ xs else x ∷ insert_sorted m xs

  unfoldable pub sort_by_key : List Node → List Node
  unfolding insert_sorted
  sort_by_key [] = []
  sort_by_key (x ∷ xs) = insert_sorted x (sort_by_key xs)

  abbrev pub IsSorted : List Node → Type 0
  IsSorted [] = Unit
  IsSorted (x ∷ []) = Unit
  IsSorted (x ∷ y ∷ xs) = (le_name (key x) (key y) ≡ true) × IsSorted (y ∷ xs)

abbrev pub El : {A : Type 0} → A → List A → Type 0
El a [] = ⊥
El a (x ∷ xs) = (a ≡ x) ⊎ El a xs

-- The crate `eytzinger`: a slice put into the order of a search tree, and the search in it.
pub record Eytzinger : Type 0 where
  pub eytzingerize : List Node → List Node
  pub search_by_key : (Node → Name) → List Node → Name → Option ℕ

-- What the crate documents: a permutation, and a search that finds an element with the key if the
-- slice was sorted by that key and has one.
pub record IsEytzinger (e : Eytzinger) : Type 0 where
  pub length-eytzingerize : (xs : List Node) → length (e.eytzingerize xs) ≡ length xs
  pub el_of_eytzingerize : (xs : List Node) (m : Node) → El m (e.eytzingerize xs) → El m xs
  pub search_some :
      (key : Node → Name) (xs : List Node) (k : Name) (i : ℕ)
      → IsSorted key xs
      → e.search_by_key key (e.eytzingerize xs) k ≡ some i
      → (m : Node) × (get_elem? (e.eytzingerize xs) i ≡ some m) × (key m ≡ k)
  pub search_none :
      (key : Node → Name) (xs : List Node) (k : Name)
      → IsSorted key xs
      → e.search_by_key key (e.eytzingerize xs) k ≡ none
      → (m : Node) → El m xs
      → key m ≢ k

-- `Rofs`.
pub record Rofs {ℓ} (T : Type ℓ) : Type ℓ where
  pub nodes : List Node
  pub files : List T
  pub names : List ℕ

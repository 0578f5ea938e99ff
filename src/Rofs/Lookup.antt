-- ===== src/Rofs/Lookup.antt =====
-- src/filesystem.rs: finding an inode by its path, and reading an inode.
use mathlib.Core.Option
use fsvfs.Base.{
  ℕ, suc, ◌+◌, ◌-◌, ◌%◌, ◌^◌, List, [], ◌∷◌, Option, none, some, ◌>>=◌, if◌then◌else◌, take, drop,
  length, get_elem?,
}
use fsvfs.Rofs.Path.{Name, Config, components, normalize_path, to_ascii_lowercase}
use fsvfs.Rofs.Node.{Node, NodeContent, dir, file, node_name, Eytzinger, Rofs}

pub data RofsError : Type 0 where
  not_found is_dir : RofsError

pub data Result {ℓ} (A : Type ℓ) : Type ℓ where
  ok : A → Result A
  err : RofsError → Result A

-- `u64::wrapping_sub` and `u64::wrapping_add`.
abbrev pub wrapping_sub64 : ℕ → ℕ → ℕ
wrapping_sub64 a b = (a + 2 ^ 64 - b) % 2 ^ 64

abbrev pub wrapping_add64 : ℕ → ℕ → ℕ
wrapping_add64 a b = (a + b) % 2 ^ 64

module _ {ℓ} {T : Type ℓ} (c : Config) (e : Eytzinger) (fs : Rofs T) where
  -- One component: the search among the children of a directory.
  unfoldable pub find_child : ℕ → Name → Option ℕ
  find_child index component = get_elem? fs.nodes index >>= λ node. elim node.content [
    | file d ↦ none
    | dir child_index child_count ↦
        (e.search_by_key (node_name fs.names) (take child_count (drop child_index fs.nodes))
            component
          >>= λ i. some (i + child_index))
  ]

  -- The loop of `inode_by_path`. With no component left the index is returned, at the start (the
  -- test before the loop) and behind each step (the test at its end).
  unfoldable pub walk : ℕ → List Name → Option ℕ
  unfolding find_child
  walk index [] = some (index % 2 ^ 32)
  walk index (component ∷ rest) = find_child index component >>= λ next. walk next rest

  unfoldable pub inode_by_path : ℕ → Name → Option ℕ
  unfolding walk components
  inode_by_path parent path = walk parent (components c path)

  -- The path as it is, and then in lower case if that is another path.
  unfoldable pub inode_by_path_ignore_ascii_case : ℕ → Name → Option ℕ
  unfolding inode_by_path to_ascii_lowercase
  inode_by_path_ignore_ascii_case parent path = elim (inode_by_path parent path) [
    | some inode ↦ some inode
    | none ↦
        (let (lowered, had_uppercase) = to_ascii_lowercase path in
          if had_uppercase then inode_by_path parent lowered else none)
  ]

  unfoldable pub lookup_in_dir : ℕ → Name → Result ℕ
  unfolding inode_by_path_ignore_ascii_case normalize_path
  lookup_in_dir parent_inode path =
      let parent = wrapping_sub64 parent_inode c.inode_root % 2 ^ 32 in
      elim (inode_by_path_ignore_ascii_case parent (normalize_path c path)) [
        | some inode ↦ ok (wrapping_add64 inode c.inode_root)
        | none ↦ err not_found
      ]

  unfoldable pub lookup : Name → Result ℕ
  unfolding lookup_in_dir
  lookup path = lookup_in_dir c.inode_root path

-- `EntryKind`; a directory's iterator is the range of its children.
pub data EntryKind {ℓ} (T : Type ℓ) : Type ℓ where
  dir_entries : ℕ → ℕ → EntryKind T
  file_entry : T → EntryKind T

pub record Entry {ℓ} (T : Type ℓ) : Type ℓ where
  pub inode : ℕ
  pub name : Name
  pub kind : EntryKind T

module _ {ℓ} {T : Type ℓ} (c : Config) (fs : Rofs T) where
  -- `none` is the panic on a data index out of bounds.
  unfoldable pub node_kind : NodeContent → Option (EntryKind T)
  node_kind (dir child_index child_count) =
      some (dir_entries child_index (child_index + child_count))
  node_kind (file data_index) = get_elem? fs.files data_index >>= λ f. some (file_entry f)

  -- `node_entry` of the node at an index. The inode is the index less `INODE_ROOT`.
  unfoldable pub node_entry : ℕ → Node → Option (Entry T)
  unfolding node_kind
  node_entry index node = node_kind node.content >>= λ k. some (record {
    inode = wrapping_sub64 index c.inode_root;
    name = node_name fs.names node;
    kind = k;
  })

  unfoldable pub name : ℕ → Result Name
  name inode = elim (get_elem? fs.nodes (wrapping_sub64 inode c.inode_root)) [
    | none ↦ err not_found
    | some node ↦ ok (node_name fs.names node)
  ]

  -- `entry`; `none` is the panic of `node_entry`.
  unfoldable pub entry : ℕ → Option (Result (Entry T))
  unfolding node_entry
  entry inode =
      let index = wrapping_sub64 inode c.inode_root in
      elim (get_elem? fs.nodes index) [
        | none ↦ some (err not_found)
        | some node ↦ Option.map ok (node_entry index node)
      ]

  -- The entries that a directory's iterator gives.
  unfoldable pub entries_from : ℕ → List Node → Option (List (Entry T))
  unfolding node_entry
  entries_from index [] = some []
  entries_from index (node ∷ rest) =
      node_entry index node >>= λ x. entries_from (suc index) rest >>= λ xs. some (x ∷ xs)

  unfoldable pub iterate : EntryKind T → Option (List (Entry T))
  unfolding entries_from
  iterate (dir_entries start stop) = entries_from start (take (stop - start) (drop start fs.nodes))
  iterate (file_entry f) = none

  abbrev pub file_count : ℕ
  file_count = length fs.files

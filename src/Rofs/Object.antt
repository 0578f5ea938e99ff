-- ===== src/Rofs/Object.antt =====
-- src/filesystem/object.rs: the tree of names that a list of files is collected into.
-- A hash map is a list of its entries, each name once; no theorem depends on their order.
-- `none` is a panic.
pub mod Put
pub mod Grown
pub mod Insert
pub mod Files
pub mod Merge
pub mod Overlay
pub mod Union
pub mod Reduce
pub mod Sizes
pub mod Merged
use fsvfs.Base.{
  ℕ, suc, ◌+◌, ◌%◌, ◌^◌, List, [], ◌∷◌, ◌++◌, map, Bool, true, false, ltb, ◌==◌, ◌||◌,
  if◌then◌else◌, Option, none, some, ◌>>=◌, ◌>>◌, length,
}
use fsvfs.Rofs.Path.{Name, Config, same_name, components, normalize_path, to_ascii_lowercase}

mutual
  pub data TreeNode : Type 0 where
    branch : Branch → TreeNode
    leaf : ℕ → TreeNode

  pub data Branch : Type 0 where
    nil : Branch
    cons : Name → TreeNode → Branch → Branch

-- `HashMap::get`.
unfoldable pub get : Name → Branch → Option TreeNode
unfolding same_name
get k nil = none
get k (cons n t b) = if same_name n k then some t else get k b

-- `HashMap::insert`.
unfoldable pub put : Name → TreeNode → Branch → Branch
unfolding same_name
put k v nil = cons k v nil
put k v (cons n t b) = if same_name n k then cons n v b else cons n t (put k v b)

-- `HashMap::len`.
abbrev pub len : Branch → ℕ
len nil = 0
len (cons n t b) = suc (len b)

-- The new entry under a vacant name: a file if no component follows.
abbrev pub is_last : List Name → Bool
is_last [] = true
is_last (c ∷ cs) = false

-- The loop of `RofsObject::new` over the components of one path. A path that runs into a file, or
-- ends at a directory, changes nothing.
unfoldable pub insert_path : List Name → ℕ → Branch → Option Branch
unfolding get put
insert_path [] index b = some b
insert_path (c ∷ cs) index b = if ltb 255 (length c) then none else (elim (get c b) [
  | none ↦
      (if is_last cs
        then some (put c (leaf index) b)
        else (insert_path cs index nil >>= λ child. some (put c (branch child) b)))
  | some (leaf d) ↦ some b
  | some (branch old) ↦ insert_path cs index old >>= λ child. some (put c (branch child) b)
])

unfoldable pub insert_all : Config → ℕ → List Name → Branch → Option Branch
unfolding insert_path components normalize_path to_ascii_lowercase
insert_all c index [] b = some b
insert_all c index (path ∷ paths) b =
    insert_path (components c (to_ascii_lowercase (normalize_path c path)).0) index b >>= λ b'.
    insert_all c (suc index) paths b'

pub record RofsObject {ℓ} (T : Type ℓ) : Type ℓ where
  pub root : Branch
  pub files : List T

-- `assert_u32`.
abbrev pub assert_u32 : ℕ → Option ℕ
assert_u32 n = if ltb n (2 ^ 32) then some n else none

unfoldable mutual
  -- `adjust_files`: every data index grows by the offset, as a `u32`.
  pub adjust_files : ℕ → Branch → Branch
  adjust_files offset nil = nil
  adjust_files offset (cons n t b) = cons n (adjust_node offset t) (adjust_files offset b)

  pub adjust_node : ℕ → TreeNode → TreeNode
  adjust_node offset (branch b) = branch (adjust_files offset b)
  adjust_node offset (leaf d) = leaf ((d + offset) % 2 ^ 32)

unfoldable mutual
  -- `Branch::merge`: the entries of the other branch, one after another.
  pub merge_branch : Branch → Branch → Branch
  merge_branch b nil = b
  merge_branch b (cons n t rest) = merge_branch (merge_entry n b t) rest

  -- Two directories are merged; in every other collision the entry that is there stays.
  pub merge_entry : Name → Branch → TreeNode → Branch
  merge_entry n b (leaf d) = elim (get n b) [ none ↦ put n (leaf d) b | some _ ↦ b ]
  merge_entry n b (branch other) = elim (get n b) [
    | none ↦ put n (branch other) b
    | some (leaf _) ↦ b
    | some (branch child) ↦ put n (branch (merge_branch child other)) b
  ]

module _ {ℓ} {T : Type ℓ} where
  -- `RofsObject::new`.
  unfoldable pub new : Config → List (Name × T) → Option (RofsObject T)
  unfolding insert_all
  new c files = do
    assert_u32 (length files)
    root ← insert_all c 0 (map (λ f. f.0) files) nil
    some (record { root = cons [] (branch root) nil; files = map (λ f. f.1) files })

  -- `RofsObject::default`.
  unfoldable pub empty : RofsObject T
  empty = record { root = nil; files = [] }

  -- `RofsObject::merge`.
  unfoldable pub merge : RofsObject T → RofsObject T → Option (RofsObject T)
  unfolding adjust_files merge_branch get put
  merge self other =
      if len other.root == 0 || len self.root == 0
      then some (if len self.root == 0 then other else self)
      else (do
        assert_u32 (length (self.files ++ other.files))
        some (record {
          root = merge_branch self.root (adjust_files (length self.files % 2 ^ 32) other.root);
          files = self.files ++ other.files;
        }))

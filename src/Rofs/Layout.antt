-- ===== src/Rofs/Layout.antt =====
-- src/filesystem/object.rs, `RofsObject::into_rofs`: the tree is laid out in one array of nodes, the
-- children of each directory together, level by level. `none` is a panic, or too little fuel.
pub mod Sorted
pub mod Names
pub mod Entries
pub mod Blocks
pub mod Loop
pub mod Total
use fsvfs.Base.{
  ℕ, zero, suc, ◌+◌, ◌%◌, ◌^◌, List, [], ◌∷◌, ◌++◌, Option, none, some, ◌>>=◌, if◌then◌else◌, take,
  drop, length,
}
use fsvfs.Rofs.Path.{Name, same_name}
use fsvfs.Rofs.Node.{Node, dir, file, read_name, node_name, sort_by_key, Eytzinger, Rofs}
use fsvfs.Rofs.Object.{TreeNode, Branch, branch, leaf, nil, cons, len, assert_u32, RofsObject}

-- The local variables of the loop.
pub record Builder : Type 0 where
  pub nodes : List Node
  pub names : List ℕ
  pub names_interned : List (Name × ℕ)
  pub queue : List Branch
  pub child_index : ℕ

unfoldable pub interned : Name → List (Name × ℕ) → Option ℕ
unfolding same_name
interned k [] = none
interned k ((n, i) ∷ ns) = if same_name n k then some i else interned k ns

-- The name's index, after the name is stored if it is new.
unfoldable pub intern : Name → Builder → Option (ℕ × Builder)
unfolding interned
intern n s = elim (interned n s.names_interned) [
  | some i ↦ some (i, s)
  | none ↦ assert_u32 (length s.names) >>= λ i. some (
    i,
    record s {
      names = s.names ++ (length n % 256) ∷ n;
      names_interned = (n, i) ∷ s.names_interned;
    },
  )
]

-- `match node { Branch => …, Leaf => … }`.
unfoldable pub push_node : TreeNode → ℕ → Builder → Option Builder
push_node (leaf d) name_index s =
    some (record s { nodes = s.nodes ++ record { content = file d; name_index = name_index } ∷ [] })
push_node (branch b) name_index s =
    let child_count = len b % 2 ^ 32 in
    assert_u32 (s.child_index + child_count) >>= λ next. some (record s {
      nodes =
          s.nodes
          ++ record { content = dir s.child_index child_count; name_index = name_index } ∷ [];
      queue = s.queue ++ b ∷ [];
      child_index = next;
    })

-- The loop over the entries of one branch.
unfoldable pub push_entries : Branch → Builder → Option Builder
unfolding intern push_node
push_entries nil s = some s
push_entries (cons n t b) s = intern n s >>= λ r. push_node t r.0 r.1 >>= λ s'. push_entries b s'

module _ (e : Eytzinger) where
  -- One round: the entries are pushed, and the new nodes are put in order.
  unfoldable pub layout_branch : Branch → Builder → Option Builder
  unfolding push_entries sort_by_key read_name
  layout_branch b s = push_entries b s >>= λ s'. some (record s' {
    nodes =
        take (length s.nodes) s'.nodes
        ++ e.eytzingerize (sort_by_key (node_name s'.names) (drop (length s.nodes) s'.nodes));
  })

  -- `while let Some(branch) = queue.pop_front()`.
  unfoldable pub layout_loop : ℕ → Builder → Option Builder
  unfolding layout_branch
  layout_loop zero s = none
  layout_loop (suc fuel) s = elim s.queue [
    | [] ↦ some s
    | b ∷ rest ↦ layout_branch b (record s { queue = rest }) >>= λ s'. layout_loop fuel s'
  ]

  unfoldable pub into_rofs {ℓ} : {T : Type ℓ} → ℕ → RofsObject T → Option (Rofs T)
  unfolding layout_loop
  into_rofs fuel o =
      layout_loop fuel (record {
        nodes = [];
        names = [];
        names_interned = [];
        queue = o.root ∷ [];
        child_index = 1;
      })
      >>= λ s. some (record { nodes = s.nodes; files = o.files; names = s.names })

-- ===== src/Rofs/Find.antt =====
-- The tree of names as the specification of the lookups in the array of nodes.
use fsvfs.Base.{
  ℕ, zero, suc, ◌+◌, ◌^◌, ◌<◌, List, [], ◌∷◌, Bool-cases, Option, Option-cases, some_inj, none,
  some, ◌>>=◌, ◌≡◌, refl, sym, ap, subst, ◌∙◌, inl, inr, arith, take, drop, length, get_elem?,
}
use native.Mathlib.Nat.{mod-eq_of_lt}
use fsvfs.Rofs.Path.{Name, Config, same_name}
use fsvfs.Rofs.Node.{Node, dir, file, El, node_name, Eytzinger, IsEytzinger, Rofs}
use fsvfs.Rofs.Object.{TreeNode, Branch, branch, leaf, nil, cons, len, get}
use fsvfs.Rofs.Layout.Names.{NameAt, read_name-NameAt, same_name→eq, same_name_refl}
use fsvfs.Rofs.Layout.Entries.{IsBranch}
use fsvfs.Rofs.Layout.Blocks.{Block, Entries}
use fsvfs.Rofs.Lookup.{find_child, walk}

-- The entry of the tree at a path.
unfoldable pub find : List Name → TreeNode → Option TreeNode
unfolding get
find [] t = some t
find (n ∷ ns) (leaf d) = none
find (n ∷ ns) (branch b) = get n b >>= λ t. find ns t

-- A node shows an entry: a file's node holds its data index, a directory's the number of its entries.
abbrev pub Shows : TreeNode → Node → Type 0
Shows (leaf d) m = m.content ≡ file d
Shows (branch b) m = (c : ℕ) × (m.content ≡ dir c (len b))

-- An index is the answer to a search of the tree: the index of a node that shows the entry, in range,
-- or none where there is no entry.
abbrev pub Answers : List Node → Option TreeNode → Option ℕ → Type 0
Answers nodes none r = r ≡ none
Answers nodes (some t) r =
    (i : ℕ) × (m : Node) × (r ≡ some i) × (get_elem? nodes i ≡ some m) × Shows t m

get-el? : {A : Type 0} (xs : List A) (i : ℕ) (a : A) → get_elem? xs i ≡ some a → El a xs
get-el? [] i a h = absurd (cc)
get-el? (x ∷ xs) zero a h = inl (sym (some_inj x a h))
get-el? (x ∷ xs) (suc i) a h = inr (get-el? xs i a h)

pub get-lt : {A : Type 0} (xs : List A) (i : ℕ) (a : A) → get_elem? xs i ≡ some a → i < length xs
get-lt [] i a h = absurd (cc)
get-lt (x ∷ xs) zero a h = omega arith
get-lt (x ∷ xs) (suc i) a h = omega (arith, get-lt xs i a h)

get-take :
    {A : Type 0} (n : ℕ) (xs : List A) (i : ℕ) (a : A)
    → get_elem? (take n xs) i ≡ some a
    → get_elem? xs i ≡ some a
get-take zero xs i a h = absurd (cc)
get-take (suc n) [] i a h = h
get-take (suc n) (x ∷ xs) zero a h = h
get-take (suc n) (x ∷ xs) (suc i) a h = get-take n xs i a h

get-drop :
    {A : Type 0} (n : ℕ) (xs : List A) (i : ℕ) → get_elem? (drop n xs) i ≡ get_elem? xs (i + n)
get-drop zero xs i = ap (get_elem? xs) (omega arith)
get-drop (suc n) [] i = refl
get-drop (suc n) (x ∷ xs) i =
    get-drop n xs i
    ∙ subst (λ j. get_elem? xs (i + n) ≡ get_elem? (x ∷ xs) j) {x = suc (i + n)} (omega arith) refl

-- An entry below another with a name of its own is still found.
get_below :
    (k n : Name) (u t : TreeNode) (b : Branch)
    → get k b ≡ none
    → get n b ≡ some t
    → get n (cons k u b) ≡ some t
get_below k n u t b fresh g = elim (Bool-cases (same_name k n)) [
  | inl same ↦ absurd (cc (sym fresh, ap (λ j. get j b) (same_name→eq k n same), g))
  | inr other ↦ unfold get in rw other g
]

module _ (e : Eytzinger) (nodes : List Node) (names : List ℕ) where
  -- A node stands for a tree, with all blocks below it.
  abbrev pub IsNode : TreeNode → Node → Type 0
  IsNode (leaf d) m = m.content ≡ file d
  IsNode (branch k) m = (c : ℕ) × (m.content ≡ dir c (len k)) × Block e nodes names c k

  pub IsNode-Shows : (t : TreeNode) (m : Node) → IsNode t m → Shows t m
  IsNode-Shows (leaf d) m h = h
  IsNode-Shows (branch k) m h = (h.0, h.1)

  -- Every entry has a node.
  node-get :
      (b : Branch) (ms : List Node) (n : Name) (t : TreeNode)
      → Entries e nodes names b ms
      → get n b ≡ some t
      → (m : Node) × El m ms × NameAt names m.name_index n
  unfolding get
  node-get nil ms n t h g = absurd (cc)
  node-get (cons k u b) [] n t h g = absurd h
  node-get (cons k (leaf d) b) (m ∷ ms) n t h g = elim (Bool-cases (same_name k n)) [
    | inl same ↦ (m, inl refl, subst (NameAt names m.name_index) (same_name→eq k n same) h.0)
    | inr other ↦ let (x, el, at) = node-get b ms n t h.2 (rw other at g) in (x, inr el, at)
  ]
  node-get (cons k (branch c) b) (m ∷ ms) n t h g = elim (Bool-cases (same_name k n)) [
    | inl same ↦ (m, inl refl, subst (NameAt names m.name_index) (same_name→eq k n same) h.0)
    | inr other ↦ let (x, el, at) = node-get b ms n t h.2 (rw other at g) in (x, inr el, at)
  ]

  -- Every node stands for an entry.
  get-node :
      (b : Branch) (ms : List Node) (m : Node)
      → IsBranch b
      → Entries e nodes names b ms
      → El m ms
      → (n : Name) × (t : TreeNode) × (get n b ≡ some t) × NameAt names m.name_index n × IsNode t m
  unfolding get
  get-node nil [] m wf h el = absurd el
  get-node nil (x ∷ ms) m wf h el = absurd h
  get-node (cons k u b) [] m wf h el = absurd el
  get-node (cons k (leaf d) b) (x ∷ ms) m wf h el = elim el [
    | inl q ↦ (k, leaf d, rw (same_name_refl k), rw q h.0, rw q h.1)
    | inr r ↦
        let (n, t, g, at, is) = get-node b ms m wf.2 h.2 r in
        (n, t, get_below k n (leaf d) t b wf.1 g, at, is)
  ]
  get-node (cons k (branch c) b) (x ∷ ms) m wf h el = elim el [
    | inl q ↦ (k, branch c, rw (same_name_refl k), rw q h.0, rw q h.1)
    | inr r ↦
        let (n, t, g, at, is) = get-node b ms m wf.4 h.2 r in
        (n, t, get_below k n (branch c) t b wf.1 g, at, is)
  ]

abbrev pub IsTree : TreeNode → Type 0
IsTree (leaf d) = Unit
IsTree (branch b) = IsBranch b

pub get-IsTree : (n : Name) (b : Branch) (t : TreeNode) → IsBranch b → get n b ≡ some t → IsTree t
unfolding get
get-IsTree n nil t wf g = absurd (cc)
get-IsTree n (cons j (leaf d) b) t wf g = elim (Bool-cases (same_name j n)) [
  | inl same ↦ subst IsTree (some_inj (leaf d) t (rw same at g)) tt
  | inr other ↦ get-IsTree n b t wf.2 (rw other at g)
]
get-IsTree n (cons j (branch c) b) t wf g = elim (Bool-cases (same_name j n)) [
  | inl same ↦ subst IsTree (some_inj (branch c) t (rw same at g)) wf.3
  | inr other ↦ get-IsTree n b t wf.4 (rw other at g)
]

module _ {ℓ} {T : Type ℓ} (cfg : Config) (e : Eytzinger) (lawful : IsEytzinger e)
    (fs : Rofs T) where
  -- The node that the search ends at, among the children of a directory.
  found_child :
      (k : Branch) (c j : ℕ) (n : Name)
      → IsBranch k
      → (block : Block e fs.nodes fs.names c k)
      → e.search_by_key (node_name fs.names) (e.eytzingerize block.sorted) n ≡ some j
      → (m : Node) × (t : TreeNode) × (get_elem? fs.nodes (j + c) ≡ some m)
        × (get n k ≡ some t)
        × IsNode e fs.nodes fs.names t m
  found_child k c j n wf block hit =
      let (m, here, key) = lawful.search_some _ block.sorted n j block.is_sorted hit in
      let el =
        (block.same_members m).0 (lawful.el_of_eytzingerize block.sorted m (get-el? _ j m here)) in
      let (n', t, g, at, is) = get-node e fs.nodes fs.names k block.members m wf block.entries el in
      let same : n' ≡ n = sym (read_name-NameAt at) ∙ key in
      let there =
        get-take (len k) (drop c fs.nodes) j m
          (subst (λ xs. get_elem? xs j ≡ some m) (sym block.slice) here) in
      (m, t, sym (get-drop c fs.nodes j) ∙ there, subst (λ x. get x k ≡ some t) same g, is)

  find_child-dir :
      (index : ℕ) (m : Node) (n : Name) (c count : ℕ)
      → get_elem? fs.nodes index ≡ some m
      → m.content ≡ dir c count
      → find_child cfg e fs index n ≡ (
          e.search_by_key (node_name fs.names) (take count (drop c fs.nodes)) n >>= λ i.
          some (i + c))
  find_child-dir index m n c count at is_dir = unfold find_child in rw at (rw is_dir refl)

  find_child-file :
      (index : ℕ) (m : Node) (n : Name) (d : ℕ)
      → get_elem? fs.nodes index ≡ some m
      → m.content ≡ file d
      → find_child cfg e fs index n ≡ none
  find_child-file index m n d at is_file = unfold find_child in rw at (rw is_file refl)

  -- What a step into a directory gives: no child, where the tree has none, or the child's node.
  data Stepped (k : Branch) (n : Name) (r : Option ℕ) : Type 0 where
    missed : r ≡ none → get n k ≡ none → Stepped k n r
    reached :
        (i : ℕ) (x : Node) (t : TreeNode)
        → r ≡ some i
        → get_elem? fs.nodes i ≡ some x
        → get n k ≡ some t
        → IsNode e fs.nodes fs.names t x
        → Stepped k n r

  find_child-Stepped :
      (k : Branch) (index : ℕ) (m : Node) (n : Name)
      → IsBranch k
      → get_elem? fs.nodes index ≡ some m
      → IsNode e fs.nodes fs.names (branch k) m
      → Stepped k n (find_child cfg e fs index n)
  find_child-Stepped k index m n wf at (c, is_dir, block) =
      let key = node_name fs.names in
      let step = find_child-dir index m n c (len k) at is_dir in
      let search : find_child cfg e fs index n
          ≡ (e.search_by_key key (e.eytzingerize block.sorted) n >>= λ i. some (i + c)) =
        step ∙ ap (λ xs. e.search_by_key key xs n >>= λ i. some (i + c)) block.slice in
      elim (Option-cases (e.search_by_key key (e.eytzingerize block.sorted) n)) [
        | inr (j, hit) ↦
            let (x, t, there, g, is) = found_child k c j n wf block hit in
            reached (j + c) x t (search ∙ ap (λ r. r >>= λ i. some (i + c)) hit) there g is
        | inl miss ↦ elim (Option-cases (get n k)) [
          | inl none_there ↦ missed (search ∙ ap (λ r. r >>= λ i. some (i + c)) miss) none_there
          | inr (t, g) ↦
              let (x, el, named) =
                node-get e fs.nodes fs.names k block.members n t block.entries g in
              absurd (
                lawful.search_none key block.sorted n block.is_sorted miss x
                  ((block.same_members x).1 el) (read_name-NameAt named))
        ]
      ]

  -- The loop of `inode_by_path` finds what the tree has at the path, from any node of the tree.
  pub walk-find :
      (ns : List Name) (t : TreeNode) (index : ℕ) (m : Node)
      → length fs.nodes < 2 ^ 32
      → IsTree t
      → get_elem? fs.nodes index ≡ some m
      → IsNode e fs.nodes fs.names t m
      → Answers fs.nodes (find ns t) (walk cfg e fs index ns)
  unfolding find walk
  walk-find [] t index m small wf at is = (
    index,
    m,
    ap some (mod-eq_of_lt (omega (arith, get-lt fs.nodes index m at))),
    at,
    IsNode-Shows e fs.nodes fs.names t m is,
  )
  walk-find (n ∷ ns) (leaf d) index m small wf at is = rw (find_child-file index m n d at is)
  walk-find (n ∷ ns) (branch k) index m small wf at is =
      elim (find_child-Stepped k index m n wf at is) [
        | missed r g ↦ rw g (rw r refl)
        | reached i x t r there g stands ↦
            rw g (rw r (walk-find ns t i x small (get-IsTree n k t wf g) there stands))
      ]

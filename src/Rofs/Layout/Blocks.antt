-- ===== src/Rofs/Layout/Blocks.antt =====
-- The layout that the builder reaches: each directory's children stand together, in the order of a
-- search tree, and each directory's node gives their place and number.
use fsvfs.Base.{ℕ, ◌+◌, List, [], ◌∷◌, ◌++◌, ◌≡◌, sym, subst, ◌∙◌, ◌↔◌, inl, inr, arith, take, drop}
use fsvfs.Rofs.Path.{Name}
use fsvfs.Rofs.Node.{Node, dir, file, El, IsSorted, node_name, Eytzinger}
use fsvfs.Rofs.Object.{Branch, branch, leaf, nil, cons, len}
use fsvfs.Rofs.Layout.Names.{NameAt, NameAt-append, read_name-NameAt}
use fsvfs.Rofs.Layout.Entries.{children, total, Placed}

module _ (e : Eytzinger) (nodes : List Node) (names : List ℕ) where
  -- `count` nodes from `start` on are a sorted slice that was put in order, and hold the nodes `ms`.
  pub record BlockOf (start count : ℕ) (P : List Node → Type 0) : Type 0 where
    pub members : List Node
    pub sorted : List Node
    pub slice : take count (drop start nodes) ≡ e.eytzingerize sorted
    pub is_sorted : IsSorted (node_name names) sorted
    pub same_members : (m : Node) → El m sorted ↔ El m members
    pub entries : P members

  -- The nodes of a branch, and below them the blocks of its directories.
  abbrev pub Entries : Branch → List Node → Type 0
  Entries nil [] = Unit
  Entries nil (m ∷ ms) = ⊥
  Entries (cons n t b) [] = ⊥
  Entries (cons n (leaf d) b) (m ∷ ms) =
      NameAt names m.name_index n × (m.content ≡ file d) × Entries b ms
  Entries (cons n (branch k) b) (m ∷ ms) =
      NameAt names m.name_index n
      × ((c : ℕ) × (m.content ≡ dir c (len k)) × BlockOf c (len k) (λ xs. Entries k xs))
      × Entries b ms

  abbrev pub Block : ℕ → Branch → Type 0
  Block start b = BlockOf start (len b) (λ ms. Entries b ms)

  -- The blocks of some branches, one after another.
  abbrev pub Blocks : ℕ → List Branch → Type 0
  Blocks start [] = Unit
  Blocks start (b ∷ bs) = Block start b × Blocks (start + len b) bs

  pub Blocks-append :
      (start : ℕ) (xs ys : List Branch)
      → Blocks start (xs ++ ys)
      → Blocks start xs × Blocks (start + total xs) ys
  Blocks-append start [] ys h = (tt, subst (λ t. Blocks t ys) (omega arith) h)
  Blocks-append start (b ∷ xs) ys h =
      let (here, there) = Blocks-append (start + len b) xs ys h.1 in
      ((h.0, here), subst (λ t. Blocks t ys) (omega arith) there)

  -- Nodes that point at blocks that are there.
  pub Entries-of_Placed :
      (c : ℕ) (b : Branch) (ms : List Node)
      → Placed c names b ms
      → Blocks c (children b)
      → Entries b ms
  Entries-of_Placed c nil [] p h = tt
  Entries-of_Placed c nil (m ∷ ms) p h = p
  Entries-of_Placed c (cons n t b) [] p h = p
  Entries-of_Placed c (cons n (leaf d) b) (m ∷ ms) p h = (p.0, p.1, Entries-of_Placed c b ms p.2 h)
  Entries-of_Placed c (cons n (branch k) b) (m ∷ ms) p h =
      (p.0, (c, p.1, h.0), Entries-of_Placed (c + len k) b ms p.2 h.1)

name-Placed :
    (c : ℕ) (names : List ℕ) (b : Branch) (ms : List Node) (m : Node)
    → Placed c names b ms
    → El m ms
    → (n : Name) × NameAt names m.name_index n
name-Placed c names nil [] m p h = absurd h
name-Placed c names nil (x ∷ ms) m p h = absurd p
name-Placed c names (cons n t b) [] m p h = absurd h
name-Placed c names (cons n (leaf d) b) (x ∷ ms) m p h = elim h [
  | inl q ↦ (n, rw q p.0)
  | inr r ↦ name-Placed c names b ms m p.2 r
]
name-Placed c names (cons n (branch k) b) (x ∷ ms) m p h = elim h [
  | inl q ↦ (n, rw q p.0)
  | inr r ↦ name-Placed (c + len k) names b ms m p.2 r
]

-- The names of pushed nodes do not change when the store grows.
pub same_names :
    (c : ℕ) (names more : List ℕ) (b : Branch) (ms : List Node) (m : Node)
    → Placed c names b ms
    → El m ms
    → node_name names m ≡ node_name (names ++ more) m
same_names c names more b ms m p h =
    let (n, at) = name-Placed c names b ms m p h in
    read_name-NameAt at ∙ sym (read_name-NameAt (NameAt-append more at))

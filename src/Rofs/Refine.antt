-- ===== src/Rofs/Refine.antt =====
-- The finished filesystem answers each lookup as the tree of names does.
use fsvfs.Base.{
  ℕ, ◌+◌, ◌%◌, ◌^◌, ◌<◌, List, [], ◌∷◌, Bool, true, false, if◌then◌else◌, Option, some_inj, none,
  some, >>=-eq-some, ◌≡◌, refl, sym, ap, subst, ◌∙◌, inl, inr, arith, length, get_elem?,
}
use fsvfs.Rofs.Path.{Name, Config, components, normalize_path, to_ascii_lowercase}
use fsvfs.Rofs.Node.{Node, El, Eytzinger, IsEytzinger, Rofs}
use fsvfs.Rofs.Object.{TreeNode, Branch, branch, nil, cons, RofsObject}
use fsvfs.Rofs.Layout.{Builder, layout_loop, into_rofs}
use fsvfs.Rofs.Layout.Entries.{IsBranch}
use fsvfs.Rofs.Layout.Blocks.{Block, Entries}
use fsvfs.Rofs.Layout.Total.{dir_count, node_count, name_bytes, Fits, layout_loop_total}
use fsvfs.Rofs.Layout.Loop.{IsBuilder, layout_loop_lem}
use fsvfs.Rofs.Lookup.{
  Result, ok, err, not_found, wrapping_sub64, wrapping_add64, inode_by_path,
  inode_by_path_ignore_ascii_case, lookup_in_dir, lookup,
}
use fsvfs.Rofs.Find.{find, Shows, Answers, IsNode, walk-find, get-lt}

-- An object whose root map holds the directory `b` under the empty name, as `new` makes it.
pub record HasTree {ℓ} {T : Type ℓ} (o : RofsObject T) (b : Branch) : Type 0 where
  pub is_root : o.root ≡ cons [] (branch b) nil
  pub is_tree : IsBranch (cons [] (branch b) nil)

abbrev pub start_builder : Branch → Builder
start_builder root = record {
  nodes = [];
  names = [];
  names_interned = [];
  queue = root ∷ [];
  child_index = 1;
}

-- What the finished filesystem is.
pub record Holds {ℓ} {T : Type ℓ} (e : Eytzinger) (o : RofsObject T) (b : Branch) (fs : Rofs T)
    : Type ℓ where
  pub small : length fs.nodes < 2 ^ 32
  pub root : Node
  pub at_zero : get_elem? fs.nodes 0 ≡ some root
  pub stands : IsNode e fs.nodes fs.names (branch b) root
  pub same_files : fs.files ≡ o.files

only_entry :
    (e : Eytzinger) (b : Branch) (nodes : List Node) (names : List ℕ) (ms : List Node) (x : Node)
    → Entries e nodes names (cons [] (branch b) nil) ms
    → El x ms
    → IsNode e nodes names (branch b) x
only_entry e b nodes names [] x h el = absurd el
only_entry e b nodes names (m ∷ []) x h el = elim el [ inl q ↦ rw q h.1 | inr r ↦ absurd r ]
only_entry e b nodes names (m ∷ y ∷ ms) x h el = absurd h.2

some_entry :
    (e : Eytzinger) (b : Branch) (nodes : List Node) (names : List ℕ) (ms : List Node)
    → Entries e nodes names (cons [] (branch b) nil) ms
    → (x : Node) × El x ms
some_entry e b nodes names [] h = absurd h
some_entry e b nodes names (m ∷ ms) h = (m, inl refl)

root_node :
    (e : Eytzinger) (lawful : IsEytzinger e) (b : Branch) (nodes : List Node) (names : List ℕ)
    → Block e nodes names 0 (cons [] (branch b) nil)
    → (m : Node) × (get_elem? nodes 0 ≡ some m) × IsNode e nodes names (branch b) m
root_node e lawful b [] names block =
    let (x, el) = some_entry e b [] names block.members block.entries in
    absurd (
      el-nil block.sorted x ((block.same_members x).1 el)
        (sym (lawful.length-eytzingerize block.sorted) ∙ ap length (sym block.slice)))
  where
    el-nil : (xs : List Node) (x : Node) → El x xs → length xs ≡ 0 → ⊥
    el-nil [] x h l = h
    el-nil (y ∷ xs) x h l = omega arith
root_node e lawful b (x ∷ rest) names block =
    let in_block : El x (e.eytzingerize block.sorted) = subst (El x) block.slice (inl refl) in
    let el = (block.same_members x).0 (lawful.el_of_eytzingerize block.sorted x in_block) in
    (x, refl, only_entry e b (x ∷ rest) names block.members x block.entries el)

module _ {ℓ} {T : Type ℓ} (e : Eytzinger) (lawful : IsEytzinger e) where
  start-IsBuilder : (o : RofsObject T) (b : Branch) → HasTree o b → IsBuilder (start_builder o.root)
  start-IsBuilder o b t = record {
    stored = tt;
    trees = (rw t.is_root t.is_tree, tt);
    promised = rw t.is_root (omega arith);
    bounded = omega arith;
  }

  pub into_rofs-Holds :
      (fuel : ℕ) (o : RofsObject T) (b : Branch) (fs : Rofs T)
      → HasTree o b
      → into_rofs e fuel o ≡ some fs
      → Holds e o b fs
  unfolding into_rofs
  into_rofs-Holds fuel o b fs t h =
      let (f, ran, made) = >>=-eq-some (layout_loop e fuel (start_builder o.root)) _ fs h in
      let r = layout_loop_lem e lawful fuel (start_builder o.root) f (start-IsBuilder o b t) ran in
      let block : Block e f.nodes f.names 0 (cons [] (branch b) nil) =
        subst (λ x. Block e f.nodes f.names 0 x) t.is_root r.blocks.0 in
      let (m, at, is) = root_node e lawful b f.nodes f.names block in
      subst (Holds e o b) (some_inj _ fs made)
        (record { small = r.small; root = m; at_zero = at; stands = is; same_files = refl })

module _ {ℓ} {T : Type ℓ} (e : Eytzinger) (lawful : IsEytzinger e) where
  start-Fits :
      (fuel : ℕ) (o : RofsObject T) (b : Branch)
      → HasTree o b
      → dir_count b + 2 < fuel
      → node_count b + 1 < 2 ^ 32
      → name_bytes b + 1 < 2 ^ 32
      → Fits fuel (start_builder o.root)
  start-Fits fuel o b t dirs nodes names = record {
    fuel_left = rw t.is_root (omega arith);
    nodes_left = rw t.is_root (omega arith);
    names_left = rw t.is_root (omega arith);
  }

  -- For every object with a tree of names, whose entries (with the root) and the bytes of whose names are
  -- fewer than 2^32, and fuel for one round more than its directories and its root map: `into_rofs`
  -- returns a filesystem, with neither a panic nor a lack of fuel.
  into_rofs_total :
      (fuel : ℕ) (o : RofsObject T) (b : Branch)
      → HasTree o b
      → dir_count b + 2 < fuel
      → node_count b + 1 < 2 ^ 32
      → name_bytes b + 1 < 2 ^ 32
      → (fs : Rofs T) × (into_rofs e fuel o ≡ some fs)
  unfolding into_rofs
  into_rofs_total fuel o b t dirs nodes names =
      let (f, ran) =
        layout_loop_total e lawful fuel (start_builder o.root) (start-IsBuilder e lawful o b t)
          (start-Fits fuel o b t dirs nodes names) in
      (record { nodes = f.nodes; files = o.files; names = f.names }, rw ran refl)

-- The entry under a normal path of the tree: as it is written, or else in lower case.
unfoldable pub find_ignore_ascii_case : Config → Branch → Name → Option TreeNode
unfolding find components to_ascii_lowercase
find_ignore_ascii_case c b path = elim (find (components c path) (branch b)) [
  | some t ↦ some t
  | none ↦
      (let (lowered, had_uppercase) = to_ascii_lowercase path in
        if had_uppercase then find (components c lowered) (branch b) else none)
]

-- The entry that a path names in the tree.
abbrev pub find_path : Config → Branch → Name → Option TreeNode
find_path c b path = find_ignore_ascii_case c b (normalize_path c path)

-- A lookup's result for an entry of the tree: an inode whose node shows the entry, or `NotFound`
-- where there is none.
abbrev pub Finds : Config → List Node → Option TreeNode → Result ℕ → Type 0
Finds c nodes none r = r ≡ err not_found
Finds c nodes (some t) r =
    (inode : ℕ) × (m : Node) × (r ≡ ok inode)
    × (get_elem? nodes (wrapping_sub64 inode c.inode_root) ≡ some m)
    × Shows t m

-- The second search is used where the first finds nothing, on both sides.
or_else :
    (nodes : List Node) (x y : Option TreeNode) (r s : Option ℕ) (again : Bool)
    → Answers nodes x r
    → Answers nodes y s
    → Answers nodes
        (elim x [ some t ↦ some t | none ↦ if again then y else none ])
        (elim r [ some i ↦ some i | none ↦ if again then s else none ])
or_else nodes (some t) y r s again (i, m, p, at, shows) q = (i, m, rw p refl, at, shows)
or_else nodes none y r s true p q = rw p q
or_else nodes none y r s false p q = rw p refl

to_inode :
    (c : Config) (nodes : List Node) (x : Option TreeNode) (r : Option ℕ)
    → c.inode_root < 2 ^ 32
    → length nodes < 2 ^ 32
    → Answers nodes x r
    → Finds c nodes x
        (elim r [ some inode ↦ ok (wrapping_add64 inode c.inode_root) | none ↦ err not_found ])
to_inode c nodes none r root small p = rw p refl
to_inode c nodes (some t) r root small (i, m, p, at, shows) =
    let fits = get-lt nodes i m at in
    let back : wrapping_sub64 (wrapping_add64 i c.inode_root) c.inode_root ≡ i = omega arith in
    (wrapping_add64 i c.inode_root, m, rw p refl, rw back at, shows)

module _ {ℓ} {T : Type ℓ} (c : Config) (e : Eytzinger) (lawful : IsEytzinger e) where
  by_path :
      (o : RofsObject T) (b : Branch) (fs : Rofs T) (path : Name)
      → HasTree o b
      → Holds e o b fs
      → Answers fs.nodes (find (components c path) (branch b)) (inode_by_path c e fs 0 path)
  by_path o b fs path t h =
      unfold inode_by_path in
      walk-find c e lawful fs (components c path) (branch b) 0 h.root h.small t.is_tree.3 h.at_zero
        h.stands

  ignore_case :
      (o : RofsObject T) (b : Branch) (fs : Rofs T) (path : Name)
      → HasTree o b
      → Holds e o b fs
      → Answers fs.nodes
          (find_ignore_ascii_case c b path)
          (inode_by_path_ignore_ascii_case c e fs 0 path)
  ignore_case o b fs path t h =
      let (lowered, again) = to_ascii_lowercase path in
      unfold find_ignore_ascii_case inode_by_path_ignore_ascii_case in
      or_else fs.nodes _ _ _ _ again (by_path o b fs path t h) (by_path o b fs lowered t h)

  -- Each lookup in a filesystem that `into_rofs` returns.
  pub lookup_in_finished :
      (fuel : ℕ) (o : RofsObject T) (b : Branch) (fs : Rofs T) (path : Name)
      → c.inode_root < 2 ^ 32
      → HasTree o b
      → into_rofs e fuel o ≡ some fs
      → Finds c fs.nodes (find_path c b path) (lookup c e fs path)
  lookup_in_finished fuel o b fs path root t h =
      let r = into_rofs-Holds e lawful fuel o b fs t h in
      let zero_parent : wrapping_sub64 c.inode_root c.inode_root % 2 ^ 32 ≡ 0 = omega arith in
      let answer = ignore_case o b fs (normalize_path c path) t r in
      unfold lookup lookup_in_dir in
      subst
        (λ p.
          Finds c fs.nodes (find_path c b path)
            (elim (inode_by_path_ignore_ascii_case c e fs p (normalize_path c path)) [
              | some inode ↦ ok (wrapping_add64 inode c.inode_root)
              | none ↦ err not_found
            ]))
        (sym zero_parent) (to_inode c fs.nodes (find_path c b path) _ root r.small answer)

  -- For every object with a tree of names whose entries and names fit a `u32`, with fuel for its
  -- directories: `into_rofs` returns a filesystem with the object's files, in which the lookup of a path
  -- gives the inode of a node that shows the tree's entry at the path (as the path is written, or else
  -- in lower case), and `NotFound` where the tree has none.
  pub lookup-find_path :
      (fuel : ℕ) (o : RofsObject T) (b : Branch) (path : Name)
      → c.inode_root < 2 ^ 32
      → HasTree o b
      → dir_count b + 2 < fuel
      → node_count b + 1 < 2 ^ 32
      → name_bytes b + 1 < 2 ^ 32
      → (fs : Rofs T) × (into_rofs e fuel o ≡ some fs)
        × (fs.files ≡ o.files)
        × Finds c fs.nodes (find_path c b path) (lookup c e fs path)
  lookup-find_path fuel o b path root t dirs nodes names =
      let (fs, made) = into_rofs_total e lawful fuel o b t dirs nodes names in
      let r = into_rofs-Holds e lawful fuel o b fs t made in
      (fs, made, r.same_files, lookup_in_finished fuel o b fs path root t made)

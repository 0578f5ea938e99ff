-- ===== src/Rofs/Archives.antt =====
-- src/dvdbnd/filesystem.rs, src/filesystem.rs: the filesystem of several archives, from their objects to lookups.
use fsvfs.Base.{
  ℕ, ◌+◌, ◌-◌, ◌%◌, ◌^◌, ◌<◌, ◌≤◌, ltb, lt→ltb, true, List, [], ◌∷◌, ◌++◌, length, length-append,
  All, get_elem?, some, ◌≡◌, refl, ap, subst, ◌∙◌, arith,
}
use fsvfs.Rofs.Path.{Name, Config, components, normalize_path}
use fsvfs.Rofs.Node.{Node, file, node_name, Eytzinger, IsEytzinger, Rofs}
use fsvfs.Rofs.Object.{
  Branch, branch, leaf, len, get, RofsObject, empty, merge, merge_branch, adjust_files,
}
use fsvfs.Rofs.Object.Grown.{IsGrown-IsBranch}
use fsvfs.Rofs.Object.Sizes.{
  size, one, zero_of, name_weight, merge_branch-size, size-adjust_files, node_count-size,
  dir_count-size, name_bytes-size,
}
use fsvfs.Rofs.Object.Merged.{
  entries, len-le-entries, merge_branch-IsGrown, adjust_files-IsGrown, IsBranch-IsGrown,
}
use fsvfs.Rofs.Object.Union.{HasRoot, united, merge_parts}
use fsvfs.Rofs.Object.Reduce.{
  merge_onto, merge_all, Gives, AreRooted, objects_of, IsVacant, merge-nil_root, merge_all-Gives,
}
use fsvfs.Rofs.Layout.{into_rofs}
use fsvfs.Rofs.Lookup.{ok, wrapping_sub64, Entry, file_entry, node_kind, node_entry, entry, lookup}
use fsvfs.Rofs.Find.{find}
use fsvfs.Rofs.Refine.{HasTree, Finds, find_path, find_ignore_ascii_case, lookup-find_path}

module _ {ℓ} {T : Type ℓ} where
  abbrev pub sum_of : (RofsObject T × Branch → ℕ) → List (RofsObject T × Branch) → ℕ
  sum_of f [] = 0
  sum_of f (p ∷ rest) = f p + sum_of f rest

  -- Objects as `new` makes them, each with its tree.
  abbrev pub AreTrees : List (RofsObject T × Branch) → Type 0
  AreTrees = All (λ p. HasTree p.0 p.1)

  AreTrees-AreRooted :
      (objects : List (RofsObject T × Branch)) → AreTrees objects → AreRooted objects
  AreTrees-AreRooted [] t = tt
  AreTrees-AreRooted (p ∷ rest) t = (t.0.is_root, AreTrees-AreRooted rest t.1)

  united-size :
      (f g : Name → ℕ) (self : RofsObject T) (a b : Branch)
      → size f g (united self a b) ≤ size f g a + size f g b
  united-size f g self a b =
      let k = length self.files % 2 ^ 32 in
      omega (arith, merge_branch-size f g (adjust_files k b) a, size-adjust_files f g k b)

  merge-HasTree :
      (self other o : RofsObject T) (a b : Branch)
      → HasTree self a
      → HasTree other b
      → merge self other ≡ some o
      → entries a + entries b < 2 ^ 32
      → HasTree o (united self a b)
  merge-HasTree self other o a b s t merged small =
      let k = length self.files % 2 ^ 32 in
      let bound = 2 ^ 32 - 1 in
      let moved = adjust_files k b in
      let fits : entries a + entries moved ≤ bound =
        omega (arith, size-adjust_files one one k b, small) in
      let grown =
        merge_branch-IsGrown bound moved a (IsBranch-IsGrown a s.is_tree.3)
          (adjust_files-IsGrown bound k b (IsBranch-IsGrown b t.is_tree.3)) fits in
      record {
        is_root = (merge_parts self other o a b s.is_root t.is_root merged).0;
        is_tree = (
          omega arith,
          unfold get in refl,
          omega (arith, len-le-entries (united self a b), united-size one one self a b, small),
          IsGrown-IsBranch bound (united self a b) (omega arith) grown,
          tt,
        );
      }

  merge_total :
      (self other : RofsObject T) (a b : Branch)
      → HasRoot self a
      → HasRoot other b
      → length self.files + length other.files < 2 ^ 32
      → (o : RofsObject T) × (merge self other ≡ some o)
        × (length o.files ≡ length self.files + length other.files)
  unfolding merge
  merge_total self other a b s t small =
      let count = length-append self.files other.files in
      let fits : ltb (length (self.files ++ other.files)) (2 ^ 32) ≡ true =
        lt→ltb _ _ (omega (arith, count, small)) in
      (
        record {
          root = merge_branch self.root (adjust_files (length self.files % 2 ^ 32) other.root);
          files = self.files ++ other.files;
        },
        rw (merge, ap len s, ap len t, fits) refl,
        count,
      )

  abbrev file_total : List (RofsObject T × Branch) → ℕ
  file_total = sum_of (λ p. length p.0.files)

  abbrev size_total : (Name → ℕ) → (Name → ℕ) → List (RofsObject T × Branch) → ℕ
  size_total f g = sum_of (λ p. size f g p.1)

  -- What the merge onto an object is: it has a tree, which is as large as all trees at most.
  merge_onto_total :
      (acc : RofsObject T) (a : Branch) (rest : List (RofsObject T × Branch))
      → HasTree acc a
      → AreTrees rest
      → entries a + size_total one one rest < 2 ^ 32
      → length acc.files + file_total rest < 2 ^ 32
      → (o : RofsObject T) × (m : Branch) × (merge_onto acc (objects_of rest) ≡ some o)
        × HasTree o m
        × ((f g : Name → ℕ) → size f g m ≤ size f g a + size_total f g rest)
  unfolding merge_onto
  merge_onto_total acc a [] t trees small few = (acc, a, refl, t, λ f g. omega arith)
  merge_onto_total acc a ((p, b) ∷ rest) t trees small few =
      let (both, merged, count) =
        merge_total acc p a b t.is_root trees.0.is_root (omega (arith, few)) in
      let tree = merge-HasTree acc p both a b t trees.0 merged (omega (arith, small)) in
      let grown = united-size one one acc a b in
      let (o, m, all, whole, sizes) =
        merge_onto_total both (united acc a b) rest tree trees.1 (omega (arith, grown, small))
          (omega (arith, count, few)) in
      (o, m, rw merged all, whole, λ f g. omega (arith, sizes f g, united-size f g acc a b))

  -- Objects that a `u32` and some fuel are enough for.
  pub record HaveRoom (fuel : ℕ) (objects : List (RofsObject T × Branch)) : Type 0 where
    pub entries_fit : size_total one one objects + 1 < 2 ^ 32
    pub files_fit : file_total objects < 2 ^ 32
    pub names_fit : size_total name_weight name_weight objects + 1 < 2 ^ 32
    pub fuel_enough : size_total zero_of one objects + 2 < fuel

  merge_all_total :
      (fuel : ℕ) (objects : List (RofsObject T × Branch))
      → 0 < length objects
      → AreTrees objects
      → HaveRoom fuel objects
      → (o : RofsObject T) × (m : Branch) × (merge_all (objects_of objects) ≡ some o)
        × HasTree o m
        × ((f g : Name → ℕ) → size f g m ≤ size_total f g objects)
  unfolding merge_all merge_onto empty
  merge_all_total fuel [] some_object trees room = absurd (omega arith)
  merge_all_total fuel ((p, b) ∷ rest) some_object trees room =
      let (o, m, all, tree, sizes) =
        merge_onto_total p b rest trees.0 trees.1 (omega (arith, room.entries_fit))
          (omega (arith, room.files_fit)) in
      (o, m, rw (merge-nil_root empty p refl) all, tree, sizes)

All-append_right {ℓ κ} :
    {A : Type ℓ} (P : A → Type κ) (xs ys : List A) → All P (xs ++ ys) → All P ys
All-append_right P [] ys h = h
All-append_right P (x ∷ xs) ys h = All-append_right P xs ys h.1

module _ {ℓ} {T : Type ℓ} (c : Config) (e : Eytzinger) (lawful : IsEytzinger e) where
  abbrev file_at : Rofs T → ℕ → Node → T → Entry T
  file_at fs inode node x = record {
    inode = wrapping_sub64 (wrapping_sub64 inode c.inode_root) c.inode_root;
    name = node_name fs.names node;
    kind = file_entry x;
  }

  entry-file :
      (fs : Rofs T) (inode : ℕ) (node : Node) (d : ℕ) (x : T)
      → get_elem? fs.nodes (wrapping_sub64 inode c.inode_root) ≡ some node
      → node.content ≡ file d
      → get_elem? fs.files d ≡ some x
      → entry c fs inode ≡ some (ok (file_at fs inode node x))
  unfolding entry node_entry node_kind
  entry-file fs inode node d x at shows content =
      rw (entry, at, node_entry, shows, node_kind, content) refl

  -- A lookup of a path that leads to data in the tree.
  lookup-Gives :
      (fs : Rofs T) (o : RofsObject T) (m : Branch) (path : Name) (x : T)
      → HasTree o m
      → fs.files ≡ o.files
      → Finds c fs.nodes (find_path c m path) (lookup c e fs path)
      → Gives o (components c (normalize_path c path)) x
      → (inode : ℕ) × (y : Entry T) × (lookup c e fs path ≡ ok inode)
        × (entry c fs inode ≡ some (ok y))
        × (y.kind ≡ file_entry x)
  unfolding find_ignore_ascii_case
  lookup-Gives fs o m path x tree files finds given =
      let ns = components c (normalize_path c path) in
      let same : given.tree ≡ m = cc (given.has_root, tree.is_root) in
      let there : find ns (branch m) ≡ some (leaf given.index) =
        subst (λ t. find ns (branch t) ≡ some (leaf given.index)) same given.found in
      let led : find_path c m path ≡ some (leaf given.index) =
        rw (find_ignore_ascii_case, there) refl in
      let (inode, node, is, at, shows) =
        subst (λ t. Finds c fs.nodes t (lookup c e fs path)) led finds in
      let content : get_elem? fs.files given.index ≡ some x =
        ap (λ l. get_elem? l given.index) files ∙ given.content in
      (
        inode,
        file_at fs inode node x,
        is,
        entry-file fs inode node given.index x at shows content,
        refl,
      )

  -- For the objects of some archives, each with a tree of names, which a `u32` and the fuel are enough for: merged one
  -- after another and laid out they give a filesystem. A file of any of them, under a path that is free in the merge of
  -- the archives before it, is found there: the lookup of each way to write its path gives an inode, whose entry is a
  -- file with its data.
  pub merge_all-lookup :
      (fuel : ℕ) (before after : List (RofsObject T × Branch)) (p o₀ : RofsObject T) (b : Branch)
      (path : Name) (d : ℕ) (x : T)
      → c.inode_root < 2 ^ 32
      → AreTrees (before ++ (p, b) ∷ after)
      → HaveRoom fuel (before ++ (p, b) ∷ after)
      → merge_all (objects_of before) ≡ some o₀
      → IsVacant (components c (normalize_path c path)) o₀
      → find (components c (normalize_path c path)) (branch b) ≡ some (leaf d)
      → get_elem? p.files d ≡ some x
      → (o : RofsObject T) × (fs : Rofs T) × (merge_all (objects_of (before ++ (p, b) ∷ after))
          ≡ some o)
        × (into_rofs e fuel o ≡ some fs)
        × ((inode : ℕ) × (y : Entry T) × (lookup c e fs path ≡ ok inode)
            × (entry c fs inode ≡ some (ok y))
            × (y.kind ≡ file_entry x))
  merge_all-lookup fuel before after p o₀ b path d x root trees room first vacant f at =
      let objects = before ++ (p, b) ∷ after in
      let (o, m, all, tree, sizes) =
        merge_all_total fuel objects (omega (arith, length-append before ((p, b) ∷ after))) trees
          room in
      let (fs, laid, files, finds) =
        lookup-find_path c e lawful fuel o m path root tree
          (omega (arith, dir_count-size m, sizes zero_of one, room.fuel_enough))
          (omega (arith, node_count-size m, sizes one one, room.entries_fit))
          (omega (arith, name_bytes-size m, sizes name_weight name_weight, room.names_fit)) in
      let here = All-append_right (λ q. HasTree q.0 q.1) before ((p, b) ∷ after) trees in
      let given =
        merge_all-Gives before after p o₀ o b (components c (normalize_path c path)) d x
          here.0.is_root (AreTrees-AreRooted after here.1) first vacant all f at in
      (o, fs, all, laid, lookup-Gives fs o m path x tree files finds given)

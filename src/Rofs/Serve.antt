-- ===== src/Rofs/Serve.antt =====
-- What the finished filesystem serves for the list of files that it was made of.
use fsvfs.Base.{
  ℕ, ◌+◌, ◌*◌, ◌%◌, ◌^◌, ◌<◌, List, Bool-cases, get_elem?, Option, Option-cases, none, some,
  some_inj, ◌≡◌, ◌≢◌, refl, sym, ap, subst, ◌∙◌, ◌⊎◌, inl, inr, arith,
}
use fsvfs.Rofs.Path.{Name, Config, components, normalize_path, to_ascii_lowercase}
use fsvfs.Rofs.Node.{Node, Eytzinger, IsEytzinger, Rofs}
use fsvfs.Rofs.Object.{TreeNode, Branch, branch, leaf, RofsObject, new}
use fsvfs.Rofs.Object.Files.{stored_path, new-HasTree, new-find}
use fsvfs.Rofs.Layout.{into_rofs}
use fsvfs.Rofs.Lookup.{
  Result, ok, wrapping_sub64, file_entry, Entry, node_kind, node_entry, entry, lookup,
}
use fsvfs.Rofs.Find.{find, Shows}
use fsvfs.Rofs.Refine.{
  into_rofs-Holds, find_path, find_ignore_ascii_case, Finds, lookup_in_finished,
}

-- The components of a path, as it is written or in lower case.
abbrev pub IsWritten : Config → Name → List Name → Type 0
IsWritten c path ns =
    (components c (normalize_path c path) ≡ ns)
    ⊎ (components c (to_ascii_lowercase (normalize_path c path)).0 ≡ ns)

find_path-IsWritten :
    (c : Config) (b : Branch) (path : Name) (t : TreeNode)
    → find_path c b path ≡ some t
    → (ns : List Name) × IsWritten c path ns × (find ns (branch b) ≡ some t)
unfolding find_ignore_ascii_case
find_path-IsWritten c b path t h =
    let normal = normalize_path c path in
    elim (Option-cases (find (components c normal) (branch b))) [
      | inr (u, found) ↦
          (components c normal, inl refl, found ∙ rw (find_ignore_ascii_case, found) at h)
      | inl missed ↦
          let (lowered, again) = to_ascii_lowercase normal in
          elim (Bool-cases again) [
            | inl upper ↦
                (components c lowered, inr refl, rw (find_ignore_ascii_case, missed, upper) at h)
            | inr plain ↦ absurd (cc (rw (find_ignore_ascii_case, missed, plain) at h))
          ]
    ]

-- A lookup that succeeds found an entry of the tree, which the node of the inode shows.
ok_Finds :
    (c : Config) (nodes : List Node) (x : Option TreeNode) (r : Result ℕ) (inode : ℕ)
    → Finds c nodes x r
    → r ≡ ok inode
    → (t : TreeNode) × (m : Node) × (x ≡ some t)
      × (get_elem? nodes (wrapping_sub64 inode c.inode_root) ≡ some m)
      × Shows t m
ok_Finds c nodes none r inode h e = absurd (cc)
ok_Finds c nodes (some t) r inode (i, m, is, at, shows) e =
    let same : i ≡ inode = cc (is, e) in
    (
      t,
      m,
      refl,
      subst (λ j. get_elem? nodes (wrapping_sub64 j c.inode_root) ≡ some m) same at,
      shows,
    )

entry_inj {ℓ} : {T : Type ℓ} (a x : Entry T) → some (ok a) ≡ some (ok x) → a ≡ x
entry_inj a x h = cc

file_inj {ℓ} : {T : Type ℓ} (a b : T) → some (file_entry a) ≡ some (file_entry b) → a ≡ b
file_inj a b h = cc

module _ {ℓ} {T : Type ℓ} (c : Config) where
  -- What an entry that is read was made of.
  entry_parts :
      (fs : Rofs T) (inode : ℕ) (x : Entry T)
      → entry c fs inode ≡ some (ok x)
      → (m : Node) × (get_elem? fs.nodes (wrapping_sub64 inode c.inode_root) ≡ some m)
        × (node_kind c fs m.content ≡ some x.kind)
        × (x.inode ≡ wrapping_sub64 (wrapping_sub64 inode c.inode_root) c.inode_root)
  unfolding entry node_entry
  entry_parts fs inode x h =
      elim (Option-cases (get_elem? fs.nodes (wrapping_sub64 inode c.inode_root))) [
        | inl gone ↦ absurd (cc (rw (gone, entry) at h))
        | inr (m, at) ↦ elim (Option-cases (node_kind c fs m.content)) [
          | inl panics ↦ absurd (cc (rw (at, entry, node_entry, panics) at h))
          | inr (k, kind) ↦
              let same = entry_inj _ x (rw (at, entry, node_entry, kind) at h) in
              (m, at, kind ∙ ap (λ e. some e.kind) same, ap (λ e. e.inode) (sym same))
        ]
      ]

  -- The node of a file entry shows a file, whose data is the entry's.
  file_entry-data :
      (fs : Rofs T) (t : TreeNode) (m : Node) (v : T)
      → Shows t m
      → node_kind c fs m.content ≡ some (file_entry v)
      → (d : ℕ) × (t ≡ leaf d) × (get_elem? fs.files d ≡ some v)
  unfolding node_kind
  file_entry-data fs (leaf d) m v shows h = elim (Option-cases (get_elem? fs.files d)) [
    | inl out ↦ absurd (cc (rw (shows, node_kind, out) at h))
    | inr (x, at) ↦ (d, refl, at ∙ ap some (file_inj x v (rw (shows, node_kind, at) at h)))
  ]
  file_entry-data fs (branch k) m v (first, shows) h = absurd (cc (rw (shows, node_kind) at h))

module _ {ℓ} {T : Type ℓ} (c : Config) (e : Eytzinger) (lawful : IsEytzinger e) where
  -- In a filesystem that is made of a list of files: where a path is looked up, and the entry of the inode
  -- is a file, its data is that of a file of the list, and the file's stored path has the components of
  -- the path that was looked up, as it is written or in lower case.
  pub new-lookup-entry :
      (fuel : ℕ) (files : List (Name × T)) (o : RofsObject T) (fs : Rofs T) (path : Name)
      (inode : ℕ) (x : Entry T) (v : T)
      → c.inode_root < 2 ^ 32
      → new c files ≡ some o
      → into_rofs e fuel o ≡ some fs
      → lookup c e fs path ≡ ok inode
      → entry c fs inode ≡ some (ok x)
      → x.kind ≡ file_entry v
      → (d : ℕ) × (p : Name) × (get_elem? files d ≡ some (p, v))
        × IsWritten c path (stored_path c p)
  new-lookup-entry fuel files o fs path inode x v root made laid found read is_file =
      let (b, t) = new-HasTree c files o made in
      let holds = into_rofs-Holds e lawful fuel o b fs t laid in
      let finds = lookup_in_finished c e lawful fuel o b fs path root t laid in
      let (u, m, there, at, shows) = ok_Finds c fs.nodes (find_path c b path) _ inode finds found in
      let (m', at', kind, number) = entry_parts c fs inode x read in
      let same : m ≡ m' = some_inj m m' (sym at ∙ at') in
      let (d, leaf_d, content) =
        file_entry-data c fs u m' v (subst (Shows u) same shows) (kind ∙ ap some is_file) in
      let (ns, written, in_tree) = find_path-IsWritten c b path u there in
      let (p, w, listed, stored, kept) =
        new-find c files o b ns d made t (in_tree ∙ ap some leaf_d) in
      let data_same : w ≡ v =
        some_inj w v (sym kept ∙ sym (ap (λ l. get_elem? l d) holds.same_files) ∙ content) in
      (
        d,
        p,
        subst (λ y. get_elem? files d ≡ some (p, y)) data_same listed,
        subst (IsWritten c path) (sym stored) written,
      )

module _ {ℓ} {T : Type ℓ} (c : Config) where
  -- The inode in an entry is never the inode that the entry was asked for, while the root's inode is above
  -- 0 and below 2^63: it is twice the root's inode less.
  pub entry-inode :
      (fs : Rofs T) (inode : ℕ) (x : Entry T)
      → 0 < c.inode_root
      → c.inode_root < 2 ^ 63
      → inode < 2 ^ 64
      → entry c fs inode ≡ some (ok x)
      → ((x.inode + 2 * c.inode_root) % 2 ^ 64 ≡ inode) × (x.inode ≢ inode)
  entry-inode fs inode x positive small fits read =
      let (m, at, kind, number) = entry_parts c fs inode x read in
      (omega (arith, number), λ same. omega (arith, number, same))

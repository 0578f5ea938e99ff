-- ===== src/Rofs/Object/Reduce.antt =====
-- src/dvdbnd/filesystem.rs: the objects of all archives, merged by `reduce`. The source merges in parallel; here
-- one object after another is merged.
use fsvfs.Base.{
  ℕ, ◌+◌, List, [], ◌∷◌, ◌++◌, map, Option, none, some, ◌>>=◌, >>=-eq-some, ◌≡◌, refl, sym, ap, ◌∙◌,
  get_elem?, All, arith, some_inj, subst, length, ◌⊎◌, inl, inr,
}
use mathlib.Core.List.{map-append}
use fsvfs.Rofs.Path.{Name}
use fsvfs.Rofs.Object.{Branch, branch, leaf, nil, len, RofsObject, empty, merge}
use fsvfs.Rofs.Object.Insert.{IsFree}
use fsvfs.Rofs.Object.Union.{HasRoot, united, merge_parts, merge-keeps_root, merge-finds_root}
use fsvfs.Rofs.Find.{find}

module _ {ℓ} {T : Type ℓ} where
  unfoldable pub merge_onto : RofsObject T → List (RofsObject T) → Option (RofsObject T)
  unfolding merge
  merge_onto acc [] = some acc
  merge_onto acc (o ∷ rest) = merge acc o >>= λ both. merge_onto both rest

  -- `reduce(RofsObject::default, RofsObject::merge)`.
  unfoldable pub merge_all : List (RofsObject T) → Option (RofsObject T)
  unfolding merge_onto empty
  merge_all objects = merge_onto empty objects

  merge_onto-append :
      (acc : RofsObject T) (before after : List (RofsObject T))
      → merge_onto acc (before ++ after) ≡ (merge_onto acc before >>= λ o. merge_onto o after)
  unfolding merge_onto
  merge_onto-append acc [] after = refl
  merge_onto-append acc (o ∷ rest) after =
      step (merge acc o) (λ both. merge_onto-append both rest after)
    where
      step :
          (m : Option (RofsObject T))
          → ((both : RofsObject T)
              → merge_onto both (rest ++ after)
                ≡ (merge_onto both rest >>= λ u. merge_onto u after))
          → (m >>= λ both. merge_onto both (rest ++ after))
            ≡ ((m >>= λ both. merge_onto both rest) >>= λ u. merge_onto u after)
      step none h = refl
      step (some both) h = h both

  -- What is found in an object: under its root, a path that leads to data.
  pub record Gives (o : RofsObject T) (ns : List Name) (x : T) : Type ℓ where
    pub tree : Branch
    pub index : ℕ
    pub has_root : HasRoot o tree
    pub found : find ns (branch tree) ≡ some (leaf index)
    pub content : get_elem? o.files index ≡ some x

  -- Objects, each with its tree.
  abbrev pub AreRooted : List (RofsObject T × Branch) → Type 0
  AreRooted = All (λ p. HasRoot p.0 p.1)

  abbrev pub objects_of : List (RofsObject T × Branch) → List (RofsObject T)
  objects_of = map (λ p. p.0)

  merge_onto-keeps :
      (acc o : RofsObject T) (rest : List (RofsObject T × Branch)) (ns : List Name) (x : T)
      → AreRooted rest
      → merge_onto acc (objects_of rest) ≡ some o
      → Gives acc ns x
      → Gives o ns x
  unfolding merge_onto
  merge_onto-keeps acc o [] ns x rooted h given = subst (λ u. Gives u ns x) (some_inj acc o h) given
  merge_onto-keeps acc o ((p, b) ∷ rest) ns x rooted h given =
      let (both, merged, more) = >>=-eq-some (merge acc p) _ o h in
      let parts = merge_parts acc p both given.tree b given.has_root rooted.0 merged in
      let (there, held) =
        merge-keeps_root acc p both given.tree b ns given.index x given.has_root rooted.0 merged
          given.found given.content in
      merge_onto-keeps both o rest ns x rooted.1 more (record {
        tree = united acc given.tree b;
        index = given.index;
        has_root = parts.0;
        found = there;
        content = held;
      })

  -- A path that is free in what was merged so far: in its tree, or because there is none yet.
  abbrev pub IsVacant : List Name → RofsObject T → Type 0
  IsVacant ns o = (o.root ≡ nil) ⊎ ((a : Branch) × HasRoot o a × IsFree ns a)

  pub merge-nil_root : (self other : RofsObject T) → self.root ≡ nil → merge self other ≡ some other
  unfolding merge
  merge-nil_root self other h = ground (arith, ap len h)

  merge-Gives :
      (o₀ p both : RofsObject T) (b : Branch) (ns : List Name) (d : ℕ) (x : T)
      → IsVacant ns o₀
      → HasRoot p b
      → merge o₀ p ≡ some both
      → find ns (branch b) ≡ some (leaf d)
      → get_elem? p.files d ≡ some x
      → Gives both ns x
  merge-Gives o₀ p both b ns d x vacant rooted merged f at = elim vacant [
    | inl nothing ↦
        let same = some_inj p both (sym (merge-nil_root o₀ p nothing) ∙ merged) in
        subst (λ u. Gives u ns x) same
          (record { tree = b; index = d; has_root = rooted; found = f; content = at })
    | inr (a, root, free) ↦
        let (there, held) = merge-finds_root o₀ p both a b ns d x root rooted merged free f at in
        record {
          tree = united o₀ a b;
          index = d + length o₀.files;
          has_root = (merge_parts o₀ p both a b root rooted merged).0;
          found = there;
          content = held;
        }
  ]

  -- For objects with trees, where the merging of all of them does not panic: a file of one of them, under a path that
  -- is free in the merge of those before it, is in the merge of all under this path, with its data.
  pub merge_all-Gives :
      (before after : List (RofsObject T × Branch)) (p o₀ o : RofsObject T) (b : Branch)
      (ns : List Name) (d : ℕ) (x : T)
      → HasRoot p b
      → AreRooted after
      → merge_all (objects_of before) ≡ some o₀
      → IsVacant ns o₀
      → merge_all (objects_of (before ++ (p, b) ∷ after)) ≡ some o
      → find ns (branch b) ≡ some (leaf d)
      → get_elem? p.files d ≡ some x
      → Gives o ns x
  unfolding merge_all
  merge_all-Gives before after p o₀ o b ns d x rooted later first vacant all f at =
      let rest = p ∷ objects_of after in
      let from_first : merge_onto o₀ rest ≡ some o =
        sym (ap (λ m. m >>= λ u. merge_onto u rest) first)
        ∙ sym (merge_onto-append empty (objects_of before) rest)
        ∙ ap (merge_onto empty) (sym (map-append (λ q. q.0) before ((p, b) ∷ after)))
        ∙ all in
      let (both, merged, more) = >>=-eq-some (merge o₀ p) _ o (unfold merge_onto in from_first) in
      merge_onto-keeps both o after ns x later more
        (merge-Gives o₀ p both b ns d x vacant rooted merged f at)

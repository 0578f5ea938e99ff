-- ===== src/Rofs/Object/Union.antt =====
-- `RofsObject::merge`: the files of both objects, under their paths and their moved indices.
use mathlib.Core.Option
use fsvfs.Base.{
  ℕ, zero, suc, ◌+◌, ◌%◌, ◌^◌, ◌<◌, Bool-cases, List, [], ◌∷◌, ◌++◌, length, length-append,
  get_elem?, Option, none, some, some_inj, ◌>>=◌, >>=-eq-some, ◌≡◌, refl, sym, ap, subst, ◌∙◌, inl,
  inr, arith,
}
use fsvfs.Rofs.Path.{Name, same_name}
use fsvfs.Rofs.Object.{
  TreeNode, Branch, branch, leaf, nil, cons, get, put, adjust_files, adjust_node, merge_branch,
  RofsObject, merge, assert_u32,
}
use fsvfs.Rofs.Object.Insert.{IsFree}
use fsvfs.Rofs.Object.Merge.{merge_branch-keeps}
use fsvfs.Rofs.Object.Overlay.{merge_branch-finds}
use fsvfs.Rofs.Object.Files.{assert_u32-some}
use fsvfs.Rofs.Find.{find}
use fsvfs.Rofs.Refine.{HasTree}

pub get-adjust_files :
    (k : ℕ) (n : Name) (b : Branch)
    → get n (adjust_files k b) ≡ Option.map (adjust_node k) (get n b)
unfolding get adjust_files
get-adjust_files k n nil = refl
get-adjust_files k n (cons m t b) = elim (Bool-cases (same_name m n)) [
  | inl same ↦ rw same refl
  | inr other ↦ rw other (get-adjust_files k n b)
]

-- The same paths lead to the moved entries.
find-adjust_node :
    (k : ℕ) (ns : List Name) (t : TreeNode)
    → find ns (adjust_node k t) ≡ Option.map (adjust_node k) (find ns t)
unfolding find adjust_files
find-adjust_node k [] t = refl
find-adjust_node k (n ∷ ns) (leaf d) = refl
find-adjust_node k (n ∷ ns) (branch b) =
    ap (λ r. r >>= λ t. find ns t) (get-adjust_files k n b)
    ∙ below (λ t. find-adjust_node k ns t) (get n b)
  where
    below :
        ((t : TreeNode) → find ns (adjust_node k t) ≡ Option.map (adjust_node k) (find ns t))
        → (r : Option TreeNode)
        → (Option.map (adjust_node k) r >>= λ t. find ns t)
          ≡ Option.map (adjust_node k) (r >>= λ t. find ns t)
    below h none = refl
    below h (some t) = h t

get_elem?-append {ℓ} :
    {A : Type ℓ} (xs ys : List A) (i : ℕ) → get_elem? (xs ++ ys) (i + length xs) ≡ get_elem? ys i
get_elem?-append [] ys i = ap (get_elem? ys) (omega arith)
get_elem?-append (x ∷ xs) ys i =
    subst (λ j. get_elem? (x ∷ xs ++ ys) j ≡ get_elem? ys i) {x = suc (i + length xs)} (omega arith)
      (get_elem?-append xs ys i)

get_elem?-append_left {ℓ} :
    {A : Type ℓ} (xs ys : List A) (i : ℕ) (a : A)
    → get_elem? xs i ≡ some a
    → get_elem? (xs ++ ys) i ≡ some a
get_elem?-append_left [] ys i a h = absurd (cc)
get_elem?-append_left (x ∷ xs) ys zero a h = h
get_elem?-append_left (x ∷ xs) ys (suc i) a h = get_elem?-append_left xs ys i a h

get_elem?-lt {ℓ} :
    {A : Type ℓ} (xs : List A) (i : ℕ) (a : A) → get_elem? xs i ≡ some a → i < length xs
get_elem?-lt [] i a h = absurd (cc)
get_elem?-lt (x ∷ xs) zero a h = omega arith
get_elem?-lt (x ∷ xs) (suc i) a h = omega (arith, get_elem?-lt xs i a h)

merge_roots :
    (a b : Branch)
    → merge_branch (cons [] (branch a) nil) (cons [] (branch b) nil)
      ≡ cons [] (branch (merge_branch a b)) nil
unfolding merge_branch get put same_name
merge_roots a b = refl

adjust_root :
    (k : ℕ) (b : Branch)
    → adjust_files k (cons [] (branch b) nil) ≡ cons [] (branch (adjust_files k b)) nil
unfolding adjust_files
adjust_root k b = refl

moved_leaf :
    (k n : ℕ) (ns : List Name) (b : Branch) (d : ℕ)
    → find ns (branch b) ≡ some (leaf d)
    → (d + k) % 2 ^ 32 ≡ d + n
    → find ns (branch (adjust_files k b)) ≡ some (leaf (d + n))
unfolding adjust_files
moved_leaf k n ns b d f h =
    find-adjust_node k ns (branch b) ∙ ap (Option.map (adjust_node k)) f ∙ ap (λ i. some (leaf i)) h

module _ {ℓ} {T : Type ℓ} where
  -- An object with a tree under its root.
  abbrev pub HasRoot : RofsObject T → Branch → Type 0
  HasRoot o b = o.root ≡ cons [] (branch b) nil

  abbrev pub united : RofsObject T → Branch → Branch → Branch
  united self a b = merge_branch a (adjust_files (length self.files % 2 ^ 32) b)

  pub merge_parts :
      (self other o : RofsObject T) (a b : Branch)
      → HasRoot self a
      → HasRoot other b
      → merge self other ≡ some o
      → HasRoot o (united self a b)
        × (o.files ≡ self.files ++ other.files)
        × (length self.files + length other.files < 2 ^ 32)
  unfolding merge
  merge_parts self other o a b s t h =
      let (n, fits, made) =
        >>=-eq-some (assert_u32 (length (self.files ++ other.files))) _ o (rw (merge, s, t) at h) in
      let eq = some_inj _ o made in
      (
        ap (λ u. u.root) (sym eq)
            ∙ ap (λ r. merge_branch (cons [] (branch a) nil) r)
                (adjust_root (length self.files % 2 ^ 32) b)
            ∙ merge_roots a (adjust_files (length self.files % 2 ^ 32) b),
        ap (λ u. u.files) (sym eq),
        omega (arith, assert_u32-some _ n fits, length-append self.files other.files),
      )

  -- A file of the first object stays.
  pub merge-keeps_root :
      (self other o : RofsObject T) (a b : Branch) (ns : List Name) (d : ℕ) (x : T)
      → HasRoot self a
      → HasRoot other b
      → merge self other ≡ some o
      → find ns (branch a) ≡ some (leaf d)
      → get_elem? self.files d ≡ some x
      → (find ns (branch (united self a b)) ≡ some (leaf d)) × (get_elem? o.files d ≡ some x)
  merge-keeps_root self other o a b ns d x s t h f at =
      let (root, files, fits) = merge_parts self other o a b s t h in
      let moved = adjust_files (length self.files % 2 ^ 32) b in
      (
        merge_branch-keeps moved a ns d f,
        rw files (get_elem?-append_left self.files other.files d x at),
      )

  -- A file of the second object under a path that is free in the first is there at its moved index.
  pub merge-finds_root :
      (self other o : RofsObject T) (a b : Branch) (ns : List Name) (d : ℕ) (x : T)
      → HasRoot self a
      → HasRoot other b
      → merge self other ≡ some o
      → IsFree ns a
      → find ns (branch b) ≡ some (leaf d)
      → get_elem? other.files d ≡ some x
      → (find ns (branch (united self a b)) ≡ some (leaf (d + length self.files)))
        × (get_elem? o.files (d + length self.files) ≡ some x)
  merge-finds_root self other o a b ns d x s t h free f at =
      let (root, files, fits) = merge_parts self other o a b s t h in
      let k = length self.files % 2 ^ 32 in
      let moved : find ns (branch (adjust_files k b)) ≡ some (leaf (d + length self.files)) =
        moved_leaf k (length self.files) ns b d f
          (omega (arith, fits, get_elem?-lt other.files d x at)) in
      (
        merge_branch-finds (adjust_files k b) a ns (d + length self.files) free moved,
        rw files (get_elem?-append self.files other.files d ∙ at),
      )

  -- For two objects with trees of names, where `merge` does not panic: a file that the first has under a path
  -- is in the merge under the same path and index, with the same data.
  pub merge-keeps :
      (self other o : RofsObject T) (a b : Branch) (ns : List Name) (d : ℕ) (x : T)
      → HasTree self a
      → HasTree other b
      → merge self other ≡ some o
      → find ns (branch a) ≡ some (leaf d)
      → get_elem? self.files d ≡ some x
      → (m : Branch) × (o.root ≡ cons [] (branch m) nil)
        × (find ns (branch m) ≡ some (leaf d))
        × (get_elem? o.files d ≡ some x)
  merge-keeps self other o a b ns d x s t h f at =
      let (there, held) = merge-keeps_root self other o a b ns d x s.is_root t.is_root h f at in
      (united self a b, (merge_parts self other o a b s.is_root t.is_root h).0, there, held)

  -- Under the same conditions: a file that the second has under a path that is free in the first is in the
  -- merge under the same path, with the same data, at its index moved by the number of the first's files.
  pub merge-finds :
      (self other o : RofsObject T) (a b : Branch) (ns : List Name) (d : ℕ) (x : T)
      → HasTree self a
      → HasTree other b
      → merge self other ≡ some o
      → IsFree ns a
      → find ns (branch b) ≡ some (leaf d)
      → get_elem? other.files d ≡ some x
      → (m : Branch) × (o.root ≡ cons [] (branch m) nil)
        × (find ns (branch m) ≡ some (leaf (d + length self.files)))
        × (get_elem? o.files (d + length self.files) ≡ some x)
  merge-finds self other o a b ns d x s t h free f at =
      let (there, held) =
        merge-finds_root self other o a b ns d x s.is_root t.is_root h free f at in
      (united self a b, (merge_parts self other o a b s.is_root t.is_root h).0, there, held)

-- ===== src/Rofs/Object/Merge.antt =====
-- What is found in the merge of two trees of names.
use fsvfs.Base.{
  ℕ, false, Bool-cases, List, [], ◌∷◌, Option, none, some, ◌>>=◌, ◌≡◌, refl, sym, ap, subst, ◌∙◌,
  inl, inr,
}
use fsvfs.Rofs.Path.{Name, same_name}
use fsvfs.Rofs.Object.{
  TreeNode, Branch, branch, leaf, nil, cons, get, put, merge_branch, merge_entry,
}
use fsvfs.Rofs.Layout.Names.{same_name→eq}
use fsvfs.Rofs.Object.Put.{get-put_other}
use fsvfs.Rofs.Object.Insert.{find-put_same, find_at, find_vacant, find-here}
use fsvfs.Rofs.Find.{find}

-- How one entry of the other tree is merged.
pub data Merges (n : Name) (b : Branch) (t : TreeNode) (b' : Branch) : Type 0 where
  vacant : get n b ≡ none → put n t b ≡ b' → Merges n b t b'
  over_file : (d : ℕ) → get n b ≡ some (leaf d) → b ≡ b' → Merges n b t b'
  over_dir :
      (k : Branch) (d : ℕ) → get n b ≡ some (branch k) → t ≡ leaf d → b ≡ b' → Merges n b t b'
  joins :
      (child other : Branch)
      → get n b ≡ some (branch child)
      → t ≡ branch other
      → put n (branch (merge_branch child other)) b ≡ b'
      → Merges n b t b'

-- `merge_entry`, by what is there under the name.
merge_cases : Name → Branch → TreeNode → Option TreeNode → Branch
merge_cases n b (leaf d) none = put n (leaf d) b
merge_cases n b (leaf d) (some u) = b
merge_cases n b (branch other) none = put n (branch other) b
merge_cases n b (branch other) (some (leaf d)) = b
merge_cases n b (branch other) (some (branch child)) = put n (branch (merge_branch child other)) b

merge_entry-merge_cases :
    (n : Name) (b : Branch) (t : TreeNode) → merge_cases n b t (get n b) ≡ merge_entry n b t
unfolding merge_entry merge_branch merge_cases
merge_entry-merge_cases n b (leaf d) = refl
merge_entry-merge_cases n b (branch other) = refl

Merges-merge_cases :
    (n : Name) (b : Branch) (t : TreeNode) (r : Option TreeNode)
    → get n b ≡ r
    → Merges n b t (merge_cases n b t r)
unfolding merge_cases
Merges-merge_cases n b (leaf d) none at = vacant at refl
Merges-merge_cases n b (leaf d) (some (leaf e)) at = over_file e at refl
Merges-merge_cases n b (leaf d) (some (branch k)) at = over_dir k d at refl refl
Merges-merge_cases n b (branch other) none at = vacant at refl
Merges-merge_cases n b (branch other) (some (leaf e)) at = over_file e at refl
Merges-merge_cases n b (branch other) (some (branch child)) at = joins child other at refl refl

pub merge_entry-Merges : (n : Name) (b : Branch) (t : TreeNode) → Merges n b t (merge_entry n b t)
merge_entry-Merges n b t =
    subst (Merges n b t) (merge_entry-merge_cases n b t) (Merges-merge_cases n b t (get n b) refl)

-- Below another name nothing changes.
pub Merges-other :
    (n m : Name) (b b' : Branch) (t : TreeNode)
    → same_name n m ≡ false
    → Merges n b t b'
    → get m b' ≡ get m b
Merges-other n m b b' t other how = elim how [
  | vacant fresh same ↦ ap (get m) (sym same) ∙ get-put_other m n t b other
  | over_file d at same ↦ ap (get m) (sym same)
  | over_dir k d at e same ↦ ap (get m) (sym same)
  | joins child o at e same ↦ ap (get m) (sym same) ∙ get-put_other m n _ b other
]

find-get :
    (m : Name) (ns : List Name) (b b' : Branch)
    → get m b' ≡ get m b
    → find (m ∷ ns) (branch b') ≡ find (m ∷ ns) (branch b)
unfolding find
find-get m ns b b' h = ap (λ r. r >>= λ t. find ns t) h

-- The trees below an entry keep what they have, when they are merged.
abbrev Keeps : TreeNode → Type 0
Keeps (leaf d) = Unit
Keeps (branch other) =
    (a : Branch) (ns : List Name) (d : ℕ)
    → find ns (branch a) ≡ some (leaf d)
    → find ns (branch (merge_branch a other)) ≡ some (leaf d)

Merges-Keeps :
    (n m : Name) (ns : List Name) (d : ℕ) (b b' : Branch) (t : TreeNode)
    → Keeps t
    → Merges n b t b'
    → find (m ∷ ns) (branch b) ≡ some (leaf d)
    → find (m ∷ ns) (branch b') ≡ some (leaf d)
Merges-Keeps n m ns d b b' t below how f = elim (Bool-cases (same_name n m)) [
  | inr other ↦ find-get m ns b b' (Merges-other n m b b' t other how) ∙ f
  | inl q ↦
      let eq = same_name→eq n m q in
      let at : find (n ∷ ns) (branch b) ≡ some (leaf d) =
        subst (λ j. find (j ∷ ns) (branch b) ≡ some (leaf d)) (sym eq) f in
      subst (λ j. find (j ∷ ns) (branch b') ≡ some (leaf d)) eq
        (elim how [
          | vacant fresh same ↦ absurd (cc (find_vacant n ns b fresh, at))
          | over_file e taken same ↦ subst (λ x. find (n ∷ ns) (branch x) ≡ some (leaf d)) same at
          | over_dir k e taken is same ↦
              subst (λ x. find (n ∷ ns) (branch x) ≡ some (leaf d)) same at
          | joins child other taken is same ↦
              find-put_same n ns _ b b' same
              ∙ subst Keeps is below child ns d (sym (find_at n ns b (branch child) taken) ∙ at)
        ])
]

-- A file of the first tree is still there after the merge.
pub merge_branch-keeps :
    (other a : Branch) (ns : List Name) (d : ℕ)
    → find ns (branch a) ≡ some (leaf d)
    → find ns (branch (merge_branch a other)) ≡ some (leaf d)
unfolding merge_branch
merge_branch-keeps other a [] d f = absurd (find-here a d f)
merge_branch-keeps nil a (m ∷ ns) d f = f
merge_branch-keeps (cons n (leaf e) rest) a (m ∷ ns) d f =
    merge_branch-keeps rest (merge_entry n a (leaf e)) (m ∷ ns) d (
      Merges-Keeps n m ns d a (merge_entry n a (leaf e)) (leaf e) tt
        (merge_entry-Merges n a (leaf e)) f)
merge_branch-keeps (cons n (branch k) rest) a (m ∷ ns) d f =
    merge_branch-keeps rest (merge_entry n a (branch k)) (m ∷ ns) d (
      Merges-Keeps n m ns d a (merge_entry n a (branch k)) (branch k)
        (λ b js i. merge_branch-keeps k b js i) (merge_entry-Merges n a (branch k)) f)

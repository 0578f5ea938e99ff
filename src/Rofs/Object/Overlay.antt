-- ===== src/Rofs/Object/Overlay.antt =====
-- What the second tree brings to the merge of two trees of names.
use fsvfs.Base.{ℕ, false, Bool-cases, List, [], ◌∷◌, some, ◌≡◌, refl, sym, subst, ◌∙◌, inl, inr}
use fsvfs.Rofs.Path.{Name, same_name}
use fsvfs.Rofs.Object.{TreeNode, Branch, branch, leaf, nil, cons, get, merge_branch, merge_entry}
use fsvfs.Rofs.Layout.Names.{same_name→eq, same_name_refl}
use fsvfs.Rofs.Object.Insert.{find-put_same, find-leaf, find-nil, IsFree}
use fsvfs.Rofs.Object.Merge.{
  Merges, vacant, over_file, over_dir, joins, Merges-other, merge_entry-Merges, merge_branch-keeps,
}
use fsvfs.Rofs.Find.{find}

-- What the trees below an entry have where the other tree is free comes to stand there.
abbrev Finds : TreeNode → Type 0
Finds (leaf d) = Unit
Finds (branch other) =
    (a : Branch) (ns : List Name) (d : ℕ)
    → IsFree ns a
    → find ns (branch other) ≡ some (leaf d)
    → find ns (branch (merge_branch a other)) ≡ some (leaf d)

Merges-Finds :
    (n : Name) (ns : List Name) (d : ℕ) (b b' : Branch) (t : TreeNode)
    → Finds t
    → Merges n b t b'
    → IsFree (n ∷ ns) b
    → find ns t ≡ some (leaf d)
    → find (n ∷ ns) (branch b') ≡ some (leaf d)
Merges-Finds n ns d b b' t below how free f = elim how [
  | vacant fresh same ↦ find-put_same n ns t b b' same ∙ f
  | over_file e taken same ↦ elim free [
    | inl fresh ↦ absurd (cc (fresh, taken))
    | inr (old, at, rest) ↦ absurd (cc (at, taken))
  ]
  | over_dir k e taken is same ↦ elim free [
    | inl fresh ↦ absurd (cc (fresh, taken))
    | inr (old, at, rest) ↦
        let (end, _) = find-leaf ns e d (subst (λ u. find ns u ≡ some (leaf d)) is f) in
        absurd (subst (λ l. IsFree l old) end rest)
  ]
  | joins child other taken is same ↦ elim free [
    | inl fresh ↦ absurd (cc (fresh, taken))
    | inr (old, at, rest) ↦
        let eq : old ≡ child = cc (at, taken) in
        find-put_same n ns _ b b' same
        ∙ subst Finds is below child ns d (subst (IsFree ns) eq rest)
            (subst (λ u. find ns u ≡ some (leaf d)) is f)
  ]
]

IsFree-get :
    (m : Name) (ns : List Name) (b b' : Branch)
    → get m b' ≡ get m b
    → IsFree (m ∷ ns) b
    → IsFree (m ∷ ns) b'
IsFree-get m ns b b' same free = elim free [
  | inl fresh ↦ inl (same ∙ fresh)
  | inr (old, at, rest) ↦ inr (old, same ∙ at, rest)
]

find-cons_same :
    (n : Name) (ns : List Name) (t : TreeNode) (b : Branch)
    → find (n ∷ ns) (branch (cons n t b)) ≡ find ns t
unfolding find get
find-cons_same n ns t b = rw (same_name_refl n) refl

find-cons_other :
    (n m : Name) (ns : List Name) (t : TreeNode) (b : Branch)
    → same_name n m ≡ false
    → find (m ∷ ns) (branch (cons n t b)) ≡ find (m ∷ ns) (branch b)
unfolding find get
find-cons_other n m ns t b other = rw other refl

-- One entry is merged, and then the rest.
Finds-step :
    (n m : Name) (ns : List Name) (d : ℕ) (a : Branch) (t : TreeNode) (rest : Branch)
    → Finds t
    → Finds (branch rest)
    → IsFree (m ∷ ns) a
    → find (m ∷ ns) (branch (cons n t rest)) ≡ some (leaf d)
    → find (m ∷ ns) (branch (merge_branch (merge_entry n a t) rest)) ≡ some (leaf d)
Finds-step n m ns d a t rest below later free f =
    let how = merge_entry-Merges n a t in
    elim (Bool-cases (same_name n m)) [
      | inl q ↦
          let eq = sym (same_name→eq n m q) in
          let free' : IsFree (n ∷ ns) a = subst (λ j. IsFree (j ∷ ns) a) eq free in
          let f' : find ns t ≡ some (leaf d) =
            sym (find-cons_same n ns t rest)
            ∙ subst (λ j. find (j ∷ ns) (branch (cons n t rest)) ≡ some (leaf d)) eq f in
          let here = Merges-Finds n ns d a (merge_entry n a t) t below how free' f' in
          merge_branch-keeps rest (merge_entry n a t) (m ∷ ns) d
            (subst (λ j. find (j ∷ ns) (branch (merge_entry n a t)) ≡ some (leaf d)) (sym eq) here)
      | inr other ↦
          later (merge_entry n a t) (m ∷ ns) d
            (IsFree-get m ns a (merge_entry n a t)
              (Merges-other n m a (merge_entry n a t) t other how) free)
            (sym (find-cons_other n m ns t rest other) ∙ f)
    ]

-- A file of the second tree is in the merge, if its path is free in the first.
pub merge_branch-finds :
    (other a : Branch) (ns : List Name) (d : ℕ)
    → IsFree ns a
    → find ns (branch other) ≡ some (leaf d)
    → find ns (branch (merge_branch a other)) ≡ some (leaf d)
unfolding merge_branch
merge_branch-finds other a [] d free f = absurd free
merge_branch-finds nil a (m ∷ ns) d free f = absurd (find-nil (m ∷ ns) d f)
merge_branch-finds (cons n (leaf e) rest) a (m ∷ ns) d free f =
    Finds-step n m ns d a (leaf e) rest tt (λ b js i. merge_branch-finds rest b js i) free f
merge_branch-finds (cons n (branch k) rest) a (m ∷ ns) d free f =
    Finds-step n m ns d a (branch k) rest (λ b js i. merge_branch-finds k b js i)
      (λ b js i. merge_branch-finds rest b js i) free f

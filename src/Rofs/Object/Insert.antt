-- ===== src/Rofs/Object/Insert.antt =====
-- What is found in the tree of names after one path is inserted.
use fsvfs.Base.{
  ℕ, false, Bool-cases, List, [], ◌∷◌, none, some, some_inj, ◌>>=◌, ◌≡◌, refl, sym, ap, subst, ◌∙◌,
  ◌⊎◌, inl, inr,
}
use fsvfs.Rofs.Path.{Name, same_name}
use fsvfs.Rofs.Object.{TreeNode, Branch, branch, leaf, nil, get, put, is_last, insert_path}
use fsvfs.Rofs.Layout.Names.{same_name→eq}
use fsvfs.Rofs.Object.Put.{get-put_same, get-put_other}
use fsvfs.Rofs.Object.Grown.{new_file, new_dir, blocked, old_dir, insert_path-Inserts}
use fsvfs.Rofs.Find.{find}

-- The search below one name, in the map that an entry was put in.
pub find-put_same :
    (c : Name) (ns : List Name) (v : TreeNode) (b b' : Branch)
    → put c v b ≡ b'
    → find (c ∷ ns) (branch b') ≡ find ns v
unfolding find
find-put_same c ns v b b' same =
    ap (λ r. r >>= λ t. find ns t) (ap (get c) (sym same) ∙ get-put_same c v b)

pub find-put_other :
    (c n : Name) (ns : List Name) (v : TreeNode) (b b' : Branch)
    → put c v b ≡ b'
    → same_name c n ≡ false
    → find (n ∷ ns) (branch b') ≡ find (n ∷ ns) (branch b)
unfolding find
find-put_other c n ns v b b' same other =
    ap (λ r. r >>= λ t. find ns t) (ap (get n) (sym same) ∙ get-put_other n c v b other)

pub find_at :
    (c : Name) (ns : List Name) (b : Branch) (t : TreeNode)
    → get c b ≡ some t
    → find (c ∷ ns) (branch b) ≡ find ns t
unfolding find
find_at c ns b t at = rw at refl

pub find_vacant :
    (c : Name) (ns : List Name) (b : Branch) → get c b ≡ none → find (c ∷ ns) (branch b) ≡ none
unfolding find
find_vacant c ns b fresh = rw fresh refl

pub find-leaf :
    (ns : List Name) (index d : ℕ) → find ns (leaf index) ≡ some (leaf d) → (ns ≡ []) × (d ≡ index)
unfolding find
find-leaf [] index d h = (refl, cc h)
find-leaf (n ∷ ns) index d h = absurd (cc)

pub find-nil : (ns : List Name) (d : ℕ) → find ns (branch nil) ≡ some (leaf d) → ⊥
unfolding find get
find-nil [] d h = absurd (cc)
find-nil (n ∷ ns) d h = absurd (cc)

pub find-here : (b : Branch) (d : ℕ) → find [] (branch b) ≡ some (leaf d) → ⊥
unfolding find
find-here b d h = absurd (cc)

-- A file of the tree is still there after an insertion: the first file under a path wins.
pub insert_path-keeps :
    (cs ns : List Name) (index d : ℕ) (b b' : Branch)
    → insert_path cs index b ≡ some b'
    → find ns (branch b) ≡ some (leaf d)
    → find ns (branch b') ≡ some (leaf d)
insert_path-keeps cs [] index d b b' h f = absurd (find-here b d f)
insert_path-keeps [] (n ∷ ns) index d b b' h f =
    subst (λ t. find (n ∷ ns) (branch t) ≡ some (leaf d)) (some_inj b b' (unfold insert_path in h))
      f
insert_path-keeps (c ∷ cs) (n ∷ ns) index d b b' h f = elim (Bool-cases (same_name c n)) [
  | inl q ↦
      let at : find (c ∷ ns) (branch b) ≡ some (leaf d) =
        subst (λ j. find (j ∷ ns) (branch b) ≡ some (leaf d)) (sym (same_name→eq c n q)) f in
      subst (λ j. find (j ∷ ns) (branch b') ≡ some (leaf d)) (same_name→eq c n q)
        (elim (insert_path-Inserts c cs index b b' h).1 [
          | new_file fresh last same ↦ absurd (cc (find_vacant c ns b fresh, at))
          | new_dir child fresh more made same ↦ absurd (cc (find_vacant c ns b fresh, at))
          | blocked e taken same ↦ subst (λ t. find (c ∷ ns) (branch t) ≡ some (leaf d)) same at
          | old_dir old child taken made same ↦
              find-put_same c ns (branch child) b b' same
              ∙ insert_path-keeps cs ns index d old child made
                  (sym (find_at c ns b (branch old) taken) ∙ at)
        ])
  | inr other ↦ elim (insert_path-Inserts c cs index b b' h).1 [
    | new_file fresh last same ↦ find-put_other c n ns (leaf index) b b' same other ∙ f
    | new_dir child fresh more made same ↦ find-put_other c n ns (branch child) b b' same other ∙ f
    | blocked e taken same ↦ subst (λ t. find (n ∷ ns) (branch t) ≡ some (leaf d)) same f
    | old_dir old child taken made same ↦ find-put_other c n ns (branch child) b b' same other ∙ f
  ]
]

-- A file of the tree after an insertion was there before, or is the inserted one.
pub insert_path-adds :
    (cs ns : List Name) (index d : ℕ) (b b' : Branch)
    → insert_path cs index b ≡ some b'
    → find ns (branch b') ≡ some (leaf d)
    → (find ns (branch b) ≡ some (leaf d)) ⊎ ((ns ≡ cs) × (d ≡ index))
insert_path-adds cs [] index d b b' h f = absurd (find-here b' d f)
insert_path-adds [] (n ∷ ns) index d b b' h f = inl (
    subst (λ t. find (n ∷ ns) (branch t) ≡ some (leaf d))
      (sym (some_inj b b' (unfold insert_path in h))) f)
insert_path-adds (c ∷ cs) (n ∷ ns) index d b b' h f = elim (Bool-cases (same_name c n)) [
  | inl q ↦
      let eq = same_name→eq c n q in
      let at : find (c ∷ ns) (branch b') ≡ some (leaf d) =
        subst (λ j. find (j ∷ ns) (branch b') ≡ some (leaf d)) (sym eq) f in
      subst (λ j. (find (j ∷ ns) (branch b) ≡ some (leaf d)) ⊎ ((j ∷ ns ≡ c ∷ cs) × (d ≡ index))) eq
        (elim (insert_path-Inserts c cs index b b' h).1 [
          | new_file fresh last same ↦
              let (end, e) =
                find-leaf ns index d (sym (find-put_same c ns (leaf index) b b' same) ∙ at) in
              inr (ap (λ t. c ∷ t) (end ∙ sym last), e)
          | new_dir child fresh more made same ↦
              elim (insert_path-adds cs ns index d nil child made
                (sym (find-put_same c ns (branch child) b b' same) ∙ at)) [
                  | inl before ↦ absurd (find-nil ns d before)
                  | inr (q, e) ↦ inr (ap (λ t. c ∷ t) q, e)
                ]
          | blocked e taken same ↦
              inl (subst (λ t. find (c ∷ ns) (branch t) ≡ some (leaf d)) (sym same) at)
          | old_dir old child taken made same ↦
              elim (insert_path-adds cs ns index d old child made
                (sym (find-put_same c ns (branch child) b b' same) ∙ at)) [
                  | inl before ↦ inl (find_at c ns b (branch old) taken ∙ before)
                  | inr (q, e) ↦ inr (ap (λ t. c ∷ t) q, e)
                ]
        ])
  | inr other ↦ inl (elim (insert_path-Inserts c cs index b b' h).1 [
    | new_file fresh last same ↦ sym (find-put_other c n ns (leaf index) b b' same other) ∙ f
    | new_dir child fresh more made same ↦
        sym (find-put_other c n ns (branch child) b b' same other) ∙ f
    | blocked e taken same ↦ subst (λ t. find (n ∷ ns) (branch t) ≡ some (leaf d)) (sym same) f
    | old_dir old child taken made same ↦
        sym (find-put_other c n ns (branch child) b b' same other) ∙ f
  ])
]

-- The path is free: it leads through directories to a name that is not there.
abbrev pub IsFree : List Name → Branch → Type 0
IsFree [] b = ⊥
IsFree (c ∷ cs) b =
    (get c b ≡ none) ⊎ ((old : Branch) × (get c b ≡ some (branch old)) × IsFree cs old)

is_last-IsFree : (cs : List Name) → is_last cs ≡ false → IsFree cs nil
unfolding get
is_last-IsFree [] h = absurd (cc)
is_last-IsFree (c ∷ cs) h = inl refl

-- A path that is free leads to its file after it is inserted.
pub insert_path-finds :
    (cs : List Name) (index : ℕ) (b b' : Branch)
    → insert_path cs index b ≡ some b'
    → IsFree cs b
    → find cs (branch b') ≡ some (leaf index)
insert_path-finds [] index b b' h free = absurd free
insert_path-finds (c ∷ cs) index b b' h free = elim (insert_path-Inserts c cs index b b' h).1 [
  | new_file fresh last same ↦
      find-put_same c cs (leaf index) b b' same
      ∙ subst (λ t. find t (leaf index) ≡ some (leaf index)) (sym last) (unfold find in refl)
  | new_dir child fresh more made same ↦
      find-put_same c cs (branch child) b b' same
      ∙ insert_path-finds cs index nil child made (is_last-IsFree cs more)
  | blocked d taken same ↦ elim free [
    | inl fresh ↦ absurd (cc (fresh, taken))
    | inr (old, at, rest) ↦ absurd (cc (at, taken))
  ]
  | old_dir old child taken made same ↦ elim free [
    | inl fresh ↦ absurd (cc (fresh, taken))
    | inr (prev, at, rest) ↦
        let eq : prev ≡ old = cc (at, taken) in
        find-put_same c cs (branch child) b b' same
        ∙ insert_path-finds cs index old child made (subst (IsFree cs) eq rest)
  ]
]

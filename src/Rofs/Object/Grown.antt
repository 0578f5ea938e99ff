-- ===== src/Rofs/Object/Grown.antt =====
-- The trees that `RofsObject::new` makes: names are distinct in each directory and fewer than 256 bytes
-- long, and each insertion makes a directory larger by one entry at most.
use fsvfs.Base.{
  ℕ, suc, ◌^◌, ◌≤◌, ◌<◌, false, Bool-cases, ltb, Option-cases, List, [], ◌∷◌, Option, none, some,
  some_inj, ◌>>=◌, >>=-eq-some, ◌≡◌, refl, sym, subst, ◌∙◌, inl, inr, arith, if◌then◌else◌, length,
}
use fsvfs.Rofs.Path.{Name, same_name}
use fsvfs.Rofs.Object.{
  TreeNode, Branch, branch, leaf, nil, cons, len, get, put, is_last, insert_path,
}
use fsvfs.Rofs.Layout.Entries.{IsBranch}
use fsvfs.Rofs.Object.Put.{get-put_other, same_name-sym_false, len-put}

abbrev pub IsGrown : ℕ → Branch → Type 0
IsGrown m nil = Unit
IsGrown m (cons n (leaf d) b) = (length n < 256) × (get n b ≡ none) × IsGrown m b
IsGrown m (cons n (branch k) b) =
    (length n < 256) × (get n b ≡ none) × (len k ≤ m) × IsGrown m k × IsGrown m b

abbrev pub IsGrownNode : ℕ → TreeNode → Type 0
IsGrownNode m (leaf d) = Unit
IsGrownNode m (branch k) = (len k ≤ m) × IsGrown m k

pub IsGrown-IsBranch : (m : ℕ) (b : Branch) → m < 2 ^ 32 → IsGrown m b → IsBranch b
IsGrown-IsBranch m nil h g = tt
IsGrown-IsBranch m (cons n (leaf d) b) h g = (g.0, g.1, IsGrown-IsBranch m b h g.2)
IsGrown-IsBranch m (cons n (branch k) b) h g =
    (g.0, g.1, omega (arith, g.2), IsGrown-IsBranch m k h g.3, IsGrown-IsBranch m b h g.4)

pub IsGrown-suc : (m : ℕ) (b : Branch) → IsGrown m b → IsGrown (suc m) b
IsGrown-suc m nil g = tt
IsGrown-suc m (cons n (leaf d) b) g = (g.0, g.1, IsGrown-suc m b g.2)
IsGrown-suc m (cons n (branch k) b) g =
    (g.0, g.1, omega (arith, g.2), IsGrown-suc m k g.3, IsGrown-suc m b g.4)

IsGrown-cons :
    (m : ℕ) (n : Name) (t : TreeNode) (b : Branch)
    → length n < 256
    → get n b ≡ none
    → IsGrownNode m t
    → IsGrown m b
    → IsGrown m (cons n t b)
IsGrown-cons m n (leaf d) b short fresh t g = (short, fresh, g)
IsGrown-cons m n (branch k) b short fresh t g = (short, fresh, t.0, t.1, g)

pub IsGrown-parts :
    (m : ℕ) (n : Name) (t : TreeNode) (b : Branch)
    → IsGrown m (cons n t b)
    → (length n < 256) × (get n b ≡ none) × IsGrownNode m t × IsGrown m b
IsGrown-parts m n (leaf d) b g = (g.0, g.1, tt, g.2)
IsGrown-parts m n (branch k) b g = (g.0, g.1, (g.2, g.3), g.4)

pub IsGrown-put :
    (m : ℕ) (k : Name) (v : TreeNode) (b : Branch)
    → length k < 256
    → IsGrownNode m v
    → IsGrown m b
    → IsGrown m (put k v b)
unfolding put get
IsGrown-put m k v nil short h g = IsGrown-cons m k v nil short refl h tt
IsGrown-put m k v (cons n t b) short h g =
    let (short_n, fresh, node, rest) = IsGrown-parts m n t b g in
    elim (Bool-cases (same_name n k)) [
      | inl same ↦ rw same (IsGrown-cons m n v b short_n fresh h rest)
      | inr other ↦ rw other (
          IsGrown-cons m n t (put k v b) short_n
            (get-put_other n k v b (same_name-sym_false n k other) ∙ fresh) node
            (IsGrown-put m k v b short h rest))
    ]

pub get-IsGrownNode :
    (m : ℕ) (k : Name) (b : Branch) (t : TreeNode)
    → IsGrown m b
    → get k b ≡ some t
    → IsGrownNode m t
unfolding get
get-IsGrownNode m k nil t g e = absurd (cc)
get-IsGrownNode m k (cons n u b) t g e =
    let (short_n, fresh, node, rest) = IsGrown-parts m n u b g in
    elim (Bool-cases (same_name n k)) [
      | inl same ↦ subst (IsGrownNode m) (some_inj u t (rw same at e)) node
      | inr other ↦ get-IsGrownNode m k b t rest (rw other at e)
    ]

-- How one step of the loop over a path's components goes.
pub data Inserts (c : Name) (cs : List Name) (index : ℕ) (b b' : Branch) : Type 0 where
  new_file : get c b ≡ none → cs ≡ [] → put c (leaf index) b ≡ b' → Inserts c cs index b b'
  new_dir :
      (child : Branch)
      → get c b ≡ none
      → is_last cs ≡ false
      → insert_path cs index nil ≡ some child
      → put c (branch child) b ≡ b'
      → Inserts c cs index b b'
  blocked : (d : ℕ) → get c b ≡ some (leaf d) → b ≡ b' → Inserts c cs index b b'
  old_dir :
      (old child : Branch)
      → get c b ≡ some (branch old)
      → insert_path cs index old ≡ some child
      → put c (branch child) b ≡ b'
      → Inserts c cs index b b'

Inserts-at_vacant :
    (c : Name) (cs : List Name) (index : ℕ) (b b' : Branch)
    → get c b ≡ none
    → (if is_last cs
        then some (put c (leaf index) b)
        else (insert_path cs index nil >>= λ child. some (put c (branch child) b)))
      ≡ some b'
    → Inserts c cs index b b'
Inserts-at_vacant c [] index b b' fresh h = new_file fresh refl (some_inj _ b' h)
Inserts-at_vacant c (d ∷ cs) index b b' fresh h =
    let (child, made, same) = >>=-eq-some (insert_path (d ∷ cs) index nil) _ b' h in
    new_dir child fresh refl made (some_inj _ b' same)

-- What `insert_path` does at an occupied name.
at_taken : Name → List Name → ℕ → Branch → TreeNode → Option Branch
at_taken c cs index b (leaf d) = some b
at_taken c cs index b (branch old) =
    insert_path cs index old >>= λ child. some (put c (branch child) b)

Inserts-at_taken :
    (c : Name) (cs : List Name) (index : ℕ) (b b' : Branch) (t : TreeNode)
    → get c b ≡ some t
    → at_taken c cs index b t ≡ some b'
    → Inserts c cs index b b'
unfolding at_taken
Inserts-at_taken c cs index b b' (leaf d) taken h = blocked d taken (some_inj b b' h)
Inserts-at_taken c cs index b b' (branch old) taken h =
    let (child, made, same) = >>=-eq-some (insert_path cs index old) _ b' h in
    old_dir old child taken made (some_inj _ b' same)

insert_path-taken :
    (c : Name) (cs : List Name) (index : ℕ) (b : Branch) (t : TreeNode)
    → ltb 255 (length c) ≡ false
    → get c b ≡ some t
    → insert_path (c ∷ cs) index b ≡ at_taken c cs index b t
unfolding insert_path at_taken
insert_path-taken c cs index b (leaf d) short taken = rw (short, taken) refl
insert_path-taken c cs index b (branch old) short taken = rw (short, taken) refl

pub insert_path-Inserts :
    (c : Name) (cs : List Name) (index : ℕ) (b b' : Branch)
    → insert_path (c ∷ cs) index b ≡ some b'
    → (length c < 256) × Inserts c cs index b b'
unfolding insert_path
insert_path-Inserts c cs index b b' h = elim (Bool-cases (ltb 255 (length c))) [
  | inl long ↦ absurd (cc (rw long at h))
  | inr short ↦ (
    ground arith,
    elim (Option-cases (get c b)) [
      | inl fresh ↦ Inserts-at_vacant c cs index b b' fresh (rw (short, fresh) at h)
      | inr (t, taken) ↦
          Inserts-at_taken c cs index b b' t taken
            (sym (insert_path-taken c cs index b t short taken) ∙ h)
    ],
  )
]

-- Inserting a path keeps the tree well formed, and makes each directory larger by one entry at most.
pub insert_path-IsGrown :
    (cs : List Name) (m index : ℕ) (b b' : Branch)
    → IsGrown m b
    → insert_path cs index b ≡ some b'
    → IsGrown (suc m) b' × (len b' ≤ suc (len b))
insert_path-IsGrown [] m index b b' g h =
    let same = some_inj b b' (unfold insert_path in h) in
    subst (λ t. IsGrown (suc m) t × (len t ≤ suc (len b))) same (IsGrown-suc m b g, omega arith)
insert_path-IsGrown (c ∷ cs) m index b b' g h =
    let (short, how) = insert_path-Inserts c cs index b b' h in
    let put_in : (v : TreeNode)
        → IsGrownNode (suc m) v
        → put c v b ≡ b'
        → IsGrown (suc m) b' × (len b' ≤ suc (len b)) =
      λ v node same.
        subst (λ t. IsGrown (suc m) t × (len t ≤ suc (len b))) same
          (IsGrown-put (suc m) c v b short node (IsGrown-suc m b g), len-put c v b) in
    elim how [
      | new_file fresh last same ↦ put_in (leaf index) tt same
      | new_dir child fresh more made same ↦
          let (grown, size) = insert_path-IsGrown cs m index nil child tt made in
          put_in (branch child) (omega (arith, size), grown) same
      | blocked d taken same ↦
          subst (λ t. IsGrown (suc m) t × (len t ≤ suc (len b))) same
            (IsGrown-suc m b g, omega arith)
      | old_dir old child taken made same ↦
          let node = get-IsGrownNode m c b (branch old) g taken in
          let (grown, size) = insert_path-IsGrown cs m index old child node.1 made in
          put_in (branch child) (omega (arith, size, node.0), grown) same
    ]

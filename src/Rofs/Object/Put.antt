-- ===== src/Rofs/Object/Put.antt =====
-- The laws of a directory's map of names: what is found after an entry is put in.
use fsvfs.Base.{
  suc, ◌≤◌, if◌then◌else◌, true, false, Bool-cases, some, ◌≡◌, sym, ap, subst, inl, inr, arith,
}
use fsvfs.Rofs.Path.{Name, same_name}
use fsvfs.Rofs.Object.{TreeNode, Branch, nil, cons, len, get, put}
use fsvfs.Rofs.Layout.Names.{same_name→eq, same_name_refl}

pub same_name-sym_false : (j k : Name) → same_name j k ≡ false → same_name k j ≡ false
same_name-sym_false j k h = elim (Bool-cases (same_name k j)) [
  | inl same ↦
      absurd (cc (h, subst (λ i. same_name i k ≡ true) (same_name→eq k j same) (same_name_refl k)))
  | inr other ↦ other
]

pub get-put_same : (k : Name) (v : TreeNode) (b : Branch) → get k (put k v b) ≡ some v
unfolding get put
get-put_same k v nil = rw (same_name_refl k)
get-put_same k v (cons n t b) = elim (Bool-cases (same_name n k)) [
  | inl same ↦ rw same (rw same)
  | inr other ↦ rw other (rw other (get-put_same k v b))
]

pub get-put_other :
    (j k : Name) (v : TreeNode) (b : Branch) → same_name k j ≡ false → get j (put k v b) ≡ get j b
unfolding get put
get-put_other j k v nil h = rw h
get-put_other j k v (cons n t b) h = elim (Bool-cases (same_name n k)) [
  | inl same ↦
      let there : same_name n j ≡ false =
        subst (λ i. same_name i j ≡ false) (sym (same_name→eq n k same)) h in
      rw same (rw there)
  | inr other ↦ rw other (ap (λ r. if same_name n j then some t else r) (get-put_other j k v b h))
]

pub len-put : (k : Name) (v : TreeNode) (b : Branch) → len (put k v b) ≤ suc (len b)
unfolding put
len-put k v nil = omega arith
len-put k v (cons n t b) = elim (Bool-cases (same_name n k)) [
  | inl same ↦ rw same (omega arith)
  | inr other ↦ rw other (omega (arith, len-put k v b))
]

-- ===== src/Rofs/Object/Sizes.antt =====
-- How large a merge of two trees of names is: by the number of entries, of directories, or of the names' bytes.
use fsvfs.Base.{
  ℕ, suc, ◌+◌, ◌≤◌, Bool-cases, none, some, some_inj, ◌≡◌, refl, ap, ap₂, subst, inl, inr, arith,
  length,
}
use fsvfs.Rofs.Path.{Name, same_name}
use fsvfs.Rofs.Object.{
  TreeNode, Branch, branch, leaf, nil, cons, get, put, adjust_files, merge_branch, merge_entry,
}
use fsvfs.Rofs.Layout.Names.{same_name→eq}
use fsvfs.Rofs.Layout.Total.{dir_count, node_count, name_bytes}
use fsvfs.Rofs.Object.Merge.{Merges, vacant, over_file, over_dir, joins, merge_entry-Merges}

-- The sum over all entries of what a file and a directory count by their names.
module _ (of_file of_dir : Name → ℕ) where
  abbrev pub size : Branch → ℕ
  size nil = 0
  size (cons n (leaf d) b) = of_file n + size b
  size (cons n (branch k) b) = of_dir n + (size k + size b)

  abbrev pub node_size : Name → TreeNode → ℕ
  node_size n (leaf d) = of_file n
  node_size n (branch k) = of_dir n + size k

  size-cons : (n : Name) (t : TreeNode) (b : Branch) → size (cons n t b) ≡ node_size n t + size b
  size-cons n (leaf d) b = refl
  size-cons n (branch k) b = omega arith

  size-put_vacant :
      (n : Name) (t : TreeNode) (b : Branch)
      → get n b ≡ none
      → size (put n t b) ≡ node_size n t + size b
  unfolding get put
  size-put_vacant n t nil h = size-cons n t nil
  size-put_vacant n t (cons m u b) h = elim (Bool-cases (same_name m n)) [
    | inl same ↦ absurd (cc (rw same at h))
    | inr other ↦ rw other (
        omega (
          arith,
          size-cons m u (put n t b),
          size-cons m u b,
          size-put_vacant n t b (rw other at h),
        ))
  ]

  pub size-put_over :
      (n : Name) (t u : TreeNode) (b : Branch)
      → get n b ≡ some u
      → size (put n t b) + node_size n u ≡ size b + node_size n t
  unfolding get put
  size-put_over n t u nil h = absurd (cc)
  size-put_over n t u (cons m v b) h = elim (Bool-cases (same_name m n)) [
    | inl same ↦
        let here : v ≡ u = some_inj v u (rw same at h) in
        let named : m ≡ n = same_name→eq m n same in
        let sizes : node_size m v ≡ node_size n u = ap₂ node_size named here in
        let new : node_size m t ≡ node_size n t = ap (λ j. node_size j t) named in
        rw same (omega (arith, size-cons m t b, size-cons m v b, sizes, new))
    | inr other ↦ rw other (
        omega (
          arith,
          size-cons m v (put n t b),
          size-cons m v b,
          size-put_over n t u b (rw other at h),
        ))
  ]

  -- The trees below an entry are as large together as both are at most.
  abbrev pub Adds : TreeNode → Type 0
  Adds (leaf d) = Unit {0}
  Adds (branch other) = (a : Branch) → size (merge_branch a other) ≤ size a + size other

  pub Merges-size :
      (n : Name) (b b' : Branch) (t : TreeNode)
      → Adds t
      → Merges n b t b'
      → size b' ≤ size b + node_size n t
  Merges-size n b b' t adds how = elim how [
    | vacant fresh same ↦ omega (arith, ap size same, size-put_vacant n t b fresh)
    | over_file d at same ↦ omega (arith, ap size same)
    | over_dir k d at is same ↦ omega (arith, ap size same)
    | joins child other at is same ↦
        let grown = subst Adds is adds child in
        omega (
          arith,
          ap size same,
          size-put_over n (branch (merge_branch child other)) (branch child) b at,
          grown,
          ap (node_size n) is,
        )
  ]

  pub merge_branch-size : (other a : Branch) → size (merge_branch a other) ≤ size a + size other
  unfolding merge_branch
  merge_branch-size nil a = omega arith
  merge_branch-size (cons n (leaf d) rest) a =
      let entry =
        Merges-size n a (merge_entry n a (leaf d)) (leaf d) tt (merge_entry-Merges n a (leaf d)) in
      omega (arith, entry, merge_branch-size rest (merge_entry n a (leaf d)))
  merge_branch-size (cons n (branch k) rest) a =
      let entry =
        Merges-size n a (merge_entry n a (branch k)) (branch k) (λ b. merge_branch-size k b)
          (merge_entry-Merges n a (branch k)) in
      omega (arith, entry, merge_branch-size rest (merge_entry n a (branch k)))

  pub size-adjust_files : (k : ℕ) (b : Branch) → size (adjust_files k b) ≡ size b
  unfolding adjust_files
  size-adjust_files k nil = refl
  size-adjust_files k (cons n (leaf d) b) = omega (arith, size-adjust_files k b)
  size-adjust_files k (cons n (branch t) b) =
      omega (arith, size-adjust_files k t, size-adjust_files k b)

abbrev pub one : Name → ℕ
one n = 1

abbrev pub zero_of : Name → ℕ
zero_of n = 0

abbrev pub name_weight : Name → ℕ
name_weight n = suc (length n)

pub node_count-size : (b : Branch) → node_count b ≡ size one one b
node_count-size nil = refl
node_count-size (cons n (leaf d) b) = omega (arith, node_count-size b)
node_count-size (cons n (branch k) b) = omega (arith, node_count-size k, node_count-size b)

pub dir_count-size : (b : Branch) → dir_count b ≡ size zero_of one b
dir_count-size nil = refl
dir_count-size (cons n (leaf d) b) = omega (arith, dir_count-size b)
dir_count-size (cons n (branch k) b) = omega (arith, dir_count-size k, dir_count-size b)

pub name_bytes-size : (b : Branch) → name_bytes b ≡ size name_weight name_weight b
name_bytes-size nil = refl
name_bytes-size (cons n (leaf d) b) = omega (arith, name_bytes-size b)
name_bytes-size (cons n (branch k) b) = omega (arith, name_bytes-size k, name_bytes-size b)

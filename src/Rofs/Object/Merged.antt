-- ===== src/Rofs/Object/Merged.antt =====
-- The merge of two well-formed trees of names is well formed, if its entries can be counted by a `u32`.
use fsvfs.Base.{
  ℕ, suc, ◌+◌, ◌-◌, ◌^◌, ◌≤◌, ◌<◌, none, some, ◌≡◌, refl, ap, subst, ◌∙◌, arith, length,
}
use fsvfs.Rofs.Path.{Name}
use fsvfs.Rofs.Object.{
  TreeNode, Branch, branch, leaf, nil, cons, len, get, adjust_files, merge_branch, merge_entry,
}
use fsvfs.Rofs.Layout.Entries.{IsBranch}
use fsvfs.Rofs.Object.Grown.{IsGrown, IsGrownNode, IsGrown-put, get-IsGrownNode}
use fsvfs.Rofs.Object.Merge.{Merges, vacant, over_file, over_dir, joins, merge_entry-Merges}
use fsvfs.Rofs.Object.Sizes.{size, node_size, one, merge_branch-size, Merges-size, size-put_over}
use fsvfs.Rofs.Object.Union.{get-adjust_files}

abbrev pub entries : Branch → ℕ
entries = size one one

pub len-le-entries : (b : Branch) → len b ≤ entries b
len-le-entries nil = omega arith
len-le-entries (cons n (leaf d) b) = omega (arith, len-le-entries b)
len-le-entries (cons n (branch k) b) = omega (arith, len-le-entries b)

get-entries : (n : Name) (k b : Branch) → get n b ≡ some (branch k) → entries k ≤ entries b
get-entries n k b at = omega (arith, size-put_over one one n (branch nil) (branch k) b at)

module _ (bound : ℕ) where
  -- What is known of the merge with a directory below an entry.
  abbrev Joins : TreeNode → Type 0
  Joins (leaf d) = Unit {0}
  Joins (branch other) =
      (a : Branch)
      → IsGrown bound a
      → IsGrown bound other
      → entries a + entries other ≤ bound
      → IsGrown bound (merge_branch a other)

  Merges-IsGrown :
      (n : Name) (b b' : Branch) (t : TreeNode)
      → length n < 256
      → IsGrown bound b
      → IsGrownNode bound t
      → entries b + node_size one one n t ≤ bound
      → Joins t
      → Merges n b t b'
      → IsGrown bound b'
  Merges-IsGrown n b b' t short grown node fits below how = elim how [
    | vacant fresh same ↦ subst (IsGrown bound) same (IsGrown-put bound n t b short node grown)
    | over_file d at same ↦ subst (IsGrown bound) same grown
    | over_dir k d at is same ↦ subst (IsGrown bound) same grown
    | joins child other at is same ↦
        let size_t = ap (node_size one one n) is in
        let child_size = get-entries n child b at in
        let child_node = get-IsGrownNode bound n b (branch child) grown at in
        let other_node = subst (IsGrownNode bound) is node in
        let both = merge_branch-size one one other child in
        let whole = merge_branch child other in
        let inside : entries child + entries other ≤ bound =
          omega (arith, size_t, child_size, fits) in
        let short_whole : len whole ≤ bound = omega (arith, len-le-entries whole, both, inside) in
        subst (IsGrown bound) same (
          IsGrown-put bound n (branch whole) b short
            (short_whole, subst Joins is below child child_node.1 other_node.1 inside) grown)
  ]

  pub merge_branch-IsGrown :
      (other a : Branch)
      → IsGrown bound a
      → IsGrown bound other
      → entries a + entries other ≤ bound
      → IsGrown bound (merge_branch a other)
  unfolding merge_branch
  merge_branch-IsGrown nil a grown g fits = grown
  merge_branch-IsGrown (cons n (leaf d) rest) a grown g fits =
      let how = merge_entry-Merges n a (leaf d) in
      let a' = merge_entry n a (leaf d) in
      let size_a' : entries a' ≤ entries a + 1 = Merges-size one one n a a' (leaf d) tt how in
      merge_branch-IsGrown rest a'
        (Merges-IsGrown n a a' (leaf d) g.0 grown tt (omega (arith, fits)) tt how) g.2
        (omega (arith, size_a', fits))
  merge_branch-IsGrown (cons n (branch k) rest) a grown g fits =
      let how = merge_entry-Merges n a (branch k) in
      let a' = merge_entry n a (branch k) in
      let size_a' : entries a' ≤ entries a + (1 + entries k) =
        Merges-size one one n a a' (branch k) (λ b. merge_branch-size one one k b) how in
      merge_branch-IsGrown rest a'
        (Merges-IsGrown n a a' (branch k) g.0 grown (g.2, g.3) (omega (arith, fits))
          (λ b gb gk inside. merge_branch-IsGrown k b gb gk inside) how)
        g.4 (omega (arith, size_a', fits))

  len-adjust_files : (k : ℕ) (b : Branch) → len (adjust_files k b) ≡ len b
  unfolding adjust_files
  len-adjust_files k nil = refl
  len-adjust_files k (cons n t b) = ap suc (len-adjust_files k b)

  fresh-adjust_files :
      (k : ℕ) (n : Name) (b : Branch) → get n b ≡ none → get n (adjust_files k b) ≡ none
  fresh-adjust_files k n b fresh = get-adjust_files k n b ∙ rw fresh refl

  pub adjust_files-IsGrown :
      (k : ℕ) (b : Branch) → IsGrown bound b → IsGrown bound (adjust_files k b)
  unfolding adjust_files
  adjust_files-IsGrown k nil g = tt
  adjust_files-IsGrown k (cons n (leaf d) b) g =
      (g.0, fresh-adjust_files k n b g.1, adjust_files-IsGrown k b g.2)
  adjust_files-IsGrown k (cons n (branch t) b) g = (
    g.0,
    fresh-adjust_files k n b g.1,
    omega (arith, len-adjust_files k t, g.2),
    adjust_files-IsGrown k t g.3,
    adjust_files-IsGrown k b g.4,
  )

pub IsBranch-IsGrown : (b : Branch) → IsBranch b → IsGrown (2 ^ 32 - 1) b
IsBranch-IsGrown nil wf = tt
IsBranch-IsGrown (cons n (leaf d) b) wf = (wf.0, wf.1, IsBranch-IsGrown b wf.2)
IsBranch-IsGrown (cons n (branch k) b) wf =
    (wf.0, wf.1, omega (arith, wf.2), IsBranch-IsGrown k wf.3, IsBranch-IsGrown b wf.4)

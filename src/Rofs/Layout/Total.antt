-- ===== src/Rofs/Layout/Total.antt =====
-- The loop of `into_rofs` ends, and does not panic, for a tree whose nodes and names fit a `u32`.
use fsvfs.Base.{
  ℕ, zero, suc, ◌+◌, ◌^◌, ◌%◌, ◌≤◌, ◌<◌, List, [], ◌∷◌, ◌++◌, Option, some, Option-cases, ◌≡◌, refl,
  sym, ap, subst, ◌∙◌, inl, inr, arith, All, length, length-append, lt→ltb,
}
use native.Mathlib.Nat.{mod-eq_of_lt}
use fsvfs.Rofs.Path.{Name}
use fsvfs.Rofs.Node.{dir, file, Eytzinger, IsEytzinger}
use fsvfs.Rofs.Object.{Branch, branch, leaf, nil, cons, len}
use fsvfs.Rofs.Layout.{
  Builder, interned, intern, push_node, push_entries, layout_branch, layout_loop,
}
use fsvfs.Rofs.Layout.Entries.{IsBranch, children, total, push_entries_lem}
use fsvfs.Rofs.Layout.Names.{with_name}
use fsvfs.Rofs.Layout.Loop.{
  IsBuilder, List-cases, in_order_lem, in_order, length-in_order, round-IsBuilder,
}

-- The directories below a branch, its entries with all below, and the bytes of their names.
abbrev pub dir_count : Branch → ℕ
dir_count nil = 0
dir_count (cons n (leaf d) b) = dir_count b
dir_count (cons n (branch k) b) = suc (dir_count k + dir_count b)

abbrev pub node_count : Branch → ℕ
node_count nil = 0
node_count (cons n (leaf d) b) = suc (node_count b)
node_count (cons n (branch k) b) = suc (node_count k + node_count b)

abbrev pub name_bytes : Branch → ℕ
name_bytes nil = 0
name_bytes (cons n (leaf d) b) = suc (length n) + name_bytes b
name_bytes (cons n (branch k) b) = suc (length n) + (name_bytes k + name_bytes b)

-- The bytes of the names in the branch itself.
abbrev own_bytes : Branch → ℕ
own_bytes nil = 0
own_bytes (cons n t b) = suc (length n) + own_bytes b

abbrev sum_by : (Branch → ℕ) → List Branch → ℕ
sum_by f [] = 0
sum_by f (b ∷ bs) = f b + sum_by f bs

sum_by-append :
    (f : Branch → ℕ) (xs ys : List Branch) → sum_by f (xs ++ ys) ≡ sum_by f xs + sum_by f ys
sum_by-append f [] ys = omega arith
sum_by-append f (x ∷ xs) ys = omega (arith, sum_by-append f xs ys)

dir_count-children :
    (b : Branch) → dir_count b ≡ length (children b) + sum_by dir_count (children b)
dir_count-children nil = refl
dir_count-children (cons n (leaf d) b) = dir_count-children b
dir_count-children (cons n (branch k) b) = omega (arith, dir_count-children b)

node_count-children : (b : Branch) → node_count b ≡ len b + sum_by node_count (children b)
node_count-children nil = refl
node_count-children (cons n (leaf d) b) = omega (arith, node_count-children b)
node_count-children (cons n (branch k) b) = omega (arith, node_count-children b)

name_bytes-children : (b : Branch) → name_bytes b ≡ own_bytes b + sum_by name_bytes (children b)
name_bytes-children nil = refl
name_bytes-children (cons n (leaf d) b) = omega (arith, name_bytes-children b)
name_bytes-children (cons n (branch k) b) = omega (arith, name_bytes-children b)

len-le-node_count : (b : Branch) → len b ≤ node_count b
len-le-node_count b = omega (arith, node_count-children b)

total-le : (bs : List Branch) → total bs ≤ sum_by node_count bs
total-le [] = omega arith
total-le (b ∷ bs) = omega (arith, len-le-node_count b, total-le bs)

-- A step that gives a result, with names of a bounded size.
abbrev Grows : ℕ → Builder → Option Builder → Type 0
Grows n s r = (s' : Builder) × (r ≡ some s') × (length s'.names ≤ length s.names + n)

intern_total :
    (n : Name) (s : Builder)
    → length s.names < 2 ^ 32
    → (i : ℕ) × (s' : Builder) × (intern n s ≡ some (i, s'))
      × (s'.child_index ≡ s.child_index)
      × (length s'.names ≤ length s.names + suc (length n))
unfolding intern
intern_total n s fits = elim (Option-cases (interned n s.names_interned)) [
  | inr (i, found) ↦ (i, s, rw (intern, found) refl, refl, omega arith)
  | inl new ↦ (
    length s.names,
    with_name n s,
    rw (intern, new, lt→ltb _ _ fits) refl,
    refl,
    omega (arith, length-append s.names ((length n % 256) ∷ n)),
  )
]

push_entries-total :
    (b : Branch) (s : Builder)
    → IsBranch b
    → s.child_index + total (children b) < 2 ^ 32
    → length s.names + own_bytes b < 2 ^ 32
    → Grows (own_bytes b) s (push_entries b s)
unfolding push_entries push_node
push_entries-total nil s wf fits names = (s, refl, omega arith)
push_entries-total (cons n (leaf d) b) s wf fits names =
    let (i, s₁, interned, kept, bytes) = intern_total n s (omega arith) in
    let (s', pushed, more) =
      push_entries-total b
        (record s₁ { nodes = s₁.nodes ++ record { content = file d; name_index = i } ∷ [] }) wf.2
        (omega arith) (omega arith) in
    (s', rw interned pushed, omega arith)
push_entries-total (cons n (branch k) b) s wf fits names =
    let (i, s₁, interned, kept, bytes) = intern_total n s (omega arith) in
    let (s', pushed, more) =
      push_entries-total b
        (record s₁ {
          nodes = s₁.nodes ++ record { content = dir s₁.child_index (len k); name_index = i } ∷ [];
          queue = s₁.queue ++ k ∷ [];
          child_index = s₁.child_index + len k;
        })
        wf.4 (omega arith) (omega arith) in
    (
      s',
      rw (interned, mod-eq_of_lt wf.2, lt→ltb (s₁.child_index + len k) (2 ^ 32) (omega arith))
          pushed,
      omega arith,
    )

-- What a builder still needs: fuel for each directory to come, and indices for its nodes and names.
pub record Fits (fuel : ℕ) (s : Builder) : Type 0 where
  pub fuel_left : length s.queue + sum_by dir_count s.queue < fuel
  pub nodes_left : length s.nodes + sum_by node_count s.queue < 2 ^ 32
  pub names_left : length s.names + sum_by name_bytes s.queue < 2 ^ 32

module _ (e : Eytzinger) (lawful : IsEytzinger e) where
  -- A round that gives a builder, and what is left to do then.
  round_total :
      (fuel : ℕ) (b : Branch) (q : List Branch) (s : Builder)
      → IsBuilder s
      → s.queue ≡ b ∷ q
      → Fits (suc fuel) s
      → (s' : Builder) × (layout_branch e b (record s { queue = q }) ≡ some s')
        × IsBuilder s'
        × Fits fuel s'
  round_total fuel b q s ok eq fits =
      let s₀ = record s { queue = q } in
      let trees : IsBranch b × All IsBranch q = subst (All IsBranch) eq ok.trees in
      let promised : s.child_index ≡ length s.nodes + (len b + total q) =
        ok.promised ∙ ap (λ t. length s.nodes + total t) eq in
      let fuel_left = subst (λ t. length t + sum_by dir_count t < suc fuel) eq fits.fuel_left in
      let nodes_left =
        subst (λ t. length s.nodes + sum_by node_count t < 2 ^ 32) eq fits.nodes_left in
      let names_left =
        subst (λ t. length s.names + sum_by name_bytes t < 2 ^ 32) eq fits.names_left in
      let (s₂, pushed, bytes) =
        push_entries-total b s₀ trees.0
          (omega (arith, promised, node_count-children b, total-le (children b), total-le q))
          (omega (arith, name_bytes-children b)) in
      let p = push_entries_lem b s₀ s₂ trees.0 ok.stored pushed in
      let step : layout_branch e b s₀ ≡ some (in_order e s₀ s₂ p.pushed) =
        unfold layout_branch in
        rw pushed (ap some (sym (in_order_lem e s₀ s₂ p.pushed p.nodes_pushed))) in
      (
        in_order e s₀ s₂ p.pushed,
        step,
        round-IsBuilder e lawful b q s₀ s₂ p refl trees.0 trees.1 promised ok.bounded,
        record {
          fuel_left = rw p.queue_children (
              omega (
                arith,
                dir_count-children b,
                sum_by-append dir_count q (children b),
                length-append q (children b),
              ));
          nodes_left = rw p.queue_children (
              omega (
                arith,
                node_count-children b,
                sum_by-append node_count q (children b),
                length-in_order e lawful b s₀ s₂ p,
              ));
          names_left = rw p.queue_children (
              omega (arith, bytes, name_bytes-children b, sum_by-append name_bytes q (children b)));
        },
      )

  pub layout_loop_total :
      (fuel : ℕ) (s : Builder)
      → IsBuilder s
      → Fits fuel s
      → (f : Builder) × (layout_loop e fuel s ≡ some f)
  unfolding layout_loop
  layout_loop_total zero s ok fits = absurd (omega (arith, fits.fuel_left))
  layout_loop_total (suc fuel) s ok fits = elim (List-cases s.queue) [
    | inl eq ↦ (s, rw eq refl)
    | inr (b, q, eq) ↦
        let (s', step, ok', fits') = round_total fuel b q s ok eq fits in
        let (f, rest) = layout_loop_total fuel s' ok' fits' in (f, rw (eq, step) rest)
  ]

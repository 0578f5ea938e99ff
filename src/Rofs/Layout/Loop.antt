-- ===== src/Rofs/Layout/Loop.antt =====
-- The loop of `into_rofs`: the blocks of all queued branches are laid out behind the nodes so far.
use fsvfs.Base.{
  ℕ, zero, suc, ◌+◌, ◌<◌, ◌^◌, List, [], ◌∷◌, ◌++◌, some_inj, some, >>=-eq-some, ◌≡◌, refl, sym, ap,
  ap₂, subst, ◌∙◌, ◌⊎◌, inl, inr, arith, All, take, drop, length, length-append, append_assoc,
  append-nil, take-length-append, drop-length-append,
}
use mathlib.Core.Path.{subst₂}
use fsvfs.Rofs.Node.{Node, node_name, sort_by_key, Eytzinger, IsEytzinger}
use fsvfs.Rofs.Object.{Branch, branch, leaf, nil, cons, len}
use fsvfs.Rofs.Layout.{Builder, push_entries, layout_branch, layout_loop}
use fsvfs.Rofs.Layout.Names.{IsInterned}
use fsvfs.Rofs.Layout.Entries.{
  IsBranch, children, total, Placed-append, length-Placed, Pushes, push_entries_lem,
}
use fsvfs.Rofs.Layout.Blocks.{Block, Blocks, Blocks-append, Entries-of_Placed, same_names}
use fsvfs.Rofs.Layout.Sorted.{
  length-sort_by_key, El-sort_by_key, sort_by_key-IsSorted, IsSorted-cong,
}

children-IsBranch : (b : Branch) → IsBranch b → All IsBranch (children b)
children-IsBranch nil h = tt
children-IsBranch (cons n (leaf d) b) h = children-IsBranch b h.2
children-IsBranch (cons n (branch k) b) h = (h.3, children-IsBranch b h.4)

All-append : {A : Type 0} (P : A → Type 0) (xs ys : List A) → All P xs → All P ys → All P (xs ++ ys)
All-append P [] ys h k = k
All-append P (x ∷ xs) ys h k = (h.0, All-append P xs ys h.1 k)

total-append : (xs ys : List Branch) → total (xs ++ ys) ≡ total xs + total ys
total-append [] ys = omega arith
total-append (x ∷ xs) ys = omega (arith, total-append xs ys)

-- What holds of the builder between two rounds.
pub record IsBuilder (s : Builder) : Type 0 where
  pub stored : IsInterned s.names s.names_interned
  pub trees : All IsBranch s.queue
  pub promised : s.child_index ≡ length s.nodes + total s.queue
  pub bounded : s.child_index < 2 ^ 32

pub List-cases : {A : Type 0} (xs : List A) → (xs ≡ []) ⊎ ((x : A) × (ys : List A) × (xs ≡ x ∷ ys))
List-cases [] = inl refl
List-cases (x ∷ xs) = inr (x, xs, refl)

module _ (e : Eytzinger) where
  -- What the loop makes of a builder.
  pub record Finishes (s f : Builder) : Type 0 where
    pub more_nodes : List Node
    pub more_names : List ℕ
    pub nodes_more : f.nodes ≡ s.nodes ++ more_nodes
    pub names_more : f.names ≡ s.names ++ more_names
    pub blocks : Blocks e f.nodes f.names (length s.nodes) s.queue
    pub small : length f.nodes < 2 ^ 32

  -- The builder behind one round.
  abbrev pub in_order : Builder → Builder → List Node → Builder
  in_order s s₂ pushed = record s₂ {
    nodes = s.nodes ++ e.eytzingerize (sort_by_key (node_name s₂.names) pushed);
  }

  pub in_order_lem :
      (s s₂ : Builder) (pushed : List Node)
      → s₂.nodes ≡ s.nodes ++ pushed
      → in_order s s₂ pushed ≡ record s₂ {
        nodes =
            take (length s.nodes) s₂.nodes
            ++ e.eytzingerize (sort_by_key (node_name s₂.names) (drop (length s.nodes) s₂.nodes));
      }
  in_order_lem s s₂ pushed h =
      let old : take (length s.nodes) s₂.nodes ≡ s.nodes =
        rw h (take-length-append s.nodes pushed (length s.nodes) refl) in
      let new : drop (length s.nodes) s₂.nodes ≡ pushed =
        rw h (drop-length-append s.nodes pushed (length s.nodes) refl) in
      ap₂
        (λ (a b : List Node). record s₂ {
          nodes = a ++ e.eytzingerize (sort_by_key (node_name s₂.names) b);
        })
        (sym old) (sym new)

  layout_branch_lem :
      (b : Branch) (s s₁ : Builder)
      → IsBranch b
      → IsInterned s.names s.names_interned
      → layout_branch e b s ≡ some s₁
      → (s₂ : Builder) × (p : Pushes b s s₂) × (in_order s s₂ p.pushed ≡ s₁)
  unfolding layout_branch
  layout_branch_lem b s s₁ wf ok h =
      let (s₂, pushed, made) = >>=-eq-some (push_entries b s) _ s₁ h in
      let p = push_entries_lem b s s₂ wf ok pushed in
      (s₂, p, in_order_lem s s₂ p.pushed p.nodes_pushed ∙ some_inj _ s₁ made)

  module _ (lawful : IsEytzinger e) where
    pub length-in_order :
        (b : Branch) (s s₂ : Builder) (p : Pushes b s s₂)
        → length (in_order s s₂ p.pushed).nodes ≡ length s.nodes + len b
    length-in_order b s s₂ p = omega (
      arith,
      length-append s.nodes (e.eytzingerize (sort_by_key (node_name s₂.names) p.pushed)),
      lawful.length-eytzingerize (sort_by_key (node_name s₂.names) p.pushed),
      length-sort_by_key (node_name s₂.names) p.pushed,
      length-Placed s.child_index s₂.names b p.pushed p.placed,
    )

    -- The block of a branch is there once the loop has made the blocks of its directories.
    here :
        (b : Branch) (s s₂ f : Builder) (p : Pushes b s s₂)
        → (nodes names : List _) → f.nodes ≡ (in_order s s₂ p.pushed).nodes ++ nodes
        → f.names ≡ s₂.names ++ names
        → Blocks e f.nodes f.names s.child_index (children b)
        → Block e f.nodes f.names (length s.nodes) b
    here b s s₂ f p nodes names en em below =
        let key = node_name s₂.names in
        let xs = sort_by_key key p.pushed in
        let block = e.eytzingerize xs in
        let count : len b ≡ length block = omega (
          arith,
          lawful.length-eytzingerize xs,
          length-sort_by_key key p.pushed,
          length-Placed s.child_index s₂.names b p.pushed p.placed,
        ) in
        let behind : drop (length s.nodes) f.nodes ≡ block ++ nodes =
          rw (en, append_assoc)
            (drop-length-append s.nodes (block ++ nodes) (length s.nodes) refl) in
        record {
          members = p.pushed;
          sorted = xs;
          slice = rw behind (take-length-append block nodes (len b) count);
          is_sorted = rw em (
              IsSorted-cong key (node_name (s₂.names ++ names)) xs
                (λ m h.
                  same_names s.child_index s₂.names names b p.pushed m p.placed
                    ((El-sort_by_key key m p.pushed).0 h))
                (sort_by_key-IsSorted key p.pushed));
          same_members = λ m. El-sort_by_key key m p.pushed;
          entries =
              Entries-of_Placed e f.nodes f.names s.child_index b p.pushed
                (rw em (Placed-append s.child_index s₂.names names b p.pushed p.placed)) below;
        }

    pub round-IsBuilder :
        (b : Branch) (q : List Branch) (s s₂ : Builder) (p : Pushes b s s₂)
        → s.queue ≡ q
        → IsBranch b
        → All IsBranch q
        → s.child_index ≡ length s.nodes + (len b + total q)
        → s.child_index < 2 ^ 32
        → IsBuilder (in_order s s₂ p.pushed)
    round-IsBuilder b q s s₂ p eq wf wfs promised fits = record {
      stored = p.kept;
      trees =
          rw (p.queue_children, eq)
            (All-append IsBranch q (children b) wfs (children-IsBranch b wf));
      promised =
          rw (p.queue_children, eq, p.child_index_total)
            (omega (arith, length-in_order b s s₂ p, total-append q (children b)));
      bounded = p.bounded fits;
    }

    -- One round and what follows it.
    round-Finishes :
        (b : Branch) (q : List Branch) (s s₂ f : Builder) (p : Pushes b (record s { queue = q }) s₂)
        → s.queue ≡ b ∷ q
        → s.child_index ≡ length s.nodes + total s.queue
        → Finishes (in_order (record s { queue = q }) s₂ p.pushed) f
        → Finishes s f
    round-Finishes b q s s₂ f p eq promised r =
        let s₀ = record s { queue = q } in
        let count = length-in_order b s₀ s₂ p in
        let all = subst₂ (λ i bs. Blocks e f.nodes f.names i bs) count p.queue_children r.blocks in
        let (now, later) =
          Blocks-append e f.nodes f.names (length s.nodes + len b) q (children b) all in
        let place : length s.nodes + len b + total q ≡ s.child_index = omega (arith, ap total eq) in
        let below = subst (λ i. Blocks e f.nodes f.names i (children b)) place later in
        record {
          more_nodes = e.eytzingerize (sort_by_key (node_name s₂.names) p.pushed) ++ r.more_nodes;
          more_names = p.more ++ r.more_names;
          nodes_more = r.nodes_more ∙ append_assoc s.nodes _ r.more_nodes;
          names_more =
              r.names_more
              ∙ ap (λ t. t ++ r.more_names) p.names_more
              ∙ append_assoc s.names p.more r.more_names;
          blocks =
              rw eq
                (here b s₀ s₂ f p r.more_nodes r.more_names r.nodes_more r.names_more below, now);
          small = r.small;
        }

    Finishes-refl : (s : Builder) → IsBuilder s → s.queue ≡ [] → Finishes s s
    Finishes-refl s ok eq = record {
      more_nodes = [];
      more_names = [];
      nodes_more = sym (append-nil s.nodes);
      names_more = sym (append-nil s.names);
      blocks = rw eq tt;
      small = omega (arith, ok.promised, ok.bounded);
    }

    -- A loop that ends has laid out every branch that was queued.
    pub layout_loop_lem :
        (fuel : ℕ) (s f : Builder) → IsBuilder s → layout_loop e fuel s ≡ some f → Finishes s f
    unfolding layout_loop
    layout_loop_lem zero s f ok h = absurd (cc)
    layout_loop_lem (suc fuel) s f ok h = elim (List-cases s.queue) [
      | inl eq ↦
          subst (Finishes s) (some_inj s f (rw (eq, layout_loop) at h)) (Finishes-refl s ok eq)
      | inr (b, q, eq) ↦
          let trees : IsBranch b × All IsBranch q = subst (All IsBranch) eq ok.trees in
          let promised : s.child_index ≡ length s.nodes + (len b + total q) =
            ok.promised ∙ ap (λ t. length s.nodes + total t) eq in
          let s₀ = record s { queue = q } in
          let (s₁, step, rest) =
            >>=-eq-some (layout_branch e b s₀) (λ t. layout_loop e fuel t) f
              (rw (eq, layout_loop) at h) in
          let (s₂, p, made) = layout_branch_lem b s₀ s₁ trees.0 ok.stored step in
          let ok₁ = round-IsBuilder b q s₀ s₂ p refl trees.0 trees.1 promised ok.bounded in
          round-Finishes b q s s₂ f p eq ok.promised
            (layout_loop_lem fuel (in_order s₀ s₂ p.pushed) f ok₁ (rw made rest))
    ]

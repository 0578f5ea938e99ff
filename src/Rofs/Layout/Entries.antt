-- ===== src/Rofs/Layout/Entries.antt =====
-- What the loop over the entries of one branch pushes: a node for each entry, in order, where the
-- child indices of the directories follow one another.
use fsvfs.Base.{
  ℕ, suc, ◌+◌, ◌^◌, ◌<◌, List, [], ◌∷◌, ◌++◌, Bool-cases, some_inj, none, some, >>=-eq-some, ◌≡◌,
  refl, sym, ap, subst, ◌∙◌, inl, inr, arith, ltb, ltb→lt, length, append_assoc, append-nil,
}
use native.Mathlib.Nat.{mod-eq_of_lt}
use fsvfs.Rofs.Path.{Name}
use fsvfs.Rofs.Node.{Node, dir, file}
use fsvfs.Rofs.Object.{Branch, branch, leaf, nil, cons, len, get}
use fsvfs.Rofs.Layout.{Builder, intern, push_node, push_entries}
use fsvfs.Rofs.Layout.Names.{NameAt, NameAt-append, IsInterned, Interns, intern_lem}

-- A tree with distinct names in each directory, names of fewer than 256 bytes, and directories whose
-- number of entries fits a `u32`.
abbrev pub IsBranch : Branch → Type 0
IsBranch nil = Unit
IsBranch (cons n (leaf d) b) = (length n < 256) × (get n b ≡ none) × IsBranch b
IsBranch (cons n (branch k) b) =
    (length n < 256) × (get n b ≡ none) × (len k < 2 ^ 32) × IsBranch k × IsBranch b

-- The directories of a branch.
abbrev pub children : Branch → List Branch
children nil = []
children (cons n (leaf d) b) = children b
children (cons n (branch k) b) = k ∷ children b

-- The number of entries in some branches.
abbrev pub total : List Branch → ℕ
total [] = 0
total (b ∷ bs) = len b + total bs

-- The nodes of a branch whose directories have their children from `c` on.
abbrev pub Placed : ℕ → List ℕ → Branch → List Node → Type 0
Placed c names nil [] = Unit
Placed c names nil (m ∷ ms) = ⊥
Placed c names (cons n t b) [] = ⊥
Placed c names (cons n (leaf d) b) (m ∷ ms) =
    NameAt names m.name_index n × (m.content ≡ file d) × Placed c names b ms
Placed c names (cons n (branch k) b) (m ∷ ms) =
    NameAt names m.name_index n × (m.content ≡ dir c (len k)) × Placed (c + len k) names b ms

pub Placed-append :
    (c : ℕ) (names more : List ℕ) (b : Branch) (ms : List Node)
    → Placed c names b ms
    → Placed c (names ++ more) b ms
Placed-append c names more nil [] h = tt
Placed-append c names more nil (m ∷ ms) h = h
Placed-append c names more (cons n t b) [] h = h
Placed-append c names more (cons n (leaf d) b) (m ∷ ms) h =
    (NameAt-append more h.0, h.1, Placed-append c names more b ms h.2)
Placed-append c names more (cons n (branch k) b) (m ∷ ms) h =
    (NameAt-append more h.0, h.1, Placed-append (c + len k) names more b ms h.2)

pub length-Placed :
    (c : ℕ) (names : List ℕ) (b : Branch) (ms : List Node) → Placed c names b ms → length ms ≡ len b
length-Placed c names nil [] h = refl
length-Placed c names nil (m ∷ ms) h = absurd h
length-Placed c names (cons n t b) [] h = absurd h
length-Placed c names (cons n (leaf d) b) (m ∷ ms) h = ap suc (length-Placed c names b ms h.2)
length-Placed c names (cons n (branch k) b) (m ∷ ms) h =
    ap suc (length-Placed (c + len k) names b ms h.2)

-- What the loop does to the builder.
pub record Pushes (b : Branch) (s s' : Builder) : Type 0 where
  pub pushed : List Node
  pub more : List ℕ
  pub nodes_pushed : s'.nodes ≡ s.nodes ++ pushed
  pub names_more : s'.names ≡ s.names ++ more
  pub kept : IsInterned s'.names s'.names_interned
  pub queue_children : s'.queue ≡ s.queue ++ children b
  pub child_index_total : s'.child_index ≡ s.child_index + total (children b)
  pub placed : Placed s.child_index s'.names b pushed
  pub bounded : s.child_index < 2 ^ 32 → s'.child_index < 2 ^ 32

-- The builder behind one node of a file, and of a directory.
abbrev with_file : ℕ → ℕ → Builder → Builder
with_file d i s = record s { nodes = s.nodes ++ record { content = file d; name_index = i } ∷ [] }

abbrev with_dir : Branch → ℕ → Builder → Builder
with_dir k i s = record s {
  nodes = s.nodes ++ record { content = dir s.child_index (len k); name_index = i } ∷ [];
  queue = s.queue ++ k ∷ [];
  child_index = s.child_index + len k;
}

push_node-file :
    (d i : ℕ) (s s' : Builder) → push_node (leaf d) i s ≡ some s' → with_file d i s ≡ s'
unfolding push_node
push_node-file d i s s' e = some_inj _ s' e

push_node-dir :
    (k : Branch) (i : ℕ) (s s' : Builder)
    → len k < 2 ^ 32
    → push_node (branch k) i s ≡ some s'
    → (with_dir k i s ≡ s') × (s.child_index + len k < 2 ^ 32)
unfolding push_node
push_node-dir k i s s' small e = elim (Bool-cases (ltb (s.child_index + len k) (2 ^ 32))) [
  | inl fits ↦ (some_inj _ s' (rw (mod-eq_of_lt small, fits) at e), ltb→lt _ _ fits)
  | inr full ↦ absurd (cc (rw (mod-eq_of_lt small, full) at e))
]

Pushes-file :
    (n : Name) (d : ℕ) (b : Branch) (s : Builder) (i : ℕ) (s₁ s' : Builder)
    → Interns n s i s₁
    → Pushes b (with_file d i s₁) s'
    → Pushes (cons n (leaf d) b) s s'
Pushes-file n d b s i s₁ s' a r = record {
  pushed = record { content = file d; name_index = i } ∷ r.pushed;
  more = a.more ++ r.more;
  nodes_pushed = r.nodes_pushed ∙ rw a.same_nodes (simp append_assoc);
  names_more = r.names_more ∙ rw a.names_more (simp append_assoc);
  kept = r.kept;
  queue_children = r.queue_children ∙ rw a.same_queue;
  child_index_total = r.child_index_total ∙ rw a.same_child_index;
  placed =
      (rw r.names_more (NameAt-append r.more a.stored), refl, rw (← a.same_child_index) r.placed);
  bounded = λ h. r.bounded (rw a.same_child_index h);
}

Pushes-dir :
    (n : Name) (k b : Branch) (s : Builder) (i : ℕ) (s₁ s' : Builder)
    → Interns n s i s₁
    → s₁.child_index + len k < 2 ^ 32
    → Pushes b (with_dir k i s₁) s'
    → Pushes (cons n (branch k) b) s s'
Pushes-dir n k b s i s₁ s' a fits r = record {
  pushed = record { content = dir s₁.child_index (len k); name_index = i } ∷ r.pushed;
  more = a.more ++ r.more;
  nodes_pushed = r.nodes_pushed ∙ rw a.same_nodes (simp append_assoc);
  names_more = r.names_more ∙ rw a.names_more (simp append_assoc);
  kept = r.kept;
  queue_children = r.queue_children ∙ rw a.same_queue (simp append_assoc);
  child_index_total = r.child_index_total ∙ rw a.same_child_index (omega arith);
  placed = (
    rw r.names_more (NameAt-append r.more a.stored),
    rw a.same_child_index,
    rw (← a.same_child_index) r.placed,
  );
  bounded = λ h. r.bounded fits;
}

Pushes-nil : (s : Builder) → IsInterned s.names s.names_interned → Pushes nil s s
Pushes-nil s ok = record {
  pushed = [];
  more = [];
  nodes_pushed = sym (append-nil s.nodes);
  names_more = sym (append-nil s.names);
  kept = ok;
  queue_children = sym (append-nil s.queue);
  child_index_total = omega arith;
  placed = tt;
  bounded = λ h. h;
}

-- The loop pushes a node for each entry, stores the names, and queues the directories.
pub push_entries_lem :
    (b : Branch) (s s' : Builder)
    → IsBranch b
    → IsInterned s.names s.names_interned
    → push_entries b s ≡ some s'
    → Pushes b s s'
unfolding push_entries
push_entries_lem nil s s' wf ok e = subst (Pushes nil s) (some_inj s s' e) (Pushes-nil s ok)
push_entries_lem (cons n (leaf d) b) s s' wf ok e =
    let (r, interned, e₁) = >>=-eq-some (intern n s) _ s' e in
    let (s₂, pushed, e₂) = >>=-eq-some (push_node (leaf d) r.0 r.1) (λ t. push_entries b t) s' e₁ in
    let a = intern_lem n s r.0 r.1 wf.0 ok interned in
    let p = push_node-file d r.0 r.1 s₂ pushed in
    Pushes-file n d b s r.0 r.1 s' a (
      push_entries_lem b (with_file d r.0 r.1) s' wf.2 a.kept
        (subst (λ t. push_entries b t ≡ some s') (sym p) e₂))
push_entries_lem (cons n (branch k) b) s s' wf ok e =
    let (r, interned, e₁) = >>=-eq-some (intern n s) _ s' e in
    let (s₂, pushed, e₂) =
      >>=-eq-some (push_node (branch k) r.0 r.1) (λ t. push_entries b t) s' e₁ in
    let a = intern_lem n s r.0 r.1 wf.0 ok interned in
    let (p, fits) = push_node-dir k r.0 r.1 s₂ wf.2 pushed in
    Pushes-dir n k b s r.0 r.1 s' a fits (
      push_entries_lem b (with_dir k r.0 r.1) s' wf.4 a.kept
        (subst (λ t. push_entries b t ≡ some s') (sym p) e₂))

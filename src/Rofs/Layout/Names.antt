-- ===== src/Rofs/Layout/Names.antt =====
-- The name store: every index that the builder hands out is the place of a length byte and its name.
use fsvfs.Base.{
  ℕ, ◌%◌, ◌<◌, List, [], ◌∷◌, ◌++◌, true, Bool-cases, Option-cases, some_inj, some, ◌≡◌, refl, sym,
  ap, ap₂, ltb, ◌^◌, ◌∙◌, inl, inr, arith, &&-parts, ==_iff, All, length, drop-length-append,
  take-length-append, append_assoc, append-nil,
}
use mathlib.Core.Path.{subst₂}
use native.Mathlib.Nat.{mod-eq_of_lt}
use fsvfs.Rofs.Path.{Name, same_name}
use fsvfs.Rofs.Node.{read_name}
use fsvfs.Rofs.Layout.{Builder, interned, intern}

pub same_name→eq : (m n : Name) → same_name m n ≡ true → m ≡ n
unfolding same_name
same_name→eq [] [] h = refl
same_name→eq [] (y ∷ n) h = absurd (cc)
same_name→eq (x ∷ m) [] h = absurd (cc)
same_name→eq (x ∷ m) (y ∷ n) h =
    let (first, rest) = &&-parts _ _ h in ap₂ ◌∷◌ ((==_iff x y).0 first) (same_name→eq m n rest)

pub same_name_refl : (n : Name) → same_name n n ≡ true
unfolding same_name
same_name_refl [] = refl
same_name_refl (x ∷ n) = ground (arith, same_name_refl n)

-- The store has the name at this index, with its length before it.
pub record NameAt (names : List ℕ) (index : ℕ) (n : Name) : Type 0 where
  pub before : List ℕ
  pub after : List ℕ
  pub stored : names ≡ before ++ length n ∷ (n ++ after)
  pub at : length before ≡ index

pub read_name-NameAt :
    {names : List ℕ} {i : ℕ} {n : Name} → NameAt names i n → read_name names i ≡ n
unfolding read_name
read_name-NameAt {names} {i} {n} h = rw (h.stored) (
    rw (drop-length-append h.before (length n ∷ (n ++ h.after)) i (sym h.at), read_name)
      (take-length-append n h.after (length n) refl))

pub NameAt-append :
    {names : List ℕ} {i : ℕ} {n : Name} (more : List ℕ)
    → NameAt names i n
    → NameAt (names ++ more) i n
NameAt-append {n = n} more h = record {
  before = h.before;
  after = h.after ++ more;
  stored = ap (λ t. t ++ more) h.stored ∙ simp append_assoc;
  at = h.at;
}

-- What is interned is stored.
abbrev pub IsInterned : List ℕ → List (Name × ℕ) → Type 0
IsInterned names = All (λ p. NameAt names p.1 p.0)

IsInterned-append :
    (names more : List ℕ) (ns : List (Name × ℕ))
    → IsInterned names ns
    → IsInterned (names ++ more) ns
IsInterned-append names more [] h = tt
IsInterned-append names more ((n, i) ∷ ns) h =
    (NameAt-append more h.0, IsInterned-append names more ns h.1)

interned-NameAt :
    (names : List ℕ) (k : Name) (i : ℕ) (ns : List (Name × ℕ))
    → IsInterned names ns
    → interned k ns ≡ some i
    → NameAt names i k
unfolding interned
interned-NameAt names k i [] h e = absurd (cc)
interned-NameAt names k i ((n, j) ∷ ns) h e = elim (Bool-cases (same_name n k)) [
  | inl t ↦ subst₂ (NameAt names) (some_inj j i (rw t at e)) (same_name→eq n k t) h.0
  | inr f ↦ interned-NameAt names k i ns h.1 (rw f at e)
]

-- What interning a name does to the builder.
pub record Interns (n : Name) (s : Builder) (i : ℕ) (s' : Builder) : Type 0 where
  pub more : List ℕ
  pub names_more : s'.names ≡ s.names ++ more
  pub kept : IsInterned s'.names s'.names_interned
  pub stored : NameAt s'.names i n
  pub same_nodes : s'.nodes ≡ s.nodes
  pub same_queue : s'.queue ≡ s.queue
  pub same_child_index : s'.child_index ≡ s.child_index

-- The builder behind a new name.
abbrev pub with_name : Name → Builder → Builder
with_name n s = record s {
  names = s.names ++ (length n % 256) ∷ n;
  names_interned = (n, length s.names) ∷ s.names_interned;
}

with_name-Interns :
    (n : Name) (s : Builder)
    → length n < 256
    → IsInterned s.names s.names_interned
    → Interns n s (length s.names) (with_name n s)
with_name-Interns n s short ok =
    let here : NameAt (s.names ++ (length n % 256) ∷ n) (length s.names) n = record {
      before = s.names;
      after = [];
      stored = rw (mod-eq_of_lt short, append-nil);
      at = refl;
    } in
    record {
      more = (length n % 256) ∷ n;
      names_more = refl;
      kept = (here, IsInterned-append s.names _ s.names_interned ok);
      stored = here;
      same_nodes = refl;
      same_queue = refl;
      same_child_index = refl;
    }

Interns-here :
    (n : Name) (s : Builder) (i : ℕ)
    → IsInterned s.names s.names_interned
    → NameAt s.names i n
    → Interns n s i s
Interns-here n s i ok h = record {
  more = [];
  names_more = sym (append-nil s.names);
  kept = ok;
  stored = h;
  same_nodes = refl;
  same_queue = refl;
  same_child_index = refl;
}

-- Interning a name of fewer than 256 bytes stores it, or finds it, and keeps all that was stored.
pub intern_lem :
    (n : Name) (s : Builder) (i : ℕ) (s' : Builder)
    → length n < 256
    → IsInterned s.names s.names_interned
    → intern n s ≡ some (i, s')
    → Interns n s i s'
unfolding intern
intern_lem n s i s' short ok e = elim (Option-cases (interned n s.names_interned)) [
  | inr (j, found) ↦
      let q = some_inj (j, s) (i, s') (rw (found, intern) at e) in
      subst₂ (Interns n s) (ap (λ p. p.0) q) (ap (λ p. p.1) q)
        (Interns-here n s j ok (interned-NameAt s.names n j s.names_interned ok found))
  | inl new ↦ elim (Bool-cases (ltb (length s.names) (2 ^ 32))) [
    | inl fits ↦
        let q = some_inj (length s.names, with_name n s) (i, s') (rw (new, intern, fits) at e) in
        subst₂ (Interns n s) (ap (λ p. p.0) q) (ap (λ p. p.1) q) (with_name-Interns n s short ok)
    | inr full ↦ absurd (cc (rw (new, intern, full) at e))
  ]
]

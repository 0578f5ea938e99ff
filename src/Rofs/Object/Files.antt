-- ===== src/Rofs/Object/Files.antt =====
-- The object that `RofsObject::new` makes of a list of files.
use fsvfs.Base.{
  ℕ, zero, suc, ◌+◌, ◌^◌, ◌≤◌, ◌<◌, Bool-cases, ltb, ltb→lt, List, [], ◌∷◌, ◌++◌, map, length,
  length-map, get_elem?, some, some_inj, >>=-eq-some, ◌≡◌, refl, sym, ap, subst, ◌∙◌, ◌⊎◌, inl, inr,
  arith,
}
use fsvfs.Rofs.Path.{Name, Config, components, normalize_path, to_ascii_lowercase}
use fsvfs.Rofs.Object.{
  Branch, branch, leaf, nil, cons, len, get, insert_path, insert_all, assert_u32, RofsObject, new,
}
use fsvfs.Rofs.Object.Grown.{IsGrown, IsGrown-IsBranch, insert_path-IsGrown}
use fsvfs.Rofs.Object.Insert.{
  find-nil, insert_path-keeps, insert_path-adds, insert_path-finds, IsFree,
}
use fsvfs.Rofs.Find.{find}
use fsvfs.Rofs.Refine.{HasTree}

-- The components under which a file is stored.
abbrev pub stored_path : Config → Name → List Name
stored_path c path = components c (to_ascii_lowercase (normalize_path c path)).0

pub assert_u32-some : (n m : ℕ) → assert_u32 n ≡ some m → n < 2 ^ 32
assert_u32-some n m h = elim (Bool-cases (ltb n (2 ^ 32))) [
  | inl fits ↦ ltb→lt n (2 ^ 32) fits
  | inr large ↦ absurd (cc (rw large at h))
]

insert_all-IsGrown :
    (c : Config) (paths : List Name) (m index : ℕ) (b b' : Branch)
    → IsGrown m b
    → insert_all c index paths b ≡ some b'
    → IsGrown (m + length paths) b' × (len b' ≤ len b + length paths)
unfolding insert_all
insert_all-IsGrown c [] m index b b' g h =
    subst (λ t. IsGrown (m + 0) t × (len t ≤ len b + 0)) (some_inj b b' h)
      (subst (λ k. IsGrown k b) (omega arith) g, omega arith)
insert_all-IsGrown c (p ∷ paths) m index b b' g h =
    let (mid, first, rest) = >>=-eq-some (insert_path (stored_path c p) index b) _ b' h in
    let (grown, size) = insert_path-IsGrown (stored_path c p) m index b mid g first in
    let (all, sizes) = insert_all-IsGrown c paths (suc m) (suc index) mid b' grown rest in
    (subst (λ k. IsGrown k b') (omega arith) all, omega (arith, size, sizes))

insert_all-keeps :
    (c : Config) (paths ns : List Name) (index d : ℕ) (b b' : Branch)
    → insert_all c index paths b ≡ some b'
    → find ns (branch b) ≡ some (leaf d)
    → find ns (branch b') ≡ some (leaf d)
unfolding insert_all
insert_all-keeps c [] ns index d b b' h f =
    subst (λ t. find ns (branch t) ≡ some (leaf d)) (some_inj b b' h) f
insert_all-keeps c (p ∷ paths) ns index d b b' h f =
    let (mid, first, rest) = >>=-eq-some (insert_path (stored_path c p) index b) _ b' h in
    insert_all-keeps c paths ns (suc index) d mid b' rest
      (insert_path-keeps (stored_path c p) ns index d b mid first f)

insert_all-adds :
    (c : Config) (paths ns : List Name) (index d : ℕ) (b b' : Branch)
    → insert_all c index paths b ≡ some b'
    → find ns (branch b') ≡ some (leaf d)
    → (find ns (branch b) ≡ some (leaf d))
      ⊎ ((j : ℕ) × (p : Name) × (get_elem? paths j ≡ some p)
          × (d ≡ j + index)
          × (stored_path c p ≡ ns))
unfolding insert_all
insert_all-adds c [] ns index d b b' h f =
    inl (subst (λ t. find ns (branch t) ≡ some (leaf d)) (sym (some_inj b b' h)) f)
insert_all-adds c (p ∷ paths) ns index d b b' h f =
    let (mid, first, rest) = >>=-eq-some (insert_path (stored_path c p) index b) _ b' h in
    elim (insert_all-adds c paths ns (suc index) d mid b' rest f) [
      | inl before ↦ elim (insert_path-adds (stored_path c p) ns index d b mid first before) [
        | inl old ↦ inl old
        | inr (q, e) ↦ inr (0, p, refl, e ∙ omega arith, sym q)
      ]
      | inr (j, q, at, e, same) ↦ inr (suc j, q, at, omega (arith, e), same)
    ]

insert_all-append :
    (c : Config) (index : ℕ) (ps qs : List Name) (b mid : Branch)
    → insert_all c index ps b ≡ some mid
    → insert_all c index (ps ++ qs) b ≡ insert_all c (index + length ps) qs mid
unfolding insert_all
insert_all-append c index [] qs b mid h =
    subst (λ i. insert_all c index qs b ≡ insert_all c i qs mid) (omega arith)
      (ap (insert_all c index qs) (some_inj b mid h))
insert_all-append c index (p ∷ ps) qs b mid h =
    let (next, first, rest) = >>=-eq-some (insert_path (stored_path c p) index b) _ mid h in
    rw first (
      subst (λ i. insert_all c (suc index) (ps ++ qs) next ≡ insert_all c i qs mid) (omega arith)
        (insert_all-append c (suc index) ps qs next mid rest))

map-append {ℓ κ} :
    {A : Type ℓ} {B : Type κ} (f : A → B) (xs ys : List A) → map f (xs ++ ys) ≡ map f xs ++ map f ys
map-append f [] ys = refl
map-append f (x ∷ xs) ys = ap (λ t. f x ∷ t) (map-append f xs ys)

module _ {ℓ} {T : Type ℓ} where
  get-paths :
      (files : List (Name × T)) (j : ℕ) (p : Name)
      → get_elem? (map (λ f. f.0) files) j ≡ some p
      → (x : T) × (get_elem? files j ≡ some (p, x)) × (get_elem? (map (λ f. f.1) files) j ≡ some x)
  get-paths [] j p h = absurd (cc)
  get-paths ((q, x) ∷ files) zero p h = (x, ap (λ t. some (t, x)) (some_inj q p h), refl)
  get-paths (f ∷ files) (suc j) p h = get-paths files j p h

  -- What `new` is made of.
  new_parts :
      (c : Config) (files : List (Name × T)) (o : RofsObject T)
      → new c files ≡ some o
      → (b : Branch) × (insert_all c 0 (map (λ f. f.0) files) nil ≡ some b)
        × (o.root ≡ cons [] (branch b) nil)
        × (o.files ≡ map (λ f. f.1) files)
        × (length files < 2 ^ 32)
  unfolding new
  new_parts c files o h =
      let (n, fits, made) = >>=-eq-some (assert_u32 (length files)) _ o h in
      let (b, all, same) = >>=-eq-some (insert_all c 0 (map (λ f. f.0) files) nil) _ o made in
      let eq = some_inj _ o same in
      (b, all, ap (λ t. t.root) (sym eq), ap (λ t. t.files) (sym eq), assert_u32-some _ n fits)

  the_tree :
      (c : Config) (files : List (Name × T)) (o : RofsObject T) (b : Branch)
      → new c files ≡ some o
      → HasTree o b
      → (insert_all c 0 (map (λ f. f.0) files) nil ≡ some b) × (o.files ≡ map (λ f. f.1) files)
  the_tree c files o b h t =
      let (b', all, root, same, fits) = new_parts c files o h in
      let eq : b' ≡ b = cc (root, t.is_root) in (all ∙ ap some eq, same)

  -- Whenever `new` does not panic, its object has a tree of names: distinct in each directory, of fewer
  -- than 256 bytes, in directories whose sizes fit a `u32`.
  pub new-HasTree :
      (c : Config) (files : List (Name × T)) (o : RofsObject T)
      → new c files ≡ some o
      → (b : Branch) × HasTree o b
  new-HasTree c files o h =
      let (b, all, root, same, fits) = new_parts c files o h in
      let (grown, size) = insert_all-IsGrown c (map (λ f. f.0) files) 0 0 nil b tt all in
      let count = length-map (λ (f : Name × T). f.0) files in
      let small : length (map (λ f. f.0) files) < 2 ^ 32 = omega (arith, count, fits) in
      (
        b,
        record {
          is_root = root;
          is_tree = (
            omega arith,
            unfold get in refl,
            omega (arith, size, small),
            IsGrown-IsBranch (0 + length (map (λ f. f.0) files)) b (omega arith) grown,
            tt,
          );
        },
      )

  -- A file that the tree of a new object has under some components is the file of that index in the list,
  -- its stored path has these components, and the object holds its data at that index.
  pub new-find :
      (c : Config) (files : List (Name × T)) (o : RofsObject T) (b : Branch) (ns : List Name)
      (d : ℕ)
      → new c files ≡ some o
      → HasTree o b
      → find ns (branch b) ≡ some (leaf d)
      → (p : Name) × (x : T) × (get_elem? files d ≡ some (p, x))
        × (stored_path c p ≡ ns)
        × (get_elem? o.files d ≡ some x)
  new-find c files o b ns d h t f =
      let (all, same) = the_tree c files o b h t in
      elim (insert_all-adds c (map (λ f. f.0) files) ns 0 d nil b all f) [
        | inl before ↦ absurd (find-nil ns d before)
        | inr (j, p, at, e, path) ↦
            let (x, here, content) = get-paths files j p at in
            let eq : j ≡ d = omega (arith, e) in
            (
              p,
              x,
              subst (λ i. get_elem? files i ≡ some (p, x)) eq here,
              path,
              rw same (subst (λ i. get_elem? (map (λ f. f.1) files) i ≡ some x) eq content),
            )
      ]

  -- If a file's path is free in the tree of the files before it, then the tree of all files has the file
  -- under its path, whatever files follow.
  pub new-finds :
      (c : Config) (before after : List (Name × T)) (p : Name) (x : T) (o₀ o : RofsObject T)
      (b₀ b : Branch)
      → new c before ≡ some o₀
      → HasTree o₀ b₀
      → IsFree (stored_path c p) b₀
      → new c (before ++ (p, x) ∷ after) ≡ some o
      → HasTree o b
      → find (stored_path c p) (branch b) ≡ some (leaf (length before))
  unfolding insert_all
  new-finds c before after p x o₀ o b₀ b h₀ t₀ free h t =
      let paths = map (λ (f : Name × T). f.0) in
      let (all₀, same₀) = the_tree c before o₀ b₀ h₀ t₀ in
      let (all, same) = the_tree c (before ++ (p, x) ∷ after) o b h t in
      let place : 0 + length (paths before) ≡ length before =
        omega (arith, length-map (λ (f : Name × T). f.0) before) in
      let rest : insert_all c (length before) (p ∷ paths after) b₀ ≡ some b =
        subst (λ i. insert_all c i (p ∷ paths after) b₀ ≡ some b) place
          (sym (insert_all-append c 0 (paths before) (p ∷ paths after) nil b₀ all₀)
            ∙ subst (λ l. insert_all c 0 l nil ≡ some b)
                (map-append (λ f. f.0) before ((p, x) ∷ after)) all) in
      let (mid, first, later) =
        >>=-eq-some (insert_path (stored_path c p) (length before) b₀) _ b rest in
      insert_all-keeps c (paths after) (stored_path c p) (suc (length before)) (length before) mid b
        later (insert_path-finds (stored_path c p) (length before) b₀ mid first free)

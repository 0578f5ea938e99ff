-- ===== src/Rofs/Tests.antt =====
-- Runs on a small filesystem, and the theorems at concrete inputs. The search tree is instantiated
-- with a search from the left in a slice that is left as it is.
use fsvfs.Base.{
  ℕ, suc, ◌+◌, List, [], ◌∷◌, ◌≡◌, ◌≢◌, refl, sym, ap, subst, ◌∙◌, Option, none, some, some_inj,
  if◌then◌else◌, true, Bool-cases, inl, inr, arith, get_elem?,
}
use fsvfs.Base.Text.{codes}
use fsvfs.Rofs.Path.{Name, same_name, dvdbnd_config}
use fsvfs.Rofs.Node.{Node, dir, file, Eytzinger, IsEytzinger, El, Rofs, read_name}
use fsvfs.Rofs.Object.{RofsObject, Branch, branch, leaf, nil, cons, get, new}
use fsvfs.Rofs.Layout.{into_rofs}
use fsvfs.Rofs.Layout.Entries.{IsBranch}
use fsvfs.Rofs.Layout.Names.{same_name→eq, same_name_refl}
use fsvfs.Rofs.Lookup.{ok, lookup}
use fsvfs.Rofs.Refine.{HasTree, Finds, find_path, lookup-find_path}

unfoldable pub linear_search : (Node → Name) → ℕ → List Node → Name → Option ℕ
unfolding same_name
linear_search key i [] k = none
linear_search key i (m ∷ ms) k =
    if same_name (key m) k then some i else linear_search key (suc i) ms k

abbrev pub plain : Eytzinger
plain = record { eytzingerize = λ xs. xs; search_by_key = λ key xs k. linear_search key 0 xs k }

linear_search-some :
    (key : Node → Name) (j : ℕ) (xs : List Node) (k : Name) (i : ℕ)
    → linear_search key j xs k ≡ some i
    → (d : ℕ) × (m : Node) × (i ≡ d + j) × (get_elem? xs d ≡ some m) × (key m ≡ k)
unfolding linear_search
linear_search-some key j [] k i h = absurd (no_hit i h)
  where
    no_hit : (i : ℕ) → none ≡ some i → ⊥
    no_hit i h = cc
linear_search-some key j (x ∷ xs) k i h = elim (Bool-cases (same_name (key x) k)) [
  | inl same ↦
      (0, x, sym (some_inj j i (rw same at h)) ∙ omega arith, refl, same_name→eq (key x) k same)
  | inr other ↦
      let (d, m, at, here, named) = linear_search-some key (suc j) xs k i (rw other at h) in
      (suc d, m, omega (arith, at), here, named)
]

linear_search-none :
    (key : Node → Name) (j : ℕ) (xs : List Node) (k : Name)
    → linear_search key j xs k ≡ none
    → (m : Node) → El m xs
    → key m ≢ k
unfolding linear_search
linear_search-none key j [] k h m el = absurd el
linear_search-none key j (x ∷ xs) k h m el = elim (Bool-cases (same_name (key x) k)) [
  | inl same ↦ absurd (cc (rw same at h))
  | inr other ↦ elim el [
    | inl q ↦ λ e.
        absurd (cc (subst (λ n. same_name n k ≡ true) (sym e ∙ ap key q) (same_name_refl k), other))
    | inr r ↦ linear_search-none key (suc j) xs k (rw other at h) m r
  ]
]

pub plain-IsEytzinger : IsEytzinger plain
plain-IsEytzinger = record {
  length-eytzingerize = λ xs. refl;
  el_of_eytzingerize = λ xs m h. h;
  search_some = λ key xs k i sorted h.
      let (d, m, at, here, named) = linear_search-some key 0 xs k i h in
      (m, subst (λ j. get_elem? xs j ≡ some m) (sym (omega (arith, at))) here, named);
  search_none = λ key xs k sorted h. linear_search-none key 0 xs k h;
}

abbrev pub sample_files : List (Name × ℕ)
sample_files = (codes "/Map/a.bnd", 10) ∷ (codes "map\\b.bnd", 11) ∷ (codes "c.txt", 12) ∷ []

abbrev pub sample_tree : Branch
sample_tree =
    cons (codes "map") (branch (cons (codes "a.bnd") (leaf 0) (cons (codes "b.bnd") (leaf 1) nil)))
      (cons (codes "c.txt") (leaf 2) nil)

abbrev pub sample_object : RofsObject ℕ
sample_object = record { root = cons [] (branch sample_tree) nil; files = 10 ∷ 11 ∷ 12 ∷ [] }

pub new-sample : new dvdbnd_config sample_files ≡ some sample_object
unfolding new
new-sample = refl

sample-IsBranch : IsBranch (cons [] (branch sample_tree) nil)
unfolding get same_name
sample-IsBranch = (
  omega arith,
  refl,
  omega arith,
  (
    omega arith,
    refl,
    omega arith,
    (omega arith, refl, (omega arith, refl, tt)),
    (omega arith, refl, tt),
  ),
  tt,
)

pub sample-HasTree : HasTree sample_object sample_tree
sample-HasTree = record { is_root = refl; is_tree = sample-IsBranch }

abbrev pub built : Rofs ℕ
built = record {
  nodes =
      record { content = dir 1 2; name_index = 0 }
      ∷ record { content = file 2; name_index = 5 }
      ∷ record { content = dir 3 2; name_index = 1 }
      ∷ record { content = file 0; name_index = 11 }
      ∷ record { content = file 1; name_index = 17 }
      ∷ [];
  files = 10 ∷ 11 ∷ 12 ∷ [];
  names = codes "\0\u{3}map\u{5}c.txt\u{5}a.bnd\u{5}b.bnd";
}

pub sample-built : into_rofs plain 4 sample_object ≡ some built
unfolding into_rofs linear_search
sample-built = refl

abbrev pub upper_path : Name
upper_path = codes "MAP/../map/./b.bnd"

pub lookup-built : lookup dvdbnd_config plain built upper_path ≡ ok 5
unfolding lookup linear_search read_name
lookup-built = refl

lookup-find_path_example :
    (fs : Rofs ℕ) × (into_rofs plain 4 sample_object ≡ some fs)
    × (fs.files ≡ sample_object.files)
    × Finds dvdbnd_config fs.nodes
        (find_path dvdbnd_config sample_tree upper_path)
        (lookup dvdbnd_config plain fs upper_path)
lookup-find_path_example =
    lookup-find_path dvdbnd_config plain plain-IsEytzinger 4 sample_object sample_tree upper_path
      (omega arith) sample-HasTree (omega arith) (omega arith) (omega arith)

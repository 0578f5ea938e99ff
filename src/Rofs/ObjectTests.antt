-- ===== src/Rofs/ObjectTests.antt =====
-- The theorems on objects and on what is served, at a small list of files.
use fsvfs.Base.{
  ℕ, ◌+◌, ◌*◌, ◌%◌, ◌^◌, List, [], ◌∷◌, length, get_elem?, some, ◌≡◌, ◌≢◌, refl, inl, inr, arith,
}
use fsvfs.Base.Text.{codes}
use fsvfs.Rofs.Path.{Name, dvdbnd_config, same_name, components, normalize_path, to_ascii_lowercase}
use fsvfs.Rofs.Node.{Rofs, read_name}
use fsvfs.Rofs.Object.{
  RofsObject, Branch, branch, leaf, nil, cons, get, new, empty, merge, merge_branch, adjust_files,
}
use fsvfs.Rofs.Object.Insert.{IsFree}
use fsvfs.Rofs.Object.Files.{stored_path, new-HasTree, new-find, new-finds}
use fsvfs.Rofs.Layout.Entries.{IsBranch}
use fsvfs.Rofs.Lookup.{ok, Entry, file_entry, entry, lookup}
use fsvfs.Rofs.Layout.{into_rofs}
use fsvfs.Rofs.Object.Reduce.{merge_all}
use fsvfs.Rofs.Archives.{HaveRoom, merge_all-lookup}
use fsvfs.Rofs.Find.{find}
use fsvfs.Rofs.Refine.{HasTree}
use fsvfs.Rofs.Serve.{IsWritten, new-lookup-entry, entry-inode}
use fsvfs.Rofs.Tests.{
  plain, plain-IsEytzinger, sample_files, sample_tree, sample_object, new-sample, sample-HasTree,
  built, sample-built, upper_path, lookup-built,
}

new-HasTree_example : (b : Branch) × HasTree sample_object b
new-HasTree_example = new-HasTree dvdbnd_config sample_files sample_object new-sample

abbrev second_path : List Name
second_path = codes "map" ∷ codes "b.bnd" ∷ []

find-second : find second_path (branch sample_tree) ≡ some (leaf 1)
unfolding find get same_name
find-second = refl

new-find_example :
    (p : Name) × (x : ℕ) × (get_elem? sample_files 1 ≡ some (p, x))
    × (stored_path dvdbnd_config p ≡ second_path)
    × (get_elem? sample_object.files 1 ≡ some x)
new-find_example =
    new-find dvdbnd_config sample_files sample_object sample_tree second_path 1 new-sample
      sample-HasTree find-second

abbrev first_files : List (Name × ℕ)
first_files = (codes "/Map/a.bnd", 10) ∷ []

abbrev first_tree : Branch
first_tree = cons (codes "map") (branch (cons (codes "a.bnd") (leaf 0) nil)) nil

abbrev first_object : RofsObject ℕ
first_object = record { root = cons [] (branch first_tree) nil; files = 10 ∷ [] }

new-first : new dvdbnd_config first_files ≡ some first_object
unfolding new
new-first = refl

first-IsBranch : IsBranch (cons [] (branch first_tree) nil)
unfolding get same_name
first-IsBranch = (
  omega arith,
  refl,
  omega arith,
  (omega arith, refl, omega arith, (omega arith, refl, tt), tt),
  tt,
)

first-HasTree : HasTree first_object first_tree
first-HasTree = record { is_root = refl; is_tree = first-IsBranch }

second-IsFree : IsFree (stored_path dvdbnd_config (codes "map\\b.bnd")) first_tree
unfolding components normalize_path to_ascii_lowercase get same_name
second-IsFree = inr (_, refl, inl refl)

new-finds_example :
    find (stored_path dvdbnd_config (codes "map\\b.bnd")) (branch sample_tree)
    ≡ some (leaf (length first_files))
new-finds_example =
    new-finds dvdbnd_config first_files ((codes "c.txt", 12) ∷ []) (codes "map\\b.bnd") 11
      first_object sample_object first_tree sample_tree new-first first-HasTree second-IsFree
      new-sample sample-HasTree

abbrev second_entry : Entry ℕ
second_entry = record { inode = 3; name = codes "b.bnd"; kind = file_entry 11 }

entry-built : entry dvdbnd_config built 5 ≡ some (ok second_entry)
unfolding entry read_name
entry-built = refl

new-lookup-entry_example :
    (d : ℕ) × (p : Name) × (get_elem? sample_files d ≡ some (p, 11))
    × IsWritten dvdbnd_config upper_path (stored_path dvdbnd_config p)
new-lookup-entry_example =
    new-lookup-entry dvdbnd_config plain plain-IsEytzinger 4 sample_files sample_object built
      upper_path 5 second_entry 11 (omega arith) new-sample sample-built lookup-built entry-built
      refl

entry-inode_example :
    ((second_entry.inode + 2 * dvdbnd_config.inode_root) % 2 ^ 64 ≡ 5) × (second_entry.inode ≢ 5)
entry-inode_example =
    entry-inode dvdbnd_config built 5 second_entry (omega arith) (omega arith) (omega arith)
      entry-built

-- A second object with one file.
abbrev other_tree : Branch
other_tree = cons (codes "map") (branch (cons (codes "d.txt") (leaf 0) nil)) nil

abbrev other_object : RofsObject ℕ
other_object = record { root = cons [] (branch other_tree) nil; files = 13 ∷ [] }

other-IsBranch : IsBranch (cons [] (branch other_tree) nil)
unfolding get same_name
other-IsBranch = (
  omega arith,
  refl,
  omega arith,
  (omega arith, refl, omega arith, (omega arith, refl, tt), tt),
  tt,
)

other-HasTree : HasTree other_object other_tree
other-HasTree = record { is_root = refl; is_tree = other-IsBranch }

abbrev merged_object : RofsObject ℕ
unfolding merge_branch adjust_files
merged_object = record {
  root = cons [] (branch (merge_branch sample_tree (adjust_files 3 other_tree))) nil;
  files = 10 ∷ 11 ∷ 12 ∷ 13 ∷ [];
}

merge-sample : merge sample_object other_object ≡ some merged_object
unfolding merge merge_branch adjust_files merged_object
merge-sample = refl

abbrev other_path : List Name
other_path = codes "map" ∷ codes "d.txt" ∷ []

other-IsFree : IsFree other_path sample_tree
unfolding get same_name
other-IsFree = inr (_, refl, inl refl)

find-other : find other_path (branch other_tree) ≡ some (leaf 0)
unfolding find get same_name
find-other = refl

abbrev archives : List (RofsObject ℕ × Branch)
archives = (sample_object, sample_tree) ∷ (other_object, other_tree) ∷ []

archives-HaveRoom : HaveRoom 6 archives
archives-HaveRoom = record {
  entries_fit = omega arith;
  files_fit = omega arith;
  names_fit = omega arith;
  fuel_enough = omega arith;
}

merge_all-sample : merge_all (sample_object ∷ []) ≡ some sample_object
unfolding merge_all merge empty
merge_all-sample = refl

merge_all-lookup_example :
    (o : RofsObject ℕ) × (fs : Rofs ℕ) × (merge_all (sample_object ∷ other_object ∷ []) ≡ some o)
    × (into_rofs plain 6 o ≡ some fs)
    × ((inode : ℕ) × (y : Entry ℕ) × (lookup dvdbnd_config plain fs (codes "map\\d.txt") ≡ ok inode)
        × (entry dvdbnd_config fs inode ≡ some (ok y))
        × (y.kind ≡ file_entry 13))
unfolding normalize_path components
merge_all-lookup_example =
    merge_all-lookup dvdbnd_config plain plain-IsEytzinger 6 ((sample_object, sample_tree) ∷ []) []
      other_object sample_object other_tree (codes "map\\d.txt") 0 13 (omega arith)
      (sample-HasTree, (other-HasTree, tt)) archives-HaveRoom merge_all-sample
      (inr (sample_tree, refl, other-IsFree)) find-other refl

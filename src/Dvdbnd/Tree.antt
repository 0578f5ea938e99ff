-- ===== src/Dvdbnd/Tree.antt =====
-- src/dvdbnd.rs: the walk over directories gives each file below a directory once.
use mathlib.Core.Option
use mathlib.Core.List.{Perm, perm_middle, perm_append_comm}
use mathlib.Core.List.Perm
use fsvfs.Base.{
  ℕ, zero, suc, ◌+◌, ◌<◌, List, [], ◌∷◌, ◌++◌, true, false, some, ◌≡◌, refl, sym, ap, subst, ◌∙◌,
  arith, append_assoc, append-nil,
}
use fsvfs.Base.Results.{Result, ok, err}
use fsvfs.Dvdbnd.Walk.{WalkEntry, read_entries, read_dirs, recursive_read_files}

-- What is below a directory: files, entries that cannot be read or whose type cannot, directories with what is
-- below them, and directories that cannot be read.
pub data Items (E P : Type 0) : Type 0 where
  nil : Items E P
  file : P → Items E P → Items E P
  bad : E → Items E P → Items E P
  untyped : P → E → Items E P → Items E P
  folder : P → Items E P → Items E P → Items E P
  unread : P → E → Items E P → Items E P

-- A directory that is still to be read.
data Pending (E P : Type 0) : Type 0 where
  folder_of : P → Items E P → Pending E P
  unread_of : P → E → Pending E P

module _ {E P : Type 0} where
  abbrev pub entries_of : Items E P → List (WalkEntry E P)
  entries_of nil = []
  entries_of (file path rest) = ok (path, ok false) ∷ entries_of rest
  entries_of (bad e rest) = err e ∷ entries_of rest
  entries_of (untyped path e rest) = ok (path, err e) ∷ entries_of rest
  entries_of (folder path items rest) = ok (path, ok true) ∷ entries_of rest
  entries_of (unread path e rest) = ok (path, ok true) ∷ entries_of rest

  -- All files and errors below, with each directory's in its place.
  abbrev pub all_of : Items E P → List (Result E P)
  all_of nil = []
  all_of (file path rest) = ok path ∷ all_of rest
  all_of (bad e rest) = err e ∷ all_of rest
  all_of (untyped path e rest) = err e ∷ all_of rest
  all_of (folder path items rest) = all_of items ++ all_of rest
  all_of (unread path e rest) = err e ∷ all_of rest

  -- How many directories there are below.
  abbrev pub folders : Items E P → ℕ
  folders nil = 0
  folders (file path rest) = folders rest
  folders (bad e rest) = folders rest
  folders (untyped path e rest) = folders rest
  folders (folder path items rest) = suc (folders items + folders rest)
  folders (unread path e rest) = suc (folders rest)

  -- The system gives for each directory what is in it.
  abbrev pub IsDisk : (P → Result E (List (WalkEntry E P))) → Items E P → Type 0
  IsDisk read_dir nil = Unit {0}
  IsDisk read_dir (file path rest) = IsDisk read_dir rest
  IsDisk read_dir (bad e rest) = IsDisk read_dir rest
  IsDisk read_dir (untyped path e rest) = IsDisk read_dir rest
  IsDisk read_dir (folder path items rest) =
      (read_dir path ≡ ok (entries_of items)) × IsDisk read_dir items × IsDisk read_dir rest
  IsDisk read_dir (unread path e rest) = (read_dir path ≡ err e) × IsDisk read_dir rest

  -- What one directory's entries give, and its directories.
  abbrev shallow : Items E P → List (Result E P)
  shallow nil = []
  shallow (file path rest) = ok path ∷ shallow rest
  shallow (bad e rest) = err e ∷ shallow rest
  shallow (untyped path e rest) = err e ∷ shallow rest
  shallow (folder path items rest) = shallow rest
  shallow (unread path e rest) = shallow rest

  abbrev below : Items E P → List (Pending E P)
  below nil = []
  below (file path rest) = below rest
  below (bad e rest) = below rest
  below (untyped path e rest) = below rest
  below (folder path items rest) = folder_of path items ∷ below rest
  below (unread path e rest) = unread_of path e ∷ below rest

  abbrev paths : List (Pending E P) → List P
  paths [] = []
  paths (folder_of path items ∷ rest) = path ∷ paths rest
  paths (unread_of path e ∷ rest) = path ∷ paths rest

  abbrev pending_all : List (Pending E P) → List (Result E P)
  pending_all [] = []
  pending_all (folder_of path items ∷ rest) = all_of items ++ pending_all rest
  pending_all (unread_of path e ∷ rest) = err e ∷ pending_all rest

  abbrev pending_folders : List (Pending E P) → ℕ
  pending_folders [] = 0
  pending_folders (folder_of path items ∷ rest) = suc (folders items + pending_folders rest)
  pending_folders (unread_of path e ∷ rest) = suc (pending_folders rest)

  -- The system gives for each of them what is in it.
  abbrev ArePending : (P → Result E (List (WalkEntry E P))) → List (Pending E P) → Type 0
  ArePending read_dir [] = Unit {0}
  ArePending read_dir (folder_of path items ∷ rest) =
      (read_dir path ≡ ok (entries_of items)) × IsDisk read_dir items × ArePending read_dir rest
  ArePending read_dir (unread_of path e ∷ rest) = (read_dir path ≡ err e) × ArePending read_dir rest

  paths-append : (q r : List (Pending E P)) → paths (q ++ r) ≡ paths q ++ paths r
  paths-append [] r = refl
  paths-append (folder_of path items ∷ q) r = ap (λ t. path ∷ t) (paths-append q r)
  paths-append (unread_of path e ∷ q) r = ap (λ t. path ∷ t) (paths-append q r)

  pending_all-append :
      (q r : List (Pending E P)) → pending_all (q ++ r) ≡ pending_all q ++ pending_all r
  pending_all-append [] r = refl
  pending_all-append (folder_of path items ∷ q) r =
      ap (λ t. all_of items ++ t) (pending_all-append q r)
      ∙ sym (append_assoc (all_of items) (pending_all q) (pending_all r))
  pending_all-append (unread_of path e ∷ q) r = ap (λ t. err e ∷ t) (pending_all-append q r)

  pending_folders-append :
      (q r : List (Pending E P)) → pending_folders (q ++ r) ≡ pending_folders q + pending_folders r
  pending_folders-append [] r = omega arith
  pending_folders-append (folder_of path items ∷ q) r = omega (arith, pending_folders-append q r)
  pending_folders-append (unread_of path e ∷ q) r = omega (arith, pending_folders-append q r)

  pending_folders-below : (items : Items E P) → pending_folders (below items) ≡ folders items
  pending_folders-below nil = refl
  pending_folders-below (file path rest) = pending_folders-below rest
  pending_folders-below (bad e rest) = pending_folders-below rest
  pending_folders-below (untyped path e rest) = pending_folders-below rest
  pending_folders-below (folder path items rest) = omega (arith, pending_folders-below rest)
  pending_folders-below (unread path e rest) = omega (arith, pending_folders-below rest)

  append-ArePending :
      (read_dir : P → Result E (List (WalkEntry E P))) (q r : List (Pending E P))
      → ArePending read_dir q
      → ArePending read_dir r
      → ArePending read_dir (q ++ r)
  append-ArePending read_dir [] r a b = b
  append-ArePending read_dir (folder_of path items ∷ q) r a b =
      (a.0, a.1, append-ArePending read_dir q r a.2 b)
  append-ArePending read_dir (unread_of path e ∷ q) r a b =
      (a.0, append-ArePending read_dir q r a.1 b)

  below-ArePending :
      (read_dir : P → Result E (List (WalkEntry E P))) (items : Items E P)
      → IsDisk read_dir items
      → ArePending read_dir (below items)
  below-ArePending read_dir nil d = tt
  below-ArePending read_dir (file path rest) d = below-ArePending read_dir rest d
  below-ArePending read_dir (bad e rest) d = below-ArePending read_dir rest d
  below-ArePending read_dir (untyped path e rest) d = below-ArePending read_dir rest d
  below-ArePending read_dir (folder path items rest) d =
      (d.0, d.1, below-ArePending read_dir rest d.2)
  below-ArePending read_dir (unread path e rest) d = (d.0, below-ArePending read_dir rest d.1)

  -- The middle of three parts goes to the front.
  swap_parts : (a b c : List (Result E P)) → Perm (a ++ (b ++ c)) (b ++ (a ++ c))
  swap_parts a [] c = Perm.refl (a ++ c)
  swap_parts a (x ∷ b) c = Perm.trans (perm_middle a (b ++ c)) (Perm.cons x (swap_parts a b c))

  shallow-perm :
      (items : Items E P) → Perm (shallow items ++ pending_all (below items)) (all_of items)
  shallow-perm nil = Perm.nil
  shallow-perm (file path rest) = Perm.cons (ok path) (shallow-perm rest)
  shallow-perm (bad e rest) = Perm.cons (err e) (shallow-perm rest)
  shallow-perm (untyped path e rest) = Perm.cons (err e) (shallow-perm rest)
  shallow-perm (folder path items rest) =
      Perm.trans (swap_parts (shallow rest) (all_of items) (pending_all (below rest)))
        (Perm.append_left (all_of items) (shallow-perm rest))
  shallow-perm (unread path e rest) =
      Perm.trans (perm_middle (shallow rest) (pending_all (below rest)))
        (Perm.cons (err e) (shallow-perm rest))

  replaced :
      (items : Items E P) (rest : List (Result E P))
      → Perm (shallow items ++ (rest ++ pending_all (below items))) (all_of items ++ rest)
  replaced items rest =
      let found = shallow items in
      let left = pending_all (below items) in
      Perm.trans (Perm.append_left found (perm_append_comm rest left)) (
        subst (λ t. Perm t (all_of items ++ rest)) (append_assoc found left rest)
          (Perm.append_right rest (shallow-perm items)))

  read_entries-shallow :
      (items : Items E P) (dirs : List P)
      → read_entries (entries_of items) dirs ≡ (shallow items, dirs ++ paths (below items))
  unfolding read_entries
  read_entries-shallow nil dirs = ap (λ t. ([], t)) (sym (append-nil dirs))
  read_entries-shallow (file path rest) dirs =
      ap (λ o. (ok path ∷ o.0, o.1)) (read_entries-shallow rest dirs)
  read_entries-shallow (bad e rest) dirs =
      ap (λ o. (err e ∷ o.0, o.1)) (read_entries-shallow rest dirs)
  read_entries-shallow (untyped path e rest) dirs =
      ap (λ o. (err e ∷ o.0, o.1)) (read_entries-shallow rest dirs)
  read_entries-shallow (folder path items rest) dirs =
      read_entries-shallow rest (dirs ++ path ∷ [])
      ∙ ap (λ t. (shallow rest, t)) (append_assoc dirs (path ∷ []) (paths (below rest)))
  read_entries-shallow (unread path e rest) dirs =
      read_entries-shallow rest (dirs ++ path ∷ [])
      ∙ ap (λ t. (shallow rest, t)) (append_assoc dirs (path ∷ []) (paths (below rest)))

module _ {E P : Type 0} (read_dir : P → Result E (List (WalkEntry E P))) where
  read_dirs-ok :
      (fuel : ℕ) (path : P) (dirs left : List P) (entries : List (WalkEntry E P))
      (found xs : List (Result E P))
      → read_dir path ≡ ok entries
      → read_entries entries dirs ≡ (found, left)
      → read_dirs read_dir fuel left ≡ some xs
      → read_dirs read_dir (suc fuel) (path ∷ dirs) ≡ some (found ++ xs)
  unfolding read_dirs
  read_dirs-ok fuel path dirs left entries found xs opens reads more =
      rw (read_dirs, opens)
        (ap (λ o. Option.map (λ rest. o.0 ++ rest) (read_dirs read_dir fuel o.1)) reads
          ∙ ap (Option.map (λ rest. found ++ rest)) more)

  read_dirs-err :
      (fuel : ℕ) (path : P) (dirs : List P) (e : E) (xs : List (Result E P))
      → read_dir path ≡ err e
      → read_dirs read_dir fuel dirs ≡ some xs
      → read_dirs read_dir (suc fuel) (path ∷ dirs) ≡ some (err e ∷ xs)
  unfolding read_dirs
  read_dirs-err fuel path dirs e xs fails more = rw (read_dirs, fails, more) refl

  -- With more fuel than there are directories, everything below the pending ones is given.
  read_dirs-perm :
      (fuel : ℕ) (q : List (Pending E P))
      → ArePending read_dir q
      → pending_folders q < fuel
      → (xs : List (Result E P)) × (read_dirs read_dir fuel (paths q) ≡ some xs)
        × Perm xs (pending_all q)
  unfolding read_dirs
  read_dirs-perm zero q d enough = absurd (omega arith)
  read_dirs-perm (suc fuel) [] d enough = ([], refl, Perm.nil)
  read_dirs-perm (suc fuel) (folder_of path items ∷ rest) d enough =
      let next = rest ++ below items in
      let size = pending_folders-append rest (below items) in
      let (xs, gives, same) =
        read_dirs-perm fuel next
          (append-ArePending read_dir rest (below items) d.2 (below-ArePending read_dir items d.1))
          (omega (arith, size, pending_folders-below items)) in
      (
        shallow items ++ xs,
        read_dirs-ok fuel path (paths rest) (paths next) (entries_of items) (shallow items) xs d.0
            (read_entries-shallow items (paths rest)
              ∙ ap (λ t. (shallow items, t)) (sym (paths-append rest (below items))))
            gives,
        Perm.trans (Perm.append_left (shallow items) same)
            (rw (pending_all-append rest (below items)) (replaced items (pending_all rest))),
      )
  read_dirs-perm (suc fuel) (unread_of path e ∷ rest) d enough =
      let (xs, gives, same) = read_dirs-perm fuel rest d.1 (omega arith) in
      (err e ∷ xs, read_dirs-err fuel path (paths rest) e xs d.0 gives, Perm.cons (err e) same)

  -- For a directory that can be read, with directories below it that can be read or not, and finitely many: the walk
  -- comes to an end after it has read each of these, and gives each file below the directory and each error that is met
  -- exactly as often as they are there.
  pub recursive_read_files-perm :
      (dir : P) (items : Items E P)
      → read_dir dir ≡ ok (entries_of items)
      → IsDisk read_dir items
      → (xs : List (Result E P)) × (recursive_read_files read_dir (suc (folders items)) dir
          ≡ ok (some xs))
        × Perm xs (all_of items)
  unfolding recursive_read_files
  recursive_read_files-perm dir items opens disk =
      let (xs, gives, same) =
        read_dirs-perm (suc (folders items)) (below items) (below-ArePending read_dir items disk)
          (omega (arith, pending_folders-below items)) in
      (
        shallow items ++ xs,
        rw (opens, read_entries-shallow items [], gives) refl,
        Perm.trans (Perm.append_left (shallow items) same) (shallow-perm items),
      )

-- ===== src/Mount/Projfs/Lifetime.antt =====
-- src/dvdbnd/mount/projfs.rs: when an enumeration is open, and what a call leaves alone.
use fsvfs.Base.{
  ℕ, ◌≤◌, ◌==◌, List, [], Bool, Bool-cases, Option-cases, true, false, inl, inr, Option, none, some,
  ◌≡◌, refl, sym, ap, ◌∙◌, arith, All, subst, ◌∷◌, if◌then◌else◌, length,
}
use fsvfs.Base.Results.{Result, ok, err}
use fsvfs.Rofs.Path.{Name, Config}
use fsvfs.Rofs.Node.{Eytzinger, Rofs}
use fsvfs.Rofs.Lookup.{Entry}
use fsvfs.Encryption.{ℤ}
use fsvfs.Mount.Read.{DvdbndFile}
use fsvfs.Mount.Projfs.{DirEnumeration, Shown, from_dir_iter, set_pos, reset}
use fsvfs.Mount.Projfs.Table.{get, insert, remove, get-insert, get-remove}
use fsvfs.Mount.Projfs.Callbacks.{
  Hresult, s_ok, Enumerations, code_of, filled, fill_from, start_at, get_directory_enumeration,
}

-- What the mount can be asked of an enumeration, in the order in which it is asked.
pub data Request : Type 0 where
  start : Result Hresult Name → ℕ → Request
  finish : ℕ → Request
  next : ℕ → Bool → Option (List ℕ) → Request

abbrev pub is_some : Option DirEnumeration → Bool
is_some none = false
is_some (some dir) = true

-- Whether an enumeration is open.
abbrev pub is_open : ℕ → Enumerations → Bool
is_open at table = is_some (get at table)

abbrev pub is_ok : Hresult → Bool
is_ok s_ok = true
is_ok _ = false

-- Which enumerations should be open behind a request that was answered with a code.
abbrev pub opens : Request → Hresult → ℕ → Bool → Bool
opens (start path id) code at was = if is_ok code then (if id == at then true else was) else was
opens (finish id) code at was = if id == at then false else was
opens (next id restart expression) code at was = was

is_open-insert :
    (id at : ℕ) (dir : DirEnumeration) (table : Enumerations)
    → is_open at (insert id dir table) ≡ (if id == at then true else is_open at table)
is_open-insert id at dir table = ground (arith, get-insert id at dir table)

is_open-insert_again :
    (id at : ℕ) (dir old : DirEnumeration) (table : Enumerations)
    → get id table ≡ some old
    → is_open at (insert id dir table) ≡ is_open at table
is_open-insert_again id at dir old table h = ground (arith, get-insert id at dir table)

module _ (name_compare : List ℕ → List ℕ → ℤ) (c : Config) (e : Eytzinger)
    (fs : Rofs DvdbndFile) where
  pub start_at-opens :
      (path : Name) (id at : ℕ) (s : Enumerations)
      → is_open at (start_at c e fs name_compare id path s).1
        ≡ opens
            (start (ok path) id)
            (code_of (start_at c e fs name_compare id path s).0)
            at
            (is_open at s)
  unfolding start_at
  start_at-opens path id at s = grind (arith, is_open-insert)

-- Positions stay within their index.
abbrev pub IsWithin : DirEnumeration → Type 0
IsWithin dir = dir.pos ≤ length dir.index

abbrev pub AllWithin : Enumerations → Type 0
AllWithin = All (λ entry. IsWithin entry.1)

insert-AllWithin :
    (id : ℕ) (dir : DirEnumeration) (s : Enumerations)
    → IsWithin dir
    → AllWithin s
    → AllWithin (insert id dir s)
unfolding insert
insert-AllWithin id dir [] w all = (w, tt)
insert-AllWithin id dir ((other, old) ∷ rest) w all = elim (Bool-cases (other == id)) [
  | inl same ↦ rw same (w, all.1)
  | inr differs ↦ rw differs (all.0, insert-AllWithin id dir rest w all.1)
]

remove-AllWithin : (id : ℕ) (s : Enumerations) → AllWithin s → AllWithin (remove id s)
unfolding remove
remove-AllWithin id [] all = tt
remove-AllWithin id ((other, old) ∷ rest) all = elim (Bool-cases (other == id)) [
  | inl same ↦ rw same (remove-AllWithin id rest all.1)
  | inr differs ↦ rw differs (all.0, remove-AllWithin id rest all.1)
]

get-IsWithin :
    (id : ℕ) (dir : DirEnumeration) (s : Enumerations)
    → AllWithin s
    → get id s ≡ some dir
    → IsWithin dir
unfolding get
get-IsWithin id dir [] all h = absurd (cc)
get-IsWithin id dir ((other, old) ∷ rest) all h = elim (Bool-cases (other == id)) [
  | inl same ↦
      let here : ◌≡◌ {A = Option DirEnumeration} (some old) (some dir) =
        sym (ap (λ b. if b then some old else get id rest) same) ∙ h in
      subst IsWithin (some_inj old dir here) all.0
  | inr differs ↦
      get-IsWithin id dir rest all.1
        (sym (ap (λ b. if b then some old else get id rest) differs) ∙ h)
]
  where
    some_inj : (a b : DirEnumeration) → ◌≡◌ {A = Option DirEnumeration} (some a) (some b) → a ≡ b
    some_inj a b same = cc

-- A part of the callbacks that changes the enumeration of one id at most, and keeps positions within.
abbrev pub Keeps : ℕ → Enumerations → Enumerations → Type 0
Keeps id s after = AllWithin after × ((at : ℕ) → (id == at) ≡ false → get at after ≡ get at s)

insert-Keeps :
    (id : ℕ) (dir : DirEnumeration) (s : Enumerations)
    → IsWithin dir
    → AllWithin s
    → Keeps id s (insert id dir s)
insert-Keeps id dir s w all =
    (insert-AllWithin id dir s w all, λ at h. get-insert id at dir s ∙ rw h refl)

pub remove-Keeps : (id : ℕ) (s : Enumerations) → AllWithin s → Keeps id s (remove id s)
remove-Keeps id s all = (remove-AllWithin id s all, λ at h. get-remove id at s ∙ rw h refl)

module _ (fill : List Shown → Shown → Option Hresult) (name_match : List ℕ → List ℕ → Bool) where
  filled-Keeps :
      (id : ℕ) (dir : DirEnumeration) (s : Enumerations) (r : Result Hresult ℕ) (added : List Shown)
      → IsWithin dir
      → AllWithin s
      → Keeps id s (filled id dir s (r, added)).1.0
  unfolding set_pos
  filled-Keeps id dir s (ok end) added w all = insert-Keeps id (set_pos end dir) s (omega arith) all
  filled-Keeps id dir s (err code) added w all = insert-Keeps id dir s w all

  abbrev begun : Bool → DirEnumeration → DirEnumeration
  begun restart dir = if restart then reset dir else dir

  begun-IsWithin :
      (id : ℕ) (restart : Bool) (dir : DirEnumeration) (s : Enumerations)
      → AllWithin s
      → get id s ≡ some dir
      → IsWithin (begun restart dir)
  unfolding reset
  begun-IsWithin id true dir s all here = omega arith
  begun-IsWithin id false dir s all here = get-IsWithin id dir s all here

  pub get_directory_enumeration-Keeps :
      (id : ℕ) (restart : Bool) (expression : Option (List ℕ)) (s : Enumerations)
      → AllWithin s
      → Keeps id s (get_directory_enumeration fill name_match true id restart expression s).1.0
  unfolding get_directory_enumeration fill_from
  get_directory_enumeration-Keeps id restart expression s all = elim (Option-cases (get id s)) [
    | inl missing ↦ rw missing (all, λ at h. refl)
    | inr (dir, here) ↦
        rw here
          (filled-Keeps id (begun restart dir) s _ _ (begun-IsWithin id restart dir s all here) all)
  ]

  filled-opens :
      (id at : ℕ) (dir old : DirEnumeration) (s : Enumerations) (r : Result Hresult ℕ)
      (added : List Shown)
      → get id s ≡ some old
      → is_open at (filled id dir s (r, added)).1.0 ≡ is_open at s
  filled-opens id at dir old s (ok end) added here =
      is_open-insert_again id at (set_pos end dir) old s here
  filled-opens id at dir old s (err code) added here = is_open-insert_again id at dir old s here

  pub get_directory_enumeration-opens :
      (id at : ℕ) (restart : Bool) (expression : Option (List ℕ)) (s : Enumerations)
      → is_open at (get_directory_enumeration fill name_match true id restart expression s).1.0
        ≡ is_open at s
  unfolding get_directory_enumeration fill_from
  get_directory_enumeration-opens id at restart expression s = elim (Option-cases (get id s)) [
    | inl missing ↦ rw missing refl
    | inr (dir, here) ↦ rw here (filled-opens id at (begun restart dir) dir s _ _ here)
  ]

module _ (name_compare : List ℕ → List ℕ → ℤ) (c : Config) (e : Eytzinger)
    (fs : Rofs DvdbndFile) where
  from_dir_iter-IsWithin : (es : List (Entry DvdbndFile)) → IsWithin (from_dir_iter name_compare es)
  unfolding from_dir_iter
  from_dir_iter-IsWithin es = omega arith

  pub start_at-Keeps :
      (path : Name) (id : ℕ) (s : Enumerations)
      → AllWithin s
      → Keeps id s (start_at c e fs name_compare id path s).1
  unfolding start_at
  start_at-Keeps path id s all =
      let same : Keeps id s s = (all, λ at h. refl) in
      grind (arith, insert-Keeps, from_dir_iter-IsWithin)

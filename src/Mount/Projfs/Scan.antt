-- ===== src/Mount/Projfs/Scan.antt =====
-- src/dvdbnd/mount/projfs.rs: a directory that is enumerated call by call is enumerated whole.
use mathlib.Core.Option
use mathlib.Core.List.{Perm}
use fsvfs.Base.{
  ℕ, zero, suc, ◌+◌, ◌≤◌, ◌<◌, List, [], ◌∷◌, ◌++◌, map, Bool, true, false, Option, none, some, ◌≡◌,
  refl, sym, ap, ◌∙◌, inl, inr, arith, length, length-map, drop, All, min, if◌then◌else◌,
}
use fsvfs.Base.Results.{ok}
use fsvfs.Base.Sorting.{sort_by, sort_by-perm, sort_by-IsSorted, IsSorted, length-sort_by}
use fsvfs.Rofs.Path.{Name, Config}
use fsvfs.Rofs.Node.{Eytzinger, Rofs}
use fsvfs.Rofs.Lookup.{Entry, EntryKind, dir_entries, lookup, entry, iterate}
use fsvfs.Rofs.Lookup
use fsvfs.Encryption.{ℤ}
use fsvfs.Mount.Read.{DvdbndFile}
use fsvfs.Mount.Fuser.{done}
use fsvfs.Mount.Projfs.{
  encode_utf16, not_greater, from_dir_iter, DirEnumeration, Shown, enumerate, set_pos, reset,
}
use fsvfs.Mount.Projfs.Table.{get, insert, get-insert_self}
use fsvfs.Mount.Projfs.Callbacks.{
  Hresult, s_ok, start_at, start_directory_enumeration, Enumerations, code_of, filled, fill_entries,
  fill_from, get_directory_enumeration,
}
use fsvfs.Mount.Projfs.Index.{shown_at, IsWide, shown_entry, shown_le, from_dir_iter-shown}
use fsvfs.Mount.Projfs.Pages.{passing, IsBuffer, left_from, fill_first}

-- What a page says to the system: nothing more, or entries and the call for more.
abbrev pub continue_with :
    (Enumerations → Option (List Shown))
    → Hresult × (Enumerations × List Shown)
    → Option (List Shown)
continue_with more (s_ok, (table, [])) = some []
continue_with more (s_ok, (table, x ∷ xs)) = Option.map (λ rest. x ∷ (xs ++ rest)) (more table)
continue_with more (_, r) = none

module _ (fill : List Shown → Shown → Option Hresult) (name_match : List ℕ → List ℕ → Bool) (id : ℕ)
    (expression : Option (List ℕ)) where
  -- What the system does to enumerate a directory: it calls, to restart at first, until a call adds nothing.
  unfoldable pub scan : ℕ → Bool → Enumerations → Option (List Shown)
  unfolding get_directory_enumeration
  scan zero restart table = none
  scan (suc fuel) restart table =
      let more = scan fuel false in
      continue_with more
        (get_directory_enumeration fill name_match true id restart expression table)

  abbrev rest_of : DirEnumeration → List Shown
  rest_of dir = left_from name_match expression dir.store dir.index dir.pos

  abbrev started : Bool → DirEnumeration → DirEnumeration
  started restart dir = if restart then reset dir else dir

  get_directory_enumeration-at :
      (restart : Bool) (table : Enumerations) (dir : DirEnumeration)
      → get id table ≡ some dir
      → get_directory_enumeration fill name_match true id restart expression table ≡ (
          let (r, after) = fill_from fill name_match expression id (started restart dir) table in
          (code_of r, after))
  unfolding get_directory_enumeration
  get_directory_enumeration-at restart table dir here = rw here refl

  fill_from-page :
      (table : Enumerations) (dir : DirEnumeration) (end : ℕ) (page : List Shown)
      → fill_entries fill dir.pos dir.pos [] (enumerate name_match dir expression) ≡ (ok end, page)
      → fill_from fill name_match expression id dir table
        ≡ (some (ok done), (insert id (set_pos end dir) table, page))
  unfolding fill_from
  fill_from-page table dir end page runs = ap (filled id dir table) runs

  module _ (buffer : IsBuffer fill) where
    -- A page for a directory at its position, and what is called next.
    scan-step :
        (fuel : ℕ) (restart : Bool) (table : Enumerations) (dir d : DirEnumeration)
        → get id table ≡ some dir
        → started restart dir ≡ d
        → ((last : ℕ)
            → d.pos < last
            → last ≤ length d.index
            → scan fuel false (insert id (set_pos last d) table)
              ≡ some (left_from name_match expression d.store d.index last))
        → scan (suc fuel) restart table ≡ some (rest_of d)
    unfolding scan enumerate
    scan-step fuel restart table dir d here start behind =
        let at =
          get_directory_enumeration-at restart table dir here
          ∙ ap
              (λ t.
                let (r, after) = fill_from fill name_match expression id t table in
                (code_of r, after))
              start in
        let page_by =
          λ (last : ℕ) (page : List Shown)
              (runs : fill_entries fill d.pos d.pos [] (enumerate name_match d expression)
                ≡ (ok last, page)).
            ap (continue_with (scan fuel false))
              (at ∙ ap (λ o. (code_of o.0, o.1)) (fill_from-page table d last page runs)) in
        elim (fill_first fill name_match expression d.store d.index d.pos buffer d.pos
          (drop d.pos d.index) (omega arith) refl refl) [
            | inl (nothing, runs) ↦ page_by d.pos [] runs ∙ ap (λ t. some t) (sym nothing)
            | inr (last, x, page, runs, up, pages) ↦
                page_by last (x ∷ page) runs
                ∙ ap (Option.map (λ rest. x ∷ (page ++ rest))) (behind last up pages.inside)
                ∙ ap (λ t. some t) pages.splits
          ]

    scan-rest :
        (fuel : ℕ) (restart : Bool) (table : Enumerations) (dir d : DirEnumeration)
        → get id table ≡ some dir
        → started restart dir ≡ d
        → length d.index < fuel + d.pos
        → d.pos ≤ length d.index
        → scan fuel restart table ≡ some (rest_of d)
    unfolding set_pos
    scan-rest zero restart table dir d here start enough low = absurd (omega arith)
    scan-rest (suc fuel) restart table dir d here start enough low =
        scan-step fuel restart table dir d here start λ last up inside.
          let next = set_pos last d in
          let same : min last (length d.index) ≡ last = omega arith in
          scan-rest fuel false (insert id next table) next next (get-insert_self id next table) refl
            (omega arith) (omega arith)
          ∙ ap (λ t. some (left_from name_match expression d.store d.index t)) same

    -- Whatever position an open directory is at, a scan that restarts shows all of its index.
    pub scan-index :
        (table : Enumerations) (dir : DirEnumeration)
        → get id table ≡ some dir
        → scan (suc (length dir.index)) true table
          ≡ some (passing name_match expression (map (shown_at dir.store) dir.index))
    unfolding reset
    scan-index table dir here =
        scan-rest (suc (length dir.index)) true table dir (reset dir) here refl (omega arith)
          (omega arith)

module _ (name_compare : List ℕ → List ℕ → ℤ) (c : Config) (e : Eytzinger) (fs : Rofs DvdbndFile)
    (id : ℕ) (path : Name) (inode : ℕ) (x : Entry DvdbndFile) (start stop : ℕ)
    (es : List (Entry DvdbndFile)) (table : Enumerations)
    (leads : lookup c e fs path ≡ Lookup.ok inode) (found : entry c fs inode ≡ some (Lookup.ok x))
    (is_dir : x.kind ≡ dir_entries start stop) (lists : iterate c fs x.kind ≡ some es) where
  abbrev opened : Enumerations
  opened = insert id (from_dir_iter name_compare es) table

  start_directory_enumeration-opened :
      start_directory_enumeration c e fs name_compare true (ok path) id table ≡ (s_ok, opened)
  unfolding start_directory_enumeration
  start_directory_enumeration-opened = rw (start_at, leads, found, is_dir, lists) refl

  module _ (fill : List Shown → Shown → Option Hresult) (buffer : IsBuffer fill)
      (name_match : List ℕ → List ℕ → Bool) (expression : Option (List ℕ))
      (wide : All (λ x. IsWide (encode_utf16 x.name)) es)
      (total : (a b : List ℕ)
        → not_greater (name_compare a b) ≡ false
        → not_greater (name_compare b a) ≡ true) where
    -- If a path leads to a directory whose entries have names without a zero, the comparison of names is total, and
    -- the system's buffer takes at least one entry and refuses one only for want of room: the callback that starts
    -- an enumeration succeeds, and a system that then calls for entries, to restart at first, until a call adds none,
    -- has after at most one call for each entry and one more the names and infos of exactly the entries that the
    -- expression lets through, each once and sorted by the comparison.
    pub scan-start :
        let (code, after) =
          start_directory_enumeration c e fs name_compare true (ok path) id table in
        (code ≡ s_ok)
        × ((xs : List Shown) × (scan fill name_match id expression (suc (length es)) true after
              ≡ some (passing name_match expression xs))
            × Perm xs (map shown_entry es)
            × IsSorted (shown_le name_compare) xs)
    unfolding from_dir_iter
    scan-start =
        let le = shown_le name_compare in
        let shown = map shown_entry es in
        let dir = from_dir_iter name_compare es in
        let same = from_dir_iter-shown name_compare es wide in
        let size : length dir.index ≡ length es =
          sym (length-map (shown_at dir.store) dir.index)
          ∙ ap length same
          ∙ length-sort_by le shown
          ∙ length-map shown_entry es in
        rw start_directory_enumeration-opened (
          refl,
          (
            sort_by le shown,
            ap (λ t. scan fill name_match id expression (suc t) true opened) (sym size)
                ∙ scan-index fill name_match id expression buffer opened dir
                    (get-insert_self id dir table)
                ∙ ap (λ t. some (passing name_match expression t)) same,
            sort_by-perm le shown,
            sort_by-IsSorted le (λ a b. total a.0 b.0) shown,
          ),
        )

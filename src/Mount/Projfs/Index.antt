-- ===== src/Mount/Projfs/Index.antt =====
-- src/dvdbnd/mount/projfs.rs: what the index and the store of an open directory hold.
use fsvfs.Base.{
  ℕ, ◌+◌, List, [], ◌∷◌, ◌++◌, map, Bool, ◌≡◌, refl, sym, ap, ap₂, ◌∙◌, ◌==◌, false, arith, All,
  length, length-append, drop, drop-length-append, append_assoc, append-nil,
}
use fsvfs.Base.Sorting.{sort_by, map-sort_by}
use fsvfs.Rofs.Lookup.{Entry}
use fsvfs.Encryption.{ℤ}
use fsvfs.Mount.Read.{DvdbndFile}
use fsvfs.Mount.Projfs.{
  BasicInfo, file_basic_info, encode_utf16, until_zero, wide_at, Shown, add_entries, from_dir_iter,
  index_le, not_greater,
}

-- A text without a zero in it, of which the system sees all.
abbrev pub IsWide : List ℕ → Type 0
IsWide = All (λ u. (u == 0) ≡ false)

-- An entry as it should be shown.
abbrev pub shown_entry : Entry DvdbndFile → Shown
shown_entry x = (encode_utf16 x.name, file_basic_info x)

until_zero-append : (us rest : List ℕ) → IsWide us → until_zero (us ++ (0 ∷ rest)) ≡ us
unfolding until_zero
until_zero-append [] rest wide = refl
until_zero-append (u ∷ us) rest wide =
    rw wide.0 (ap (λ t. u ∷ t) (until_zero-append us rest wide.1))

-- What is shown of an index under a store.
abbrev pub shown_at : List ℕ → ℕ × BasicInfo → Shown
shown_at store (at, info) = (wide_at store at, info)

-- The index and the store, without the accumulators.
abbrev indexed : ℕ → List (Entry DvdbndFile) → List (ℕ × BasicInfo)
indexed at [] = []
indexed at (x ∷ xs) = (at, file_basic_info x) ∷ indexed (at + (length (encode_utf16 x.name) + 1)) xs

abbrev stored : List (Entry DvdbndFile) → List ℕ
stored [] = []
stored (x ∷ xs) = encode_utf16 x.name ++ (0 ∷ stored xs)

add_entries-indexed :
    (index : List (ℕ × BasicInfo)) (store : List ℕ) (xs : List (Entry DvdbndFile))
    → add_entries index store xs ≡ (index ++ indexed (length store) xs, store ++ stored xs)
unfolding add_entries
add_entries-indexed index store [] = rw (append-nil index, append-nil store) refl
add_entries-indexed index store (x ∷ xs) =
    let w = encode_utf16 x.name in
    let item : ℕ × BasicInfo = (length store, file_basic_info x) in
    let size : length (store ++ (w ++ 0 ∷ [])) ≡ length store + (length w + 1) =
      omega (arith, length-append store (w ++ 0 ∷ []), length-append w (0 ∷ [])) in
    add_entries-indexed (index ++ item ∷ []) (store ++ (w ++ 0 ∷ [])) xs
    ∙ ap₂ (λ a b. (a, b))
        (append_assoc index (item ∷ []) (indexed (length (store ++ (w ++ 0 ∷ []))) xs)
          ∙ ap (λ t. index ++ (item ∷ indexed t xs)) size)
        (append_assoc store (w ++ 0 ∷ []) (stored xs)
          ∙ ap (λ t. store ++ t) (append_assoc w (0 ∷ []) (stored xs)))

shown_at-indexed :
    (pre : List ℕ) (at : ℕ) (xs : List (Entry DvdbndFile))
    → at ≡ length pre
    → All (λ x. IsWide (encode_utf16 x.name)) xs
    → map (shown_at (pre ++ stored xs)) (indexed at xs) ≡ map shown_entry xs
unfolding wide_at
shown_at-indexed pre at [] e wide = refl
shown_at-indexed pre at (x ∷ xs) e wide =
    let w = encode_utf16 x.name in
    let here : drop at (pre ++ stored (x ∷ xs)) ≡ w ++ (0 ∷ stored xs) =
      drop-length-append pre (stored (x ∷ xs)) at e in
    let whole : (pre ++ (w ++ 0 ∷ [])) ++ stored xs ≡ pre ++ stored (x ∷ xs) =
      append_assoc pre (w ++ 0 ∷ []) (stored xs)
      ∙ ap (λ t. pre ++ t) (append_assoc w (0 ∷ []) (stored xs)) in
    let size : at + (length w + 1) ≡ length (pre ++ (w ++ 0 ∷ [])) =
      omega (arith, e, length-append pre (w ++ 0 ∷ []), length-append w (0 ∷ [])) in
    ap₂ (λ (s : Shown) (rest : List Shown). s ∷ rest)
      (ap (λ t. (t, file_basic_info x))
        (ap until_zero here ∙ until_zero-append w (stored xs) wide.0))
      (ap (λ t. map (shown_at t) (indexed (at + (length w + 1)) xs)) (sym whole)
        ∙ shown_at-indexed (pre ++ (w ++ 0 ∷ [])) (at + (length w + 1)) xs size wide.1)

module _ (name_compare : List ℕ → List ℕ → ℤ) where
  abbrev pub shown_le : Shown → Shown → Bool
  shown_le (a, _) (b, _) = not_greater (name_compare a b)

  -- The index of a new enumeration shows the entries of the directory, sorted by their names.
  pub from_dir_iter-shown :
      (entries : List (Entry DvdbndFile))
      → All (λ x. IsWide (encode_utf16 x.name)) entries
      → let dir = from_dir_iter name_compare entries in
        map (shown_at dir.store) dir.index ≡ sort_by shown_le (map shown_entry entries)
  unfolding from_dir_iter
  from_dir_iter-shown entries wide = rw (add_entries-indexed [] [] entries) (
      map-sort_by (index_le name_compare (stored entries)) shown_le (shown_at (stored entries))
        (λ a b. refl) (indexed 0 entries)
      ∙ ap (sort_by shown_le) (shown_at-indexed [] 0 entries refl wide))

-- ===== src/Mount/Listing.antt =====
-- A directory that is listed page by page is listed whole.
use mathlib.Core.Option
use fsvfs.Base.{
  ℕ, zero, suc, ◌+◌, ◌≤◌, ◌<◌, List, [], ◌∷◌, ◌++◌, map, Bool, false, Bool-cases, Option, none,
  some, ◌≡◌, refl, sym, ap, ◌∙◌, inl, inr, arith, take, drop, length, length-drop, length-map,
  ◌>>=◌,
}
use fsvfs.Base.Results.{ok, err}
use fsvfs.Rofs.Path.{Config}
use fsvfs.Rofs.Node.{Rofs}
use fsvfs.Rofs.Lookup.{Entry}
use fsvfs.Aligned.Streams.{drop-drop}
use fsvfs.Mount.Read.{DvdbndFile}
use fsvfs.Mount.Fuser.{fill, numbered, DirEntry, dir_entry}
use fsvfs.Mount.Handlers.{listing, readdir}

-- The offset behind the last entry of a page.
abbrev pub last_next : ℕ → List DirEntry → ℕ
last_next offset [] = offset
last_next offset (x ∷ xs) = last_next x.next xs

module _ (c : Config) (fs : Rofs DvdbndFile) (is_full : List DirEntry → DirEntry → Bool)
    (ino : ℕ) where
  -- What a client does with `readdir`: it asks for the next page until there is an empty one.
  unfoldable pub list_from : ℕ → ℕ → Option (List DirEntry)
  unfolding readdir
  list_from zero offset = none
  list_from (suc fuel) offset =
      let more = list_from fuel in
      readdir c fs is_full ino offset >>= λ r. elim r [
        | err _ ↦ none
        | ok [] ↦ some []
        | ok (x ∷ xs) ↦ Option.map (λ rest. x ∷ (xs ++ rest)) (more (last_next offset (x ∷ xs)))
      ]

module _ {B : Type 0} (is_full : List B → B → Bool) where
  -- A page is a first part.
  fill-take : (added xs : List B) → (n : ℕ) × (fill is_full added xs ≡ take n xs) × (n ≤ length xs)
  unfolding fill
  fill-take added [] = (0, refl, omega arith)
  fill-take added (x ∷ xs) =
      let (n, same, fits) = fill-take (added ++ x ∷ []) xs in
      elim (Bool-cases (is_full added x)) [
        | inl full ↦ (0, rw (fill, full) refl, omega arith)
        | inr room ↦ (suc n, rw (fill, room, same) refl, omega arith)
      ]

numbered-append :
    (k n j : ℕ) (es : List (Entry DvdbndFile))
    → k + n ≡ j
    → n ≤ length es
    → take n (map dir_entry (numbered (suc k) es)) ++ map dir_entry (numbered (suc j) (drop n es))
      ≡ map dir_entry (numbered (suc k) es)
unfolding numbered
numbered-append k zero j es h fits =
    ap (λ t. map dir_entry (numbered (suc t) es)) (omega (arith, h))
numbered-append k (suc n) j [] h fits = absurd (omega arith)
numbered-append k (suc n) j (x ∷ es) h fits =
    ap (λ t. dir_entry (x, suc k) ∷ t)
      (numbered-append (suc k) n j es (omega (arith, h)) (omega arith))

last_next-numbered :
    (k n : ℕ) (es : List (Entry DvdbndFile))
    → n ≤ length es
    → last_next k (take n (map dir_entry (numbered (suc k) es))) ≡ k + n
unfolding numbered
last_next-numbered k zero es fits = omega arith
last_next-numbered k (suc n) [] fits = absurd (omega arith)
last_next-numbered k (suc n) (x ∷ es) fits =
    omega (arith, last_next-numbered (suc k) n es (omega arith))

length-numbered : {B : Type 0} (m : ℕ) (es : List B) → length (numbered m es) ≡ length es
unfolding numbered
length-numbered m [] = refl
length-numbered m (x ∷ es) = ap suc (length-numbered (suc m) es)

drop-numbered :
    {B : Type 0} (k m j : ℕ) (es : List B)
    → m + k ≡ j
    → drop k (numbered m es) ≡ numbered j (drop k es)
unfolding numbered
drop-numbered zero m j es h = ap (λ t. numbered t es) (omega (arith, h))
drop-numbered (suc k) m j [] h = refl
drop-numbered (suc k) m j (x ∷ es) h = drop-numbered k (suc m) j es (omega (arith, h))

module _ (c : Config) (fs : Rofs DvdbndFile) (is_full : List DirEntry → DirEntry → Bool) (ino : ℕ)
    (es : List (Entry DvdbndFile)) (lists : listing c fs ino ≡ some (ok (numbered 1 es)))
    (has_room : (x : DirEntry) → is_full [] x ≡ false) where
  abbrev rest_from : ℕ → List (Entry DvdbndFile) → List DirEntry
  rest_from k xs = map dir_entry (numbered (suc k) xs)

  readdir-page :
      (k : ℕ) → readdir c fs is_full ino k ≡ some (ok (fill is_full [] (rest_from k (drop k es))))
  unfolding readdir
  readdir-page k = rw (readdir, lists, drop-numbered k 1 (suc k) es (omega arith)) refl

  -- A page is never empty where entries are left.
  readdir-some :
      (k : ℕ) (x : Entry DvdbndFile) (xs : List (Entry DvdbndFile))
      → drop k es ≡ x ∷ xs
      → (n : ℕ) × (n ≤ length xs)
        × (readdir c fs is_full ino k
            ≡ some (ok (dir_entry (x, suc k) ∷ take n (rest_from (suc k) xs))))
  unfolding fill numbered
  readdir-some k x xs at =
      let y = dir_entry (x, suc k) in
      let (n, first, fits) = fill-take is_full (y ∷ []) (rest_from (suc k) xs) in
      let size = length-map dir_entry (numbered (suc (suc k)) xs) in
      (
        n,
        omega (arith, fits, size, length-numbered (suc (suc k)) xs),
        readdir-page k ∙ rw (at, fill, has_room y, first) refl,
      )

  length-rest :
      (k : ℕ) (x : Entry DvdbndFile) (xs : List (Entry DvdbndFile))
      → drop k es ≡ x ∷ xs
      → length es ≡ k + suc (length xs)
  length-rest k x xs at = omega (arith, length-drop k es, ap length at)

  -- The rest of a listing, if less of it is listed with less fuel.
  list_from-step :
      (fuel k : ℕ) (xs : List (Entry DvdbndFile))
      → drop k es ≡ xs
      → k ≤ length es
      → length es < suc fuel + k
      → ((j : ℕ)
          → j ≤ length es
          → length es < fuel + j
          → list_from c fs is_full ino fuel j ≡ some (rest_from j (drop j es)))
      → list_from c fs is_full ino (suc fuel) k ≡ some (rest_from k xs)
  unfolding list_from numbered fill
  list_from-step fuel k [] at low enough behind = rw (list_from, readdir-page k, at) refl
  list_from-step fuel k (x ∷ xs) at low enough behind =
      let (n, fits, shown) = readdir-some k x xs at in
      let size = length-rest k x xs at in
      let next : last_next (suc k) (take n (rest_from (suc k) xs)) ≡ k + suc n =
        last_next-numbered (suc k) n xs fits ∙ omega arith in
      let more = behind (k + suc n) (omega (arith, size, fits)) (omega (arith, enough)) in
      let left : drop (k + suc n) es ≡ drop n xs =
        sym (drop-drop k (suc n) (k + suc n) es refl) ∙ ap (drop (suc n)) at in
      rw (list_from, shown, next, more, left)
        (ap (λ t. some (dir_entry (x, suc k) ∷ t))
          (numbered-append (suc k) n (k + suc n) xs (omega arith) fits))

  list_from-rest :
      (fuel k : ℕ)
      → k ≤ length es
      → length es < fuel + k
      → list_from c fs is_full ino fuel k ≡ some (rest_from k (drop k es))
  list_from-rest zero k low enough = absurd (omega arith)
  list_from-rest (suc fuel) k low enough =
      list_from-step fuel k (drop k es) refl low enough (list_from-rest fuel)

  -- If a directory has a listing, and a reply takes at least one entry: a client that asks for page after page, each
  -- from the offset that the last entry of the page before gives, comes to an end, after at most one page for each
  -- entry and one more, and has all entries, each once and in order.
  pub list_from-listing :
      list_from c fs is_full ino (suc (length es)) 0 ≡ some (map dir_entry (numbered 1 es))
  list_from-listing = list_from-rest (suc (length es)) 0 (omega arith) (omega arith)

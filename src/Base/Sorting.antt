-- ===== src/Base/Sorting.antt =====
-- Sorting by a comparison, as `sort_by` does. The comparison is whether the first may stand before the second.
use mathlib.Core.List.{Perm}
use mathlib.Core.List.Perm
use fsvfs.Base.{
  suc, length, All, ◌∙◌, List, [], ◌∷◌, map, Bool, true, false, Bool-cases, inl, inr, if◌then◌else◌,
  ◌≡◌, refl, ap,
}

module _ {ℓ} {A : Type ℓ} (le : A → A → Bool) where
  unfoldable pub insert_ordered : A → List A → List A
  insert_ordered x [] = x ∷ []
  insert_ordered x (y ∷ ys) = if le x y then x ∷ y ∷ ys else y ∷ insert_ordered x ys

  unfoldable pub sort_by : List A → List A
  unfolding insert_ordered
  sort_by [] = []
  sort_by (x ∷ xs) = insert_ordered x (sort_by xs)

  -- No element stands behind one that it may not follow.
  abbrev pub IsSortedFrom : A → List A → Type 0
  IsSortedFrom x [] = Unit {0}
  IsSortedFrom x (y ∷ ys) = (le x y ≡ true) × IsSortedFrom y ys

  abbrev pub IsSorted : List A → Type 0
  IsSorted [] = Unit {0}
  IsSorted (x ∷ xs) = IsSortedFrom x xs

  insert_ordered-perm : (x : A) (xs : List A) → Perm (insert_ordered x xs) (x ∷ xs)
  unfolding insert_ordered
  insert_ordered-perm x [] = Perm.refl (x ∷ [])
  insert_ordered-perm x (y ∷ ys) = elim (Bool-cases (le x y)) [
    | inl before ↦ rw before (Perm.refl (x ∷ y ∷ ys))
    | inr behind ↦
        rw behind (Perm.trans (Perm.cons y (insert_ordered-perm x ys)) (Perm.swap x y ys))
  ]

  pub sort_by-perm : (xs : List A) → Perm (sort_by xs) xs
  unfolding sort_by
  sort_by-perm [] = Perm.nil
  sort_by-perm (x ∷ xs) =
      Perm.trans (insert_ordered-perm x (sort_by xs)) (Perm.cons x (sort_by-perm xs))

  All-insert_ordered {κ} :
      (P : A → Type κ) (x : A) (xs : List A) → P x → All P xs → All P (insert_ordered x xs)
  unfolding insert_ordered
  All-insert_ordered P x [] h k = (h, tt)
  All-insert_ordered P x (y ∷ ys) h k = elim (Bool-cases (le x y)) [
    | inl before ↦ rw before (h, k)
    | inr behind ↦ rw behind (k.0, All-insert_ordered P x ys h k.1)
  ]

  pub All-sort_by {κ} : (P : A → Type κ) (xs : List A) → All P xs → All P (sort_by xs)
  unfolding sort_by
  All-sort_by P [] h = tt
  All-sort_by P (x ∷ xs) h = All-insert_ordered P x (sort_by xs) h.0 (All-sort_by P xs h.1)

  length-insert_ordered : (x : A) (xs : List A) → length (insert_ordered x xs) ≡ suc (length xs)
  unfolding insert_ordered
  length-insert_ordered x [] = refl
  length-insert_ordered x (y ∷ ys) = elim (Bool-cases (le x y)) [
    | inl before ↦ rw before refl
    | inr behind ↦ rw behind (ap suc (length-insert_ordered x ys))
  ]

  pub length-sort_by : (xs : List A) → length (sort_by xs) ≡ length xs
  unfolding sort_by
  length-sort_by [] = refl
  length-sort_by (x ∷ xs) = length-insert_ordered x (sort_by xs) ∙ ap suc (length-sort_by xs)

  module _ (total : (a b : A) → le a b ≡ false → le b a ≡ true) where
    insert_ordered-IsSortedFrom :
        (z x : A) (xs : List A)
        → le z x ≡ true
        → IsSortedFrom z xs
        → IsSortedFrom z (insert_ordered x xs)
    unfolding insert_ordered
    insert_ordered-IsSortedFrom z x [] h s = (h, tt)
    insert_ordered-IsSortedFrom z x (y ∷ ys) h s = elim (Bool-cases (le x y)) [
      | inl before ↦ rw before (h, (before, s.1))
      | inr behind ↦ rw behind (s.0, insert_ordered-IsSortedFrom y x ys (total x y behind) s.1)
    ]

    insert_ordered-IsSorted : (x : A) (xs : List A) → IsSorted xs → IsSorted (insert_ordered x xs)
    unfolding insert_ordered
    insert_ordered-IsSorted x [] s = tt
    insert_ordered-IsSorted x (y ∷ ys) s = elim (Bool-cases (le x y)) [
      | inl before ↦ rw before (before, s)
      | inr behind ↦ rw behind (insert_ordered-IsSortedFrom y x ys (total x y behind) s)
    ]

    pub sort_by-IsSorted : (xs : List A) → IsSorted (sort_by xs)
    unfolding sort_by
    sort_by-IsSorted [] = tt
    sort_by-IsSorted (x ∷ xs) = insert_ordered-IsSorted x (sort_by xs) (sort_by-IsSorted xs)

module _ {ℓ κ} {A : Type ℓ} {B : Type κ} (le : A → A → Bool) (le' : B → B → Bool) (f : A → B) where
  -- Sorting by what a function shows of the elements is sorting what it shows.
  map-insert_ordered :
      (same : (a b : A) → le a b ≡ le' (f a) (f b)) (x : A) (xs : List A)
      → map f (insert_ordered le x xs) ≡ insert_ordered le' (f x) (map f xs)
  unfolding insert_ordered
  map-insert_ordered same x [] = refl
  map-insert_ordered same x (y ∷ ys) = elim (Bool-cases (le x y)) [
    | inl before ↦ rw (before, ← same x y, before) refl
    | inr behind ↦
        rw (behind, ← same x y, behind) (ap (λ t. f y ∷ t) (map-insert_ordered same x ys))
  ]

  pub map-sort_by :
      (same : (a b : A) → le a b ≡ le' (f a) (f b)) (xs : List A)
      → map f (sort_by le xs) ≡ sort_by le' (map f xs)
  unfolding sort_by
  map-sort_by same [] = refl
  map-sort_by same (x ∷ xs) =
      rw (map-insert_ordered same x (sort_by le xs), map-sort_by same xs) refl

-- ===== src/Rofs/Layout/Sorted.antt =====
-- `sort_unstable_by_key` keeps the nodes and puts them in the order of their names.
use fsvfs.Base.{
  suc, List, [], ◌∷◌, true, false, Bool-cases, ◌≡◌, refl, ◌↔◌, ◌⊎◌, inl, inr, arith, length,
}
use fsvfs.Rofs.Path.{Name}
use fsvfs.Rofs.Node.{Node, El, IsSorted, le_name, insert_sorted, sort_by_key}

le_name_total : (x y : Name) → le_name x y ≡ false → le_name y x ≡ true
unfolding le_name
le_name_total [] y h = absurd (cc)
le_name_total (x ∷ xs) [] h = refl
le_name_total (x ∷ xs) (y ∷ ys) h = ground (arith, le_name_total xs ys)

module _ (key : Node → Name) where
  length-insert_sorted :
      (m : Node) (xs : List Node) → length (insert_sorted key m xs) ≡ suc (length xs)
  unfolding insert_sorted
  length-insert_sorted m [] = refl
  length-insert_sorted m (x ∷ xs) = ground (arith, length-insert_sorted m xs)

  pub length-sort_by_key : (xs : List Node) → length (sort_by_key key xs) ≡ length xs
  unfolding sort_by_key
  length-sort_by_key [] = refl
  length-sort_by_key (x ∷ xs) =
      omega (arith, length-insert_sorted x (sort_by_key key xs), length-sort_by_key xs)

  El-insert_sorted :
      (a m : Node) (xs : List Node) → El a (insert_sorted key m xs) ↔ ((a ≡ m) ⊎ El a xs)
  unfolding insert_sorted
  El-insert_sorted a m [] = (λ h. h, λ h. h)
  El-insert_sorted a m (x ∷ xs) = elim (Bool-cases (le_name (key m) (key x))) [
    | inl e ↦ rw e (λ h. h, λ h. h)
    | inr e ↦
        let (to, from) = El-insert_sorted a m xs in
        rw e (
          λ h. elim h [
            | inl p ↦ inr (inl p)
            | inr q ↦ elim (to q) [ inl p ↦ inl p | inr r ↦ inr (inr r) ]
          ],
          λ h. elim h [
            | inl p ↦ inr (from (inl p))
            | inr q ↦ elim q [ inl p ↦ inl p | inr r ↦ inr (from (inr r)) ]
          ],
        )
  ]

  pub El-sort_by_key : (a : Node) (xs : List Node) → El a (sort_by_key key xs) ↔ El a xs
  unfolding sort_by_key
  El-sort_by_key a [] = (λ h. h, λ h. h)
  El-sort_by_key a (x ∷ xs) =
      let (to, from) = El-insert_sorted a x (sort_by_key key xs) in
      let (there, back) = El-sort_by_key a xs in
      (
        λ h. elim (to h) [ inl p ↦ inl p | inr q ↦ inr (there q) ],
        λ h. elim h [ inl p ↦ from (inl p) | inr q ↦ from (inr (back q)) ],
      )

  insert_sorted-IsSorted :
      (m : Node) (xs : List Node) → IsSorted key xs → IsSorted key (insert_sorted key m xs)
  unfolding insert_sorted
  insert_sorted-IsSorted m [] s = tt
  insert_sorted-IsSorted m (x ∷ []) s = ground (arith, le_name_total (key m) (key x))
  insert_sorted-IsSorted m (x ∷ y ∷ xs) s =
      ground (arith, le_name_total (key m) (key x), insert_sorted-IsSorted m (y ∷ xs) s.1)

  pub sort_by_key-IsSorted : (xs : List Node) → IsSorted key (sort_by_key key xs)
  unfolding sort_by_key
  sort_by_key-IsSorted [] = tt
  sort_by_key-IsSorted (x ∷ xs) =
      insert_sorted-IsSorted x (sort_by_key key xs) (sort_by_key-IsSorted xs)

-- Being sorted depends on the keys of the elements only.
pub IsSorted-cong :
    (key key' : Node → Name) (xs : List Node)
    → ((m : Node) → El m xs → key m ≡ key' m)
    → IsSorted key xs
    → IsSorted key' xs
IsSorted-cong key key' [] h s = tt
IsSorted-cong key key' (x ∷ []) h s = tt
IsSorted-cong key key' (x ∷ y ∷ xs) h s = (
  rw (← h x (inl refl), ← h y (inr (inl refl))) s.0,
  IsSorted-cong key key' (y ∷ xs) (λ m e. h m (inr e)) s.1,
)

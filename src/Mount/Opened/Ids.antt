-- ===== src/Mount/Opened/Ids.antt =====
-- src/dvdbnd/filesystem.rs: the ids that a map of sources has.
use mathlib.Core.List.{Memᴰ}
use mathlib.Core.List.Memᴰ
use fsvfs.Base.{ℕ, List, [], ◌∷◌, map, Bool-cases, ◌≡◌, refl, ap, ◌∙◌, ◌⊎◌, inl, inr, ◌↔◌}
use fsvfs.Rofs.Path.{same_name}
use fsvfs.Rofs.Layout.Names.{same_name→eq}
use fsvfs.Dvdbnd.Finish.{SrcIdMap, put_src, extend}

abbrev pub ids : {V : Type 0} → SrcIdMap V → List (List ℕ)
ids = map (λ e. e.0)

abbrev pub Among : List ℕ → List (List ℕ) → Type 0
Among = Memᴰ

-- An id in front of the ids of a map, in the place of an equal one.
pub replaced :
    (x id other : List ℕ) (l : List (List ℕ))
    → other ≡ id
    → Among x (id ∷ l) ↔ ((x ≡ id) ⊎ Among x (other ∷ l))
replaced x id other l same = (
  λ m. elim (Memᴰ.cases_cons m) [ inl e ↦ inl e | inr t ↦ inr (Memᴰ.tail t) ],
  λ h. elim h [
    | inl e ↦ Memᴰ.head e
    | inr m ↦ elim (Memᴰ.cases_cons m) [ inl e ↦ Memᴰ.head (e ∙ same) | inr t ↦ Memᴰ.tail t ]
  ],
)

pub behind :
    (x id other : List ℕ) (l m : List (List ℕ))
    → (Among x l ↔ ((x ≡ id) ⊎ Among x m))
    → Among x (other ∷ l) ↔ ((x ≡ id) ⊎ Among x (other ∷ m))
behind x id other l m later = (
  λ h. elim (Memᴰ.cases_cons h) [
    | inl e ↦ inr (Memᴰ.head e)
    | inr t ↦ elim (later.0 t) [ inl e ↦ inl e | inr r ↦ inr (Memᴰ.tail r) ]
  ],
  λ h. elim h [
    | inl e ↦ Memᴰ.tail (later.1 (inl e))
    | inr r ↦ elim (Memᴰ.cases_cons r) [ inl e ↦ Memᴰ.head e | inr t ↦ Memᴰ.tail (later.1 (inr t)) ]
  ],
)

module _ {V : Type 0} where
  pub put_src-Among :
      (x id : List ℕ) (v : V) (m : SrcIdMap V)
      → Among x (ids (put_src id v m)) ↔ ((x ≡ id) ⊎ Among x (ids m))
  unfolding put_src
  put_src-Among x id v [] =
      (Memᴰ.cases_cons, λ h. elim h [ inl e ↦ Memᴰ.head e | inr m ↦ Memᴰ.tail m ])
  put_src-Among x id v ((other, w) ∷ rest) = elim (Bool-cases (same_name other id)) [
    | inl same ↦ rw same (replaced x id other (ids rest) (same_name→eq other id same))
    | inr differs ↦
        rw differs
          (behind x id other (ids (put_src id v rest)) (ids rest) (put_src-Among x id v rest))
  ]

  pub extend-Among :
      (x : List ℕ) (known : SrcIdMap V) (entries : List (List ℕ × V))
      → Among x (ids (extend known entries)) ↔ (Among x (ids known) ⊎ Among x (ids entries))
  unfolding extend
  extend-Among x known [] = (inl, λ h. elim h [ inl m ↦ m | inr m ↦ absurd (Memᴰ.not-nil m) ])
  extend-Among x known ((id, v) ∷ rest) =
      let later = extend-Among x (put_src id v known) rest in
      let first = put_src-Among x id v known in
      (
        λ m. elim (later.0 m) [
          | inl p ↦ elim (first.0 p) [ inl e ↦ inr (Memᴰ.head e) | inr k ↦ inl k ]
          | inr r ↦ inr (Memᴰ.tail r)
        ],
        λ h. elim h [
          | inl k ↦ later.1 (inl (first.1 (inr k)))
          | inr m ↦ elim (Memᴰ.cases_cons m) [
            | inl e ↦ later.1 (inl (first.1 (inl e)))
            | inr r ↦ later.1 (inr r)
          ]
        ],
      )

pub taken :
    (x id : List ℕ) (l m n : List (List ℕ))
    → (Among x l ↔ (Among x m ⊎ Among x n))
    → Among x (id ∷ l) ↔ (Among x (id ∷ m) ⊎ Among x n)
taken x id l m n later = (
  λ h. elim (Memᴰ.cases_cons h) [
    | inl e ↦ inl (Memᴰ.head e)
    | inr t ↦ elim (later.0 t) [ inl p ↦ inl (Memᴰ.tail p) | inr q ↦ inr q ]
  ],
  λ h. elim h [
    | inl p ↦ elim (Memᴰ.cases_cons p) [ inl e ↦ Memᴰ.head e | inr t ↦ Memᴰ.tail (later.1 (inl t)) ]
    | inr q ↦ Memᴰ.tail (later.1 (inr q))
  ],
)

pub swapped : {P Q R : Type 0} → (P ↔ (Q ⊎ R)) → P ↔ (R ⊎ Q)
swapped e = (
  λ p. elim (e.0 p) [ inl q ↦ inr q | inr r ↦ inl r ],
  λ h. elim h [ inl r ↦ e.1 (inr r) | inr q ↦ e.1 (inl q) ],
)

pub ids-map :
    {A V : Type 0} (g : A → List ℕ × V) (xs : List A) → ids (map g xs) ≡ map (λ a. (g a).0) xs
ids-map g [] = refl
ids-map g (x ∷ xs) = ap (λ l. (g x).0 ∷ l) (ids-map g xs)

pub joined : {P Q Q' R : Type 0} → (P ↔ (Q ⊎ R)) → (Q ↔ Q') → P ↔ (Q' ⊎ R)
joined e same = (
  λ p. elim (e.0 p) [ inl q ↦ inl (same.0 q) | inr r ↦ inr r ],
  λ h. elim h [ inl q ↦ e.1 (inl (same.1 q)) | inr r ↦ e.1 (inr r) ],
)

pub from_none :
    {V : Type 0} (x : List ℕ) (entries : List (List ℕ × V))
    → Among x (ids (extend [] entries)) ↔ Among x (ids entries)
from_none x entries = (
  λ m. elim ((extend-Among x [] entries).0 m) [
    | inl nothing ↦ absurd (Memᴰ.not-nil nothing)
    | inr there ↦ there
  ],
  λ there. (extend-Among x [] entries).1 (inr there),
)

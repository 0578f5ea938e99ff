-- ===== src/Mount/Projfs/Pages.antt =====
-- src/dvdbnd/mount/projfs.rs: what one call of `get_directory_enumeration` gives.
use fsvfs.Base.{
  ℕ, zero, suc, ◌≤◌, ◌<◌, List, [], ◌∷◌, ◌++◌, map, Bool, Bool-cases, true, false, inl, inr, ◌⊎◌,
  ◌≡◌, refl, sym, ap, subst, ◌∙◌, ◌==◌, arith, length, drop, append_assoc, append-nil, Option, none,
  some, if◌then◌else◌,
}
use fsvfs.Base.Results.{Result, ok}
use fsvfs.Mount.Projfs.{BasicInfo, wide_at, Shown, passes, enumerate_from}
use fsvfs.Mount.Projfs.Callbacks.{Hresult, e_buffer, fill_entries}
use fsvfs.Mount.Projfs.Index.{shown_at}

-- The names that an expression lets through.
abbrev pub passing : (List ℕ → List ℕ → Bool) → Option (List ℕ) → List Shown → List Shown
passing name_match expression [] = []
passing name_match expression ((name, info) ∷ rest) =
    let more = passing name_match expression rest in
    if passes name_match expression name then (name, info) ∷ more else more

-- A buffer that takes at least one entry, and refuses another only for want of room.
pub record IsBuffer (fill : List Shown → Shown → Option Hresult) : Type 0 where
  pub has_room : (x : Shown) → fill [] x ≡ none
  pub refuses :
      (added : List Shown) (x : Shown) → (fill added x ≡ none) ⊎ (fill added x ≡ some e_buffer)

drop-cons :
    {A : Type 0} (n : ℕ) (xs rest : List A) (x : A)
    → drop n xs ≡ x ∷ rest
    → (drop (suc n) xs ≡ rest) × (n < length xs)
drop-cons zero [] rest x h = absurd (cc)
drop-cons zero (y ∷ ys) rest x h = (cc, omega arith)
drop-cons (suc n) [] rest x h = absurd (cc)
drop-cons (suc n) (y ∷ ys) rest x h =
    let (same, low) = drop-cons n ys rest x h in (same, omega (arith, low))

module _ (name_match : List ℕ → List ℕ → Bool) (expression : Option (List ℕ)) (store : List ℕ)
    (index : List (ℕ × BasicInfo)) where
  -- What is to be shown from a position of the index on.
  abbrev pub left_from : ℕ → List Shown
  left_from p = passing name_match expression (map (shown_at store) (drop p index))

  -- A page that starts at a position, with the next position.
  pub record IsPage (s : ℕ) (end : ℕ) (page : List Shown) : Type 0 where
    pub inside : end ≤ length index
    pub splits : page ++ left_from end ≡ left_from s

module _ (fill : List Shown → Shown → Option Hresult) (name_match : List ℕ → List ℕ → Bool)
    (expression : Option (List ℕ)) (store : List ℕ) (index : List (ℕ × BasicInfo)) where
  abbrev left : ℕ → List Shown
  left = left_from name_match expression store index

  abbrev loop : ℕ → ℕ → List Shown → ℕ → List (ℕ × BasicInfo) → Result Hresult ℕ × List Shown
  loop s end added p rest =
      fill_entries fill s end added (enumerate_from name_match store expression p rest)

  -- One more entry of the index, which the expression lets through or does not.
  left_from-pass :
      (p at : ℕ) (info : BasicInfo) (rest : List (ℕ × BasicInfo))
      → drop p index ≡ (at, info) ∷ rest
      → passes name_match expression (wide_at store at) ≡ true
      → left p ≡ (wide_at store at, info) ∷ left (suc p)
  left_from-pass p at info rest h pass = rw (h, (drop-cons p index rest (at, info) h).0, pass) refl

  left_from-skip :
      (p at : ℕ) (info : BasicInfo) (rest : List (ℕ × BasicInfo))
      → drop p index ≡ (at, info) ∷ rest
      → passes name_match expression (wide_at store at) ≡ false
      → left p ≡ left (suc p)
  left_from-skip p at info rest h skip = rw (h, (drop-cons p index rest (at, info) h).0, skip) refl

  module _ (s : ℕ) where
    loop-skip :
        (end p at : ℕ) (info : BasicInfo) (added : List Shown) (rest : List (ℕ × BasicInfo))
        → passes name_match expression (wide_at store at) ≡ false
        → loop s end added p ((at, info) ∷ rest) ≡ loop s end added (suc p) rest
    unfolding enumerate_from
    loop-skip end p at info added rest skip = rw skip refl

    loop-take :
        (end p at : ℕ) (info : BasicInfo) (added : List Shown) (rest : List (ℕ × BasicInfo))
        → passes name_match expression (wide_at store at) ≡ true
        → fill added (wide_at store at, info) ≡ none
        → loop s end added p ((at, info) ∷ rest)
          ≡ loop s (suc p) (added ++ (wide_at store at, info) ∷ []) (suc p) rest
    unfolding enumerate_from fill_entries
    loop-take end p at info added rest pass takes = rw (pass, fill_entries, takes) refl

    loop-full :
        (end p at : ℕ) (info : BasicInfo) (added : List Shown) (rest : List (ℕ × BasicInfo))
        → passes name_match expression (wide_at store at) ≡ true
        → fill added (wide_at store at, info) ≡ some e_buffer
        → (s == end) ≡ false
        → loop s end added p ((at, info) ∷ rest) ≡ (ok end, added)
    unfolding enumerate_from fill_entries
    loop-full end p at info added rest pass full moved = rw (pass, fill_entries, full, moved) refl

    -- The loop behind its first entry.
    fill_more :
        (buffer : IsBuffer fill) (end p : ℕ) (added : List Shown) (rest : List (ℕ × BasicInfo))
        → s < end
        → end ≤ p
        → end ≤ length index
        → drop p index ≡ rest
        → left end ≡ left p
        → (last : ℕ) × (page : List Shown) × (loop s end added p rest ≡ (ok last, added ++ page))
          × (s < last)
          × IsPage name_match expression store index end last page
    unfolding fill_entries enumerate_from
    fill_more buffer end p added [] up behind low at same = (
      end,
      [],
      ap (λ t. (ok end, t)) (sym (append-nil added)),
      up,
      record { inside = low; splits = refl },
    )
    fill_more buffer end p added ((i, info) ∷ rest) up behind low at same =
        let shown : Shown = (wide_at store i, info) in
        let (next, inside) = drop-cons p index rest (i, info) at in
        elim (Bool-cases (passes name_match expression (wide_at store i))) [
          | inl pass ↦ elim (buffer.refuses added shown) [
            | inl takes ↦
                let (last, page, runs, up', pages) =
                  fill_more buffer (suc p) (suc p) (added ++ shown ∷ []) rest (omega arith)
                    (omega arith) inside next refl in
                (
                  last,
                  shown ∷ page,
                  loop-take end p i info added rest pass takes
                      ∙ runs
                      ∙ ap (λ t. (ok last, t)) (append_assoc added (shown ∷ []) page),
                  up',
                  record {
                    inside = pages.inside;
                    splits =
                        ap (λ t. shown ∷ t) pages.splits
                        ∙ sym (left_from-pass p i info rest at pass)
                        ∙ sym same;
                  },
                )
            | inr full ↦ (
              end,
              [],
              loop-full end p i info added rest pass full (ground arith)
                  ∙ ap (λ t. (ok end, t)) (sym (append-nil added)),
              up,
              record { inside = low; splits = refl },
            )
          ]
          | inr skip ↦
              let (last, page, runs, up', pages) =
                fill_more buffer end (suc p) added rest up (omega arith) low next
                  (same ∙ left_from-skip p i info rest at skip) in
              (last, page, loop-skip end p i info added rest skip ∙ runs, up', pages)
        ]

    -- A page that starts here: an empty one where nothing is left, and otherwise one that leads on.
    pub fill_first :
        (buffer : IsBuffer fill) (p : ℕ) (rest : List (ℕ × BasicInfo))
        → s ≤ p
        → drop p index ≡ rest
        → left s ≡ left p
        → ((left s ≡ []) × (loop s s [] p rest ≡ (ok s, [])))
          ⊎ ((last : ℕ) × (x : Shown) × (page : List Shown) × (loop s s [] p rest
                ≡ (ok last, x ∷ page))
              × (s < last)
              × IsPage name_match expression store index s last (x ∷ page))
    unfolding fill_entries enumerate_from
    fill_first buffer p [] low at same = inl (rw (same, at) refl, refl)
    fill_first buffer p ((i, info) ∷ rest) low at same =
        let shown : Shown = (wide_at store i, info) in
        let (next, inside) = drop-cons p index rest (i, info) at in
        elim (Bool-cases (passes name_match expression (wide_at store i))) [
          | inl pass ↦
              let (last, page, runs, up, pages) =
                fill_more buffer (suc p) (suc p) (shown ∷ []) rest (omega arith) (omega arith)
                  inside next refl in
              inr (
                last,
                shown,
                page,
                loop-take s p i info [] rest pass (buffer.has_room shown) ∙ runs,
                up,
                record {
                  inside = pages.inside;
                  splits =
                      ap (λ t. shown ∷ t) pages.splits
                      ∙ sym (left_from-pass p i info rest at pass)
                      ∙ sym same;
                },
              )
          | inr skip ↦
              subst
                (λ t.
                  ((left s ≡ []) × (t ≡ (ok s, [])))
                  ⊎ ((last : ℕ) × (x : Shown) × (page : List Shown) × (t ≡ (ok last, x ∷ page))
                      × (s < last)
                      × IsPage name_match expression store index s last (x ∷ page)))
                (sym (loop-skip s p i info [] rest skip))
                (fill_first buffer (suc p) rest (omega arith) next
                  (same ∙ left_from-skip p i info rest at skip))
        ]

-- ===== src/Mount/Projfs/Table.antt =====
-- src/dvdbnd/mount/projfs.rs: the table of open directories. Callbacks that run at once share an entry through
-- its `Arc`, which here is a write to the table.
use fsvfs.Base.{ℕ, List, [], ◌∷◌, ◌==◌, Option, none, some, if◌then◌else◌, ◌≡◌, refl, arith}

module _ {V : Type 0} where
  unfoldable pub get : ℕ → List (ℕ × V) → Option V
  get id [] = none
  get id ((other, dir) ∷ rest) = if other == id then some dir else get id rest

  unfoldable pub insert : ℕ → V → List (ℕ × V) → List (ℕ × V)
  insert id dir [] = (id, dir) ∷ []
  insert id dir ((other, old) ∷ rest) =
      if other == id then (id, dir) ∷ rest else (other, old) ∷ insert id dir rest

  unfoldable pub remove : ℕ → List (ℕ × V) → List (ℕ × V)
  remove id [] = []
  remove id ((other, dir) ∷ rest) =
      let kept = remove id rest in if other == id then kept else (other, dir) ∷ kept

  pub get-insert :
      (id at : ℕ) (dir : V) (table : List (ℕ × V))
      → get at (insert id dir table) ≡ (if id == at then some dir else get at table)
  unfolding get insert
  get-insert id at dir [] = refl
  get-insert id at dir ((other, old) ∷ rest) = ground (arith, get-insert id at dir rest)

  pub get-remove :
      (id at : ℕ) (table : List (ℕ × V))
      → get at (remove id table) ≡ (if id == at then none else get at table)
  unfolding get remove
  get-remove id at [] = ground arith
  get-remove id at ((other, old) ∷ rest) = ground (arith, get-remove id at rest)

  pub get-insert_self :
      (id : ℕ) (dir : V) (table : List (ℕ × V)) → get id (insert id dir table) ≡ some dir
  get-insert_self id dir table = ground (arith, get-insert id id dir table)

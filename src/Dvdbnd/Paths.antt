-- ===== src/Dvdbnd/Paths.antt =====
-- The path that the dictionary knows for a hash.
use fsvfs.Base.{
  ℕ, ◌%◌, ◌^◌, ◌==◌, ==_iff, Bool-cases, List, [], ◌∷◌, Option, Option-cases, some, some_inj, ◌≡◌,
  ◌⊎◌, sym, ap, ◌∙◌, inl, inr, map,
}
use fsvfs.Rofs.Path.{Name, lower}
use fsvfs.Hash.{hash_path32, hash_path64}
use fsvfs.Dvdbnd.Dictionary.{
  Dictionary, contents_of, lines_from, hash_lines, hash_path_iter, hash_paths32, hash_paths64,
  get_path,
}
use fsvfs.Dvdbnd.Builder.{by_u32, by_u64, known_path}

module _ (hash : Name → Option ℕ) where
  get_path-cons :
      (h k : ℕ) (path p : Name) (rest : List (ℕ × Name))
      → get_path h ((k, path) ∷ rest) ≡ some p
      → (get_path h rest ≡ some p) ⊎ ((k ≡ h) × (path ≡ p))
  unfolding get_path
  get_path-cons h k path p rest e = elim (Option-cases (get_path h rest)) [
    | inr (q, found) ↦ inl (found ∙ rw (get_path, found) at e)
    | inl missed ↦ elim (Bool-cases (k == h)) [
      | inl same ↦ inr ((==_iff k h).0 same, some_inj path p (rw (get_path, missed, same) at e))
      | inr other ↦ absurd (cc (rw (get_path, missed, other) at e))
    ]
  ]

  hash_lines-hash :
      (h : ℕ) (p : Name) (paths : List Name)
      → get_path h (hash_lines hash paths) ≡ some p
      → hash p ≡ some h
  unfolding hash_lines get_path
  hash_lines-hash h p [] e = absurd (cc)
  hash_lines-hash h p (path ∷ rest) e = elim (Option-cases (hash path)) [
    | inl unnamed ↦ hash_lines-hash h p rest (rw (hash_lines, unnamed) at e)
    | inr (k, hashed) ↦
        elim (get_path-cons h k path p (hash_lines hash rest) (rw (hash_lines, hashed) at e)) [
          | inl later ↦ hash_lines-hash h p rest later
          | inr (same, here) ↦ ap hash (sym here) ∙ hashed ∙ ap some same
        ]
  ]

  hash_path_iter-hash :
      (dict : Dictionary) (name : Name) (h : ℕ) (p : Name)
      → get_path h (hash_path_iter hash dict name) ≡ some p
      → hash p ≡ some h
  unfolding hash_path_iter get_path
  hash_path_iter-hash dict name h p e = elim (Option-cases (contents_of (map lower name) dict)) [
    | inl missing ↦ absurd (cc (rw (hash_path_iter, missing) at e))
    | inr (contents, found) ↦
        hash_lines-hash h p (lines_from [] contents) (rw (hash_path_iter, found) at e)
  ]

-- A path that is known for a hash has this hash: in a dictionary by hashes of 64 bits all of it, in one by hashes of 32
-- bits its low 32 bits.
pub known_path-hash :
    (dict : Dictionary) (name : Name) (h k : ℕ) (p q : Name)
    → known_path (some (by_u64 (hash_paths64 dict name))) h ≡ some p
    → known_path (some (by_u32 (hash_paths32 dict name))) k ≡ some q
    → (hash_path64 p ≡ some h) × (hash_path32 q ≡ some (k % 2 ^ 32))
unfolding known_path hash_paths32 hash_paths64
known_path-hash dict name h k p q e₁ e₂ = (
  hash_path_iter-hash hash_path64 dict name h p e₁,
  hash_path_iter-hash hash_path32 dict name (k % 2 ^ 32) q e₂,
)

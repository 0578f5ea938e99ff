-- ===== src/Bhd5/Typed.antt =====
-- The entries that are read are of the layout that they are read by.
use fsvfs.Base.{
  ℕ, zero, suc, List, [], ◌∷◌, Bool-cases, Option, some, some_inj, >>=-eq-some, ◌≡◌, refl, subst,
  inl, inr, All, take, drop, length, ltb,
}
use fsvfs.Unaligned.{Endian}
use fsvfs.Rofs.Path.{same_name}
use fsvfs.Bhd5.Fields.{field, zero_u32, from_offset, elements, try_ref_slice_helper}
use fsvfs.Bhd5.Entry.{FileEntry, ds, ds2, ds3, er, read_ds, read_ds2, read_ds3, read_er}
use fsvfs.Bhd5.Buckets.{Layout, layout_ds, layout_ds2, layout_ds3, layout_er, read_entry}

abbrev pub layout_of : FileEntry → Layout
layout_of (ds e) = layout_ds
layout_of (ds2 e) = layout_ds2
layout_of (ds3 e) = layout_ds3
layout_of (er e) = layout_er

abbrev pub HasLayout : Layout → FileEntry → Type 0
HasLayout l e = layout_of e ≡ l

read_entry-HasLayout :
    (l : Layout) (o : Endian) (bytes : List ℕ) (e : FileEntry)
    → read_entry l o bytes ≡ some e
    → HasLayout l e
unfolding read_ds read_ds2 read_ds3 read_er
read_entry-HasLayout layout_ds o bytes e h = subst (HasLayout layout_ds) (some_inj _ e h) refl
read_entry-HasLayout layout_ds2 o bytes e h = subst (HasLayout layout_ds2) (some_inj _ e h) refl
read_entry-HasLayout layout_er o bytes e h = subst (HasLayout layout_er) (some_inj _ e h) refl
read_entry-HasLayout layout_ds3 o bytes e h =
    elim (Bool-cases (same_name (field bytes 36 4) zero_u32)) [
      | inl fits ↦ subst (HasLayout layout_ds3) (some_inj _ e (rw (read_ds3, fits) at h)) refl
      | inr bad ↦ absurd (cc (rw (read_ds3, bad) at h))
    ]

module _ {B : Type 0} (P : B → Type 0) (size : ℕ) (read : List ℕ → Option B)
    (holds : (bytes : List ℕ) (b : B) → read bytes ≡ some b → P b) where
  elements-All :
      (n : ℕ) (bytes : List ℕ) (bs : List B) → elements size read n bytes ≡ some bs → All P bs
  unfolding elements
  elements-All zero bytes bs h = subst (All P) (some_inj [] bs h) tt
  elements-All (suc n) bytes bs h = elim (Bool-cases (ltb (length bytes) size)) [
    | inl short ↦ absurd (cc (rw (elements, short) at h))
    | inr long ↦
        let (b, first, e₁) = >>=-eq-some (read (take size bytes)) _ bs (rw (elements, long) at h) in
        let (rest, others, made) = >>=-eq-some (elements size read n (drop size bytes)) _ bs e₁ in
        subst (All P) (some_inj (b ∷ rest) bs made)
          (holds (take size bytes) b first, elements-All n (drop size bytes) rest others)
  ]

  pub try_ref_slice_helper-All :
      (count : Option ℕ) (offset : ℕ) (bytes : List ℕ) (bs : List B)
      → try_ref_slice_helper size read count offset bytes ≡ some bs
      → All P bs
  unfolding try_ref_slice_helper
  try_ref_slice_helper-All count offset bytes bs h =
      let (n, counted, e₁) = >>=-eq-some count _ bs h in
      let (rest, there, e₂) = >>=-eq-some (from_offset bytes offset) _ bs e₁ in
      elements-All n rest bs e₂

-- The entries of one bucket.
pub bucket-HasLayout :
    (l : Layout) (o : Endian) (size : ℕ) (count : Option ℕ) (offset : ℕ) (bytes : List ℕ)
    (es : List FileEntry)
    → try_ref_slice_helper size (read_entry l o) count offset bytes ≡ some es
    → All (HasLayout l) es
bucket-HasLayout l o size count offset bytes es h =
    try_ref_slice_helper-All (HasLayout l) size (read_entry l o) (read_entry-HasLayout l o) count
      offset bytes es h

-- ===== src/Bhd5/Validated.antt =====
-- The entries of all buckets, once they are validated.
use fsvfs.Base.{
  ℕ, ◌+◌, ◌≤◌, List, [], ◌∷◌, ◌++◌, Bool, true, false, Bool-cases, ◌&&◌, ◌||◌, ◌==◌, if◌then◌else◌,
  some, some_inj, >>=-eq-some, ◌≡◌, refl, ap, subst, inl, inr, arith, All,
}
use fsvfs.Unaligned.{Endian}
use fsvfs.Bhd5.Fields.{usize_from, try_ref_slice_helper}
use fsvfs.Bhd5.Header.{Header}
use fsvfs.Bhd5.Entry.{FileEntry, file_offset, is_valid, validate, validate_all}
use fsvfs.Bhd5.Typed.{HasLayout, bucket-HasLayout}
use fsvfs.Bhd5.Buckets.{entry_size, read_entry, Layout, BucketHeader, read_buckets}
use fsvfs.Bhd5.File.{flatten}

-- The number of entries at the offset 0.
abbrev pub zero_count : List FileEntry → ℕ
zero_count [] = 0
zero_count (e ∷ es) = (if file_offset e == 0 then 1 else 0) + zero_count es

abbrev pub as_count : Bool → ℕ
as_count true = 1
as_count false = 0

-- The entries so far leave the validator in this state.
record IsValidated (h : Header) (has : Bool) (es : List FileEntry) (has' : Bool) : Type 0 where
  valid : All (λ e. is_valid h e ≡ true) es
  counted : as_count has' ≡ as_count has + zero_count es

validate_step :
    (zero has : Bool) (v : Bool)
    → (if zero && has then false else v) ≡ true
    → (v ≡ true) × (as_count (has || zero) ≡ as_count has + (if zero then 1 else 0))
validate_step true true v h = absurd (cc)
validate_step true false v h = (h, refl)
validate_step false true v h = (h, omega arith)
validate_step false false v h = (h, refl)

validate_all-IsValidated :
    (h : Header) (has : Bool) (es : List FileEntry) (has' : Bool)
    → validate_all h has es ≡ some has'
    → IsValidated h has es has'
unfolding validate_all
validate_all-IsValidated h has [] has' e = record {
  valid = tt;
  counted = omega (arith, ap as_count (some_inj has has' e));
}
validate_all-IsValidated h has (x ∷ es) has' e = elim (Bool-cases (validate h has x).0) [
  | inr bad ↦ absurd (cc (rw (validate_all, bad) at e))
  | inl good ↦
      let (fine, count) = validate_step (file_offset x == 0) has (is_valid h x) good in
      let r =
        validate_all-IsValidated h (validate h has x).1 es has' (rw (validate_all, good) at e) in
      record { valid = (fine, r.valid); counted = omega (arith, r.counted, count) }
]

All-append : {A : Type 0} (P : A → Type 0) (xs ys : List A) → All P xs → All P ys → All P (xs ++ ys)
All-append P [] ys h k = k
All-append P (x ∷ xs) ys h k = (h.0, All-append P xs ys h.1 k)

zero_count-append : (xs ys : List FileEntry) → zero_count (xs ++ ys) ≡ zero_count xs + zero_count ys
zero_count-append [] ys = omega arith
zero_count-append (x ∷ xs) ys = omega (arith, zero_count-append xs ys)

as_count-le : (b : Bool) → as_count b ≤ 1
as_count-le true = omega arith
as_count-le false = omega arith

-- All entries are valid, and the validator's state counts those at the offset 0.
abbrev pub AreValid : Header → Layout → Bool → List (List FileEntry) → Type 0
AreValid h l has entries =
    All (HasLayout l) (flatten entries)
    × All (λ e. is_valid h e ≡ true) (flatten entries)
    × (as_count has + zero_count (flatten entries) ≤ 1)

pub read_buckets-AreValid :
    (o : Endian) (bytes : List ℕ) (h : Header) (l : Layout) (has : Bool) (bs : List BucketHeader)
    (entries : List (List FileEntry))
    → read_buckets o bytes h l has bs ≡ some entries
    → AreValid h l has entries
unfolding read_buckets
read_buckets-AreValid o bytes h l has [] entries e =
    subst (AreValid h l has) (some_inj [] entries e) (tt, tt, omega (arith, as_count-le has))
read_buckets-AreValid o bytes h l has (b ∷ bs) entries e =
    let (es, read, e₁) =
      >>=-eq-some
        (try_ref_slice_helper (entry_size l) (read_entry l o) (usize_from b.entry_count)
          b.entry_offset bytes)
        _ entries e in
    let (has', checked, e₂) = >>=-eq-some (validate_all h has es) _ entries e₁ in
    let (rest, more, made) = >>=-eq-some (read_buckets o bytes h l has' bs) _ entries e₂ in
    let v = validate_all-IsValidated h has es has' checked in
    let (typed, valid, counted) = read_buckets-AreValid o bytes h l has' bs rest more in
    let bucket =
      bucket-HasLayout l o (entry_size l) (usize_from b.entry_count) b.entry_offset bytes es read in
    subst (AreValid h l has) (some_inj (es ∷ rest) entries made) (
      All-append (HasLayout l) es (flatten rest) bucket typed,
      All-append (λ x. is_valid h x ≡ true) es (flatten rest) v.valid valid,
      omega (arith, v.counted, counted, zero_count-append es (flatten rest)),
    )

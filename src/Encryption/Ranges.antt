-- ===== src/Encryption/Ranges.antt =====
-- src/dvdbnd/filesystem/encryption.rs: which ranges are stored.
use mathlib.Core.List.{Perm}
use fsvfs.Base.{
  ℕ, zero, suc, ◌+◌, ◌-◌, ◌*◌, ◌/◌, ◌%◌, ◌^◌, ◌==◌, ◌<◌, ◌≤◌, ltb, true, false, not, ◌||◌,
  Bool-cases, List, [], ◌∷◌, Option, none, some, ◌≡◌, ◌⊎◌, refl, sym, subst, inl, inr, arith, All,
  if◌then◌else◌,
}
use fsvfs.Base.Results.{ok, >>=-eq-ok, ok_inj}
use fsvfs.Base.Sorting.{sort_by-perm, sort_by-IsSorted, All-sort_by, IsSorted}
use fsvfs.Bhd5.Entry.{FileEntry, file_size}
use fsvfs.Bhd5.Buckets.{EncryptionRange}
use fsvfs.Encryption.Store.{
  Range, block_len, store_range, store_ranges, cons_some, ends_before, sort_ranges,
}

-- The numbers of a range fit their fields.
abbrev pub IsNarrow : Range → Type 0
IsNarrow r = (r.start_offset < 2 ^ 32) × (r.block_count < 2 ^ 32)

-- The bounds of a range are numbers of 64 bits.
abbrev pub IsU64 : EncryptionRange → Type 0
IsU64 r = (r.start_offset < 2 ^ 64) × (r.end_offset < 2 ^ 64)

-- The ranges that are not empty.
abbrev pub non_empty : List EncryptionRange → List EncryptionRange
non_empty [] = []
non_empty (r ∷ rs) =
    let rest = non_empty rs in if r.start_offset == r.end_offset then rest else r ∷ rest

-- What is stored of a range of an entry's file: it is of whole blocks and lies in the file, unless it starts the file.
abbrev pub IsRangeOf : FileEntry → EncryptionRange → Range → Type 0
IsRangeOf entry e r =
    (e.start_offset < e.end_offset)
    × ((e.end_offset - e.start_offset) % 16 ≡ 0)
    × ((e.start_offset ≡ 0) ⊎ (e.end_offset ≤ file_size entry))
    × (r.start_offset ≡ e.start_offset % 2 ^ 32)
    × (r.block_count * 16 ≡ (e.end_offset - e.start_offset) % 2 ^ 32)

abbrev pub AreRangesOf : FileEntry → List EncryptionRange → List Range → Type 0
AreRangesOf entry [] rs = rs ≡ []
AreRangesOf entry (e ∷ es) [] = ⊥
AreRangesOf entry (e ∷ es) (r ∷ rs) = IsRangeOf entry e r × AreRangesOf entry es rs

abbrev AreNarrow : Option Range → Type 0
AreNarrow none = Unit
AreNarrow (some r) = IsNarrow r

store_range-IsNarrow :
    (entry : FileEntry) (r : EncryptionRange) (x : Option Range)
    → store_range entry r ≡ ok x
    → AreNarrow x
unfolding store_range
store_range-IsNarrow entry r x h =
    let len = (r.end_offset + 2 ^ 64 - r.start_offset) % 2 ^ 64 in
    elim (Bool-cases (len == 0)) [
      | inl empty ↦ subst AreNarrow (ok_inj none x (rw (store_range, empty) at h)) tt
      | inr some_len ↦
          elim (Bool-cases (ltb r.end_offset r.start_offset || not (len % block_len == 0))) [
            | inl bad ↦ absurd (cc (rw (store_range, some_len, bad) at h))
            | inr good ↦ elim (Bool-cases (ltb (file_size entry - len) r.start_offset)) [
              | inl out ↦ absurd (cc (rw (store_range, some_len, good, out) at h))
              | inr inside ↦
                  subst AreNarrow
                    (ok_inj (some _) x (rw (store_range, some_len, good, inside) at h))
                    (omega arith, omega arith)
            ]
          ]
    ]

All-cons_some :
    (x : Option Range) (xs : List Range)
    → AreNarrow x
    → All IsNarrow xs
    → All IsNarrow (cons_some x xs)
All-cons_some none xs h k = k
All-cons_some (some x) xs h k = (h, k)

store_ranges-IsNarrow :
    (entry : FileEntry) (rs : List EncryptionRange) (xs : List Range)
    → store_ranges entry rs ≡ ok xs
    → All IsNarrow xs
unfolding store_ranges
store_ranges-IsNarrow entry [] xs h = subst (All IsNarrow) (ok_inj [] xs h) tt
store_ranges-IsNarrow entry (r ∷ rs) xs h =
    let (x, first, e₁) = >>=-eq-ok (store_range entry r) _ xs h in
    let (ys, others, made) = >>=-eq-ok (store_ranges entry rs) _ xs e₁ in
    subst (All IsNarrow) (ok_inj (cons_some x ys) xs made) (
      All-cons_some x ys (store_range-IsNarrow entry r x first)
        (store_ranges-IsNarrow entry rs ys others))

abbrev StoredOf : FileEntry → EncryptionRange → Option Range → Type 0
StoredOf entry e none = e.start_offset ≡ e.end_offset
StoredOf entry e (some r) = IsRangeOf entry e r

length_of :
    (start stop : ℕ)
    → start < 2 ^ 64
    → stop < 2 ^ 64
    → ltb stop start ≡ false
    → (stop + 2 ^ 64 - start) % 2 ^ 64 ≡ stop - start
length_of start stop low high order = let h : start ≤ stop = ground arith in omega (arith, h)

in_file :
    (start stop size : ℕ)
    → start ≤ stop
    → ltb (size - (stop - start)) start ≡ false
    → (start ≡ 0) ⊎ (stop ≤ size)
in_file zero stop size order h = inl refl
in_file (suc start) stop size order h =
    let enough : suc start ≤ size - (stop - suc start) = ground arith in inr (omega arith)

stored_range :
    (entry : FileEntry) (e : EncryptionRange)
    → IsU64 e
    → let len = (e.end_offset + 2 ^ 64 - e.start_offset) % 2 ^ 64 in
      (len == 0) ≡ false
      → (ltb e.end_offset e.start_offset || not (len % block_len == 0)) ≡ false
      → ltb (file_size entry - len) e.start_offset ≡ false
      → IsRangeOf entry e (record {
        start_offset = e.start_offset % 2 ^ 32;
        block_count = len % 2 ^ 32 / block_len;
      })
stored_range entry e u64 some_len good inside =
    let order : ltb e.end_offset e.start_offset ≡ false = ground arith in
    let ordered : e.start_offset ≤ e.end_offset = ground arith in
    let same = length_of e.start_offset e.end_offset u64.0 u64.1 order in
    let whole : (e.end_offset + 2 ^ 64 - e.start_offset) % 2 ^ 64 % 16 ≡ 0 = ground arith in
    let positive : 0 < (e.end_offset + 2 ^ 64 - e.start_offset) % 2 ^ 64 = ground arith in
    (
      omega (arith, same, positive),
      omega (arith, same, whole),
      in_file e.start_offset e.end_offset (file_size entry) ordered
          (subst (λ t. ltb (file_size entry - t) e.start_offset ≡ false) same inside),
      refl,
      omega (arith, same, whole),
    )

store_range-StoredOf :
    (entry : FileEntry) (e : EncryptionRange) (x : Option Range)
    → IsU64 e
    → store_range entry e ≡ ok x
    → StoredOf entry e x
unfolding store_range
store_range-StoredOf entry e x u64 h =
    let len = (e.end_offset + 2 ^ 64 - e.start_offset) % 2 ^ 64 in
    elim (Bool-cases (len == 0)) [
      | inl empty ↦
          subst (StoredOf entry e) (ok_inj none x (rw (store_range, empty) at h))
            (ground (arith, u64))
      | inr some_len ↦
          elim (Bool-cases (ltb e.end_offset e.start_offset || not (len % block_len == 0))) [
            | inl bad ↦ absurd (cc (rw (store_range, some_len, bad) at h))
            | inr good ↦ elim (Bool-cases (ltb (file_size entry - len) e.start_offset)) [
              | inl out ↦ absurd (cc (rw (store_range, some_len, good, out) at h))
              | inr inside ↦
                  subst (StoredOf entry e)
                    (ok_inj (some _) x (rw (store_range, some_len, good, inside) at h))
                    (stored_range entry e u64 some_len good inside)
            ]
          ]
    ]

in_front :
    (entry : FileEntry) (e : EncryptionRange) (es : List EncryptionRange) (x : Option Range)
    (rs : List Range)
    → StoredOf entry e x
    → AreRangesOf entry (non_empty es) rs
    → AreRangesOf entry (non_empty (e ∷ es)) (cons_some x rs)
in_front entry e es none rs h later =
    let empty : (e.start_offset == e.end_offset) ≡ true = ground arith in
    rw (non_empty, empty) later
in_front entry e es (some r) rs h later =
    let some_there : (e.start_offset == e.end_offset) ≡ false = ground arith in
    rw (non_empty, some_there) (h, later)

store_ranges-AreRangesOf :
    (entry : FileEntry) (es : List EncryptionRange) (rs : List Range)
    → All IsU64 es
    → store_ranges entry es ≡ ok rs
    → AreRangesOf entry (non_empty es) rs
unfolding store_ranges
store_ranges-AreRangesOf entry [] rs u64 h = sym (ok_inj [] rs h)
store_ranges-AreRangesOf entry (e ∷ es) rs u64 h =
    let (x, first, e₁) = >>=-eq-ok (store_range entry e) _ rs h in
    let (ys, others, made) = >>=-eq-ok (store_ranges entry es) _ rs e₁ in
    let later = store_ranges-AreRangesOf entry es ys u64.1 others in
    subst (AreRangesOf entry (non_empty (e ∷ es))) (ok_inj (cons_some x ys) rs made)
      (in_front entry e es x ys (store_range-StoredOf entry e x u64.0 first) later)

-- The ranges that are stored for an entry: those that are not empty, sorted by their end.
abbrev pub AreStored : FileEntry → List EncryptionRange → List Range → Type 0
AreStored entry es ranges =
    (found : List Range) × AreRangesOf entry (non_empty es) found
    × Perm ranges found
    × IsSorted ends_before ranges

ends_before-total : (x y : Range) → ends_before x y ≡ false → ends_before y x ≡ true
ends_before-total x y h = ground arith

pub sort_ranges-AreStored :
    (entry : FileEntry) (es : List EncryptionRange) (found : List Range)
    → All IsU64 es
    → store_ranges entry es ≡ ok found
    → AreStored entry es (sort_ranges found) × All IsNarrow (sort_ranges found)
unfolding sort_ranges
sort_ranges-AreStored entry es found u64 h = (
  (
    found,
    store_ranges-AreRangesOf entry es found u64 h,
    sort_by-perm ends_before found,
    sort_by-IsSorted ends_before ends_before-total found,
  ),
  All-sort_by ends_before IsNarrow found (store_ranges-IsNarrow entry es found h),
)

-- ===== src/Bhd5/Valid.antt =====
-- What holds of every header file that is accepted.
use fsvfs.Base.{
  ℕ, suc, ◌≤◌, List, [], ◌∷◌, Bool, true, false, if◌then◌else◌, Option, none, some, ◌≡◌, sym, ap,
  subst, ◌∙◌, inl, inr, arith, All, length, length-replicate,
}
use fsvfs.Base.Results.{Result, ok, ◌>>=◌, >>=-eq-ok, ok_inj, Result-cases}
use fsvfs.Unaligned.{Endian}
use fsvfs.Bhd5.Fields.{try_ref_slice_helper}
use fsvfs.Bhd5.Header.{Header, try_ref_header, is_dsr_format, bucket_count, bucket_offset, salt_len}
use fsvfs.Bhd5.Entry.{FileEntry, is_valid}
use fsvfs.Bhd5.Typed.{HasLayout}
use fsvfs.Bhd5.Buckets.{
  Layout, layout_ds, layout_ds2, layout_ds3, layout_er, Buckets, Encryption, BucketHeader,
  read_buckets, read_header_all, read_header_dsr,
}
use fsvfs.Bhd5.File.{
  TryRefFileError, Format, dark_souls, dark_souls_remastered, dark_souls_2, dark_souls_3,
  elden_ring, salt_at, entry_encryption, bucket_error, header_error, File, ok_or, flatten,
  encryption_of, try_ref_encryption, try_ref_buckets, try_ref_ds1, try_ref_dsr, try_ref_ds3_ds2_er,
  try_ref_from_bytes, with_format,
}
use fsvfs.Bhd5.Validated.{zero_count, read_buckets-AreValid}

length-encryption_of :
    (o : Endian) (bytes : List ℕ) (es : List FileEntry) (xs : List (Option Encryption))
    → encryption_of o bytes es ≡ ok xs
    → length xs ≡ length es
unfolding encryption_of
length-encryption_of o bytes [] xs e = ap length (sym (ok_inj [] xs e))
length-encryption_of o bytes (x ∷ es) xs e =
    let (y, first, e₁) = >>=-eq-ok (entry_encryption o bytes x) _ xs e in
    let (ys, more, made) = >>=-eq-ok (encryption_of o bytes es) _ xs e₁ in
    ap length (sym (ok_inj (y ∷ ys) xs made)) ∙ ap suc (length-encryption_of o bytes es ys more)

length-try_ref_encryption :
    (o : Endian) (bytes : List ℕ) (l : Layout) (entries : List (List FileEntry))
    (xs : List (Option Encryption))
    → try_ref_encryption o bytes (record { layout = l; entries = entries }) ≡ ok xs
    → length xs ≡ length (flatten entries)
unfolding try_ref_encryption
length-try_ref_encryption o bytes layout_ds entries xs e =
    ap length (sym (ok_inj _ xs e)) ∙ length-replicate (length (flatten entries)) none
length-try_ref_encryption o bytes layout_ds2 entries xs e =
    length-encryption_of o bytes (flatten entries) xs e
length-try_ref_encryption o bytes layout_ds3 entries xs e =
    length-encryption_of o bytes (flatten entries) xs e
length-try_ref_encryption o bytes layout_er entries xs e =
    length-encryption_of o bytes (flatten entries) xs e

-- What is known of the buckets with their encryption.
abbrev pub IsChecked : Header → Buckets → List (Option Encryption) → Type 0
IsChecked h b encryption =
    All (HasLayout b.layout) (flatten b.entries)
    × All (λ e. is_valid h e ≡ true) (flatten b.entries)
    × (zero_count (flatten b.entries) ≤ 1)
    × (length encryption ≡ length (flatten b.entries))

ok_or-eq-ok {ℓ κ} :
    {E : Type κ} {A : Type ℓ} (e : E) (r : Option A) (a : A) → ok_or e r ≡ ok a → r ≡ some a
ok_or-eq-ok e none a h = absurd (cc)
ok_or-eq-ok e (some b) a h = ap some (ok_inj b a h)

try_ref_buckets-IsChecked :
    (o : Endian) (bytes : List ℕ) (h : Header) (size : ℕ) (read : List ℕ → Option BucketHeader)
    (l : Layout) (r : Buckets × List (Option Encryption))
    → try_ref_buckets o bytes h size read l ≡ ok r
    → IsChecked h r.0 r.1
unfolding try_ref_buckets
try_ref_buckets-IsChecked o bytes h size read l r e =
    let (headers, found, e₁) =
      >>=-eq-ok
        (ok_or bucket_error
          (try_ref_slice_helper size read (some (bucket_count h)) (bucket_offset o h) bytes))
        _ r e in
    let (entries, parsed, e₂) =
      >>=-eq-ok (ok_or bucket_error (read_buckets o bytes h l false headers)) _ r e₁ in
    let b : Buckets = record { layout = l; entries = entries } in
    let (encryption, made, same) = >>=-eq-ok (try_ref_encryption o bytes b) _ r e₂ in
    let (typed, valid, counted) =
      read_buckets-AreValid o bytes h l false headers entries
        (ok_or-eq-ok bucket_error _ entries parsed) in
    subst (λ t. IsChecked h t.0 t.1) (ok_inj (b, encryption) r same)
      (
        typed,
        valid,
        omega (arith, counted),
        length-try_ref_encryption o bytes l entries encryption made,
      )

-- The header of an accepted file, and what is known of its entries.
pub record IsFile (o : Endian) (bytes : List ℕ) (f : File) : Type 0 where
  pub header : Header
  pub has_header : try_ref_header o bytes ≡ some header
  pub checked : IsChecked header f.buckets f.encryption

module _ (o : Endian) (bytes : List ℕ) (h : Header) where
  found_format-IsChecked :
      (size : ℕ) (read : List ℕ → Option BucketHeader) (l : Layout) (m : Format)
      (salt : Option (List ℕ)) (r : Buckets × List (Option Encryption)) (f : File)
      → try_ref_buckets o bytes h size read l ≡ ok r
      → ◌≡◌ {A = Result TryRefFileError File} (ok (with_format o bytes m salt r)) (ok f)
      → IsChecked h f.buckets f.encryption
  found_format-IsChecked size read l m salt r f found same =
      subst (λ t. IsChecked h t.buckets t.encryption) (ok_inj (with_format o bytes m salt r) f same)
        (try_ref_buckets-IsChecked o bytes h size read l r found)

  with_format-IsChecked :
      (size : ℕ) (read : List ℕ → Option BucketHeader) (l : Layout) (m : Format)
      (salt : Option (List ℕ)) (f : File)
      → (try_ref_buckets o bytes h size read l >>= λ r. ok (with_format o bytes m salt r)) ≡ ok f
      → IsChecked h f.buckets f.encryption
  with_format-IsChecked size read l m salt f e =
      let (r, found, same) = >>=-eq-ok (try_ref_buckets o bytes h size read l) _ f e in
      found_format-IsChecked size read l m salt r f found same

  try_ref_ds3_ds2_er-IsChecked :
      (len : ℕ) (f : File)
      → try_ref_ds3_ds2_er o bytes h len ≡ ok f
      → IsChecked h f.buckets f.encryption
  unfolding try_ref_ds3_ds2_er
  try_ref_ds3_ds2_er-IsChecked len f e =
      let read = read_header_all o in
      let salt = salt_at o bytes len in
      elim (Result-cases (try_ref_buckets o bytes h 8 read layout_ds3)) [
        | inl (r, found) ↦
            found_format-IsChecked 8 read layout_ds3 dark_souls_3 salt r f found
              (rw (try_ref_ds3_ds2_er, found) at e)
        | inr (_, other) ↦ elim (Result-cases (try_ref_buckets o bytes h 8 read layout_ds2)) [
          | inl (r, found) ↦
              found_format-IsChecked 8 read layout_ds2 dark_souls_2 salt r f found
                (rw (try_ref_ds3_ds2_er, other, found) at e)
          | inr (_, both) ↦
              with_format-IsChecked 8 read layout_er elden_ring salt f
                (rw (try_ref_ds3_ds2_er, other, both) at e)
        ]
      ]

  try_ref_dsr-IsChecked :
      (f : File) → try_ref_dsr o bytes h ≡ ok f → IsChecked h f.buckets f.encryption
  unfolding try_ref_dsr
  try_ref_dsr-IsChecked f e =
      with_format-IsChecked 16 (read_header_dsr o) layout_ds dark_souls_remastered none f e

  try_ref_ds1-IsChecked :
      (f : File) → try_ref_ds1 o bytes h ≡ ok f → IsChecked h f.buckets f.encryption
  unfolding try_ref_ds1
  try_ref_ds1-IsChecked f e =
      with_format-IsChecked 8 (read_header_all o) layout_ds dark_souls none f e

  -- The layouts for what the header says.
  layouts-IsChecked :
      (salt : Option ℕ) (dsr : Bool) (f : File)
      → (elim salt as (λ x. Result TryRefFileError File) [
        | some len ↦ try_ref_ds3_ds2_er o bytes h len
        | none ↦ if dsr then try_ref_dsr o bytes h else try_ref_ds1 o bytes h
      ])
        ≡ ok f
      → IsChecked h f.buckets f.encryption
  layouts-IsChecked (some len) dsr f e = try_ref_ds3_ds2_er-IsChecked len f e
  layouts-IsChecked none true f e = try_ref_dsr-IsChecked f e
  layouts-IsChecked none false f e = try_ref_ds1-IsChecked f e

-- If bytes are accepted as a header file, they start with a header; the entries of all buckets are of the buckets'
-- layout; each one's sizes and offsets are valid for this header and at most one is at the offset 0; and there is one item of
-- encryption data, or none, for each entry.
pub try_ref_from_bytes-IsFile :
    (o : Endian) (bytes : List ℕ) (f : File) → try_ref_from_bytes o bytes ≡ ok f → IsFile o bytes f
unfolding try_ref_from_bytes
try_ref_from_bytes-IsFile o bytes f e =
    let (h, found, chosen) = >>=-eq-ok (ok_or header_error (try_ref_header o bytes)) _ f e in
    record {
      header = h;
      has_header = ok_or-eq-ok header_error _ h found;
      checked = layouts-IsChecked o bytes h (salt_len o h) (is_dsr_format h) f chosen;
    }

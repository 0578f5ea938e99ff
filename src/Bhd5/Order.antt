-- ===== src/Bhd5/Order.antt =====
-- The order of the two attempts in `Bhd5File::try_ref_from_bytes`, and the names of header files.
use fsvfs.Base.{
  ℕ, ◌+◌, ◌-◌, ◌%◌, ◌^◌, ◌<◌, List, [], ◌∷◌, ◌++◌, map, true, false, Bool-cases, ◌&&◌, ◌==◌, ==_iff,
  leb, some, Option-cases, ◌≡◌, inl, inr, refl, sym, ap, ◌∙◌, arith, drop, length, length-append,
  length-map, take-length-append, length-map, drop-length-append, length-map, &&-parts, ltb,
}
use fsvfs.Base.Results.{ok, err}
use fsvfs.Rofs.Path.{Name, same_name, lower}
use fsvfs.Rofs.Layout.Names.{same_name→eq}
use fsvfs.Unaligned.{Endian, little, big}
use fsvfs.Bhd5.Fields.{field, bom, magic}
use fsvfs.Bhd5.Valid.{try_ref_from_bytes-IsFile}
use fsvfs.Bhd5.Header.{Header, try_ref_header, has_constants, header_len}
use fsvfs.Bhd5.File.{header_error, File, try_ref_from_bytes, strip_five, strip_bhd_extension}

module _ (o : Endian) (bytes : List ℕ) where
  has_constants-bom : has_constants o bytes ≡ true → same_name (field bytes 4 1) (bom o) ≡ true
  unfolding has_constants
  has_constants-bom h =
      let fits = same_name (field bytes 4 1) (bom o) in
      let first = same_name (field bytes 0 4) magic in
      let pad = same_name (field bytes 6 2) (0 ∷ 0 ∷ []) in
      (&&-parts first fits
        (&&-parts (first && fits) pad (&&-parts (first && fits && pad) _ h).0).0).1

  try_ref_header-bom : (h : Header) → try_ref_header o bytes ≡ some h → field bytes 4 1 ≡ bom o
  unfolding try_ref_header
  try_ref_header-bom h e = elim (Bool-cases (ltb (length bytes) header_len)) [
    | inl short ↦ absurd (cc (rw (try_ref_header, short) at e))
    | inr long ↦ elim (Bool-cases (has_constants o bytes)) [
      | inl holds ↦ same_name→eq _ (bom o) (has_constants-bom holds)
      | inr fails ↦ absurd (cc (rw (try_ref_header, long, fails) at e))
    ]
  ]

first_byte : List ℕ → ℕ
first_byte [] = 0
first_byte (b ∷ bs) = b

-- Bytes that are accepted in one byte order have no valid header in the other.
pub try_ref_from_bytes-other :
    (bytes : List ℕ) (f : File)
    → try_ref_from_bytes little bytes ≡ ok f
    → try_ref_from_bytes big bytes ≡ err header_error
unfolding try_ref_from_bytes first_byte
try_ref_from_bytes-other bytes f e =
    let r = try_ref_from_bytes-IsFile little bytes f e in
    let little_bom = try_ref_header-bom little bytes r.header r.has_header in
    elim (Option-cases (try_ref_header big bytes)) [
      | inl bad ↦ rw (try_ref_from_bytes, bad) refl
      | inr (h, found) ↦
          absurd
            (omega (arith, ap first_byte (sym little_bom ∙ try_ref_header-bom big bytes h found)))
    ]

-- The end of a header file's name without the "5" that may follow.
abbrev pub IsExtension : Name → Type 0
IsExtension ext = map lower ext ≡ b'.' ∷ b'b' ∷ b'h' ∷ b'd' ∷ []

strip_five-append :
    (xs : Name) (y : ℕ) (ys : Name) → strip_five (xs ++ y ∷ ys) ≡ xs ++ strip_five (y ∷ ys)
unfolding strip_five
strip_five-append [] y ys = refl
strip_five-append (x ∷ []) y ys = refl
strip_five-append (x ∷ z ∷ xs) y ys = ap (λ t. x ∷ t) (strip_five-append (z ∷ xs) y ys)

length_extension : (ext : Name) → IsExtension ext → length ext ≡ 4
length_extension ext e = sym (length-map lower ext) ∙ ap length e

last_not_five : (a b c d : ℕ) → IsExtension (a ∷ b ∷ c ∷ d ∷ []) → (d == b'5') ≡ false
unfolding first_byte
last_not_five a b c d e =
    let last : lower d ≡ b'd' = ap (λ t. first_byte (drop 3 t)) e in
    elim (Bool-cases (d == b'5')) [
      | inr h ↦ h
      | inl h ↦ absurd (omega (arith, sym last ∙ ap lower ((==_iff d b'5').0 h)))
    ]

-- What is left of the name, once the "5" is off.
strip_stem :
    (name stem ext : Name)
    → strip_five name ≡ stem ++ ext
    → length ext ≡ 4
    → length stem < 2 ^ 63
    → IsExtension ext
    → strip_bhd_extension name ≡ some stem
unfolding strip_bhd_extension same_name
strip_stem name stem ext stripped four short is_ext =
    let len = length-append stem ext in
    let index : (length (stem ++ ext) + 2 ^ 64 - 4) % 2 ^ 64 ≡ length stem = omega arith in
    let fits : leb (length stem) (length (stem ++ ext)) ≡ true = ground arith in
    let taken = take-length-append stem ext (length stem) refl in
    let dropped = drop-length-append stem ext (length stem) refl in
    rw (stripped, index, fits, dropped, taken, is_ext) refl

-- The name of a header file is its stem with an extension ".bhd" or ".bhd5" in any case; what is returned is
-- the stem, for names shorter than 2^63 bytes.
strip_bhd_extension-append :
    (stem ext : Name)
    → IsExtension ext
    → length stem < 2 ^ 63
    → (strip_bhd_extension (stem ++ ext) ≡ some stem)
      × (strip_bhd_extension (stem ++ (ext ++ b'5' ∷ [])) ≡ some stem)
unfolding strip_five
strip_bhd_extension-append stem (a ∷ b ∷ c ∷ d ∷ []) is_ext short =
    let ext : Name = a ∷ b ∷ c ∷ d ∷ [] in
    let plain : strip_five (stem ++ ext) ≡ stem ++ ext =
      strip_five-append stem a (b ∷ c ∷ d ∷ [])
      ∙ ap (λ t. stem ++ a ∷ b ∷ c ∷ t) (rw (last_not_five a b c d is_ext) refl) in
    (
      strip_stem (stem ++ ext) stem ext plain refl short is_ext,
      strip_stem (stem ++ (ext ++ b'5' ∷ [])) stem ext
          (strip_five-append stem a (b ∷ c ∷ d ∷ b'5' ∷ [])) refl short is_ext,
    )
strip_bhd_extension-append stem [] e short = absurd (omega (arith, length_extension [] e))
strip_bhd_extension-append stem (a ∷ []) e short =
    absurd (omega (arith, length_extension (a ∷ []) e))
strip_bhd_extension-append stem (a ∷ b ∷ []) e short =
    absurd (omega (arith, length_extension (a ∷ b ∷ []) e))
strip_bhd_extension-append stem (a ∷ b ∷ c ∷ []) e short =
    absurd (omega (arith, length_extension (a ∷ b ∷ c ∷ []) e))
strip_bhd_extension-append stem (a ∷ b ∷ c ∷ d ∷ x ∷ xs) e short =
    absurd (omega (arith, length_extension (a ∷ b ∷ c ∷ d ∷ x ∷ xs) e))

-- ===== src/Aligned/Streams.antt =====
-- The buffers of a stream are the parts of the range, one after another.
use fsvfs.Base.{
  ℕ, zero, suc, ◌+◌, ◌-◌, ◌^◌, ◌≤◌, ◌<◌, List, [], ◌∷◌, ◌++◌, map, true, leb, ltb, some, ◌≡◌, refl,
  sym, ap, ◌∙◌, arith, All, take, drop, length, length-take, length-drop,
}
use fsvfs.Base.Results.{ok}
use fsvfs.Encryption.{pos, Buffer}
use fsvfs.Aligned.{buffer_len}
use fsvfs.Aligned.Tiles.{IsTiling, IsPiece}
use fsvfs.Aligned.Read.{ReadAt, checked_signed_diff, read, read_all}

-- The bytes from one position to another.
abbrev pub slice : List ℕ → ℕ → ℕ → List ℕ
slice bytes a b = take (b - a) (drop a bytes)

drop-nil {ℓ} : {A : Type ℓ} (n : ℕ) → ◌≡◌ {A = List A} (drop n []) []
drop-nil zero = refl
drop-nil (suc n) = refl

take-nil : (n : ℕ) → ◌≡◌ {A = List ℕ} (take n []) []
take-nil zero = refl
take-nil (suc n) = refl

pub drop-drop {ℓ} :
    {A : Type ℓ} (m n k : ℕ) (xs : List A) → m + n ≡ k → drop n (drop m xs) ≡ drop k xs
drop-drop zero n k xs h = ap (λ t. drop t xs) (omega (arith, h))
drop-drop (suc m) n zero xs h = absurd (omega (arith, h))
drop-drop (suc m) n (suc k) [] h = drop-nil n
drop-drop (suc m) n (suc k) (x ∷ xs) h = drop-drop m n k xs (omega (arith, h))

pub take-take-drop :
    (m n k : ℕ) (xs : List ℕ) → m + n ≡ k → take m xs ++ take n (drop m xs) ≡ take k xs
take-take-drop zero n k xs h = ap (λ t. take t xs) (omega (arith, h))
take-take-drop (suc m) n zero xs h = absurd (omega (arith, h))
take-take-drop (suc m) n (suc k) [] h = take-nil n
take-take-drop (suc m) n (suc k) (x ∷ xs) h =
    ap (λ t. x ∷ t) (take-take-drop m n k xs (omega (arith, h)))

-- Two slices that meet are one.
pub slice-slice :
    (bytes : List ℕ) (a b c : ℕ)
    → a ≤ b
    → b ≤ c
    → slice bytes a b ++ slice bytes b c ≡ slice bytes a c
slice-slice bytes a b c h k =
    ap (λ t. slice bytes a b ++ take (c - b) t) (sym (drop-drop a (b - a) b bytes (omega arith)))
    ∙ take-take-drop (b - a) (c - b) (c - a) (drop a bytes) (omega arith)

pub length-slice :
    (bytes : List ℕ) (a n : ℕ) → a + n ≤ length bytes → length (slice bytes a (a + n)) ≡ n
length-slice bytes a n h =
    length-take (a + n - a) (drop a bytes) ∙ omega (arith, length-drop a bytes)

-- The system reads the bytes that are there, with at most one buffer of the pool in a call. A length of 0 stands for
-- that of a buffer, which no read here asks for.
abbrev pub Holds : ReadAt → List ℕ → Type 0
Holds read_managed_at bytes =
    (n position : ℕ)
    → 0 < n
    → n ≤ buffer_len
    → position + n ≤ length bytes
    → read_managed_at n position ≡ ok (some (slice bytes position (position + n)))

-- The buffer of a piece of a file that starts at a position.
abbrev pub buffer_at : List ℕ → ℕ → ℕ × ℕ → Buffer
buffer_at bytes file_start (len, position) = record {
  bytes = slice bytes position (position + len);
  offset = pos (position - file_start);
}

pub IsTiling-le : (ps : List (ℕ × ℕ)) (a b : ℕ) → IsTiling a ps b → a ≤ b
IsTiling-le [] a b h = omega (arith, h)
IsTiling-le (p ∷ ps) a b h = omega (arith, IsTiling-le ps (a + p.0) b h.1)

module _ (read_managed_at : ReadAt) (bytes : List ℕ) (holds : Holds read_managed_at bytes)
    (file_start : ℕ) where
  read-piece :
      (len position : ℕ)
      → IsPiece (len, position)
      → file_start ≤ position
      → position + len ≤ length bytes
      → length bytes < 2 ^ 63
      → read read_managed_at file_start len position
        ≡ some (ok (buffer_at bytes file_start (len, position)))
  unfolding read checked_signed_diff
  read-piece zero position h low inside fits = absurd (omega (arith, h.0))
  read-piece (suc n) position h low inside fits =
      let starts : leb file_start position ≡ true = ground arith in
      let small : ltb (position - file_start) (2 ^ 63) ≡ true = ground arith in
      let enough : leb (suc n) (length (slice bytes position (position + suc n))) ≡ true =
        rw (length-slice bytes position (suc n) inside) (ground arith) in
      rw (read, checked_signed_diff, starts, small, holds (suc n) position h.0 h.1 inside, enough)
        refl

  pub read_all-pieces :
      (ps : List (ℕ × ℕ)) (a b : ℕ)
      → IsTiling a ps b
      → All IsPiece ps
      → file_start ≤ a
      → b ≤ length bytes
      → length bytes < 2 ^ 63
      → read_all read_managed_at file_start ps ≡ map (λ p. ok (buffer_at bytes file_start p)) ps
  unfolding read_all
  read_all-pieces [] a b tiles sizes low inside fits = refl
  read_all-pieces ((len, position) ∷ ps) a b tiles sizes low inside fits =
      let before = IsTiling-le ps (a + len) b tiles.1 in
      rw
        (
          read_all,
          read-piece len position sizes.0 (omega (arith, tiles.0)) (omega (arith, tiles.0, before))
              fits,
          read_all-pieces ps (a + len) b tiles.1 sizes.1 (omega arith) inside fits,
        )
        refl

-- ===== src/Mount/Plain.antt =====
-- What a read of a file without encryption gives to its callback.
use fsvfs.Base.{
  ℕ, zero, suc, ◌+◌, ◌-◌, ◌%◌, ◌^◌, ◌≤◌, ◌<◌, min, List, [], ◌∷◌, ◌++◌, map, true, ltb, Option,
  none, some, ◌≡◌, refl, sym, ap, ap₂, subst, ◌∙◌, arith, All, take, length,
}
use fsvfs.Encryption.{Buffer}
use fsvfs.Base.Results.{ok}
use fsvfs.Aligned.{stream_read}
use fsvfs.Aligned.Tiles.{IsTiling, IsPiece, stream_read-IsTiling}
use fsvfs.Aligned.Read.{ReadAt, IoError, stream_items}
use fsvfs.Aligned.Streams.{
  slice, slice-slice, length-slice, Holds, buffer_at, read_all-pieces, IsTiling-le,
}
use fsvfs.Mount.Read.{
  DvdbndFile, unpadded_len, deliver, deliver_all, read_plain, collect, Reading, give, ends,
  panicked, finished,
}

take-all : (n : ℕ) (xs : List ℕ) → length xs ≤ n → take n xs ≡ xs
take-all zero [] h = refl
take-all zero (x ∷ xs) h = absurd (omega arith)
take-all (suc n) [] h = refl
take-all (suc n) (x ∷ xs) h = ap (λ t. x ∷ t) (take-all n xs (omega arith))

shown :
    (bytes : List ℕ) (offset : ℕ)
    → 0 < length bytes
    → ◌≡◌ {A = Option (List ℕ × ℕ)}
        (elim bytes as (λ x. Option (List ℕ × ℕ)) [ [] ↦ none | b ∷ bs ↦ some (b ∷ bs, offset) ])
        (some (bytes, offset))
shown [] offset h = absurd (omega arith)
shown (b ∷ bs) offset h = refl

give-chunk :
    (end : ℕ) (buffer : Buffer) (chunk : List ℕ × ℕ) (more : Reading IoError)
    → deliver end buffer ≡ some chunk
    → give end buffer more ≡ record { given = chunk ∷ more.given; ending = more.ending }
give-chunk end buffer chunk more h = rw (give, h) refl

-- Chunks that follow one another in the file, and are not empty.
abbrev pub IsRun : ℕ → List (List ℕ × ℕ) → ℕ → Type 0
IsRun a [] b = a ≡ b
IsRun a ((bytes, offset) ∷ rest) b =
    (offset ≡ a) × (0 < length bytes) × IsRun (a + length bytes) rest b

slice-empty : (bytes : List ℕ) (a b : ℕ) → a ≡ b → slice bytes a b ≡ []
slice-empty bytes a b h = let none_left : b - a ≡ 0 = omega (arith, h) in rw none_left refl

module _ (bytes : List ℕ) (file_start : ℕ) where
  abbrev chunk : ℕ × ℕ → List ℕ × ℕ
  chunk (len, position) = (slice bytes position (position + len), position - file_start)

  deliver-piece :
      (end len position : ℕ)
      → 0 < len
      → position + len ≤ length bytes
      → file_start ≤ position
      → position + len ≤ file_start + end
      → end < 2 ^ 32
      → deliver end (buffer_at bytes file_start (len, position)) ≡ some (chunk (len, position))
  unfolding deliver
  deliver-piece end len position h inside low high small =
      let part = slice bytes position (position + len) in
      let size = length-slice bytes position len inside in
      let file_offset = position - file_start in
      let fits : ltb file_offset (2 ^ 32) ≡ true = ground arith in
      let taken : take (min ((file_offset + length part % 2 ^ 32) % 2 ^ 32) end - file_offset) part
          ≡ part =
        take-all _ part (omega (arith, size)) in
      rw (deliver, fits, taken) (shown part file_offset (omega (arith, size)))

  deliver_all-pieces :
      (end : ℕ) (ps : List (ℕ × ℕ)) (a b : ℕ)
      → IsTiling a ps b
      → All IsPiece ps
      → file_start ≤ a
      → b ≤ length bytes
      → b ≤ file_start + end
      → end < 2 ^ 32
      → deliver_all end (map (λ p. ok (buffer_at bytes file_start p)) ps)
        ≡ record { given = map chunk ps; ending = finished }
  unfolding deliver_all
  deliver_all-pieces end [] a b tiles sizes low inside high small = refl
  deliver_all-pieces end ((len, position) ∷ ps) a b tiles sizes low inside high small =
      let before = IsTiling-le ps (a + len) b tiles.1 in
      let later =
        deliver_all-pieces end ps (a + len) b tiles.1 sizes.1 (omega arith) inside high small in
      let first =
        deliver-piece end len position sizes.0.0 (omega (arith, tiles.0, before))
          (omega (arith, tiles.0)) (omega (arith, tiles.0, before)) small in
      ap (give end (buffer_at bytes file_start (len, position))) later
      ∙ give-chunk end (buffer_at bytes file_start (len, position)) (chunk (len, position)) _ first

  chunks-IsRun :
      (ps : List (ℕ × ℕ)) (a b : ℕ)
      → IsTiling a ps b
      → All IsPiece ps
      → file_start ≤ a
      → b ≤ length bytes
      → IsRun (a - file_start) (map chunk ps) (b - file_start)
        × (collect (map chunk ps) ≡ slice bytes a b)
  unfolding collect
  chunks-IsRun [] a b tiles sizes low inside =
      (ap (λ t. t - file_start) tiles, sym (slice-empty bytes a b tiles))
  chunks-IsRun ((len, position) ∷ ps) a b tiles sizes low inside =
      let before = IsTiling-le ps (a + len) b tiles.1 in
      let (run, same) = chunks-IsRun ps (a + len) b tiles.1 sizes.1 (omega arith) inside in
      let size = length-slice bytes position len (omega (arith, tiles.0, before)) in
      let meet = slice-slice bytes a (a + len) b (omega arith) before in
      (
        (
          ap (λ t. t - file_start) tiles.0,
          omega (arith, size, sizes.0.0),
          subst (λ t. IsRun t (map chunk ps) (b - file_start)) (omega (arith, size)) run,
        ),
        ap₂ (λ s t. s ++ t) (ap (λ t. slice bytes t (t + len)) tiles.0) same ∙ meet,
      )

module _ (read_managed_at : ReadAt) (bytes : List ℕ) (holds : Holds read_managed_at bytes)
    (small : length bytes < 2 ^ 63) (file_start len o n : ℕ)
    (inside : file_start + len ≤ length bytes) (within : o + n ≤ len) (fits : len < 2 ^ 32) where
  -- The stream of a part of a file.
  abbrev delivered : Reading IoError
  delivered = elim (stream_items read_managed_at file_start (file_start + o) n len) [
    | none ↦ ends panicked
    | some items ↦ deliver_all (o + n) items
  ]

  stream_part :
      (ps : List (ℕ × ℕ))
      → stream_read (file_start + o) n file_start len ≡ some ps
      → IsTiling (file_start + o) ps (file_start + o + n)
      → All IsPiece ps
      → delivered ≡ record { given = map (chunk bytes file_start) ps; ending = finished }
  unfolding stream_items
  stream_part ps pieces tiles sizes =
      let items =
        read_all-pieces read_managed_at bytes holds file_start ps (file_start + o)
          (file_start + o + n) tiles sizes (omega arith) (omega arith) small in
      let all =
        deliver_all-pieces bytes file_start (o + n) ps (file_start + o) (file_start + o + n) tiles
          sizes (omega arith) (omega arith) (omega arith) (omega arith) in
      rw (delivered, stream_items, pieces, items, all) refl

  stream_part-collect :
      (chunks : List (List ℕ × ℕ)) × (delivered ≡ record { given = chunks; ending = finished })
      × IsRun o chunks (o + n)
      × (collect chunks ≡ slice bytes (file_start + o) (file_start + o + n))
  stream_part-collect =
      let (ps, pieces, tiles, sizes) =
        stream_read-IsTiling (file_start + o) n file_start len (omega arith) (omega arith)
          (omega arith) (omega arith) in
      let (run, same) =
        chunks-IsRun bytes file_start ps (file_start + o) (file_start + o + n) tiles sizes
          (omega arith) (omega arith) in
      let chunks = map (chunk bytes file_start) ps in
      let last : file_start + o + n - file_start ≡ o + n = omega arith in
      let first : file_start + o - file_start ≡ o = omega arith in
      (
        chunks,
        stream_part ps pieces tiles sizes,
        subst (IsRun o chunks) last
            (subst (λ t. IsRun t chunks (file_start + o + n - file_start)) first run),
        same,
      )

-- The part of a file that a read asks for: its start and its length.
abbrev pub clamped : DvdbndFile → ℕ → ℕ → ℕ × ℕ
clamped file offset requested =
    let file_offset = min offset (unpadded_len file) in
    (file_offset, min requested (unpadded_len file - file_offset))

-- The data of a file lie in an archive that is small enough for signed offsets.
pub record IsStored (file : DvdbndFile) (bytes : List ℕ) : Type 0 where
  pub inside : file.data_offset + file.len ≤ length bytes
  pub small : length bytes < 2 ^ 63
  pub fits : file.len < 2 ^ 32
  pub padded : unpadded_len file ≤ file.len

-- If the system reads the bytes of an archive in which a file without encryption is stored, with at most one buffer of
-- the pool in a call: a read of any number of bytes at any offset comes to its end without an error; what it gives to
-- the callback are parts that are not empty, in order and without gaps, from the offset on, and they are the bytes of
-- the file as far as its unpadded length reaches.
pub read_plain-collect :
    (read_managed_at : ReadAt) (bytes : List ℕ) (file : DvdbndFile) (offset requested : ℕ)
    → Holds read_managed_at bytes
    → IsStored file bytes
    → let (o, n) = clamped file offset requested in
      (chunks : List (List ℕ × ℕ)) × (read_plain read_managed_at file offset requested
        ≡ record { given = chunks; ending = finished })
      × IsRun o chunks (o + n)
      × (collect chunks ≡ slice bytes (file.data_offset + o) (file.data_offset + o + n))
unfolding read_plain
read_plain-collect read_managed_at bytes file offset requested holds stored =
    let (o, n) = clamped file offset requested in
    let inside = stored.inside in
    let small = stored.small in
    let fits = stored.fits in
    let padded = stored.padded in
    let no_wrap : file.data_offset + o ≡ (file.data_offset + o) % 2 ^ 64 = omega arith in
    let (chunks, given, run, same) =
      stream_part-collect read_managed_at bytes holds small file.data_offset file.len o n inside
        (omega arith) fits in
    (
      chunks,
      subst
          (λ t.
            ◌≡◌ {A = Reading IoError}
              (elim (stream_items read_managed_at file.data_offset t n file.len) [
                | none ↦ ends panicked
                | some items ↦ deliver_all (o + n) items
              ])
              (record { given = chunks; ending = finished }))
          no_wrap given,
      run,
      same,
    )

-- ===== src/Aligned/Tiles.antt =====
-- The pieces of a read cover its range, one after another.
use fsvfs.Base.{
  ℕ, zero, suc, ◌+◌, ◌-◌, ◌*◌, ◌/◌, ◌^◌, ◌≤◌, ◌<◌, min, max, List, [], ◌∷◌, ◌++◌, leb, ltb, lt→ltb,
  true, some, ◌≡◌, refl, sym, subst, arith, All,
}
use fsvfs.Aligned.{buffer_len, add64, end_bounds, pieces, body_pieces, stream_read, window_pieces}

-- Pieces that follow one another from a position to an end.
abbrev pub IsTiling : ℕ → List (ℕ × ℕ) → ℕ → Type 0
IsTiling position [] end = position ≡ end
IsTiling position ((len, at) ∷ rest) end = (at ≡ position) × IsTiling (position + len) rest end

-- No piece is empty, or longer than a buffer.
abbrev pub IsPiece : ℕ × ℕ → Type 0
IsPiece piece = (0 < piece.0) × (piece.0 ≤ buffer_len)

pieces-IsTiling :
    (count position end : ℕ)
    → position ≤ end
    → end ≤ position + count * buffer_len
    → position + count * buffer_len < end + buffer_len
    → IsTiling position (pieces count position end) end × All IsPiece (pieces count position end)
unfolding pieces
pieces-IsTiling zero position end order above below = (omega arith, tt)
pieces-IsTiling (suc zero) position end order above below =
    ((refl, omega arith), ((omega arith, omega arith), tt))
pieces-IsTiling (suc (suc count)) position end order above below =
    let (tiles, sizes) =
      pieces-IsTiling (suc count) (position + buffer_len) end (omega arith) (omega arith)
        (omega arith) in
    let next : position + buffer_len ≡ position + min (end - position) buffer_len = omega arith in
    (
      (
        refl,
        subst (λ p. IsTiling p (pieces (suc count) (position + buffer_len) end) end) next tiles,
      ),
      ((omega arith, omega arith), sizes),
    )

body_pieces-IsTiling :
    (start end : ℕ)
    → start ≤ end
    → IsTiling start (body_pieces start end) end × All IsPiece (body_pieces start end)
unfolding body_pieces
body_pieces-IsTiling start end h =
    let count = (end - start + (buffer_len - 1)) / buffer_len in
    pieces-IsTiling count start end h (omega arith) (omega arith)

end_bounds-some :
    (start len file_start file_len : ℕ)
    → start + len < 2 ^ 64
    → file_start + file_len < 2 ^ 64
    → file_start ≤ start
    → start + len ≤ file_start + file_len
    → end_bounds start len file_start file_len ≡ some (start + len, file_start + file_len)
unfolding end_bounds
end_bounds-some start len file_start file_len fits file_fits low high =
    let end : add64 start len ≡ start + len = omega (arith, fits) in
    let file_end : add64 file_start file_len ≡ file_start + file_len = omega (arith, file_fits) in
    let first : leb file_start start ≡ true = ground arith in
    let last : leb (start + len) (file_start + file_len) ≡ true = ground arith in
    rw (end, file_end, first, last) refl

-- For a range inside the file, with no overflow: `stream_read` gives pieces that follow one another from the
-- range's start to its end, none empty and none longer than a buffer.
pub stream_read-IsTiling :
    (start len file_start file_len : ℕ)
    → start + len < 2 ^ 64
    → file_start + file_len < 2 ^ 64
    → file_start ≤ start
    → start + len ≤ file_start + file_len
    → (ps : List (ℕ × ℕ)) × (stream_read start len file_start file_len ≡ some ps)
      × IsTiling start ps (start + len)
      × All IsPiece ps
unfolding stream_read
stream_read-IsTiling start len file_start file_len fits file_fits low high =
    let (tiles, sizes) = body_pieces-IsTiling start (start + len) (omega arith) in
    (
      body_pieces start (start + len),
      rw (end_bounds-some start len file_start file_len fits file_fits low high) refl,
      tiles,
      sizes,
    )

IsTiling-append :
    (ps qs : List (ℕ × ℕ)) (a b c : ℕ) → IsTiling a ps b → IsTiling b qs c → IsTiling a (ps ++ qs) c
IsTiling-append [] qs a b c h k = subst (λ t. IsTiling t qs c) (sym h) k
IsTiling-append (p ∷ ps) qs a b c h k = (h.0, IsTiling-append ps qs (a + p.0) b c h.1 k)

-- Under the same conditions, with no overflow behind the range: the pieces with their windows follow one
-- another from a window before the range to a window behind it, as far as the file reaches.
pub window_pieces-IsTiling :
    (window start len file_start file_len : ℕ)
    → start + len + window < 2 ^ 64
    → file_start + file_len < 2 ^ 64
    → file_start ≤ start
    → start + len ≤ file_start + file_len
    → (ps : List (ℕ × ℕ)) × (window_pieces window start len file_start file_len ≡ some ps)
      × IsTiling
          (max (start - window) file_start)
          ps
          (min (start + len + window) (file_start + file_len))
unfolding window_pieces
window_pieces-IsTiling window start len file_start file_len fits file_fits low high =
    let before = max (start - window) file_start in
    let end = start + len in
    let stop = min (end + window) (file_start + file_len) in
    let tail : List (ℕ × ℕ) = (stop - end, end) ∷ [] in
    let (tiles, sizes) = body_pieces-IsTiling start end (omega arith) in
    let behind : ltb (end + window) (2 ^ 64) ≡ true = lt→ltb (end + window) (2 ^ 64) fits in
    let reached : before + (start - before) ≡ start = omega arith in
    let last : IsTiling end tail stop = (refl, omega arith) in
    (
      (start - before, before) ∷ (body_pieces start end ++ tail),
      rw (end_bounds-some start len file_start file_len (omega arith) file_fits low high, behind)
          refl,
      (
        refl,
        subst (λ p. IsTiling p (body_pieces start end ++ tail) stop) (sym reached)
            (IsTiling-append (body_pieces start end) tail start end stop tiles last),
      ),
    )

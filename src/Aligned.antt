-- ===== src/Aligned.antt =====
-- src/dvdbnd/filesystem/aligned.rs: the pieces in which a range of a file is read. A piece is its length
-- and its position. `none` is a panic. The reads of the pieces are in Aligned/Read.
pub mod Tiles
pub mod Read
pub mod Streams
pub mod Pool
pub mod Buffers
mod Tests
use fsvfs.Base.{
  ℕ, zero, suc, ◌+◌, ◌-◌, ◌/◌, ◌%◌, ◌^◌, min, max, List, [], ◌∷◌, ◌++◌, leb, ltb, if◌then◌else◌,
  Option, none, some, ◌>>=◌,
}

-- `BUFFER_LEN`: 32 KiB.
abbrev pub buffer_len : ℕ
buffer_len = 32768

abbrev pub add64 : ℕ → ℕ → ℕ
add64 a b = (a + b) % 2 ^ 64

unfoldable pub end_bounds : ℕ → ℕ → ℕ → ℕ → Option (ℕ × ℕ)
end_bounds start len file_start file_len =
    let end = add64 start len in
    let file_end = add64 file_start file_len in
    if leb file_start start then (if leb end file_end then some (end, file_end) else none) else none

-- `(start..end).step_by(BUFFER_LEN)`, of which there are so many, with the length of each piece.
unfoldable pub pieces : ℕ → ℕ → ℕ → List (ℕ × ℕ)
pieces zero position end = []
pieces (suc count) position end =
    (min (end - position) buffer_len, position) ∷ pieces count (position + buffer_len) end

unfoldable pub body_pieces : ℕ → ℕ → List (ℕ × ℕ)
unfolding pieces
body_pieces start end = pieces ((end - start + (buffer_len - 1)) / buffer_len) start end

-- `stream_read`.
unfoldable pub stream_read : ℕ → ℕ → ℕ → ℕ → Option (List (ℕ × ℕ))
unfolding end_bounds body_pieces
stream_read start len file_start file_len =
    end_bounds start len file_start file_len >>= λ bounds. some (body_pieces start bounds.0)

-- `u64::strict_add`.
abbrev pub strict_add : ℕ → ℕ → Option ℕ
strict_add a b = if ltb (a + b) (2 ^ 64) then some (a + b) else none

-- The pieces of `stream_read_windows` where `stream_read_one_window` declined: a window before the
-- range and one behind it, as far as the file reaches. `window` is `WINDOW_SIZE`.
unfoldable pub window_pieces : ℕ → ℕ → ℕ → ℕ → ℕ → Option (List (ℕ × ℕ))
unfolding end_bounds body_pieces
window_pieces window start len file_start file_len =
    end_bounds start len file_start file_len >>= λ bounds. strict_add bounds.0 window >>= λ behind.
    let before = max (start - window) file_start in
    some (
      (start - before, before)
      ∷ (body_pieces start bounds.0 ++ (min behind bounds.1 - bounds.0, bounds.0) ∷ []))

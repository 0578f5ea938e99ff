-- ===== src/Aligned/Read.antt =====
-- src/dvdbnd/filesystem/aligned.rs: the buffers of a stream. The read of the system is a parameter: it has a length
-- and a position, and its result is an error, or no buffer, or one. A stream is the list of its items.
use fsvfs.Base.{
  ℕ, zero, suc, ◌+◌, ◌-◌, ◌*◌, ◌^◌, min, List, [], ◌∷◌, ltb, leb, if◌then◌else◌, Option, none, some,
  ◌>>=◌, take, drop, length,
}
use fsvfs.Base.Results.{Result, ok, err}
use fsvfs.Encryption.{ℤ, pos, negsuc, Buffer}
use fsvfs.Aligned.{buffer_len, end_bounds, stream_read, window_pieces}

-- `io::Error`; the errors of the system have a number.
pub data IoError : Type 0 where
  invalid_input unexpected_eof : IoError
  other : ℕ → IoError

abbrev pub ReadAt : Type 0
ReadAt = ℕ → ℕ → Result IoError (Option (List ℕ))

-- `u64::checked_signed_diff`.
unfoldable pub checked_signed_diff : ℕ → ℕ → Option ℤ
checked_signed_diff a b =
    if leb b a
    then (if ltb (a - b) (2 ^ 63) then some (pos (a - b)) else none)
    else (if leb (b - a) (2 ^ 63) then some (negsuc (b - a - 1)) else none)

module _ (read_managed_at : ReadAt) (file_start : ℕ) where
  -- `read`; `read_dyn` gives the same buffer in a box.
  unfoldable pub read : ℕ → ℕ → Option (Result IoError Buffer)
  unfolding checked_signed_diff
  read zero position = none
  read (suc n) position = elim (checked_signed_diff position file_start) [
    | none ↦ some (err invalid_input)
    | some file_offset ↦ elim (read_managed_at (suc n) position) [
      | err e ↦ some (err e)
      | ok buf ↦ buf >>= λ bytes. some (
          if leb (suc n) (length bytes)
          then ok (record { bytes = bytes; offset = file_offset })
          else err unexpected_eof)
    ]
  ]

  -- `filter_map` of the pieces.
  unfoldable pub read_all : List (ℕ × ℕ) → List (Result IoError Buffer)
  unfolding read
  read_all [] = []
  read_all ((len, position) ∷ rest) =
      let more = read_all rest in elim (read len position) [ none ↦ more | some item ↦ item ∷ more ]

  -- The items of `stream_read`.
  unfoldable pub stream_items : ℕ → ℕ → ℕ → Option (List (Result IoError Buffer))
  unfolding stream_read read_all
  stream_items start len file_len =
      stream_read start len file_start file_len >>= λ ps. some (read_all ps)

-- `i64 + i64` of an offset and a length.
abbrev pub add_offset : ℤ → ℕ → ℤ
add_offset (pos n) k = pos (n + k)
add_offset (negsuc n) k = if leb k n then negsuc (n - k) else pos (k - n - 1)

-- The two splits of one buffer into head, body and tail; `none` is the panic of `split_at_mut`.
unfoldable pub split_window : ℕ → ℕ → Buffer → Option (List (Result IoError Buffer))
split_window window len buf =
    let rest = drop window buf.bytes in
    let body_offset = add_offset buf.offset window in
    if ltb (length buf.bytes) window
    then none
    else (if ltb (length rest) len
        then none
        else some (
            ok (record { bytes = take window buf.bytes; offset = buf.offset })
            ∷ ok (record { bytes = take len rest; offset = body_offset })
            ∷ ok (record { bytes = drop len rest; offset = add_offset body_offset len })
            ∷ []))

module _ (read_managed_at : ReadAt) (file_start : ℕ) where
  -- `stream_read_one_window`: whether it takes the range, and then its items.
  unfoldable pub one_window : ℕ → ℕ → ℕ → ℕ → Option (Option (List (Result IoError Buffer)))
  unfolding read split_window
  one_window window start len file_end =
      if ltb (buffer_len - window * 2) len
      then none
      else (if ltb start window
          then none
          else (let position = start - window in
              let end = min (min (start + len + window) (2 ^ 64 - 1)) file_end in
              some (elim (read read_managed_at file_start (end - position) position) [
                | none ↦ some []
                | some res ↦ elim res [
                  | err e ↦ some (err e ∷ [])
                  | ok buf ↦ split_window window len buf
                ]
              ])))

  -- The items of `stream_read_windows`.
  unfoldable pub window_items : ℕ → ℕ → ℕ → ℕ → Option (List (Result IoError Buffer))
  unfolding end_bounds one_window window_pieces read_all
  window_items window start len file_len = end_bounds start len file_start file_len >>= λ bounds.
      elim (one_window window start len bounds.1) [
        | some items ↦ items
        | none ↦ window_pieces window start len file_start file_len >>= λ ps.
            some (read_all read_managed_at file_start ps)
      ]

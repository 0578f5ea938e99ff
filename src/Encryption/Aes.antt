-- ===== src/Encryption/Aes.antt =====
-- src/dvdbnd/filesystem/encryption.rs: `Aes128::decrypt`. The decryption of one block of the crate `aes`, with the key,
-- is a parameter. Numbers of 32 bits wrap.
use fsvfs.Base.{
  ℕ, zero, suc, ◌+◌, ◌-◌, ◌/◌, ◌%◌, ◌^◌, ltb, leb, min, bit_and, List, [], ◌∷◌, ◌++◌, if◌then◌else◌,
  take, drop, length,
}
use fsvfs.Encryption.{Ciphertext}
use fsvfs.Encryption.Store.{Range, block_len, end_offset}

-- `ranges[partition_point(..)..]`: without the ranges that end before an offset.
unfoldable pub ranges_from : ℕ → List Range → List Range
ranges_from offset [] = []
ranges_from offset (r ∷ rs) =
    let rest = ranges_from offset rs in if leb (end_offset r) offset then rest else r ∷ rs

-- The start of the first block of a range that reaches behind an offset.
abbrev pub block_start : ℕ → ℕ → ℕ
block_start offset start =
    if leb start offset then start + bit_and (offset - start) (2 ^ 32 - block_len) else start

module _ (decrypt_block : List ℕ → List ℕ) where
  -- `as_chunks_mut` and the loop over the blocks, so many of them, and the rest with bytes of the tail.
  unfoldable pub decrypt_chunks : ℕ → List ℕ → List ℕ → List ℕ
  decrypt_chunks zero tail [] = []
  decrypt_chunks zero tail (b ∷ rest) =
      let mid = length (b ∷ rest) in
      take mid (decrypt_block ((b ∷ rest) ++ take (block_len - mid) tail))
  decrypt_chunks (suc n) tail bytes =
      decrypt_block (take block_len bytes) ++ decrypt_chunks n tail (drop block_len bytes)

  abbrev pub decrypt_slice : List ℕ → List ℕ → List ℕ
  decrypt_slice tail bytes = decrypt_chunks (length bytes / block_len) tail bytes

module _ (decrypt_block : List ℕ → List ℕ) (head tail : List ℕ) (file_offset : ℕ) where
  -- A block that starts before the body: the start behind it, as the source computes it, and the body.
  unfoldable pub decrypt_first : ℕ → List ℕ → ℕ × List ℕ
  decrypt_first start_offset bytes =
      let left = (file_offset - start_offset) % block_len in
      let left_len = block_len - left in
      let mid_len = min left_len (length bytes) in
      let right = left + mid_len in
      let block = drop left_len head ++ (take mid_len bytes ++ take (block_len - right) tail) in
      (file_offset + left_len, take mid_len (drop left (decrypt_block block)) ++ drop mid_len bytes)

  -- The body of the loop over the ranges, behind its break.
  unfoldable pub decrypt_range : Range → List ℕ → List ℕ
  unfolding decrypt_first decrypt_chunks
  decrypt_range range bytes =
      let start_offset = block_start file_offset range.start_offset in
      let (start, body) =
        if ltb start_offset file_offset
        then decrypt_first start_offset bytes
        else (start_offset - file_offset, bytes) in
      let end = min (length bytes) (end_offset range - file_offset) in
      if leb end start
      then body
      else take start body
        ++ (decrypt_slice decrypt_block tail (take (end - start) (drop start body))
            ++ drop end body)

  unfoldable pub decrypt_ranges : List Range → List ℕ → List ℕ
  unfolding decrypt_range
  decrypt_ranges [] bytes = bytes
  decrypt_ranges (range ∷ ranges) bytes =
      let more = decrypt_ranges ranges in
      if leb ((file_offset + length bytes % 2 ^ 32) % 2 ^ 32) range.start_offset
      then bytes
      else more (decrypt_range range bytes)

module _ (decrypt_block : List ℕ → List ℕ) where
  -- `Aes128::decrypt` with the ranges that were found: the body afterwards.
  unfoldable pub decrypt : List Range → Ciphertext → List ℕ
  unfolding ranges_from decrypt_ranges
  decrypt ranges text =
      decrypt_ranges decrypt_block text.head text.tail text.file_offset
        (ranges_from text.file_offset ranges) text.body

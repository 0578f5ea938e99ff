-- ===== src/Encryption/Store.antt =====
-- src/dvdbnd/filesystem/encryption.rs: the storing of an entry's encryption data, and its loading for a decryption. A
-- store is the list of its bytes, and a header is one of its only variant, whose discriminant is 0.
use fsvfs.Base.{
  ℕ, zero, suc, ◌+◌, ◌-◌, ◌*◌, ◌/◌, ◌%◌, ◌^◌, ◌==◌, ltb, leb, ◌||◌, not, Bool, List, [], ◌∷◌, ◌++◌,
  if◌then◌else◌, Option, none, some, take, drop, length,
}
use fsvfs.Base.Sorting.{sort_by}
use fsvfs.Base.Results.{Result, ok, err, ◌>>=◌}
use fsvfs.Unaligned.{Endian, new, get, try_from}
use fsvfs.Bhd5.Entry.{FileEntry, file_offset, file_size}
use fsvfs.Bhd5.Buckets.{Encryption, EncryptionRange}
use fsvfs.Encryption.{try_from_index, into_index}

pub data StoreError : Type 0 where
  too_many_ranges : StoreError
  bad_range : ℕ → ℕ → StoreError
  oob_range : ℕ → ℕ → ℕ → ℕ → StoreError

-- `Range`, with the numbers that its fields hold.
pub record Range : Type 0 where
  pub start_offset : ℕ
  pub block_count : ℕ

abbrev pub block_len : ℕ
block_len = 16

-- `Range::end_offset`, in 32 bits.
abbrev pub end_offset : Range → ℕ
end_offset r = (r.start_offset + r.block_count * block_len % 2 ^ 32) % 2 ^ 32

-- The loop's body: no range, one, or an error.
unfoldable pub store_range : FileEntry → EncryptionRange → Result StoreError (Option Range)
store_range entry r =
    let len = (r.end_offset + 2 ^ 64 - r.start_offset) % 2 ^ 64 in
    if len == 0
    then ok none
    else (if ltb r.end_offset r.start_offset || not (len % block_len == 0)
        then err (bad_range r.start_offset r.end_offset)
        else (if ltb (file_size entry - len) r.start_offset
            then err (oob_range r.start_offset r.end_offset (file_offset entry) (file_size entry))
            else ok (
                some (record {
                  start_offset = r.start_offset % 2 ^ 32;
                  block_count = len % 2 ^ 32 / block_len;
                }))))

abbrev pub cons_some : {A : Type 0} → Option A → List A → List A
cons_some none xs = xs
cons_some (some x) xs = x ∷ xs

unfoldable pub store_ranges : FileEntry → List EncryptionRange → Result StoreError (List Range)
unfolding store_range
store_ranges entry [] = ok []
store_ranges entry (r ∷ rs) =
    store_range entry r >>= λ x. store_ranges entry rs >>= λ xs. ok (cons_some x xs)

-- `sort_by_key(end_offset)`, which is stable.
abbrev pub ends_before : Range → Range → Bool
ends_before x y = leb (end_offset x) (end_offset y)

unfoldable pub sort_ranges : List Range → List Range
unfolding sort_by
sort_ranges = sort_by ends_before

-- A store is written and read with `unaligned::U24` and `U32`, whose order of bytes is that of the machine.
module _ (o : Endian) where
  -- `as_bytes` of ranges, and of a header with a key and a count of three bytes.
  unfoldable pub ranges_bytes : List Range → List ℕ
  unfolding new
  ranges_bytes [] = []
  ranges_bytes (r ∷ rs) = new o 4 4 r.start_offset ++ (new o 4 4 r.block_count ++ ranges_bytes rs)

  abbrev pub header_bytes : List ℕ → List ℕ → List ℕ
  header_bytes key count = 0 ∷ (key ++ count)

  -- `U24::try_from` of a `u32`.
  unfoldable pub range_count : ℕ → Result StoreError (List ℕ)
  unfolding try_from
  range_count n =
      if ltb n (2 ^ 32)
      then elim (try_from o 3 4 n) [ none ↦ err too_many_ranges | some bytes ↦ ok bytes ]
      else err too_many_ranges

  abbrev pub index_or : ℕ → Result StoreError ℕ
  index_or index = elim (try_from_index index) [ none ↦ err too_many_ranges | some id ↦ ok id ]

  -- `store_encryption`: the id and the store afterwards.
  unfoldable pub store_encryption : FileEntry → Encryption → List ℕ → Result StoreError (ℕ × List ℕ)
  unfolding store_ranges sort_ranges range_count try_from_index ranges_bytes
  store_encryption entry encryption out = store_ranges entry encryption.ranges >>= λ found.
      (let ranges = sort_ranges found in
        range_count (length ranges) >>= λ count. index_or (length out) >>= λ id.
        ok (id, out ++ (header_bytes encryption.key count ++ ranges_bytes ranges)))

  -- `ref_from_prefix_with_elems` of ranges.
  unfoldable pub load_ranges : ℕ → List ℕ → Option (List Range)
  unfolding get
  load_ranges zero bytes = some []
  load_ranges (suc n) bytes =
      let more = load_ranges n (drop 8 bytes) in
      if ltb (length bytes) 8 then none else elim more [
        | none ↦ none
        | some rs ↦ some (
            record {
              start_offset = get o 4 4 (take 4 bytes);
              block_count = get o 4 4 (take 4 (drop 4 bytes));
            }
            ∷ rs)
      ]

  -- What `EncryptionStore::decrypt` finds in a store behind an id: the key and the ranges.
  unfoldable pub load : ℕ → List ℕ → Option (List ℕ × List Range)
  unfolding get load_ranges
  load id store =
      let index = into_index id in
      if leb index (length store)
      then (let at = drop index store in
          if ltb (length at) 20 then none else elim at [
            | [] ↦ none
            | tag ∷ aes ↦
                if tag == 0
                then elim (load_ranges (get o 3 4 (take 3 (drop 16 aes))) (drop 19 aes)) [
                  | none ↦ none
                  | some ranges ↦ some (take 16 aes, ranges)
                ]
                else none
          ])
      else none

-- ===== src/Encryption/Loaded.antt =====
-- What was stored is what is loaded.
use fsvfs.Base.{
  ℕ, suc, ◌+◌, ◌^◌, ◌<◌, ltb, ltb→lt, leb, true, false, Bool-cases, List, [], ◌∷◌, ◌++◌,
  Option-cases, some, ◌≡◌, refl, sym, ap, ap₂, subst, ◌∙◌, inl, inr, arith, All, take, drop, length,
  length-append, take-length-append, drop-length-append, append_assoc,
}
use fsvfs.Base.Results.{ok, >>=-eq-ok, ok_inj}
use fsvfs.Unaligned.{Endian, new, get}
use fsvfs.Unaligned.Laws.{get-new, length-new, try_from_lem}
use fsvfs.Bhd5.Entry.{FileEntry}
use fsvfs.Bhd5.Buckets.{Encryption}
use fsvfs.Aligned.Streams.{drop-drop}
use fsvfs.Encryption.{try_from_index, into_index}
use fsvfs.Encryption.Ids.{into_index-try_from_index}
use fsvfs.Encryption.Ranges.{IsNarrow, IsU64, AreStored, sort_ranges-AreStored}
use fsvfs.Encryption.Store.{
  Range, store_ranges, sort_ranges, ranges_bytes, header_bytes, range_count, index_or,
  store_encryption, load_ranges, load,
}

two_fields :
    (a c x : List ℕ)
    → length a ≡ 4
    → length c ≡ 4
    → let bytes = a ++ (c ++ x) in
      (ltb (length bytes) 8 ≡ false)
      × (take 4 bytes ≡ a)
      × (take 4 (drop 4 bytes) ≡ c)
      × (drop 8 bytes ≡ x)
two_fields a c x la lc =
    let size : length (a ++ (c ++ x)) ≡ 8 + length x =
      omega (arith, length-append a (c ++ x), length-append c x, la, lc) in
    let behind = drop-length-append a (c ++ x) 4 (sym la) in
    (
      ground (arith, size),
      take-length-append a (c ++ x) 4 (sym la),
      ap (take 4) behind ∙ take-length-append c x 4 (sym lc),
      sym (drop-drop 4 4 8 (a ++ (c ++ x)) refl)
          ∙ ap (drop 4) behind
          ∙ drop-length-append c x 4 (sym lc),
    )

module _ (o : Endian) where
  get-new_u32 : (v : ℕ) → v < 2 ^ 32 → get o 4 4 (new o 4 4 v) ≡ v
  get-new_u32 v h = get-new o 4 0 v ∙ omega (arith, h)

  load_ranges-suc :
      (n : ℕ) (bytes : List ℕ) (rs : List Range)
      → ltb (length bytes) 8 ≡ false
      → load_ranges o n (drop 8 bytes) ≡ some rs
      → load_ranges o (suc n) bytes
        ≡ some (
            record {
              start_offset = get o 4 4 (take 4 bytes);
              block_count = get o 4 4 (take 4 (drop 4 bytes));
            }
            ∷ rs)
  unfolding load_ranges
  load_ranges-suc n bytes rs h k = rw (load_ranges, h, k) refl

  load_ranges-ranges_bytes :
      (rs : List Range) (more : List ℕ)
      → All IsNarrow rs
      → load_ranges o (length rs) (ranges_bytes o rs ++ more) ≡ some rs
  unfolding load_ranges ranges_bytes
  load_ranges-ranges_bytes [] more h = refl
  load_ranges-ranges_bytes (r ∷ rs) more h =
      let a = new o 4 4 r.start_offset in
      let c = new o 4 4 r.block_count in
      let whole : (a ++ (c ++ ranges_bytes o rs)) ++ more
          ≡ a ++ (c ++ (ranges_bytes o rs ++ more)) =
        append_assoc a (c ++ ranges_bytes o rs) more
        ∙ ap (λ t. a ++ t) (append_assoc c (ranges_bytes o rs) more) in
      let (enough, first, second, behind) =
        two_fields a c (ranges_bytes o rs ++ more) (length-new o 4 0 r.start_offset)
          (length-new o 4 0 r.block_count) in
      let bytes = a ++ (c ++ (ranges_bytes o rs ++ more)) in
      let loaded =
        load_ranges-suc (length rs) bytes rs enough
          (ap (load_ranges o (length rs)) behind ∙ load_ranges-ranges_bytes rs more h.1) in
      let start = ap (get o 4 4) first ∙ get-new_u32 r.start_offset h.0.0 in
      let count = ap (get o 4 4) second ∙ get-new_u32 r.block_count h.0.1 in
      ap (load_ranges o (suc (length rs))) whole
      ∙ loaded
      ∙ ap₂ (λ s b. some (record { start_offset = s; block_count = b } ∷ rs)) start count

  range_count-ok :
      (n : ℕ) (bytes : List ℕ) → range_count o n ≡ ok bytes → (bytes ≡ new o 3 4 n) × (n < 256 ^ 3)
  unfolding range_count
  range_count-ok n bytes h = elim (Bool-cases (ltb n (2 ^ 32))) [
    | inr large ↦ absurd (cc (rw (range_count, large) at h))
    | inl fits ↦ elim (Bool-cases (ltb n (256 ^ 3))) [
      | inr large ↦ absurd (cc (rw (range_count, fits, try_from_lem o 3 1 n, large) at h))
      | inl small ↦ (
        sym (ok_inj (new o 3 4 n) bytes (rw (range_count, fits, try_from_lem o 3 1 n, small) at h)),
        ltb→lt n (256 ^ 3) small,
      )
    ]
  ]

  -- A record in a store, at its index.
  load-at :
      (id : ℕ) (store key count rest : List ℕ) (ranges : List Range)
      → leb (into_index id) (length store) ≡ true
      → drop (into_index id) store ≡ header_bytes o key count ++ rest
      → length key ≡ 16
      → length count ≡ 3
      → load_ranges o (get o 3 4 count) rest ≡ some ranges
      → load o id store ≡ some (key, ranges)
  unfolding load
  load-at id store key count rest ranges inside at len_key len_count loaded =
      let aes = (key ++ count) ++ rest in
      let size : ltb (length (header_bytes o key count ++ rest)) 20 ≡ false =
        ground
          (arith, length-append (key ++ count) rest, length-append key count, len_key, len_count) in
      let split : aes ≡ key ++ (count ++ rest) = append_assoc key count rest in
      let taken : take 16 aes ≡ key =
        ap (take 16) split ∙ take-length-append key (count ++ rest) 16 (sym len_key) in
      let behind : drop 16 aes ≡ count ++ rest =
        ap (drop 16) split ∙ drop-length-append key (count ++ rest) 16 (sym len_key) in
      let counted : take 3 (drop 16 aes) ≡ count =
        ap (take 3) behind ∙ take-length-append count rest 3 (sym len_count) in
      let left : drop 19 aes ≡ rest =
        sym (drop-drop 16 3 19 aes refl)
        ∙ ap (drop 3) behind
        ∙ drop-length-append count rest 3 (sym len_count) in
      rw (load, inside, at, size, counted, left, loaded, taken) refl

  load-record :
      (id : ℕ) (out key count more : List ℕ) (ranges : List Range)
      → into_index id ≡ length out
      → length key ≡ 16
      → count ≡ new o 3 4 (length ranges)
      → length ranges < 256 ^ 3
      → All IsNarrow ranges
      → load o id ((out ++ (header_bytes o key count ++ ranges_bytes o ranges)) ++ more)
        ≡ some (key, ranges)
  load-record id out key count more ranges index len_key same_count few narrow =
      let written = header_bytes o key count ++ ranges_bytes o ranges in
      let store = (out ++ written) ++ more in
      let whole : store ≡ out ++ (header_bytes o key count ++ (ranges_bytes o ranges ++ more)) =
        append_assoc out written more
        ∙ ap (λ t. out ++ t) (append_assoc (header_bytes o key count) _ more) in
      let inside : leb (into_index id) (length store) ≡ true =
        ground (arith, index, length-append (out ++ written) more, length-append out written) in
      let at = ap (drop (into_index id)) whole ∙ drop-length-append out _ (into_index id) index in
      let number : get o 3 4 count ≡ length ranges =
        ap (get o 3 4) same_count ∙ get-new o 3 1 (length ranges) ∙ omega (arith, few) in
      load-at id store key count (ranges_bytes o ranges ++ more) ranges inside at len_key
        (ap length same_count ∙ length-new o 3 1 (length ranges))
        (ap (λ n. load_ranges o n (ranges_bytes o ranges ++ more)) number
          ∙ load_ranges-ranges_bytes ranges more narrow)

  index_or-ok : (index id : ℕ) → index_or o index ≡ ok id → try_from_index index ≡ some id
  index_or-ok index id h = elim (Option-cases (try_from_index index)) [
    | inl none_left ↦ absurd (cc (rw (index_or, none_left) at h))
    | inr (x, found) ↦ found ∙ ap some (ok_inj x id (rw (index_or, found) at h))
  ]

-- Encryption data with a key of 16 bytes and bounds of 64 bits, once they are stored: whatever is stored behind them, their id loads the key
-- and some ranges, sorted by their end. These are, in some order, one for each range of the data that is not empty: it
-- has whole blocks, from the range's start to its end modulo 2^32, and it reaches over the end of the entry's file only
-- if it starts the file.
pub load-store_encryption :
    (o : Endian) (entry : FileEntry) (encryption : Encryption) (out : List ℕ) (id : ℕ)
    (store more : List ℕ)
    → store_encryption o entry encryption out ≡ ok (id, store)
    → length encryption.key ≡ 16
    → All IsU64 encryption.ranges
    → (ranges : List Range) × AreStored entry encryption.ranges ranges
      × (load o id (store ++ more) ≡ some (encryption.key, ranges))
unfolding store_encryption
load-store_encryption o entry encryption out id store more h len_key u64 =
    let (found, ranges_found, e₁) =
      >>=-eq-ok (store_ranges entry encryption.ranges) _ (id, store) h in
    let ranges = sort_ranges found in
    let (count, counted, e₂) = >>=-eq-ok (range_count o (length ranges)) _ (id, store) e₁ in
    let (id', indexed, made) = >>=-eq-ok (index_or o (length out)) _ (id, store) e₂ in
    let index =
      into_index-try_from_index (length out) id' (index_or-ok o (length out) id' indexed) in
    let (same_count, few) = range_count-ok o (length ranges) count counted in
    let (are_stored, narrow) =
      sort_ranges-AreStored entry encryption.ranges found u64 ranges_found in
    (
      ranges,
      are_stored,
      subst (λ t. load o t.0 (t.1 ++ more) ≡ some (encryption.key, ranges))
          (ok_inj (id', _) (id, store) made)
          (load-record o id' out encryption.key count more ranges index len_key same_count few
            narrow),
    )

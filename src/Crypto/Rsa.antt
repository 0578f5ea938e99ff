-- ===== src/Crypto/Rsa.antt =====
-- src/crypto/rsa.rs: `RsaKey`. The power of the crate `malachite`, `mod_pow`, is a parameter. A slice that is written
-- is the list of its bytes afterwards; what is left of a slice that is read is a second result.
use fsvfs.Base.{
  ℕ, zero, suc, ◌+◌, ◌-◌, ◌*◌, ◌%◌, ◌^◌, ◌==◌, ltb, leb, List, [], ◌∷◌, ◌++◌, if◌then◌else◌, Option,
  none, some, take, drop, length,
}
use fsvfs.Base.Results.{Result, ok, err, ◌>>=◌}
use fsvfs.Crypto.Naturals.{natural_from_bytes_be, natural_to_bytes_be}

-- `len` is `NonZero`.
pub record RsaKey : Type 0 where
  pub n : ℕ
  pub e : ℕ
  pub len : ℕ

pub data DecodeError : Type 0 where
  malformed_der : DecodeError

pub data DecryptError : Type 0 where
  bad_size : ℕ → DecryptError
  not_reduced : DecryptError

abbrev pub der_int : ℕ
der_int = 0x02

abbrev pub der_seq : ℕ
der_seq = 0x30

abbrev pub in_block_len : RsaKey → ℕ
in_block_len key = key.len

abbrev pub out_block_len : RsaKey → ℕ
out_block_len key = key.len - 1

-- `split_off(..n)` of a slice: the part and the rest.
unfoldable pub split_off : ℕ → List ℕ → Option (List ℕ × List ℕ)
split_off n der = if leb n (length der) then some (take n der, drop n der) else none

-- `(length << 8) | byte` over some bytes.
unfoldable pub long_length : ℕ → List ℕ → ℕ
long_length len [] = len
long_length len (b ∷ bs) = long_length (len * 256 % 2 ^ 64 + b) bs

unfoldable pub decode_der_length : List ℕ → Option (ℕ × List ℕ)
unfolding split_off long_length
decode_der_length [] = none
decode_der_length (first ∷ der) =
    if ltb first 0x80 then some (first, der) else elim (split_off (first % 0x80) der) [
      | none ↦ none
      | some (bytes, rest) ↦ some (long_length 0 bytes, rest)
    ]

-- The first zero byte is cut off. A length of 0 wraps there.
unfoldable pub without_zero : ℕ → List ℕ → Option (List ℕ × List ℕ)
unfolding split_off
without_zero len [] = split_off len []
without_zero len (b ∷ der) =
    if b == 0 then split_off ((len + 2 ^ 64 - 1) % 2 ^ 64) der else split_off len (b ∷ der)

unfoldable pub decode_der_integer : List ℕ → Option (List ℕ × List ℕ)
unfolding decode_der_length without_zero
decode_der_integer [] = none
decode_der_integer (first ∷ der) =
    if first == der_int
    then elim (decode_der_length der) [ none ↦ none | some (len, rest) ↦ without_zero len rest ]
    else none

abbrev pub ok_or_der {ℓ} : {A : Type ℓ} → Option A → Result DecodeError A
ok_or_der none = err malformed_der
ok_or_der (some a) = ok a

unfoldable pub decode_from_der : List ℕ → Result DecodeError RsaKey
unfolding decode_der_length decode_der_integer natural_from_bytes_be
decode_from_der [] = err malformed_der
decode_from_der (first ∷ der) =
    if first == der_seq
    then (ok_or_der (decode_der_length der) >>= λ r₁. ok_or_der (decode_der_integer r₁.1) >>= λ r₂.
        ok_or_der (decode_der_integer r₂.1) >>= λ r₃.
        (if length r₂.0 == 0
          then err malformed_der
          else ok (record {
            n = natural_from_bytes_be r₂.0;
            e = natural_from_bytes_be r₃.0;
            len = length r₂.0;
          })))
    else err malformed_der

module _ (mod_pow : ℕ → ℕ → ℕ → ℕ) (key : RsaKey) where
  -- The block's number, decrypted into an output of a length.
  unfoldable pub decrypt_number : ℕ → ℕ → Result DecryptError (List ℕ)
  unfolding natural_to_bytes_be
  decrypt_number out_len c =
      if leb key.n c
      then err not_reduced
      else ok (natural_to_bytes_be out_len (mod_pow c key.e key.n))

  -- `decrypt_block_in` an output of a length.
  unfoldable pub decrypt_block_in : List ℕ → ℕ → Result DecryptError (List ℕ)
  unfolding decrypt_number natural_from_bytes_be
  decrypt_block_in block out_len =
      if length block == in_block_len key
      then decrypt_number out_len (natural_from_bytes_be block)
      else err (bad_size (in_block_len key))

  -- The loop of `decrypt_blocks_in_place`, on fuel: the tail behind the last output and the bytes afterwards.
  unfoldable pub decrypt_loop : ℕ → ℕ → ℕ → List ℕ → Result DecryptError (ℕ × List ℕ)
  unfolding decrypt_number natural_from_bytes_be
  decrypt_loop zero in_block_tail out_block_tail blocks = ok (out_block_tail, blocks)
  decrypt_loop (suc fuel) in_block_tail out_block_tail blocks =
      let more = decrypt_loop fuel in
      if leb in_block_tail (length blocks)
      then (decrypt_number (out_block_len key) (
            natural_from_bytes_be
              (take (in_block_len key) (drop (in_block_tail - in_block_len key) blocks)))
          >>= λ m. more (in_block_tail + in_block_len key) (out_block_tail + out_block_len key) (
              take (out_block_tail - out_block_len key) blocks
              ++ (m ++ drop out_block_tail blocks)))
      else ok (out_block_tail, blocks)

  -- `decrypt_blocks_in_place`: the length of the output, and the bytes. The fuel is one for each byte and one.
  unfoldable pub decrypt_blocks_in_place : List ℕ → Result DecryptError (ℕ × List ℕ)
  unfolding decrypt_loop
  decrypt_blocks_in_place blocks =
      if length blocks % in_block_len key == 0
      then (decrypt_loop (suc (length blocks)) (in_block_len key) (out_block_len key) blocks
          >>= λ r. ok (r.0 - out_block_len key, r.1))
      else err (bad_size (in_block_len key))

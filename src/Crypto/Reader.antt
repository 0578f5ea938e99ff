-- ===== src/Crypto/Reader.antt =====
-- src/crypto/rsa.rs: `RsaDecryptor`, the reader that decrypts a stream. `out` is what is left of the decrypted block, and
-- `reader` is what is left of the input, of which `fill_buf` gives a block wherever there is one.
use fsvfs.Base.{
  ℕ, zero, suc, ◌+◌, ◌-◌, ◌*◌, leb, min, List, [], ◌∷◌, ◌++◌, if◌then◌else◌, Option, none, some,
  take, drop, length,
}
use fsvfs.Base.Results.{Result, ok, err}
use fsvfs.Crypto.Rsa.{
  RsaKey, DecryptError, in_block_len, out_block_len, decrypt_block_in, decrypt_blocks_in_place,
}

pub record RsaDecryptor : Type 0 where
  pub out : List ℕ
  pub reader : List ℕ

-- `RsaDecryptor::new`: the position of the output is at its end.
abbrev pub new : List ℕ → RsaDecryptor
new reader = record { out = []; reader = reader }

-- What a step of the loop of `read` writes, in front of what the others write.
abbrev pub written :
    List ℕ
    → Option (Result DecryptError (List ℕ × RsaDecryptor))
    → Option (Result DecryptError (List ℕ × RsaDecryptor))
written bytes none = none
written bytes (some (err e)) = some (err e)
written bytes (some (ok (more, d))) = some (ok (bytes ++ more, d))

module _ (mod_pow : ℕ → ℕ → ℕ → ℕ) (key : RsaKey) where
  -- The loop of `read` into a buffer of a length, on fuel: the bytes that are written, and the state afterwards.
  unfoldable pub read_loop :
      ℕ → ℕ → List ℕ → List ℕ → Option (Result DecryptError (List ℕ × RsaDecryptor))
  unfolding decrypt_block_in
  read_loop zero len out reader = none
  read_loop (suc fuel) zero out reader = some (ok ([], record { out = out; reader = reader }))
  read_loop (suc fuel) (suc n) (b ∷ bs) reader =
      let amt = min (suc n) (length (b ∷ bs)) in
      written (take amt (b ∷ bs)) (read_loop fuel (suc n - amt) (drop amt (b ∷ bs)) reader)
  read_loop (suc fuel) (suc n) [] reader =
      let direct = leb (out_block_len key) (suc n) in
      let left = drop (in_block_len key) reader in
      let more = read_loop fuel in
      elim (decrypt_block_in mod_pow key (take (in_block_len key) reader) (out_block_len key)) [
        | err e ↦ some (err e)
        | ok m ↦
            if direct
            then written m (more (suc n - out_block_len key) [] left)
            else more (suc n) m left
      ]

  -- `read`. The fuel is two for each byte of the buffer, and two.
  unfoldable pub read : ℕ → RsaDecryptor → Option (Result DecryptError (List ℕ × RsaDecryptor))
  unfolding read_loop
  read len d = read_loop (2 * len + 2) len d.out d.reader

  -- `read_to_end` of a buffer: its bytes afterwards, and how many were read.
  unfoldable pub read_to_end : List ℕ → RsaDecryptor → Result DecryptError (List ℕ × ℕ)
  unfolding decrypt_blocks_in_place
  read_to_end buf d = elim (decrypt_blocks_in_place mod_pow key d.reader) [
    | err e ↦ err e
    | ok (len, bytes) ↦ ok ((buf ++ d.out) ++ take len bytes, length d.out + len)
  ]

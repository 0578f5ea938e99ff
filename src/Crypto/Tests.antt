-- ===== src/Crypto/Tests.antt =====
-- A key of one byte and of two, and the theorems at them.
use fsvfs.Base.{some, ℕ, zero, suc, ◌*◌, ◌/◌, ◌%◌, List, [], ◌∷◌, ◌≡◌, refl, arith, length, All}
use fsvfs.Base.Results.{ok, err}
use fsvfs.Crypto.Naturals.{natural_from_bytes_be}
use fsvfs.Crypto.Value.{IsByte, value_from, natural_from_bytes_be-value}
use fsvfs.Crypto.Rsa.{
  RsaKey, malformed_der, bad_size, decode_from_der, decrypt_blocks_in_place, in_block_len,
  out_block_len,
}
use fsvfs.Crypto.InPlace.{decrypt_blocks_in_place-decrypt_blocks}
use fsvfs.Crypto.Reader.{new, read, read_to_end}
use fsvfs.Crypto.Stream.{Reads, read-Reads}
use fsvfs.Crypto.Agrees.{AreSame, decrypt_blocks}

nine-All : All IsByte (1 ∷ 2 ∷ 3 ∷ 4 ∷ 5 ∷ 6 ∷ 7 ∷ 8 ∷ 9 ∷ [])
nine-All = (
  omega arith,
  (
    omega arith,
    (
      omega arith,
      (omega arith, (omega arith, (omega arith, (omega arith, (omega arith, (omega arith, tt)))))),
    ),
  ),
)

natural_from_bytes_be-value_example :
    natural_from_bytes_be (1 ∷ 2 ∷ 3 ∷ 4 ∷ 5 ∷ 6 ∷ 7 ∷ 8 ∷ 9 ∷ [])
    ≡ value_from 0 (1 ∷ 2 ∷ 3 ∷ 4 ∷ 5 ∷ 6 ∷ 7 ∷ 8 ∷ 9 ∷ [])
natural_from_bytes_be-value_example =
    natural_from_bytes_be-value (1 ∷ 2 ∷ 3 ∷ 4 ∷ 5 ∷ 6 ∷ 7 ∷ 8 ∷ 9 ∷ []) nine-All

-- A power by repeated multiplication.
abbrev mod_pow : ℕ → ℕ → ℕ → ℕ
mod_pow c zero n = 1 % n
mod_pow c (suc e) n = c * mod_pow c e n % n

abbrev key : RsaKey
key = record { n = 3233; e = 3; len = 2 }

decoded : decode_from_der (0x30 ∷ 8 ∷ 2 ∷ 2 ∷ 0xC ∷ 0xA1 ∷ 2 ∷ 1 ∷ 3 ∷ []) ≡ ok key
unfolding decode_from_der
decoded = refl

-- An integer whose length is 0, with a zero byte behind it.
no_length : decode_from_der (0x30 ∷ 3 ∷ 2 ∷ 0 ∷ 0 ∷ []) ≡ err malformed_der
unfolding decode_from_der
no_length = refl

decrypt_blocks_in_place-decrypt_blocks_example :
    let blocks : List ℕ = 0 ∷ 2 ∷ 0 ∷ 3 ∷ [] in
    let own = decrypt_blocks mod_pow key 5 blocks in
    AreSame (decrypt_blocks_in_place mod_pow key blocks) own
    × ((ms : List ℕ) → own ≡ ok ms → length ms ≡ 4 / in_block_len key * out_block_len key)
decrypt_blocks_in_place-decrypt_blocks_example =
    decrypt_blocks_in_place-decrypt_blocks mod_pow key (omega arith) (0 ∷ 2 ∷ 0 ∷ 3 ∷ []) refl

in_place : decrypt_blocks_in_place mod_pow key (0 ∷ 2 ∷ 0 ∷ 3 ∷ []) ≡ ok (2, 8 ∷ 27 ∷ 0 ∷ 3 ∷ [])
unfolding decrypt_blocks_in_place
in_place = refl

decrypted : decrypt_blocks mod_pow key 3 (0 ∷ 2 ∷ 0 ∷ 3 ∷ []) ≡ ok (8 ∷ 27 ∷ [])
unfolding decrypt_blocks
decrypted = refl

read-Reads_example :
    Reads mod_pow key (read mod_pow key 1 (new (0 ∷ 2 ∷ 0 ∷ 3 ∷ []))) 1 (8 ∷ 27 ∷ [])
read-Reads_example =
    read-Reads mod_pow key (omega arith) 1 (new (0 ∷ 2 ∷ 0 ∷ 3 ∷ [])) 3 (8 ∷ 27 ∷ []) decrypted
      (omega arith)

-- A read at the end of the input is an error.
at_end : read mod_pow key 1 (new []) ≡ some (err (bad_size 2))
unfolding read
at_end = refl

to_end :
    read_to_end mod_pow key (1 ∷ []) (record { out = 5 ∷ []; reader = 0 ∷ 2 ∷ 0 ∷ 3 ∷ [] })
    ≡ ok (1 ∷ 5 ∷ 8 ∷ 27 ∷ [], 3)
unfolding read_to_end
to_end = refl

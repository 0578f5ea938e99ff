-- ===== src/Crypto/Stream.antt =====
-- What the reader gives is a part of the decrypted input.
use fsvfs.Base.{
  ℕ, zero, suc, ◌+◌, ◌-◌, ◌*◌, ◌≤◌, ◌<◌, leb, leb→le, ◌==◌, ==_iff, Bool-cases, true, false, min,
  List, [], ◌∷◌, ◌++◌, Option, some, ◌≡◌, refl, sym, ap, ap₂, subst, ◌∙◌, inl, inr, arith, take,
  drop, length, length-append, length-take, take-length-append, drop-length-append, length-drop,
  append-nil,
}
use fsvfs.Base.Results.{Result, ok, >>=-eq-ok, ok_inj}
use fsvfs.Aligned.Streams.{drop-drop, take-take-drop}
use fsvfs.Crypto.Naturals.{natural_from_bytes_be}
use fsvfs.Crypto.Rsa.{
  RsaKey, DecryptError, in_block_len, out_block_len, decrypt_number, decrypt_block_in,
}
use fsvfs.Crypto.Agrees.{decrypt_blocks, drop-part}
use fsvfs.Crypto.InPlace.{blocks_step, blocks_stop, length-decrypt_number}
use fsvfs.Crypto.Reader.{RsaDecryptor, written, read_loop, read}

-- A step more where nothing is left of a block.
abbrev cost : List ℕ → ℕ
cost [] = 1
cost (b ∷ bs) = 0

cost-le : (out : List ℕ) → cost out ≤ 1
cost-le [] = omega arith
cost-le (b ∷ bs) = omega arith

cost-some : (out : List ℕ) → 0 < length out → cost out ≡ 0
cost-some [] h = absurd (omega arith)
cost-some (b ∷ bs) h = refl

take-part : (n : ℕ) (xs ys : List ℕ) → n ≤ length xs → take n (xs ++ ys) ≡ take n xs
take-part zero xs ys h = refl
take-part (suc n) [] ys h = absurd (omega arith)
take-part (suc n) (x ∷ xs) ys h = ap (λ t. x ∷ t) (take-part n xs ys (omega arith))

-- A part of a text, and what the text goes on with.
split_part :
    (a n : ℕ) (xs ys : List ℕ)
    → a ≤ length xs
    → a ≤ n
    → (take a xs ++ take (n - a) (drop a xs ++ ys) ≡ take n (xs ++ ys))
      × (drop (n - a) (drop a xs ++ ys) ≡ drop n (xs ++ ys))
split_part a n xs ys h k =
    let behind = drop-part a xs ys h in
    let first = take-part a xs ys h in
    (
      ap₂ (λ s t. s ++ take (n - a) t) (sym first) (sym behind)
          ∙ take-take-drop a (n - a) n (xs ++ ys) (omega arith),
      ap (drop (n - a)) (sym behind) ∙ drop-drop a (n - a) n (xs ++ ys) (omega arith),
    )

module _ (mod_pow : ℕ → ℕ → ℕ → ℕ) (key : RsaKey) where
  -- A read of some bytes of a text: it gives them, and is left with a state whose text is the rest.
  abbrev pub Reads : Option (Result DecryptError (List ℕ × RsaDecryptor)) → ℕ → List ℕ → Type 0
  Reads r n text =
      (d : RsaDecryptor) × (fuel : ℕ) × (ms : List ℕ) × (r ≡ some (ok (take n text, d)))
      × (decrypt_blocks mod_pow key fuel d.reader ≡ ok ms)
      × (d.out ++ ms ≡ drop n text)

module _ (mod_pow : ℕ → ℕ → ℕ → ℕ) (key : RsaKey) (two : 1 < key.len) where
  -- A step that writes, in front of the others.
  Reads-written :
      (a n : ℕ) (xs ys : List ℕ) (r : Option (Result DecryptError (List ℕ × RsaDecryptor)))
      → a ≤ length xs
      → a ≤ n
      → Reads mod_pow key r (n - a) (drop a xs ++ ys)
      → Reads mod_pow key (written (take a xs) r) n (xs ++ ys)
  Reads-written a n xs ys r h k (d, fuel, ms, gives, left, rest) =
      let (first, behind) = split_part a n xs ys h k in
      (d, fuel, ms, rw (gives) (ap (λ t. some (ok (t, d))) first), left, rest ∙ behind)

  -- The next block.
  block_step :
      (f : ℕ) (reader ms : List ℕ)
      → decrypt_blocks mod_pow key f reader ≡ ok ms
      → 0 < length ms
      → (f' : ℕ) × (m : List ℕ) × (ms' : List ℕ) × (decrypt_block_in mod_pow key
            (take (in_block_len key) reader)
            (out_block_len key)
          ≡ ok m)
        × (length m ≡ out_block_len key)
        × (decrypt_blocks mod_pow key f' (drop (in_block_len key) reader) ≡ ok ms')
        × (m ++ ms' ≡ ms)
  unfolding decrypt_blocks decrypt_block_in
  block_step zero reader ms h some_left =
      absurd (omega (arith, some_left, ap length (ok_inj [] ms h)))
  block_step (suc f) reader ms h some_left =
      elim (Bool-cases (leb (in_block_len key) (length reader))) [
        | inr short ↦ absurd (
            omega (
              arith,
              some_left,
              ap length
                  (ok_inj [] ms (sym (blocks_stop mod_pow key (omega arith) f reader short) ∙ h)),
            ))
        | inl long ↦
            let fits = leb→le (in_block_len key) (length reader) long in
            let whole : (length (take (in_block_len key) reader) == in_block_len key) ≡ true =
              (==_iff _ _).1 (omega (arith, length-take (in_block_len key) reader, fits)) in
            let (m, first, e₁) =
              >>=-eq-ok
                (decrypt_number mod_pow key (out_block_len key)
                  (natural_from_bytes_be (take (in_block_len key) reader)))
                _ ms (sym (blocks_step mod_pow key (omega arith) f reader long) ∙ h) in
            let (ms', others, made) =
              >>=-eq-ok (decrypt_blocks mod_pow key f (drop (in_block_len key) reader)) _ ms e₁ in
            (
              f,
              m,
              ms',
              rw (decrypt_block_in, whole) first,
              length-decrypt_number mod_pow key (omega arith) (out_block_len key) _ m first,
              others,
              ok_inj (m ++ ms') ms made,
            )
      ]

  -- The step of the loop that decrypts a block: into the buffer, or to be kept.
  loop_direct :
      (fuel n : ℕ) (reader m : List ℕ)
      → decrypt_block_in mod_pow key (take (in_block_len key) reader) (out_block_len key) ≡ ok m
      → leb (out_block_len key) (suc n) ≡ true
      → read_loop mod_pow key (suc fuel) (suc n) [] reader
        ≡ written m (
            read_loop mod_pow key fuel
              (suc n - out_block_len key)
              []
              (drop (in_block_len key) reader))
  unfolding read_loop
  loop_direct fuel n reader m block direct = rw (read_loop, block, direct) refl

  loop_kept :
      (fuel n : ℕ) (reader m : List ℕ)
      → decrypt_block_in mod_pow key (take (in_block_len key) reader) (out_block_len key) ≡ ok m
      → leb (out_block_len key) (suc n) ≡ false
      → read_loop mod_pow key (suc fuel) (suc n) [] reader
        ≡ read_loop mod_pow key fuel (suc n) m (drop (in_block_len key) reader)
  unfolding read_loop
  loop_kept fuel n reader m block kept = rw (read_loop, block, kept) refl

  Reads-whole :
      (a n : ℕ) (xs ys : List ℕ) (r : Option (Result DecryptError (List ℕ × RsaDecryptor)))
      → length xs ≡ a
      → a ≤ n
      → Reads mod_pow key r (n - a) ys
      → Reads mod_pow key (written xs r) n (xs ++ ys)
  Reads-whole a n xs ys r whole k h =
      let all : take a xs ≡ xs =
        ap (take a) (sym (append-nil xs)) ∙ take-length-append xs [] a (sym whole) in
      let no_more : drop a xs ≡ [] =
        ap (drop a) (sym (append-nil xs)) ∙ drop-length-append xs [] a (sym whole) in
      subst (λ t. Reads mod_pow key (written t r) n (xs ++ ys)) all
        (Reads-written a n xs ys r (omega arith) k
          (subst (λ t. Reads mod_pow key r (n - a) (t ++ ys)) (sym no_more) h))

  read_loop-Reads :
      (fuel n : ℕ) (out reader ms : List ℕ) (f : ℕ)
      → decrypt_blocks mod_pow key f reader ≡ ok ms
      → n ≤ length out + length ms
      → 2 * n + cost out < fuel
      → Reads mod_pow key (read_loop mod_pow key fuel n out reader) n (out ++ ms)
  unfolding read_loop
  read_loop-Reads zero n out reader ms f h enough fueled = absurd (omega arith)
  read_loop-Reads (suc fuel) zero out reader ms f h enough fueled =
      (record { out = out; reader = reader }, f, ms, refl, h, refl)
  read_loop-Reads (suc fuel) (suc n) (b ∷ bs) reader ms f h enough fueled =
      let out : List ℕ = b ∷ bs in
      let amt = min (suc n) (length out) in
      let some_amt : 1 ≤ amt = omega arith in
      let after = drop amt out in
      let smaller : suc n - amt ≤ length after + length ms =
        omega (arith, enough, length-drop amt out) in
      Reads-written amt (suc n) out ms _ (omega arith) (omega arith) (
        read_loop-Reads fuel (suc n - amt) after reader ms f h smaller
          (omega (arith, cost-le after, fueled)))
  read_loop-Reads (suc fuel) (suc n) [] reader ms f h enough fueled =
      let (f', m, ms', block, size, others, same) = block_step f reader ms h (omega arith) in
      let left = drop (in_block_len key) reader in
      let total = length-append m ms' in
      subst (Reads mod_pow key (read_loop mod_pow key (suc fuel) (suc n) [] reader) (suc n)) same
        (elim (Bool-cases (leb (out_block_len key) (suc n))) [
          | inl direct ↦
              subst (λ r. Reads mod_pow key r (suc n) (m ++ ms'))
                (sym (loop_direct fuel n reader m block direct))
                (Reads-whole (out_block_len key) (suc n) m ms' _ size
                  (leb→le (out_block_len key) (suc n) direct)
                  (read_loop-Reads fuel (suc n - out_block_len key) [] left ms' f' others
                    (omega (arith, enough, total, ap length same, size))
                    (omega (arith, fueled, two))))
          | inr kept ↦
              subst (λ r. Reads mod_pow key r (suc n) (m ++ ms'))
                (sym (loop_kept fuel n reader m block kept))
                (read_loop-Reads fuel (suc n) m left ms' f' others
                  (omega (arith, enough, total, ap length same))
                  (omega (arith, fueled, cost-some m (omega (arith, size, two)))))
        ])

  -- For a key of more than one byte, where the input that is left decrypts to some bytes: a read of as many bytes as the
  -- rest of the block and these have comes to an end and does not fail, it gives the first of them, and the state
  -- afterwards has the others, so that the reads that follow go on there.
  pub read-Reads :
      (n : ℕ) (d : RsaDecryptor) (fuel : ℕ) (ms : List ℕ)
      → decrypt_blocks mod_pow key fuel d.reader ≡ ok ms
      → n ≤ length d.out + length ms
      → Reads mod_pow key (read mod_pow key n d) n (d.out ++ ms)
  unfolding read
  read-Reads n d fuel ms h enough =
      read_loop-Reads (2 * n + 2) n d.out d.reader ms fuel h enough (omega (arith, cost-le d.out))

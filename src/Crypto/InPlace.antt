-- ===== src/Crypto/InPlace.antt =====
-- The decryption in place gives the decrypted blocks, one behind another.
use fsvfs.Base.{
  ℕ, zero, suc, ◌+◌, ◌-◌, ◌*◌, ◌/◌, ◌%◌, ◌==◌, leb, leb→le, ◌≤◌, ◌<◌, List, [], ◌++◌, Bool-cases,
  true, false, ◌≡◌, refl, sym, ap, ap₂, subst, ◌∙◌, inl, inr, arith, take, drop, length,
  length-append, length-drop, length-take, take-append-drop, take-length-append, drop-length-append,
  append_assoc, append-nil, ==_iff,
}
use native.Mathlib.Nat.{suc-mul, div-add-mod', div-le_self}
use fsvfs.Base.Results.{Result, ok, err, ◌>>=◌, ok_inj, >>=-eq-ok}
use fsvfs.Aligned.Streams.{drop-drop}
use fsvfs.Crypto.Naturals.{natural_from_bytes_be}
use fsvfs.Crypto.Rsa.{
  RsaKey, DecryptError, in_block_len, out_block_len, decrypt_number, decrypt_block_in, decrypt_loop,
  decrypt_blocks_in_place,
}
use fsvfs.Crypto.Agrees.{
  decrypt_blocks, Agrees, AreSame, Agrees-cons, Agrees-bind, drop-part, length-natural_to_bytes_be,
}

module _ (mod_pow : ℕ → ℕ → ℕ → ℕ) (key : RsaKey) (nonzero : 0 < key.len) where
  pub length-decrypt_number :
      (len c : ℕ) (m : List ℕ) → decrypt_number mod_pow key len c ≡ ok m → length m ≡ len
  unfolding decrypt_number
  length-decrypt_number len c m h = elim (Bool-cases (leb key.n c)) [
    | inl large ↦ absurd (cc (rw (decrypt_number, large) at h))
    | inr small ↦
        ap length (sym (ok_inj _ m (rw (decrypt_number, small) at h)))
        ∙ length-natural_to_bytes_be len (mod_pow c key.e key.n)
  ]

  ended :
      (done left : List ℕ) (tail : ℕ)
      → tail ≡ length done + out_block_len key
      → Agrees done (ok (tail, done ++ left)) (ok []) (out_block_len key)
  ended done left tail h = (
    omega (arith, h),
    take-length-append done left (tail - out_block_len key) (omega (arith, h))
        ∙ sym (append-nil done),
  )

  -- One block, in its place and into an output of its own.
  step_blocks :
      (done gap rest m : List ℕ)
      → length m ≡ out_block_len key
      → in_block_len key ≤ length rest
      → let blocks = done ++ (gap ++ rest) in
        take (length done) blocks ++ (m ++ drop (length done + out_block_len key) blocks)
        ≡ (done ++ m)
          ++ (drop (out_block_len key) (gap ++ take (in_block_len key) rest)
              ++ drop (in_block_len key) rest)
  step_blocks done gap rest m size enough =
      let block = take (in_block_len key) rest in
      let left = drop (in_block_len key) rest in
      let out = out_block_len key in
      let blocks = done ++ (gap ++ rest) in
      let whole : gap ++ rest ≡ (gap ++ block) ++ left =
        ap (λ t. gap ++ t) (sym (take-append-drop (in_block_len key) rest))
        ∙ sym (append_assoc gap block left) in
      let dropped : drop (length done + out) blocks ≡ drop out (gap ++ block) ++ left =
        sym (drop-drop (length done) out (length done + out) blocks refl)
        ∙ ap (drop out) (drop-length-append done (gap ++ rest) (length done) refl)
        ∙ ap (drop out) whole
        ∙ drop-part out (gap ++ block) left
            (omega (arith, length-append gap block, length-take (in_block_len key) rest)) in
      ap₂ (λ s t. s ++ (m ++ t)) (take-length-append done (gap ++ rest) (length done) refl) dropped
      ∙ sym (append_assoc done m (drop out (gap ++ block) ++ left))

  -- One step of either loop.
  loop_stop :
      (fuel in_tail out_tail : ℕ) (blocks : List ℕ)
      → leb in_tail (length blocks) ≡ false
      → decrypt_loop mod_pow key (suc fuel) in_tail out_tail blocks ≡ ok (out_tail, blocks)
  unfolding decrypt_loop
  loop_stop fuel in_tail out_tail blocks h = rw (decrypt_loop, h) refl

  loop_step :
      (fuel in_tail out_tail : ℕ) (blocks block : List ℕ)
      → leb in_tail (length blocks) ≡ true
      → take (in_block_len key) (drop (in_tail - in_block_len key) blocks) ≡ block
      → decrypt_loop mod_pow key (suc fuel) in_tail out_tail blocks ≡ (
          decrypt_number mod_pow key (out_block_len key) (natural_from_bytes_be block) >>= λ m.
          decrypt_loop mod_pow key fuel
            (in_tail + in_block_len key)
            (out_tail + out_block_len key)
            (take (out_tail - out_block_len key) blocks ++ (m ++ drop out_tail blocks)))
  unfolding decrypt_loop
  loop_step fuel in_tail out_tail blocks block h k = rw (decrypt_loop, h, k) refl

  pub blocks_stop :
      (fuel : ℕ) (rest : List ℕ)
      → leb (in_block_len key) (length rest) ≡ false
      → decrypt_blocks mod_pow key (suc fuel) rest ≡ ok []
  unfolding decrypt_blocks
  blocks_stop fuel rest h = rw (decrypt_blocks, h) refl

  pub blocks_step :
      (fuel : ℕ) (rest : List ℕ)
      → leb (in_block_len key) (length rest) ≡ true
      → decrypt_blocks mod_pow key (suc fuel) rest ≡ (
          decrypt_number mod_pow key
            (out_block_len key)
            (natural_from_bytes_be (take (in_block_len key) rest))
          >>= λ m.
              decrypt_blocks mod_pow key fuel (drop (in_block_len key) rest) >>= λ ms. ok (m ++ ms))
  unfolding decrypt_blocks decrypt_block_in
  blocks_step fuel rest h =
      let fits = leb→le (in_block_len key) (length rest) h in
      let whole : (length (take (in_block_len key) rest) == in_block_len key) ≡ true =
        (==_iff _ _).1 (omega (arith, length-take (in_block_len key) rest, fits)) in
      rw (decrypt_blocks, h, decrypt_block_in, whole) refl

  -- A step of both, if the steps behind it agree.
  by_block :
      (fuel : ℕ) (done gap rest : List ℕ) (in_tail out_tail : ℕ)
      → in_tail ≡ length done + length gap + in_block_len key
      → out_tail ≡ length done + out_block_len key
      → ((m : List ℕ)
          → length m ≡ out_block_len key
          → in_block_len key ≤ length rest
          → Agrees
              (done ++ m)
              (decrypt_loop mod_pow key fuel
                (in_tail + in_block_len key)
                (out_tail + out_block_len key)
                ((done ++ m)
                  ++ (drop (out_block_len key) (gap ++ take (in_block_len key) rest)
                      ++ drop (in_block_len key) rest)))
              (decrypt_blocks mod_pow key fuel (drop (in_block_len key) rest))
              (out_block_len key))
      → Agrees done
          (decrypt_loop mod_pow key (suc fuel) in_tail out_tail (done ++ (gap ++ rest)))
          (decrypt_blocks mod_pow key (suc fuel) rest)
          (out_block_len key)
  by_block fuel done gap rest in_tail out_tail at_in at_out behind =
      let blocks = done ++ (gap ++ rest) in
      let out = out_block_len key in
      let size : length blocks ≡ length done + (length gap + length rest) =
        omega (arith, length-append done (gap ++ rest), length-append gap rest) in
      elim (Bool-cases (leb (in_block_len key) (length rest))) [
        | inr short ↦
            rw
              (
                loop_stop fuel in_tail out_tail blocks (ground (arith, size, at_in, short)),
                blocks_stop fuel rest short,
              )
              (ended done (gap ++ rest) out_tail at_out)
        | inl long ↦
            let fits = leb→le (in_block_len key) (length rest) long in
            let block : take (in_block_len key) (drop (in_tail - in_block_len key) blocks)
                ≡ take (in_block_len key) rest =
              ap (λ t. take (in_block_len key) (drop (in_tail - in_block_len key) t))
                (sym (append_assoc done gap rest))
              ∙ ap (take (in_block_len key)) (
                  drop-length-append (done ++ gap) rest (in_tail - in_block_len key)
                    (omega (arith, at_in, length-append done gap))) in
            rw
              (
                loop_step fuel in_tail out_tail blocks (take (in_block_len key) rest)
                    (ground (arith, size, at_in, long)) block,
                blocks_step fuel rest long,
              )
              (Agrees-bind done
                (decrypt_number mod_pow key out
                  (natural_from_bytes_be (take (in_block_len key) rest)))
                _ _ out
                (λ m is.
                  let length_m = length-decrypt_number out _ m is in
                  let splice =
                    ap₂ (λ a b. take a blocks ++ (m ++ drop b blocks)) {y = length done}
                      (omega (arith, at_out)) at_out
                    ∙ step_blocks done gap rest m length_m fits in
                  Agrees-cons done m _
                    (decrypt_blocks mod_pow key fuel (drop (in_block_len key) rest)) out
                    (subst
                      (λ t.
                        Agrees (done ++ m)
                          (decrypt_loop mod_pow key fuel (in_tail + in_block_len key)
                            (out_tail + out) t)
                          (decrypt_blocks mod_pow key fuel (drop (in_block_len key) rest)) out)
                      (sym splice) (behind m length_m fits))))
      ]

  loop-Agrees :
      (fuel : ℕ) (done gap rest : List ℕ) (in_tail out_tail : ℕ)
      → in_tail ≡ length done + length gap + in_block_len key
      → out_tail ≡ length done + out_block_len key
      → Agrees done
          (decrypt_loop mod_pow key fuel in_tail out_tail (done ++ (gap ++ rest)))
          (decrypt_blocks mod_pow key fuel rest)
          (out_block_len key)
  unfolding decrypt_loop decrypt_blocks
  loop-Agrees zero done gap rest in_tail out_tail at_in at_out =
      ended done (gap ++ rest) out_tail at_out
  loop-Agrees (suc fuel) done gap rest in_tail out_tail at_in at_out =
      let out = out_block_len key in
      let block = take (in_block_len key) rest in
      by_block fuel done gap rest in_tail out_tail at_in at_out (λ m h fits.
        let size = length-take (in_block_len key) rest in
        let both = length-append gap block in
        let left = length-drop out (gap ++ block) in
        loop-Agrees fuel (done ++ m) (drop out (gap ++ block)) (drop (in_block_len key) rest)
          (in_tail + in_block_len key) (out_tail + out)
          (omega (arith, at_in, h, size, both, left, length-append done m, fits, nonzero))
          (omega (arith, at_out, h, length-append done m)))

  -- Enough fuel decrypts every block.
  length-decrypt_blocks :
      (fuel count : ℕ) (rest ms : List ℕ)
      → length rest ≡ count * in_block_len key
      → count ≤ fuel
      → decrypt_blocks mod_pow key fuel rest ≡ ok ms
      → length ms ≡ count * out_block_len key
  unfolding decrypt_blocks
  length-decrypt_blocks zero zero rest ms whole enough h =
      omega (arith, ap length (sym (ok_inj [] ms h)))
  length-decrypt_blocks zero (suc count) rest ms whole enough h = absurd (omega arith)
  length-decrypt_blocks (suc fuel) zero rest ms whole enough h =
      let none_left : leb (in_block_len key) (length rest) ≡ false =
        ground (arith, whole, nonzero) in
      ap length (sym (ok_inj [] ms (rw (blocks_stop fuel rest none_left) at h))) ∙ omega arith
  length-decrypt_blocks (suc fuel) (suc count) rest ms whole enough h =
      let size : length rest ≡ count * in_block_len key + in_block_len key =
        whole ∙ suc-mul count (in_block_len key) in
      let more : leb (in_block_len key) (length rest) ≡ true = ground (arith, size) in
      let block = take (in_block_len key) rest in
      let left : length (drop (in_block_len key) rest) ≡ count * in_block_len key =
        omega (arith, size, length-drop (in_block_len key) rest) in
      let (m, first, e₁) =
        >>=-eq-ok (decrypt_number mod_pow key (out_block_len key) (natural_from_bytes_be block)) _
          ms (rw (blocks_step fuel rest more) at h) in
      let (others, found, made) =
        >>=-eq-ok (decrypt_blocks mod_pow key fuel (drop (in_block_len key) rest)) _ ms e₁ in
      let behind =
        length-decrypt_blocks fuel count (drop (in_block_len key) rest) others left (omega arith)
          found in
      ap length (sym (ok_inj _ ms made))
      ∙ length-append m others
      ∙ ap₂ (λ a b. a + b) (length-decrypt_number (out_block_len key) _ m first) behind
      ∙ omega (arith, suc-mul count (out_block_len key))

  AreSame-Agrees :
      (r : Result DecryptError (ℕ × List ℕ)) (x : Result DecryptError (List ℕ))
      → Agrees [] r x (out_block_len key)
      → AreSame (r >>= λ t. ok (t.0 - out_block_len key, t.1)) x
  AreSame-Agrees (ok (tail, bytes)) (ok ms) h = (omega (arith, h.0), h.1)
  AreSame-Agrees (err e) (err e') h = h
  AreSame-Agrees (ok r) (err e') h = h
  AreSame-Agrees (err e) (ok ms) h = h

  -- For a key whose length is not 0 and bytes that are a number of blocks: the decryption in place and the
  -- decryption of each block into an output of its own fail with the same error, or give the same bytes; and these
  -- are one byte less for each block.
  pub decrypt_blocks_in_place-decrypt_blocks :
      (blocks : List ℕ)
      → length blocks % in_block_len key ≡ 0
      → let own = decrypt_blocks mod_pow key (suc (length blocks)) blocks in
        AreSame (decrypt_blocks_in_place mod_pow key blocks) own
        × ((ms : List ℕ)
            → own ≡ ok ms
            → length ms ≡ length blocks / in_block_len key * out_block_len key)
  unfolding decrypt_blocks_in_place
  decrypt_blocks_in_place-decrypt_blocks blocks whole =
      let none_left : (length blocks % in_block_len key == 0) ≡ true = (==_iff _ _).1 whole in
      let count = length blocks / in_block_len key in
      let size : length blocks ≡ count * in_block_len key =
        sym (div-add-mod' (length blocks) (in_block_len key)) ∙ omega (arith, whole) in
      let agrees =
        loop-Agrees (suc (length blocks)) [] [] blocks (in_block_len key) (out_block_len key)
          (omega arith) (omega arith) in
      (
        rw (decrypt_blocks_in_place, none_left) (AreSame-Agrees _ _ agrees),
        λ ms h.
            length-decrypt_blocks (suc (length blocks)) count blocks ms size
              (omega (arith, div-le_self (length blocks) (in_block_len key))) h,
      )

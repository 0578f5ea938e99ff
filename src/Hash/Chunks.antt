-- ===== src/Hash/Chunks.antt =====
-- The hash by chunks of any size is the hash byte by byte.
use native.Mathlib.Nat.{
  mod-eq_of_lt, mod-lt, add_assoc, mod-mod, mod-add-mod, add-mod-mod, div-mul-le_self,
}
use fsvfs.Base.{
  ℕ, zero, suc, ◌+◌, ◌*◌, ◌/◌, ◌%◌, ◌≤◌, ◌<◌, List, [], ◌∷◌, ◌++◌, ◌≡◌, refl, sym, ap, subst, ◌∙◌,
  arith, take, drop, length, length-take, length-drop, take-append-drop,
}
use fsvfs.Base.Residue.{mul-mod_right, add-mod_cong, mul-mod_cong}
use fsvfs.Hash.Mad.{
  Word, normalize, wrapping_add, wrapping_mul, wrapping_pow, powers_down, powers, dot_from, absorb,
  mad_bytes, mad_chunks, mad_hash,
}

module _ (w : Word) where
  descending : ℕ → List ℕ
  descending zero = []
  descending (suc k) = wrapping_pow w k ∷ descending k

  powers_down-descending :
      (i k : ℕ) → powers_down w i (wrapping_pow w k) (descending (suc k)) ≡ descending (suc (i + k))
  unfolding powers_down descending wrapping_pow
  powers_down-descending zero k = ap (λ t. descending (suc t)) (omega arith)
  powers_down-descending (suc i) k =
      powers_down-descending i (suc k) ∙ ap (λ t. descending (suc t)) (omega arith)

  absorb-mod : (h c : ℕ) → absorb w h c % w.modulus ≡ (h * w.prime + normalize c) % w.modulus
  unfolding absorb
  absorb-mod h c = mod-mod _ w.modulus ∙ mod-add-mod _ w.modulus _

  absorb-lt : (h c : ℕ) → 0 < w.modulus → absorb w h c < w.modulus
  unfolding absorb
  absorb-lt h c pos = mod-lt _ pos

  pub mad_bytes-lt :
      (h : ℕ) (bs : List ℕ) → 0 < w.modulus → h < w.modulus → mad_bytes w h bs < w.modulus
  unfolding mad_bytes
  mad_bytes-lt h [] pos fits = fits
  mad_bytes-lt h (b ∷ bs) pos fits = mad_bytes-lt (absorb w h b) bs pos (absorb-lt h b pos)

  pub mad_bytes-append :
      (h : ℕ) (xs ys : List ℕ) → mad_bytes w h (xs ++ ys) ≡ mad_bytes w (mad_bytes w h xs) ys
  unfolding mad_bytes
  mad_bytes-append h [] ys = refl
  mad_bytes-append h (x ∷ xs) ys = mad_bytes-append (absorb w h x) xs ys

  -- A sum under the accumulator is added to the result.
  dot_from-add :
      (a b c : ℕ) (cs ps : List ℕ)
      → a % w.modulus ≡ (b + c) % w.modulus
      → dot_from w a cs ps % w.modulus ≡ (b + dot_from w c cs ps) % w.modulus
  unfolding dot_from
  dot_from-add a b c [] ps e = e
  dot_from-add a b c (x ∷ cs) [] e = e
  dot_from-add a b c (x ∷ cs) (p ∷ ps) e =
      let t = wrapping_mul w (normalize x) p in
      dot_from-add (wrapping_add w a t) b (wrapping_add w c t) cs ps (
        mod-mod (a + t) w.modulus
        ∙ add-mod_cong a (b + c) t t w.modulus e refl
        ∙ ap (λ u. u % w.modulus) (add_assoc b c t)
        ∙ sym (add-mod-mod b (c + t) w.modulus))

  -- One byte taken by the rule of Horner stands for one summand of the dot product.
  horner_step :
      (g d c k : ℕ)
      → (g * wrapping_pow w (suc k)) % w.modulus ≡ d % w.modulus
      → (absorb w g c * wrapping_pow w k) % w.modulus
        ≡ wrapping_add w d (wrapping_mul w (normalize c) (wrapping_pow w k)) % w.modulus
  unfolding wrapping_pow
  horner_step g d c k e =
      let P = wrapping_pow w k in
      let m = w.modulus in
      let left : ((g * w.prime + normalize c) * P) % m ≡ (g * (w.prime * P) + normalize c * P) % m =
        ap (λ t. t % m) (omega arith) in
      mul-mod_cong _ _ P m (absorb-mod g c)
      ∙ left
      ∙ add-mod_cong _ _ _ _ m (sym (mul-mod_right g (w.prime * P) m) ∙ e) (sym (mod-mod _ m))
      ∙ sym (mod-mod _ m)

  horner_start : (g : ℕ) → (g * wrapping_pow w 0) % w.modulus ≡ g % w.modulus
  unfolding wrapping_pow
  horner_start g = mul-mod_right g 1 w.modulus ∙ ap (λ t. t % w.modulus) (omega arith)

  horner :
      (g d n : ℕ) (cs : List ℕ)
      → length cs ≡ n
      → (g * wrapping_pow w n) % w.modulus ≡ d % w.modulus
      → mad_bytes w g cs % w.modulus ≡ dot_from w d cs (descending n) % w.modulus
  unfolding mad_bytes dot_from descending
  horner g d zero [] len e = sym (horner_start g) ∙ e
  horner g d zero (c ∷ cs) len e = absurd (omega arith)
  horner g d (suc n) [] len e = absurd (omega arith)
  horner g d (suc n) (c ∷ cs) len e =
      horner (absorb w g c) (wrapping_add w d (wrapping_mul w (normalize c) (wrapping_pow w n))) n
        cs (omega arith) (horner_step g d c n e)

  powers-descending : (n : ℕ) → 1 < w.modulus → powers w n ≡ descending n
  unfolding powers descending wrapping_pow
  powers-descending zero big = refl
  powers-descending (suc n) big =
      let one : 1 % w.modulus ≡ 1 = mod-eq_of_lt big in
      subst (λ t. powers_down w n t (t ∷ []) ≡ descending (suc n)) one
        (powers_down-descending n 0 ∙ ap (λ t. descending (suc t)) (omega arith))

  -- One round of the chunk loop takes the chunk byte by byte.
  chunk_round :
      (n h : ℕ) (cs : List ℕ)
      → 1 < w.modulus
      → h < w.modulus
      → length cs ≡ n
      → wrapping_add w (wrapping_mul w h (wrapping_pow w n)) (dot_from w 0 cs (powers w n))
        ≡ mad_bytes w h cs
  chunk_round n h cs big fits len =
      let m = w.modulus in
      let x = wrapping_mul w h (wrapping_pow w n) in
      let sum : dot_from w x cs (descending n) % m ≡ (x + dot_from w 0 cs (descending n)) % m =
        dot_from-add x x 0 cs (descending n) (ap (λ t. t % m) (omega arith)) in
      let bytes : mad_bytes w h cs % m ≡ dot_from w x cs (descending n) % m =
        horner h x n cs len (sym (mod-mod _ m)) in
      rw (powers-descending n big)
        (sym sum ∙ sym bytes ∙ mod-eq_of_lt (mad_bytes-lt h cs (omega arith) fits))

  mad_chunks-eq-mad_bytes :
      (n rounds h : ℕ) (bytes : List ℕ)
      → 1 < w.modulus
      → h < w.modulus
      → rounds * n ≤ length bytes
      → mad_chunks w n rounds h bytes ≡ mad_bytes w h bytes
  unfolding mad_chunks
  mad_chunks-eq-mad_bytes n zero h bytes big fits whole = refl
  mad_chunks-eq-mad_bytes n (suc rounds) h bytes big fits whole =
      let len : length (take n bytes) ≡ n = omega (arith, length-take n bytes) in
      let rest : rounds * n ≤ length (drop n bytes) = omega (arith, length-drop n bytes) in
      rw (chunk_round n h (take n bytes) big fits len) (
        mad_chunks-eq-mad_bytes n rounds (mad_bytes w h (take n bytes)) (drop n bytes) big
          (mad_bytes-lt h (take n bytes) (omega arith) fits) rest
        ∙ sym (mad_bytes-append h (take n bytes) (drop n bytes))
        ∙ ap (mad_bytes w h) (take-append-drop n bytes))

  -- For every chunk size, the hash by chunks with a table of powers is the hash taken byte by byte.
  pub mad_hash-eq-mad_bytes :
      (n init : ℕ) (bytes : List ℕ)
      → 1 < w.modulus
      → init < w.modulus
      → mad_hash w n init bytes ≡ mad_bytes w init bytes
  unfolding mad_hash
  mad_hash-eq-mad_bytes n init bytes big fits =
      mad_chunks-eq-mad_bytes n (length bytes / n) init bytes big fits (div-mul-le_self _ n)

-- ===== src/Crypto/Agrees.antt =====
-- The two decryptions compared, and the lengths of what they give.
use mathlib.Core.List.{reverse_aux}
use fsvfs.Base.{
  ℕ, zero, suc, ◌+◌, ◌-◌, ◌/◌, ◌^◌, leb, ◌≤◌, List, [], ◌∷◌, ◌++◌, if◌then◌else◌, ◌≡◌, refl, ap,
  ◌∙◌, arith, take, drop, length, length-append, append_assoc,
}
use fsvfs.Base.Results.{Result, ok, err, ◌>>=◌}
use fsvfs.Crypto.Naturals.{natural_to_bytes_be, bytes_le, limb_bytes}
use fsvfs.Crypto.Rsa.{RsaKey, DecryptError, in_block_len, out_block_len, decrypt_block_in}

-- Blocks, decrypted one after another into an output of their own.
module _ (mod_pow : ℕ → ℕ → ℕ → ℕ) (key : RsaKey) where
  unfoldable pub decrypt_blocks : ℕ → List ℕ → Result DecryptError (List ℕ)
  unfolding decrypt_block_in
  decrypt_blocks zero blocks = ok []
  decrypt_blocks (suc fuel) blocks =
      let more = decrypt_blocks fuel in
      if leb (in_block_len key) (length blocks)
      then (decrypt_block_in mod_pow key (take (in_block_len key) blocks) (out_block_len key)
          >>= λ m. more (drop (in_block_len key) blocks) >>= λ ms. ok (m ++ ms))
      else ok []

-- A result in place is a result of its own: the same error, or the same bytes behind those that were done.
abbrev pub Agrees :
    List ℕ → Result DecryptError (ℕ × List ℕ) → Result DecryptError (List ℕ) → ℕ → Type 0
Agrees done (ok (tail, bytes)) (ok ms) out =
    (tail ≡ length done + length ms + out) × (take (tail - out) bytes ≡ done ++ ms)
Agrees done (err e) (err e') out = e ≡ e'
Agrees done (ok r) (err e') out = ⊥
Agrees done (err e) (ok ms) out = ⊥

-- A result in place, and one of its own: the same error, or as many bytes and the same.
abbrev pub AreSame : Result DecryptError (ℕ × List ℕ) → Result DecryptError (List ℕ) → Type 0
AreSame (ok (n, bytes)) (ok ms) = (n ≡ length ms) × (take n bytes ≡ ms)
AreSame (err e) (err e') = e ≡ e'
AreSame (ok r) (err e') = ⊥
AreSame (err e) (ok ms) = ⊥

pub Agrees-cons :
    (done m : List ℕ) (r : Result DecryptError (ℕ × List ℕ)) (x : Result DecryptError (List ℕ))
    (out : ℕ)
    → Agrees (done ++ m) r x out
    → Agrees done r (x >>= λ ms. ok (m ++ ms)) out
Agrees-cons done m (ok (tail, bytes)) (ok ms) out h =
    (omega (arith, h.0, length-append done m, length-append m ms), h.1 ∙ append_assoc done m ms)
Agrees-cons done m (err e) (err e') out h = h
Agrees-cons done m (ok r) (err e) out h = h
Agrees-cons done m (err e) (ok ms) out h = h

pub Agrees-bind :
    (done : List ℕ) (r : Result DecryptError (List ℕ))
    (f : List ℕ → Result DecryptError (ℕ × List ℕ)) (g : List ℕ → Result DecryptError (List ℕ))
    (out : ℕ)
    → ((m : List ℕ) → r ≡ ok m → Agrees done (f m) (g m) out)
    → Agrees done (r >>= f) (r >>= g) out
Agrees-bind done (ok m) f g out h = h m refl
Agrees-bind done (err e) f g out h = refl

pub drop-part : (n : ℕ) (xs ys : List ℕ) → n ≤ length xs → drop n (xs ++ ys) ≡ drop n xs ++ ys
drop-part zero xs ys h = refl
drop-part (suc n) [] ys h = absurd (omega arith)
drop-part (suc n) (x ∷ xs) ys h = drop-part n xs ys (omega arith)

length-limb_bytes : (n limb : ℕ) → length (limb_bytes n limb) ≡ n
unfolding limb_bytes
length-limb_bytes zero limb = refl
length-limb_bytes (suc n) limb = ap suc (length-limb_bytes n (limb / 256))

length-bytes_le : (n limb : ℕ) → length (bytes_le n limb) ≡ n
unfolding bytes_le limb_bytes
length-bytes_le (suc (suc (suc (suc (suc (suc (suc (suc n)))))))) limb =
    omega (arith, length-bytes_le n (limb / 2 ^ 64))
length-bytes_le zero limb = refl
length-bytes_le (suc zero) limb = refl
length-bytes_le (suc (suc zero)) limb = refl
length-bytes_le (suc (suc (suc zero))) limb = refl
length-bytes_le (suc (suc (suc (suc zero)))) limb = refl
length-bytes_le (suc (suc (suc (suc (suc zero))))) limb = refl
length-bytes_le (suc (suc (suc (suc (suc (suc zero)))))) limb = refl
length-bytes_le (suc (suc (suc (suc (suc (suc (suc zero))))))) limb = refl

length-reverse_aux : (xs r : List ℕ) → length (reverse_aux xs r) ≡ length xs + length r
length-reverse_aux [] r = omega arith
length-reverse_aux (x ∷ xs) r = omega (arith, length-reverse_aux xs (x ∷ r))

pub length-natural_to_bytes_be : (len n : ℕ) → length (natural_to_bytes_be len n) ≡ len
unfolding natural_to_bytes_be
length-natural_to_bytes_be len n =
    omega (arith, length-reverse_aux (bytes_le len n) [], length-bytes_le len n)

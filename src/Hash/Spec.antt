-- ===== src/Hash/Spec.antt =====
-- What the two path hashes are: the plain hash of "/" and of the path behind its drive and its root.
use mathlib.Core.Option
use mathlib.Core.Path.{fun_ext}
use fsvfs.Base.{
  ℕ, ◌<◌, List, [], ◌∷◌, ◌++◌, ◌≡◌, ◌≢◌, refl, sym, ap, ◌∙◌, arith, Option, none, some, false, All,
}
use fsvfs.Hash.{
  split_once, is_separator, without_root, strip_separator, normalize_suffix_as_bytes, hash_path32,
  hash_path64,
}
use fsvfs.Hash.Mad.{Word, u32, u64, mad_bytes, mad_hash}
use fsvfs.Hash.Chunks.{mad_hash-eq-mad_bytes, mad_bytes-append, mad_bytes-lt}

-- The chunked hash that starts from the hash of "/" is the plain hash of "/" and the rest.
rooted :
    (w : Word) (rest : List ℕ)
    → 1 < w.modulus
    → mad_hash w 4 (mad_bytes w 0 (b'/' ∷ [])) rest ≡ mad_bytes w 0 (b'/' ∷ rest)
rooted w rest big =
    mad_hash-eq-mad_bytes w 4 _ rest big (mad_bytes-lt w 0 (b'/' ∷ []) (omega arith) (omega arith))
    ∙ sym (mad_bytes-append w 0 (b'/' ∷ []) rest)

-- The 32-bit and the 64-bit hash of a path are the byte-by-byte hashes of "/" followed by what is
-- left of the path behind its drive name and its leading separator; both are missing where that is.
pub hash_path-normalize_suffix_as_bytes :
    (s : List ℕ)
    → (hash_path32 s
        ≡ Option.map (λ rest. mad_bytes u32 0 (b'/' ∷ rest)) (normalize_suffix_as_bytes s))
      × (hash_path64 s
          ≡ Option.map (λ rest. mad_bytes u64 0 (b'/' ∷ rest)) (normalize_suffix_as_bytes s))
hash_path-normalize_suffix_as_bytes s = (
  unfold hash_path32 in
      ap (λ f. Option.map f (normalize_suffix_as_bytes s))
        (fun_ext (λ rest. rooted u32 rest (omega arith))),
  unfold hash_path64 in
      ap (λ f. Option.map f (normalize_suffix_as_bytes s))
        (fun_ext (λ rest. rooted u64 rest (omega arith))),
)

split_once-append :
    (d p : List ℕ) → All (λ c. c ≢ b':') d → split_once b':' (d ++ b':' ∷ p) ≡ some p
unfolding split_once
split_once-append [] p h = refl
split_once-append (c ∷ d) p h = ground (arith, split_once-append d p h.1)

split_once-none : (p : List ℕ) → All (λ c. c ≢ b':') p → split_once b':' p ≡ none
unfolding split_once
split_once-none [] h = refl
split_once-none (c ∷ p) h = ground (arith, split_once-none p h.1)

-- What stands behind the drive name of a path: behind its first colon, or all where there is none.
pub data IsBehindDrive : List ℕ → List ℕ → Type 0 where
  no_drive : (p : List ℕ) → All (λ c. c ≢ b':') p → IsBehindDrive p p
  drive : (d p : List ℕ) → All (λ c. c ≢ b':') d → IsBehindDrive (d ++ b':' ∷ p) p

-- What stands behind the leading separator of a path of two bytes or more, if it has one.
pub data IsBehindRoot : List ℕ → List ℕ → Type 0 where
  slash : (x : ℕ) (p : List ℕ) → IsBehindRoot (b'/' ∷ x ∷ p) (x ∷ p)
  backslash : (x : ℕ) (p : List ℕ) → IsBehindRoot (0x5c ∷ x ∷ p) (x ∷ p)
  relative : (c x : ℕ) (p : List ℕ) → c ≢ b'/' → c ≢ 0x5c → IsBehindRoot (c ∷ x ∷ p) (c ∷ x ∷ p)

without_root-IsBehindDrive : {s p : List ℕ} → IsBehindDrive s p → without_root s ≡ p
unfolding without_root
without_root-IsBehindDrive (no_drive p h) = rw (without_root, split_once-none p h) refl
without_root-IsBehindDrive (drive d p h) = rw (without_root, split_once-append d p h) refl

strip_separator-IsBehindRoot :
    {p rest : List ℕ} → IsBehindRoot p rest → strip_separator p ≡ some rest
unfolding strip_separator
strip_separator-IsBehindRoot (slash x p) = refl
strip_separator-IsBehindRoot (backslash x p) = refl
strip_separator-IsBehindRoot (relative c x p h k) =
    let no_separator : is_separator c ≡ false = ground arith in
    rw (strip_separator, no_separator) refl

-- The 32-bit and the 64-bit hash of a path are the byte-by-byte hashes of "/" followed by what stands behind its drive
-- name (behind its first colon, or all where there is none) and, of that, behind its leading separator, where that has two bytes or more with the separator.
pub hash_path_lem :
    {s p rest : List ℕ}
    → IsBehindDrive s p
    → IsBehindRoot p rest
    → (hash_path32 s ≡ some (mad_bytes u32 0 (b'/' ∷ rest)))
      × (hash_path64 s ≡ some (mad_bytes u64 0 (b'/' ∷ rest)))
hash_path_lem {s} {p} {rest} behind stripped =
    let suffix : normalize_suffix_as_bytes s ≡ some rest =
      unfold normalize_suffix_as_bytes in
      ap strip_separator (without_root-IsBehindDrive behind)
      ∙ strip_separator-IsBehindRoot stripped in
    let (first, second) = hash_path-normalize_suffix_as_bytes s in
    (first ∙ ap (Option.map _) suffix, second ∙ ap (Option.map _) suffix)

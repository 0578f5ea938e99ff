-- ===== src/Encryption/Ids.antt =====
-- Encryption ids are the complements of the indices of the stored records.
use fsvfs.Base.{
  ℕ, ◌+◌, ◌-◌, ◌*◌, ◌/◌, ◌%◌, ◌^◌, ltb, ◌==◌, if◌then◌else◌, none, some, some_inj, ◌≡◌, sym, ap,
  ◌∙◌, arith, Bool-cases, inl, inr, ltb→lt, bit_xor,
}
use fsvfs.Base.Bits.{bit_xor_mask}
use fsvfs.Encryption.{try_from_index, into_index}

complement : (n : ℕ) → bit_xor n (2 ^ 32 - 1) ≡ n / 2 ^ 32 * 2 ^ 32 + (2 ^ 32 - 1 - n % 2 ^ 32)
complement n =
    ap (λ t. bit_xor t (2 ^ 32 - 1)) {x = n} {y = n / 2 ^ 32 * 2 ^ 32 + n % 2 ^ 32} (omega arith)
    ∙ bit_xor_mask 32 (n / 2 ^ 32) (n % 2 ^ 32) (omega arith)

accepts :
    (n x : ℕ)
    → x ≡ n / 2 ^ 32 * 2 ^ 32 + (2 ^ 32 - 1 - n % 2 ^ 32)
    → (if x == 0 then none else (if ltb x (2 ^ 32) then some x else none))
      ≡ (if ltb n (2 ^ 32 - 1) then some (2 ^ 32 - 1 - n) else none)
accepts n x h = ground arith

-- For every index: exactly the indices below 2^32 - 1 have an id, which is 2^32 - 1 less the index.
pub try_from_index_lem :
    (index : ℕ)
    → try_from_index index ≡ (if ltb index (2 ^ 32 - 1) then some (2 ^ 32 - 1 - index) else none)
unfolding try_from_index
try_from_index_lem index = accepts index (bit_xor index (2 ^ 32 - 1)) (complement index)

-- For every index that has an id, the id gives the index back.
pub into_index-try_from_index :
    (index id : ℕ) → try_from_index index ≡ some id → into_index id ≡ index
into_index-try_from_index index id h = elim (Bool-cases (ltb index (2 ^ 32 - 1))) [
  | inl fits ↦
      let id_is : 2 ^ 32 - 1 - index ≡ id =
        some_inj _ id (rw fits at (sym (try_from_index_lem index) ∙ h)) in
      complement id ∙ omega (arith, id_is, ltb→lt index (2 ^ 32 - 1) fits)
  | inr large ↦ absurd (cc (rw large at (sym (try_from_index_lem index) ∙ h)))
]

-- ===== src/Encryption.antt =====
-- src/dvdbnd/filesystem/encryption.rs: the ids of encryption records, and the window of three buffers
-- from which the ciphertext around one buffer is taken.
pub mod Ids
pub mod Window
pub mod Blocks
pub mod Store
pub mod Ranges
pub mod Loaded
pub mod Aes
mod Tests
mod StoreTests
use fsvfs.Base.{
  ℕ, ◌+◌, ◌-◌, ◌^◌, List, [], ◌∷◌, ◌++◌, Bool, true, false, ltb, ◌==◌, if◌then◌else◌, Option, none,
  some, ◌>>=◌, take, drop, replicate, length, min, bit_xor,
}

-- `EncryptionId`: a number of 32 bits that is not 0. A `usize` has 64 bits; `as usize` adds none.
unfoldable pub try_from_index : ℕ → Option ℕ
try_from_index index =
    let x = bit_xor index (2 ^ 32 - 1) in
    if x == 0 then none else (if ltb x (2 ^ 32) then some x else none)

abbrev pub into_index : ℕ → ℕ
into_index id = bit_xor id (2 ^ 32 - 1)

-- `Pos`.
pub data Pos : Type 0 where
  pos_0 pos_1 pos_2 : Pos

abbrev pub next : Pos → Pos
next pos_0 = pos_1
next pos_1 = pos_2
next pos_2 = pos_0

abbrev pub prev : Pos → Pos
prev pos_0 = pos_2
prev pos_1 = pos_0
prev pos_2 = pos_1

-- `CiphertextBuffer`, over the type of the buffers.
pub record CiphertextBuffer {ℓ} (A : Type ℓ) : Type ℓ where
  pub slot_0 : Option A
  pub slot_1 : Option A
  pub slot_2 : Option A
  pub pos : Pos
  pub is_pushed : Bool

module _ {ℓ} {A : Type ℓ} where
  -- `inner[pos]`, and the assignment to it.
  abbrev pub slot : Pos → CiphertextBuffer A → Option A
  slot pos_0 buf = buf.slot_0
  slot pos_1 buf = buf.slot_1
  slot pos_2 buf = buf.slot_2

  abbrev pub set_slot : Pos → Option A → CiphertextBuffer A → CiphertextBuffer A
  set_slot pos_0 x buf = record buf { slot_0 = x }
  set_slot pos_1 x buf = record buf { slot_1 = x }
  set_slot pos_2 x buf = record buf { slot_2 = x }

  abbrev pub empty_buffer : CiphertextBuffer A
  empty_buffer = record {
    slot_0 = none;
    slot_1 = none;
    slot_2 = none;
    pos = pos_1;
    is_pushed = false;
  }

  unfoldable pub do_push : Option A → CiphertextBuffer A → CiphertextBuffer A
  do_push x buf = let p = next buf.pos in record (set_slot p x buf) { pos = p; is_pushed = true }

  unfoldable pub push : A → CiphertextBuffer A → CiphertextBuffer A
  unfolding do_push
  push a buf = do_push (some a) buf

  unfoldable pub finish : CiphertextBuffer A → CiphertextBuffer A
  unfolding do_push
  finish buf = do_push none buf

  abbrev pub is_empty : CiphertextBuffer A → Bool
  is_empty buf = if buf.is_pushed then false else true

  unfoldable pub has_predecessor : CiphertextBuffer A → Bool
  has_predecessor buf = elim (slot (prev buf.pos) buf) [ none ↦ false | some a ↦ true ]

  -- `none` is the panic on an empty buffer.
  unfoldable pub curr : CiphertextBuffer A → Option A
  unfolding has_predecessor
  curr buf = if has_predecessor buf then slot (prev buf.pos) buf else slot buf.pos buf

  -- The buffers whose bytes `prev` and `next` give; `none` is the empty slice.
  unfoldable pub prev_buffer : CiphertextBuffer A → Option A
  unfolding has_predecessor
  prev_buffer buf = if has_predecessor buf then slot (prev (prev buf.pos)) buf else none

  unfoldable pub next_buffer : CiphertextBuffer A → Option A
  unfolding has_predecessor
  next_buffer buf = if has_predecessor buf then slot buf.pos buf else none

-- A file offset, which is negative before the file's start.
pub data ℤ : Type 0 where
  pos : ℕ → ℤ
  negsuc : ℕ → ℤ

pub record Buffer : Type 0 where
  pub bytes : List ℕ
  pub offset : ℤ

pub record Ciphertext : Type 0 where
  pub body : List ℕ
  pub head : List ℕ
  pub tail : List ℕ
  pub file_offset : ℕ

abbrev pub bytes_of : Option Buffer → List ℕ
bytes_of none = []
bytes_of (some b) = b.bytes

abbrev pub u32_offset : ℤ → Option ℕ
u32_offset (pos n) = if ltb n (2 ^ 32) then some n else none
u32_offset (negsuc n) = none

-- `Ciphertext::from_buffer`; `none` is a panic. A block has 16 bytes.
unfoldable pub from_buffer : CiphertextBuffer Buffer → Option Ciphertext
unfolding prev_buffer next_buffer curr
from_buffer buf =
    let before = bytes_of (prev_buffer buf) in
    let after = bytes_of (next_buffer buf) in
    let left = 16 - length before in
    let right = length before - 16 in
    let len = min (length after) 16 in
    curr buf >>= λ b. u32_offset b.offset >>= λ file_offset. some (record {
      body = b.bytes;
      head = replicate left 0 ++ drop right before;
      tail = take len after ++ replicate (16 - len) 0;
      file_offset = file_offset;
    })

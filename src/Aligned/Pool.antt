-- ===== src/Aligned/Pool.antt =====
-- src/dvdbnd/filesystem/aligned.rs: the pool of buffers of a thread, `AlignedBufferAllocator`. A pointer is its
-- distance from the start of the pool, which is aligned to 4096 bytes.
use fsvfs.Base.{
  ℕ, zero, suc, ◌-◌, ◌*◌, ◌/◌, ◌%◌, ◌^◌, ◌==◌, ltb, bit_and, bit_or, ◌&&◌, if◌then◌else◌, Option,
  none, some,
}
use fsvfs.Aligned.{buffer_len}

-- `POOL_SIZE`, `BUFFER_BLOCKS` and `ARRAY_BLOCKS`.
abbrev pub pool_size : ℕ
pool_size = 64

abbrev pub buffer_blocks : ℕ
buffer_blocks = 8

abbrev pub array_blocks : ℕ
array_blocks = pool_size * buffer_blocks

-- `trailing_zeros` of a number of so many digits.
unfoldable pub trailing_zeros : ℕ → ℕ → ℕ
trailing_zeros zero x = 0
trailing_zeros (suc digits) x =
    let more = trailing_zeros digits (x / 2) in if x % 2 == 1 then 0 else suc more

-- `new`: all buffers are there.
abbrev pub all_available : ℕ
all_available = 2 ^ 64 - 1

-- `alloc`: a buffer and the mask afterwards.
unfoldable pub alloc : ℕ → Option (ℕ × ℕ)
unfolding trailing_zeros
alloc available =
    if available == 0
    then none
    else (let new_available = bit_and available (available - 1) in
        some (trailing_zeros pool_size (available - new_available) * buffer_len, new_available))

-- `free`: the mask afterwards; `none` is a failed assertion. The shift takes its distance modulo 64.
unfoldable pub free : ℕ → ℕ → ℕ → Option ℕ
free alignment pointer available =
    if pointer % alignment == 0 && ltb pointer (array_blocks * buffer_len)
    then some (bit_or available (2 ^ (pointer / buffer_len % 64)))
    else none

-- `allocate` and `deallocate`, with the length that is asked for; `none` is a panic.
unfoldable pub allocate : ℕ → ℕ → Option (ℕ × ℕ)
unfolding alloc
allocate len available = if len == buffer_len then alloc available else none

unfoldable pub deallocate : ℕ → ℕ → ℕ → ℕ → Option ℕ
unfolding free
deallocate alignment len pointer available =
    if len == buffer_len then free alignment pointer available else none

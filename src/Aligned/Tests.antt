-- ===== src/Aligned/Tests.antt =====
-- The pieces of a read of 40000 bytes, and buffers of the pool.
use fsvfs.Base.{ℕ, ◌+◌, ◌-◌, ◌*◌, ◌^◌, ◌<◌, List, [], ◌∷◌, min, max, none, some, ◌≡◌, refl, arith}
use fsvfs.Aligned.Pool.{allocate, deallocate, free}
use fsvfs.Aligned.Buffers.{allocate-deallocate}
use fsvfs.Aligned.{buffer_len, stream_read, window_pieces}
use fsvfs.Aligned.Tiles.{IsTiling, window_pieces-IsTiling}

pieces-two : stream_read 100 40000 0 50000 ≡ some ((32768, 100) ∷ (7232, 32868) ∷ [])
unfolding stream_read
pieces-two = refl

window_pieces-IsTiling_example :
    (ps : List (ℕ × ℕ)) × (window_pieces 64 100 40000 50 50000 ≡ some ps)
    × IsTiling (max (100 - 64) 50) ps (min (100 + 40000 + 64) (50 + 50000))
window_pieces-IsTiling_example =
    window_pieces-IsTiling 64 100 40000 50 50000 (omega arith) (omega arith) (omega arith)
      (omega arith)

-- The third and the fourth buffer are there.
allocate-two : allocate buffer_len 12 ≡ some (2 * buffer_len, 8)
unfolding allocate
allocate-two = refl

-- A pointer far behind the pool is not refused.
free-behind : free 512 (511 * buffer_len) 0 ≡ some (2 ^ 63)
unfolding free
free-behind = refl

allocate-deallocate_example :
    (allocate buffer_len 0 ≡ none)
    × ((k : ℕ) × (q : ℕ) × (k < 64)
        × (12 ≡ (2 * q + 1) * 2 ^ k)
        × (allocate buffer_len 12 ≡ some (k * buffer_len, 2 * q * 2 ^ k))
        × (deallocate 512 buffer_len (k * buffer_len) (2 * q * 2 ^ k) ≡ some 12))
    × (deallocate 512 buffer_len (1 * buffer_len) (2 * 3 * 2 ^ 1 + 1)
        ≡ some ((2 * 3 + 1) * 2 ^ 1 + 1))
allocate-deallocate_example =
    allocate-deallocate 512 refl (omega arith) 12 1 3 1 (omega arith) (omega arith) (omega arith)
      (omega arith)

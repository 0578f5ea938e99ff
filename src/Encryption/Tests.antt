-- ===== src/Encryption/Tests.antt =====
-- The ids and the window at concrete inputs.
use fsvfs.Base.{[], ◌∷◌, none, some, ◌≡◌, refl, arith}
use fsvfs.Encryption.{try_from_index, pos, Buffer, from_buffer, curr, next_buffer, prev_buffer}
use fsvfs.Encryption.Window.{after, after-views}
use fsvfs.Encryption.Blocks.{last_block, first_block, from_buffer-after}

id-five : try_from_index 5 ≡ some 0xfffffffa
unfolding try_from_index
id-five = refl

abbrev one_buffer : Buffer
one_buffer = record { bytes = 1 ∷ 2 ∷ 3 ∷ []; offset = pos 0 }

abbrev two_buffer : Buffer
two_buffer = record { bytes = 4 ∷ 5 ∷ []; offset = pos 3 }

after-views_example :
    (curr (after (some two_buffer ∷ some one_buffer ∷ [])) ≡ some one_buffer)
    × (next_buffer (after (some two_buffer ∷ some one_buffer ∷ [])) ≡ some two_buffer)
    × (prev_buffer (after (some two_buffer ∷ some one_buffer ∷ [])) ≡ none)
after-views_example = after-views (some two_buffer) one_buffer []

from_buffer-after_example :
    from_buffer (after (none ∷ some two_buffer ∷ some one_buffer ∷ []))
    ≡ some (record {
      body = 4 ∷ 5 ∷ [];
      head = last_block (1 ∷ 2 ∷ 3 ∷ []);
      tail = first_block [];
      file_offset = 3;
    })
from_buffer-after_example =
    from_buffer-after none two_buffer (some one_buffer ∷ []) 3 refl (omega arith)

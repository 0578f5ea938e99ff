-- ===== src/Unaligned/Tests.antt =====
-- The conversions at concrete numbers, in both byte orders.
use fsvfs.Base.{◌+◌, ◌%◌, ◌^◌, [], ◌∷◌, ltb, if◌then◌else◌, none, some, ◌≡◌, refl, arith}
use fsvfs.Unaligned.{little, big, new, get, try_from}
use fsvfs.Unaligned.Laws.{get-new, new-get, try_from_lem}

new-u24 :
    (new little 3 4 0x123456 ≡ 0x56 ∷ 0x34 ∷ 0x12 ∷ [])
    × (new big 3 4 0x123456 ≡ 0x12 ∷ 0x34 ∷ 0x56 ∷ [])
unfolding new
new-u24 = (refl, refl)

get-new_example : get big 3 (3 + 1) (new big 3 (3 + 1) 0x12345678) ≡ 0x12345678 % 256 ^ 3
get-new_example = get-new big 3 1 0x12345678

new-get_example : new big 3 (3 + 1) (get big 3 (3 + 1) (1 ∷ 2 ∷ 255 ∷ [])) ≡ 1 ∷ 2 ∷ 255 ∷ []
new-get_example =
    new-get big 3 1 (1 ∷ 2 ∷ 255 ∷ []) refl (omega arith, (omega arith, (omega arith, tt)))

try_from_lem_example :
    try_from little 3 (3 + 1) 0x1000000
    ≡ (if ltb 0x1000000 (256 ^ 3) then some (new little 3 (3 + 1) 0x1000000) else none)
try_from_lem_example = try_from_lem little 3 1 0x1000000

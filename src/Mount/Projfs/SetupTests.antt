-- ===== src/Mount/Projfs/SetupTests.antt =====
-- The identity of a mountpoint at concrete files.
use fsvfs.Base.{
  ℕ, ◌^◌, ◌<◌, List, [], ◌∷◌, true, false, Option, some, ◌≡◌, refl, arith, replicate, ◌==◌,
  if◌then◌else◌,
}
use fsvfs.Mount.Projfs.Setup.{
  guid_path, GuidSystem, get_or_create_mount_guid, get_or_create_mount_guid-again,
}

guid_path-parent :
    guid_path (b'a' ∷ 0x5c ∷ b'm' ∷ [])
    ≡ b'a' ∷ b'/' ∷ b'~' ∷ b'm' ∷ b'.' ∷ b'G' ∷ b'U' ∷ b'I' ∷ b'D' ∷ []
unfolding guid_path
guid_path-parent = refl

-- An identity of two values, which are the numbers 7 and 300.
data Two : Type 0 where
  seven three_hundred : Two

abbrev number_of : Two → ℕ
number_of seven = 7
number_of three_hundred = 300

abbrev of_number : ℕ → Two
of_number n = if n == 7 then seven else three_hundred

number_back : (guid : Two) → of_number (number_of guid) ≡ guid
number_back seven = refl
number_back three_hundred = refl

number_small : (guid : Two) → number_of guid < 256 ^ 16
number_small seven = omega arith
number_small three_hundred = omega arith

-- A first mount that gets the identity 300, and a later one that could get 7.
abbrev first_mount : GuidSystem Two
first_mount = record { removed = true; new_guid = some three_hundred; can_write = true }

abbrev second_mount : GuidSystem Two
second_mount = record { removed = false; new_guid = some seven; can_write = true }

abbrev left_by_first : Option (List ℕ)
left_by_first = some (44 ∷ 1 ∷ replicate 14 0)

first_mount-creates :
    get_or_create_mount_guid number_of of_number first_mount (some (1 ∷ 2 ∷ []))
    ≡ (some three_hundred, left_by_first)
unfolding get_or_create_mount_guid
first_mount-creates = refl

get_or_create_mount_guid-again_example :
    get_or_create_mount_guid number_of of_number second_mount left_by_first
    ≡ (some three_hundred, left_by_first)
unfolding get_or_create_mount_guid
get_or_create_mount_guid-again_example =
    get_or_create_mount_guid-again number_of of_number number_back number_small first_mount
      second_mount (some (1 ∷ 2 ∷ [])) refl three_hundred refl

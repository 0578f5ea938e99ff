-- ===== src/Hash/Case.antt =====
-- The hash does not see the case of ASCII letters, nor which of the two separators is written.
use mathlib.Core.Option
use fsvfs.Base.{ℕ, List, ◌≡◌, map, Option, ◌==◌, ◌&&◌, Bool, true, false}
use fsvfs.Hash.{is_separator}
use fsvfs.Hash.Mad.{normalize}

-- Two texts that differ in the case of letters and in the kind of separators only.
abbrev pub SameName : List ℕ → List ℕ → Type 0
SameName s t = map normalize s ≡ map normalize t

same : Bool → Bool → Bool
same true b = b
same false true = false
same false false = true

-- What `normalize` keeps, to be checked of each byte.
keeps : ℕ → Bool
unfolding same
keeps c =
    (normalize (normalize c) == normalize c)
    && (same (is_separator (normalize c)) (is_separator c)
        && same (normalize c == b':') (c == b':'))

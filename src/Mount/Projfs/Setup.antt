-- ===== src/Mount/Projfs/Setup.antt =====
-- src/dvdbnd/mount/projfs.rs: the identity of a mountpoint, which the mount keeps in a file beside it.
use native.Mathlib.Nat.{mod-eq_of_lt}
use fsvfs.Base.{
  ℕ, ◌<◌, ◌%◌, arith, ◌^◌, sym, ◌==◌, List, [], ◌∷◌, ◌++◌, Bool, true, ◌||◌, if◌then◌else◌, Option,
  none, some, ◌≡◌, refl, ap, ◌∙◌, Bool-cases, inl, inr, drop, length,
}
use fsvfs.Rofs.Path.{Name}
use fsvfs.Unaligned.{le_bytes, from_le_bytes}
use fsvfs.Unaligned.Bytes.{length-le_bytes, from_le_bytes-le_bytes}

-- `rsplit_once(['\\', '/'])`: what stands in front of the last separator, and behind it.
unfoldable pub rsplit_once : Name → Option (Name × Name)
rsplit_once [] = none
rsplit_once (b ∷ bs) = elim (rsplit_once bs) [
  | some (parent, name) ↦ some (b ∷ parent, name)
  | none ↦ if b == 0x5c || b == b'/' then some ([], bs) else none
]

abbrev pub dot_guid : Name
dot_guid = b'.' ∷ b'G' ∷ b'U' ∷ b'I' ∷ b'D' ∷ []

-- Where the identity is kept.
unfoldable pub guid_path : Name → Name
unfolding rsplit_once
guid_path mountpoint = elim (rsplit_once mountpoint) [
  | some (parent, name) ↦ parent ++ (b'/' ∷ (b'~' ∷ (name ++ dot_guid)))
  | none ↦ b'~' ∷ (mountpoint ++ dot_guid)
]

-- The system, for one call: whether the old file was removed, a new identity, and whether it can be written.
pub record GuidSystem {ℓ} (Guid : Type ℓ) : Type ℓ where
  pub removed : Bool
  pub new_guid : Option Guid
  pub can_write : Bool

-- A file that is not truncated keeps what stands behind the bytes written.
abbrev pub overwrite : List ℕ → Option (List ℕ) → List ℕ
overwrite bytes none = bytes
overwrite bytes (some old) = bytes ++ drop (length bytes) old

-- `GUID::to_u128` and `GUID::from_u128` are the identity as a number.
module _ {ℓ} {Guid : Type ℓ} (to_u128 : Guid → ℕ) (from_u128 : ℕ → Guid) where
  -- The tail of `get_or_create_mount_guid`: the file's bytes afterwards.
  unfoldable pub create_guid : GuidSystem Guid → Option (List ℕ) → Option Guid × Option (List ℕ)
  unfolding le_bytes
  create_guid system file =
      let left = if system.removed then none else file in
      elim system.new_guid [
        | none ↦ (none, left)
        | some guid ↦
            if system.can_write
            then (some guid, some (overwrite (le_bytes 16 (to_u128 guid)) left))
            else (none, left)
      ]

  -- `get_or_create_mount_guid`, with the bytes of the file where it can be read; no result is an error.
  unfoldable pub get_or_create_mount_guid :
      GuidSystem Guid → Option (List ℕ) → Option Guid × Option (List ℕ)
  unfolding create_guid from_le_bytes
  get_or_create_mount_guid system none = create_guid system none
  get_or_create_mount_guid system (some bytes) =
      if length bytes == 16
      then (some (from_u128 (from_le_bytes bytes)), some bytes)
      else create_guid system (some bytes)

  module _ (number_back : (guid : Guid) → from_u128 (to_u128 guid) ≡ guid)
      (small : (guid : Guid) → to_u128 guid < 256 ^ 16) where
    abbrev ReadBack : GuidSystem Guid → Option Guid × Option (List ℕ) → Type ℓ
    ReadBack later first =
        (guid : Guid)
        → first.0 ≡ some guid
        → get_or_create_mount_guid later first.1 ≡ (some guid, first.1)

    whole-ReadBack :
        (later : GuidSystem Guid) (bytes : List ℕ) (guid : Guid)
        → length bytes ≡ 16
        → from_u128 (from_le_bytes bytes) ≡ guid
        → get_or_create_mount_guid later (some bytes) ≡ (some guid, some bytes)
    unfolding get_or_create_mount_guid
    whole-ReadBack later bytes guid size value = rw (size, value) refl

    stored-ReadBack :
        (later : GuidSystem Guid) (guid : Guid)
        → get_or_create_mount_guid later (some (le_bytes 16 (to_u128 guid)))
          ≡ (some guid, some (le_bytes 16 (to_u128 guid)))
    stored-ReadBack later guid =
        let fits : to_u128 guid % 256 ^ 16 ≡ to_u128 guid = mod-eq_of_lt (small guid) in
        whole-ReadBack later (le_bytes 16 (to_u128 guid)) guid (length-le_bytes 16 (to_u128 guid))
          (ap from_u128 (from_le_bytes-le_bytes 16 (to_u128 guid) ∙ fits) ∙ number_back guid)

    kept-ReadBack :
        (later : GuidSystem Guid) (bytes : List ℕ)
        → (length bytes == 16) ≡ true
        → ReadBack later (some (from_u128 (from_le_bytes bytes)), some bytes)
    unfolding get_or_create_mount_guid
    kept-ReadBack later bytes whole guid same =
        rw (get_or_create_mount_guid, whole) (ap (λ t. (t, some bytes)) same)

    -- An identity that is created is the system's new one, and is what is in the file.
    create_guid-written :
        (now : GuidSystem Guid) (file : Option (List ℕ)) (guid : Guid)
        → now.removed ≡ true
        → (create_guid now file).0 ≡ some guid
        → (create_guid now file).1 ≡ some (le_bytes 16 (to_u128 guid))
    unfolding create_guid
    create_guid-written now file guid gone same = ground arith

    create_guid-ReadBack :
        (now later : GuidSystem Guid) (file : Option (List ℕ))
        → now.removed ≡ true
        → ReadBack later (create_guid now file)
    create_guid-ReadBack now later file gone guid same =
        let written = create_guid-written now file guid gone same in
        ap (get_or_create_mount_guid later) written
        ∙ stored-ReadBack later guid
        ∙ ap (λ t. (some guid, t)) (sym written)

    -- If the number of an identity of 128 bits stands for it again, and the old file could be removed: once a mount has its
    -- identity, read or created, any later mount at the file that it leaves reads the same identity and leaves the
    -- file as it is.
    pub get_or_create_mount_guid-again :
        (now later : GuidSystem Guid) (file : Option (List ℕ))
        → now.removed ≡ true
        → ReadBack later (get_or_create_mount_guid now file)
    unfolding get_or_create_mount_guid
    get_or_create_mount_guid-again now later none gone = create_guid-ReadBack now later none gone
    get_or_create_mount_guid-again now later (some bytes) gone =
        elim (Bool-cases (length bytes == 16)) [
          | inl whole ↦ rw (get_or_create_mount_guid, whole) (kept-ReadBack later bytes whole)
          | inr torn ↦
              rw (get_or_create_mount_guid, torn) (create_guid-ReadBack now later (some bytes) gone)
        ]

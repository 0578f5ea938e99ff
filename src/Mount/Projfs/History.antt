-- ===== src/Mount/Projfs/History.antt =====
-- src/dvdbnd/mount/projfs.rs: histories of requests for enumerations.
use fsvfs.Base.{
  ℕ, arith, inl, inr, Option-cases, List, [], ◌∷◌, Bool, false, true, Option, ◌≡◌, refl, sym, ap,
  ◌∙◌, if◌then◌else◌, ◌==◌, All,
}
use fsvfs.Base.Results.{ok, err}
use fsvfs.Rofs.Path.{Config}
use fsvfs.Rofs.Node.{Eytzinger, Rofs}
use fsvfs.Encryption.{ℤ}
use fsvfs.Mount.Read.{DvdbndFile}
use fsvfs.Mount.Projfs.{Shown}
use fsvfs.Mount.Projfs.Table.{get, remove, get-remove}
use fsvfs.Mount.Projfs.Callbacks.{
  Hresult, e_invalidarg, Enumerations, start_directory_enumeration, end_directory_enumeration,
  get_directory_enumeration,
}
use fsvfs.Mount.Projfs.Lifetime.{
  Request, start, finish, next, is_open, is_some, is_ok, opens, AllWithin, Keeps, start_at-opens,
  start_at-Keeps, remove-Keeps, get_directory_enumeration-opens, get_directory_enumeration-Keeps,
}

-- A path that cannot be decoded has the code of a failure.
abbrev pub IsRequest : Request → Type 0
IsRequest (start (ok path) id) = Unit {0}
IsRequest (start (err code) id) = is_ok code ≡ false
IsRequest (finish id) = Unit {0}
IsRequest (next id restart expression) = Unit {0}

abbrev pub id_of : Request → ℕ
id_of (start path id) = id
id_of (finish id) = id
id_of (next id restart expression) = id

-- Whether an enumeration should be open, by the requests and their codes alone.
abbrev pub open_after : ℕ → Bool → List Request → List Hresult → Bool
open_after at was (r ∷ rs) (code ∷ codes) = open_after at (opens r code at was) rs codes
open_after at was _ _ = was

module _ (name_compare : List ℕ → List ℕ → ℤ) (name_match : List ℕ → List ℕ → Bool)
    (fill : List Shown → Shown → Option Hresult) (c : Config) (e : Eytzinger)
    (fs : Rofs DvdbndFile) where
  -- One callback of a live context: its code and the table afterwards.
  unfoldable pub respond : Request → Enumerations → Hresult × Enumerations
  unfolding start_directory_enumeration end_directory_enumeration get_directory_enumeration
  respond (start path id) table = start_directory_enumeration c e fs name_compare true path id table
  respond (finish id) table = end_directory_enumeration true id table
  respond (next id restart expression) table =
      let (code, after) =
        get_directory_enumeration fill name_match true id restart expression table in
      (code, after.0)

  respond-Keeps :
      (r : Request) (table : Enumerations)
      → AllWithin table
      → Keeps (id_of r) table (respond r table).1
  unfolding respond
  respond-Keeps (start (ok path) id) table all =
      start_at-Keeps name_compare c e fs path id table all
  respond-Keeps (start (err code) id) table all = (all, λ at h. refl)
  respond-Keeps (finish id) table all = remove-Keeps id table all
  respond-Keeps (next id restart expression) table all =
      get_directory_enumeration-Keeps fill name_match id restart expression table all

  is_open-remove :
      (id at : ℕ) (table : Enumerations)
      → is_open at (remove id table) ≡ (if id == at then false else is_open at table)
  is_open-remove id at table = ground (arith, get-remove id at table)

  respond-opens :
      (r : Request) (at : ℕ) (table : Enumerations)
      → IsRequest r
      → is_open at (respond r table).1 ≡ opens r (respond r table).0 at (is_open at table)
  unfolding respond
  respond-opens (start (ok path) id) at table well =
      start_at-opens name_compare c e fs path id at table
  respond-opens (start (err code) id) at table well = rw well refl
  respond-opens (finish id) at table well = is_open-remove id at table
  respond-opens (next id restart expression) at table well =
      get_directory_enumeration-opens fill name_match id at restart expression table

  respond-closed :
      (at : ℕ) (restart : Bool) (expression : Option (List ℕ)) (table : Enumerations)
      → is_open at table ≡ false
      → respond (next at restart expression) table ≡ (e_invalidarg, table)
  unfolding respond
  respond-closed at restart expression table closed = elim (Option-cases (get at table)) [
    | inl missing ↦ rw missing refl
    | inr (dir, here) ↦ let bad = sym (ap is_some here) ∙ closed in cc
  ]

  -- A history from a table on: the code of each request, and the table at its end.
  unfoldable pub run : List Request → Enumerations → List Hresult × Enumerations
  unfolding respond
  run [] table = ([], table)
  run (r ∷ rs) table =
      let (code, after) = respond r table in
      let (codes, last) = run rs after in (code ∷ codes, last)

  run-from :
      (rs : List Request) (at : ℕ) (table : Enumerations)
      → All IsRequest rs
      → AllWithin table
      → AllWithin (run rs table).1
        × (is_open at (run rs table).1 ≡ open_after at (is_open at table) rs (run rs table).0)
  unfolding run
  run-from [] at table well all = (all, refl)
  run-from (r ∷ rs) at table well all =
      let after = (respond r table).1 in
      let (within, same) = run-from rs at after well.1 (respond-Keeps r table all).0 in
      (
        within,
        same ∙ ap (λ was. open_after at was rs (run rs after).0) (respond-opens r at table well.0),
      )

  -- In any history of requests of a live mount from an empty table, where an undecodable path has the code of a
  -- failure: an enumeration is open at the end exactly if its last successful start has no end behind it, each open
  -- one stands at a position within its index, and a call for the entries of one that is not open gives
  -- `E_INVALIDARG` and leaves the table as it is.
  pub run-open_after :
      (rs : List Request) (at : ℕ) (restart : Bool) (expression : Option (List ℕ))
      → All IsRequest rs
      → let (codes, table) = run rs [] in
        AllWithin table
        × (is_open at table ≡ open_after at false rs codes)
        × (open_after at false rs codes ≡ false
            → respond (next at restart expression) table ≡ (e_invalidarg, table))
  unfolding get
  run-open_after rs at restart expression well =
      let (within, same) = run-from rs at [] well tt in
      (within, same, λ closed. respond-closed at restart expression (run rs []).1 (same ∙ closed))

-- ===== src/Dvdbnd/Matched.antt =====
-- src/dvdbnd/keys.rs: which archives get a key, where no file fails to be read.
use fsvfs.Base.{
  ℕ, ◌==◌, ==_iff, List, [], ◌∷◌, Bool, Bool-cases, true, false, Option, none, some, ◌≡◌, refl, sym,
  ap, subst, ap₂, ◌∙◌, ◌⊎◌, inl, inr, All, get_elem?, Option-cases, if◌then◌else◌,
}
use fsvfs.Base.Results.{Result, ok}
use fsvfs.Rofs.Path.{Name}
use fsvfs.Dvdbnd.Keys.{
  PemPathMap, search_game, Keys, cached, get_or_insert, found, key_of, insert_key, try_paths,
  try_games, with_index, index_or_else, candidates, try_candidates, match_archive, match_archives,
  into_keys_for_game_with_filter, first_keys,
}

-- Whether an archive has an entry, with a key or without.
abbrev pub HasEntry : {A K : Type 0} → A → List (A × Option K) → Type 0
HasEntry a [] = ⊥
HasEntry a ((b, key) ∷ rest) = (b ≡ a) ⊎ HasEntry a rest

-- An archive that is read without a key, or one that is not and that its key opens.
abbrev pub IsRight : {A K : Type 0} → (A → Option K → Bool) → A × Option K → Type 0
IsRight test (a, none) = test a none ≡ true
IsRight test (a, some key) = (test a none ≡ false) × (test a (some key) ≡ true)

module _ {E A K : Type 0} (opens : A → Option K → Result E Bool) (read_key : ℕ → Result E K)
    (test : A → Option K → Bool) (key : ℕ → K)
    (opened : (a : A) (k : Option K) → opens a k ≡ ok (test a k))
    (was_read : (path : ℕ) → read_key path ≡ ok (key path)) where
  abbrev IsCache : List (ℕ × K) → Type 0
  IsCache = All (λ c. c.1 ≡ key c.0)

  abbrev IsGood : Keys A K → Type 0
  IsGood s = IsCache s.cache × All (IsRight test) s.by_path

  -- What later steps keep: entries, the index, and a game.
  abbrev Keeps : Keys A K → Keys A K → Type 0
  Keeps s s' =
      ((a : A) → HasEntry a s.by_path → HasEntry a s'.by_path)
      × (s'.game_index ≡ s.game_index)
      × ((game : Name) → s.game ≡ some game → s'.game ≡ some game)

  Keeps-trans : (s t u : Keys A K) → Keeps s t → Keeps t u → Keeps s u
  Keeps-trans s t u h k = (λ a e. k.0 a (h.0 a e), k.1 ∙ h.1, λ game e. k.2 game (h.2 game e))

  cached-key :
      (path : ℕ) (k : K) (cache : List (ℕ × K))
      → IsCache cache
      → cached path cache ≡ some k
      → k ≡ key path
  cached-key path k [] good h = absurd (cc)
  cached-key path k ((p, k') ∷ rest) good h = elim (Bool-cases (p == path)) [
    | inl same ↦
        let here : ◌≡◌ {A = Option K} (some k') (some k) =
          sym (ap (λ b. if b then some k' else cached path rest) same) ∙ h in
        let at : p ≡ path = (==_iff p path).0 same in (cc (here)) ∙ good.0 ∙ ap key at
    | inr differs ↦
        cached-key path k rest good.1
          (sym (ap (λ b. if b then some k' else cached path rest) differs) ∙ h)
  ]

  key_of-ok :
      (path : ℕ) (s : Keys A K)
      → IsGood s
      → (s' : Keys A K) × (key_of opens read_key path s ≡ ok (key path, s'))
        × IsGood s'
        × (s'.by_path ≡ s.by_path)
        × (s'.game_index ≡ s.game_index)
        × (s'.game ≡ s.game)
  unfolding key_of
  key_of-ok path s good = elim (Option-cases (cached path s.cache)) [
    | inl missing ↦ (
      record s { cache = (path, key path) ∷ s.cache },
      rw (key_of, missing, was_read path) refl,
      ((refl, good.0), good.1),
      refl,
      refl,
      refl,
    )
    | inr (k, here) ↦ (
      s,
      rw (key_of, here) (ap (λ t. ok (t, s)) (cached-key path k s.cache good.0 here)),
      good,
      refl,
      refl,
      refl,
    )
  ]

  -- All the keys that open an archive have left an entry.
  abbrev Tried : A → List ℕ → Keys A K → Type 0
  Tried a paths s = All (λ path. test a (some (key path)) ≡ true → HasEntry a s.by_path) paths

  Tried-keep :
      (a : A) (paths : List ℕ) (s s' : Keys A K) → Keeps s s' → Tried a paths s → Tried a paths s'
  Tried-keep a [] s s' keeps tried = tt
  Tried-keep a (path ∷ rest) s s' keeps tried =
      (λ hit. keeps.0 a (tried.0 hit), Tried-keep a rest s s' keeps tried.1)

  get_or_insert-some :
      (held : Option Name) (name game : Name)
      → held ≡ some game
      → get_or_insert held name ≡ some game
  get_or_insert-some none name game h = absurd (cc)
  get_or_insert-some (some g) name game h = h

  insert_key-ok :
      (a : A) (name : Name) (k : K) (hit : Bool) (s : Keys A K)
      → test a none ≡ false
      → test a (some k) ≡ hit
      → IsGood s
      → IsGood (insert_key opens read_key a name k hit s)
        × Keeps s (insert_key opens read_key a name k hit s)
        × (hit ≡ true → HasEntry a (insert_key opens read_key a name k hit s).by_path)
  insert_key-ok a name k false s shut tested good =
      (good, (λ b e. e, refl, λ game e. e), λ bad. absurd (cc))
  insert_key-ok a name k true s shut tested good = (
    (good.0, ((shut, tested), good.1)),
    (λ b e. inr e, refl, λ game e. get_or_insert-some s.game name game e),
    λ h. inl refl,
  )

  try_paths-ok :
      (a : A) (name : Name) (paths : List ℕ) (s : Keys A K)
      → test a none ≡ false
      → IsGood s
      → (s' : Keys A K) × (try_paths opens read_key a name paths s ≡ ok s')
        × IsGood s'
        × Keeps s s'
        × Tried a paths s'
  unfolding try_paths
  try_paths-ok a name [] s shut good = (s, refl, good, (λ b e. e, refl, λ game e. e), tt)
  try_paths-ok a name (path ∷ rest) s shut good =
      let (s₁, gives₁, good₁, entries, index, game) = key_of-ok path s good in
      let hit = test a (some (key path)) in
      let s₂ = insert_key opens read_key a name (key path) hit s₁ in
      let (good₂, keeps₂, has) = insert_key-ok a name (key path) hit s₁ shut refl good₁ in
      let (s₃, gives₃, good₃, keeps₃, tried) = try_paths-ok a name rest s₂ shut good₂ in
      let first : Keeps s s₁ =
        (λ b e. subst (HasEntry b) (sym entries) e, index, λ g e. game ∙ e) in
      (
        s₃,
        rw (try_paths, gives₁, opened a (some (key path))) gives₃,
        good₃,
        Keeps-trans s s₁ s₃ first (Keeps-trans s₁ s₂ s₃ keeps₂ keeps₃),
        (λ h. keeps₃.0 a (has h), tried),
      )

  -- The loop over games tries all their keys.
  abbrev TriedAll : A → PemPathMap → Keys A K → Type 0
  TriedAll a games s = All (λ entry. Tried a entry.1 s) games

  try_games-ok :
      (a : A) (games : PemPathMap) (s : Keys A K)
      → test a none ≡ false
      → IsGood s
      → (s' : Keys A K) × (try_games opens read_key a games s ≡ ok s')
        × IsGood s'
        × Keeps s s'
        × TriedAll a games s'
  unfolding try_games
  try_games-ok a [] s shut good = (s, refl, good, (λ b e. e, refl, λ game e. e), tt)
  try_games-ok a ((name, paths) ∷ rest) s shut good =
      let (s₁, gives₁, good₁, keeps₁, tried₁) = try_paths-ok a name paths s shut good in
      let (s₂, gives₂, good₂, keeps₂, tried₂) = try_games-ok a rest s₁ shut good₁ in
      (
        s₂,
        rw (try_games, gives₁) gives₂,
        good₂,
        Keeps-trans s s₁ s₂ keeps₁ keeps₂,
        (Tried-keep a paths s₁ s₂ keeps₂ tried₁, tried₂),
      )

  module _ (games : PemPathMap) (game : Name) (i : ℕ) (name : Name) (paths : List ℕ)
      (listed : search_game game games ≡ ok i)
      (there : get_elem? games i ≡ some (name, paths)) where
    -- The variables while the game is known.
    abbrev IsReady : Keys A K → Type 0
    IsReady s = IsGood s × (s.game ≡ some game) × ((s.game_index ≡ none) ⊎ (s.game_index ≡ some i))

    abbrev Settled : A → Keys A K → Type 0
    Settled a s =
        (test a none ≡ true → HasEntry a s.by_path) × (test a none ≡ false → Tried a paths s)

    abbrev at_game : Keys A K → Keys A K
    at_game s = record s { game_index = some i }

    with_index-known : (s : Keys A K) → IsReady s → with_index opens read_key games s ≡ at_game s
    with_index-known s ready =
        let known : index_or_else games s.game_index s.game ≡ some i = elim (ready.2) [
          | inl none_yet ↦ ap₂ (index_or_else games) none_yet ready.1 ∙ ap found listed
          | inr here ↦ ap (λ t. index_or_else games t s.game) here
        ] in
        ap (λ t. record s { game_index = t }) known

    try_candidates-known :
        (a : A) (s s' : Keys A K)
        → IsReady s
        → test a none ≡ false
        → try_games opens read_key a ((name, paths) ∷ []) (at_game s) ≡ ok s'
        → match_archive opens read_key games a s ≡ some (ok s')
    unfolding match_archive
    try_candidates-known a s s' ready shut gives =
        let one : candidates opens read_key games (some i) ≡ some ((name, paths) ∷ []) =
          ap
            (λ entry. elim entry as (λ e. Option PemPathMap) [
              | none ↦ none
              | some e ↦ some (e ∷ [])
            ])
            there in
        rw (match_archive, opened a none, shut)
          (ap
              (λ t.
                try_candidates opens read_key a (candidates opens read_key games t.game_index) t)
              (with_index-known s ready)
            ∙ ap (λ c. try_candidates opens read_key a c (at_game s)) one
            ∙ ap some gives)

    match_archive-ok :
        (a : A) (s : Keys A K)
        → IsReady s
        → (s' : Keys A K) × (match_archive opens read_key games a s ≡ some (ok s'))
          × IsReady s'
          × ((b : A) → HasEntry b s.by_path → HasEntry b s'.by_path)
          × Settled a s'
    unfolding match_archive
    match_archive-ok a s ready = elim (Bool-cases (test a none)) [
      | inl plain ↦ (
        record s { by_path = (a, none) ∷ s.by_path },
        rw (match_archive, opened a none, plain) refl,
        ((ready.0.0, (plain, ready.0.1)), ready.1, ready.2),
        λ b e. inr e,
        (λ h. inl refl, λ h. absurd (cc)),
      )
      | inr shut ↦
          let (s', gives, good, keeps, tried) =
            try_games-ok a ((name, paths) ∷ []) (at_game s) shut ready.0 in
          (
            s',
            try_candidates-known a s s' ready shut gives,
            (good, keeps.2 game ready.1, inr keeps.1),
            keeps.0,
            (λ h. absurd (cc), λ h. tried.0),
          )
    ]

    abbrev AllSettled : List A → Keys A K → Type 0
    AllSettled archives s = All (λ a. Settled a s) archives

    Settled-keep :
        (a : A) (s s' : Keys A K)
        → ((b : A) → HasEntry b s.by_path → HasEntry b s'.by_path)
        → Settled a s
        → Settled a s'
    Settled-keep a s s' keeps settled =
        (λ h. keeps a (settled.0 h), λ h. Tried_mono paths (settled.1 h))
      where
        Tried_mono : (ps : List ℕ) → Tried a ps s → Tried a ps s'
        Tried_mono [] tried = tt
        Tried_mono (p ∷ ps) tried = (λ hit. keeps a (tried.0 hit), Tried_mono ps tried.1)

    match_archives-ok :
        (archives : List A) (s : Keys A K)
        → IsReady s
        → (s' : Keys A K) × (match_archives opens read_key games archives s ≡ some (ok s'))
          × IsReady s'
          × ((b : A) → HasEntry b s.by_path → HasEntry b s'.by_path)
          × AllSettled archives s'
    unfolding match_archives
    match_archives-ok [] s ready = (s, refl, ready, λ b e. e, tt)
    match_archives-ok (a ∷ rest) s ready =
        let (s₁, gives₁, ready₁, keeps₁, settled) = match_archive-ok a s ready in
        let (s₂, gives₂, ready₂, keeps₂, all) = match_archives-ok rest s₁ ready₁ in
        (
          s₂,
          rw (match_archives, gives₁) gives₂,
          ready₂,
          λ b e. keeps₂ b (keeps₁ b e),
          (Settled-keep a s₁ s₂ keeps₂ settled, all),
        )

    -- If the game is given and there are keys for it, and nothing fails to be read: the search for keys gives a result
    -- of this game, in which each entry is right, that is without a key for an archive that needs none, and
    -- otherwise with a key that opens the archive; every archive that needs no key has an entry, and so has every
    -- other one that a key of the game opens.
    pub into_keys_for_game_with_filter-Settled :
        (archives : List A)
        → (s : Keys A K) × (into_keys_for_game_with_filter opens read_key games archives (some game)
            ≡ some (ok s))
          × (s.game ≡ some game)
          × All (IsRight test) s.by_path
          × All
              (λ a.
                (test a none ≡ true → HasEntry a s.by_path)
                × (test a none ≡ false
                    → All (λ path. test a (some (key path)) ≡ true → HasEntry a s.by_path) paths))
              archives
    unfolding into_keys_for_game_with_filter
    into_keys_for_game_with_filter-Settled archives =
        let (s, gives, ready, keeps, settled) =
          match_archives-ok archives (first_keys opens read_key (some game))
            ((tt, tt), refl, inl refl) in
        (s, gives, ready.1, ready.0.1, settled)

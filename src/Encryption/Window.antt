-- ===== src/Encryption/Window.antt =====
-- The window of three buffers: after any pushes, the views are of the last three.
use fsvfs.Base.{
  ℕ, List, [], ◌∷◌, Bool, true, false, if◌then◌else◌, Option, none, some, ◌>>=◌, get_elem?, ◌≡◌,
  refl, ap, ◌∙◌,
}
use fsvfs.Encryption.{
  Pos, pos_0, pos_1, pos_2, prev, CiphertextBuffer, slot, empty_buffer, do_push, has_predecessor,
  curr, prev_buffer, next_buffer,
}

module _ {ℓ} {A : Type ℓ} where
  -- The buffer after some pushes, the last one first; `none` is a call of `finish`.
  abbrev pub after : List (Option A) → CiphertextBuffer A
  after [] = empty_buffer
  after (x ∷ xs) = do_push x (after xs)

  abbrev pub recent : ℕ → List (Option A) → Option A
  recent i xs = get_elem? xs i >>= λ x. x

  -- The three slots, from the newest.
  abbrev Slots : CiphertextBuffer A → Option A → Option A → Option A → Type ℓ
  Slots b x y z = (slot b.pos b ≡ x) × (slot (prev b.pos) b ≡ y) × (slot (prev (prev b.pos)) b ≡ z)

  push_at :
      (x s₀ s₁ s₂ : Option A) (p : Pos) (i : Bool)
      → let b : CiphertextBuffer A = record {
        slot_0 = s₀;
        slot_1 = s₁;
        slot_2 = s₂;
        pos = p;
        is_pushed = i;
      } in
        Slots (do_push x b) x (slot p b) (slot (prev p) b)
  unfolding do_push
  push_at x s₀ s₁ s₂ pos_0 i = (refl, refl, refl)
  push_at x s₀ s₁ s₂ pos_1 i = (refl, refl, refl)
  push_at x s₀ s₁ s₂ pos_2 i = (refl, refl, refl)

  after-Slots : (xs : List (Option A)) → Slots (after xs) (recent 0 xs) (recent 1 xs) (recent 2 xs)
  after-Slots [] = (refl, refl, refl)
  after-Slots (x ∷ xs) =
      let b = after xs in
      let (newest, second, third) = push_at x b.slot_0 b.slot_1 b.slot_2 b.pos b.is_pushed in
      let (s, t, u) = after-Slots xs in (newest, second ∙ s, third ∙ t)

  has_predecessor-slot :
      (b : CiphertextBuffer A) (r : Option A)
      → slot (prev b.pos) b ≡ r
      → has_predecessor b ≡ elim r [ none ↦ false | some a ↦ true ]
  unfolding has_predecessor
  has_predecessor-slot b r h = ap (λ t. elim t [ none ↦ false | some a ↦ true ]) h

  -- The views with a predecessor, and without one.
  views :
      (b : CiphertextBuffer A) (has : Bool)
      → has_predecessor b ≡ has
      → (curr b ≡ (if has then slot (prev b.pos) b else slot b.pos b))
        × (next_buffer b ≡ (if has then slot b.pos b else none))
        × (prev_buffer b ≡ (if has then slot (prev (prev b.pos)) b else none))
  unfolding curr next_buffer prev_buffer
  views b has h = (
    ap (λ t. if t then slot (prev b.pos) b else slot b.pos b) h,
    ap (λ t. if t then slot b.pos b else none) h,
    ap (λ t. if t then slot (prev (prev b.pos)) b else none) h,
  )

  -- Once a buffer was pushed and then another, or the end, the window's views are of three successive
  -- buffers: the current one is the one before the last push, the next one is the last push (none at the
  -- end), and the previous one is the one pushed before the current one (none at the start).
  pub after-views :
      (x : Option A) (c : A) (xs : List (Option A))
      → let b = after (x ∷ some c ∷ xs) in
        (curr b ≡ some c) × (next_buffer b ≡ x) × (prev_buffer b ≡ recent 0 xs)
  after-views x c xs =
      let b = after (x ∷ some c ∷ xs) in
      let (s, t, u) = after-Slots (x ∷ some c ∷ xs) in
      let (now, later, before) = views b true (has_predecessor-slot b (some c) t) in
      (now ∙ t, later ∙ s, before ∙ u)

  -- With one buffer pushed, it is the current one, and there is none before it or after it.
  pub after-first :
      (c : A)
      → let b = after (some c ∷ []) in
        (curr b ≡ some c) × (next_buffer b ≡ none) × (prev_buffer b ≡ none)
  after-first c =
      let b = after (some c ∷ []) in
      let (s, t, u) = after-Slots (some c ∷ []) in
      let (now, later, before) = views b false (has_predecessor-slot b none t) in
      (now ∙ s, later, before)

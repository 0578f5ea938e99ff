-- ===== src/Mount/Opened/Steps.antt =====
-- src/dvdbnd/mount.rs: chains of steps of which the last succeeds.
use fsvfs.Base.{Option, none, some, ◌≡◌, refl, ◌>>=◌, some_inj, >>=-eq-some}
use fsvfs.Base.Results.{Result, ok, err}
use mathlib.Core.Option
use fsvfs.Mount.Open.{OpenError, or_error}

pub after_ok :
    {E E' A B : Type 0} (r : Result E A) (g : E → E') (f : A → Option (Result E' B)) (b : B)
    → elim r [ err x ↦ some (err (g x)) | ok a ↦ f a ] ≡ some (ok b)
    → (a : A) × (r ≡ ok a) × (f a ≡ some (ok b))
after_ok (ok a) g f b h = (a, refl, h)
after_ok (err e) g f b h = absurd (cc)

pub next_ok :
    {E E' A B : Type 0} (r : Result E A) (g : E → E') (f : A → Result E' B) (b : B)
    → ◌≡◌ {A = Result E' B} (elim r [ err e ↦ err (g e) | ok a ↦ f a ]) (ok b)
    → (a : A) × (r ≡ ok a) × (f a ≡ ok b)
next_ok (ok a) g f b h = (a, refl, h)
next_ok (err e) g f b h = absurd (cc)

pub or_error_ok :
    {E A : Type 0} (o : Option (Result E A)) (g : E → OpenError) (a : A)
    → Option.map (or_error g) o ≡ some (ok a)
    → o ≡ some (ok a)
or_error_ok none g a h = absurd (cc)
or_error_ok (some (ok x)) g a h = cc
or_error_ok (some (err e)) g a h = absurd (cc)

pub paired_ok :
    {E A B : Type 0} (o : Option (Result E A)) (a : A) (b b' : B)
    → ◌≡◌ {A = Option (Result E (A × B))}
        (Option.map (λ r. elim r [ err e ↦ err e | ok x ↦ ok (x, b) ]) o)
        (some (ok (a, b')))
    → (o ≡ some (ok a)) × (b ≡ b')
paired_ok none a b b' h = absurd (cc)
paired_ok (some (ok x)) a b b' h = (cc, cc)
paired_ok (some (err e)) a b b' h = absurd (cc)

pub some_ok :
    {E A : Type 0} (o : Option A) (a : A)
    → ◌≡◌ {A = Option (Result E A)} (Option.map ok o) (some (ok a))
    → o ≡ some a
some_ok none a h = absurd (cc)
some_ok (some x) a h = cc

pub last_of :
    {A B C D : Type 0} (m : Option A) (f : A → Option B) (k : B → Option C) (g : C → D) (d : D)
    → (m >>= λ a. f a >>= λ b. k b >>= λ i. some (g i)) ≡ some d
    → (i : C) × (g i ≡ d)
last_of m f k g d h =
    let (a, of_a, h₁) = >>=-eq-some m (λ a. f a >>= λ b. k b >>= λ i. some (g i)) d h in
    let (b, of_b, h₂) = >>=-eq-some (f a) (λ b. k b >>= λ i. some (g i)) d h₁ in
    let (i, of_i, h₃) = >>=-eq-some (k b) (λ i. some (g i)) d h₂ in (i, some_inj (g i) d h₃)

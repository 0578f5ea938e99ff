-- ===== src/Base/Results.antt =====
-- Results with an error type of their own, and chains of them.
use mathlib.Core.Path.{◌≡◌, refl, sym, ap, ap₂, ◌∙◌}
use mathlib.Core.List.{List, [], ◌∷◌, map}
use mathlib.Core.Logic.{◌⊎◌, inl, inr}

pub data Result {ℓ κ} (E : Type κ) (A : Type ℓ) : Type (ℓ ⊔ κ) where
  ok : A → Result E A
  err : E → Result E A

infixl 5 ◌>>=◌
abbrev pub ◌>>=◌ {ℓ κ ι} :
    {E : Type ι} {A : Type ℓ} {B : Type κ} → Result E A → (A → Result E B) → Result E B
ok a >>= f = f a
err e >>= f = err e

-- A successful chain has a successful first step.
pub >>=-eq-ok {ℓ κ ι} :
    {E : Type ι} {A : Type ℓ} {B : Type κ} (m : Result E A) (f : A → Result E B) (b : B)
    → (m >>= f) ≡ ok b
    → (a : A) × (m ≡ ok a) × (f a ≡ ok b)
>>=-eq-ok (ok a) f b h = (a, refl, h)
>>=-eq-ok (err e) f b h = absurd (cc)

pub ok_inj {ℓ κ} : {E : Type κ} {A : Type ℓ} (a b : A) → ◌≡◌ {A = Result E A} (ok a) (ok b) → a ≡ b
ok_inj a b h = cc

pub Result-cases {ℓ κ} :
    {E : Type κ} {A : Type ℓ} (r : Result E A) → ((a : A) × (r ≡ ok a)) ⊎ ((e : E) × (r ≡ err e))
Result-cases (ok a) = inl (a, refl)
Result-cases (err e) = inr (e, refl)

-- The first error of a function on the elements of a list, or all its results.
abbrev pub collect_ok {ℓ κ ι} :
    {E : Type ι} {A : Type ℓ} {B : Type κ} → (A → Result E B) → List A → Result E (List B)
collect_ok f [] = ok []
collect_ok f (x ∷ xs) = f x >>= λ y. collect_ok f xs >>= λ ys. ok (y ∷ ys)

-- What is in a result as in its element is so in all.
pub map-collect_ok {ℓ κ ι μ} :
    {E : Type ι} {A : Type ℓ} {B : Type κ} {C : Type μ} (f : A → Result E B) (g : A → C) (h : B → C)
    → ((x : A) (y : B) → f x ≡ ok y → h y ≡ g x)
    → (xs : List A) (ys : List B) → collect_ok f xs ≡ ok ys
    → map h ys ≡ map g xs
map-collect_ok f g h each [] ys made = ap (map h) (sym (ok_inj [] ys made))
map-collect_ok {E = E} f g h each (x ∷ xs) ys made =
    let (y, of_x, rest) = >>=-eq-ok (f x) (λ y. collect_ok f xs >>= λ ys. ok (y ∷ ys)) ys made in
    let (zs, of_xs, same) = >>=-eq-ok {E = E} (collect_ok f xs) (λ t. ok (y ∷ t)) ys rest in
    ap (map h) (sym (ok_inj (y ∷ zs) ys same))
    ∙ ap₂ (λ a l. a ∷ l) (each x y of_x) (map-collect_ok f g h each xs zs of_xs)

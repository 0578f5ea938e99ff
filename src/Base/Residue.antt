-- ===== src/Base/Residue.antt =====
-- Arithmetic on remainders by a variable modulus.
use Prim.Native.Nat.{ℕ, ◌+◌, ◌*◌, ◌/◌, ◌%◌}
use mathlib.Core.Path.{◌≡◌, sym, ap, ap₂, ◌∙◌}
use native.Mathlib.Nat.{add-mod, add-mul-mod_self_left, div-add-mod, mul_comm}
use native.Mathlib.Omega.{arith}

pub mul-mod_left : (a b m : ℕ) → (a % m * b) % m ≡ (a * b) % m
mul-mod_left a b m =
    let split : a * b ≡ a % m * b + m * (a / m * b) =
      omega (arith, ap (λ (t : ℕ). t * b) (div-add-mod a m)) in
    rw split (sym (add-mul-mod_self_left (a % m * b) m (a / m * b)))

pub mul-mod_right : (a b m : ℕ) → (a * (b % m)) % m ≡ (a * b) % m
mul-mod_right a b m = rw (mul_comm a (b % m)) (mul-mod_left b a m ∙ ap (λ t. t % m) (mul_comm b a))

-- A sum of two terms depends on their remainders only.
pub add-mod_cong : (a b c d m : ℕ) → a % m ≡ b % m → c % m ≡ d % m → (a + c) % m ≡ (b + d) % m
add-mod_cong a b c d m p q = add-mod a c m ∙ ap₂ (λ s t. (s + t) % m) p q ∙ sym (add-mod b d m)

-- A multiple depends on the remainder only.
pub mul-mod_cong : (a b c m : ℕ) → a % m ≡ b % m → (a * c) % m ≡ (b * c) % m
mul-mod_cong a b c m p = sym (mul-mod_left a c m) ∙ ap (λ t. (t * c) % m) p ∙ mul-mod_left b c m

-- ===== src/Prelude/Sums.antt =====
-- Sums of a weight over a list, under an update.
use Prim.Native.Nat.{ℕ, zero, suc, ◌+◌, ◌≤◌}
use mathlib.Core.Path.{◌≡◌, refl}
use mathlib.Core.Option.{some}
use mathlib.Core.List.{List, [], ◌∷◌}
use native.Mathlib.Omega.{arith}
use lucet.Prelude.Lists.{get_elem?, set}

module _ {A : Type 0} (f : A → ℕ) where
  unfoldable pub total : List A → ℕ
  total [] = 0
  total (x ∷ xs) = f x + total xs

  pub total-set :
      (xs : List A) (i : ℕ) (a b : A)
      → get_elem? xs i ≡ some a
      → total (set xs i b) + f a ≡ total xs + f b
  unfolding total
  total-set [] i a b h = cc
  total-set (x ∷ xs) zero a b h = ground arith
  total-set (x ∷ xs) (suc i) a b h = omega (arith, total-set xs i a b h)

  pub total-get_elem? : (xs : List A) (i : ℕ) (a : A) → get_elem? xs i ≡ some a → f a ≤ total xs
  unfolding total
  total-get_elem? [] i a h = cc
  total-get_elem? (x ∷ xs) zero a h = ground arith
  total-get_elem? (x ∷ xs) (suc i) a h = omega (arith, total-get_elem? xs i a h)

pub get_elem?-set :
    {A : Type 0} (xs : List A) (i : ℕ) (a b : A)
    → get_elem? xs i ≡ some a
    → get_elem? (set xs i b) i ≡ some b
get_elem?-set [] i a b h = cc
get_elem?-set (x ∷ xs) zero a b h = refl
get_elem?-set (x ∷ xs) (suc i) a b h = get_elem?-set xs i a b h

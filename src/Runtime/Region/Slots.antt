-- ===== src/Runtime/Region/Slots.antt =====
-- `Vec::swap_remove` keeps the elements of a list.
use lucet.Prelude.{
  ℕ, zero, suc, ◌+◌, ◌<◌, ◌≡◌, arith, refl, Option, some, none, List, [], ◌∷◌, ◌++◌, length,
  get_elem?, set,
}
use lucet.Prelude.Sums.{total, total-set}
use lucet.Runtime.Region.{but_last, last_or, swap_remove}

module _ {A : Type 0} (f : A → ℕ) where
  pub total-append : (xs ys : List A) → total f (xs ++ ys) ≡ total f xs + total f ys
  unfolding total
  total-append [] ys = omega arith
  total-append (x ∷ xs) ys = omega (arith, total-append xs ys)

  pub total-nil : total f [] ≡ 0
  unfolding total
  total-nil = refl

  pub total-cons : (x : A) (xs : List A) → total f (x ∷ xs) ≡ f x + total f xs
  unfolding total
  total-cons x xs = refl

  total-but_last :
      (x : A) (xs : List A) → total f (but_last (x ∷ xs)) + f (last_or x xs) ≡ total f (x ∷ xs)
  unfolding total
  total-but_last x [] = omega arith
  total-but_last x (y ∷ ys) = omega (arith, total-but_last y ys)

last_or-twice : {A : Type 0} (a : A) (xs : List A) → last_or (last_or a xs) xs ≡ last_or a xs
last_or-twice a [] = refl
last_or-twice a (x ∷ xs) = refl

-- The last element stays the last when another one is replaced by it.
last-set :
    {A : Type 0} (a x : A) (xs : List A) (i : ℕ)
    → get_elem? xs i ≡ some x
    → last_or a (set xs i (last_or a xs)) ≡ last_or a xs
last-set a x [] i h = cc
last-set a x (y ∷ ys) zero h = last_or-twice y ys
last-set a x (y ∷ ys) (suc i) h = last-set y x ys i h

swap_remove-eq-some :
    {A : Type 0} (xs : List A) (i : ℕ) (x : A) (rest : List A)
    → swap_remove xs i ≡ some (x, rest)
    → (get_elem? xs i ≡ some x) × (rest ≡ but_last (set xs i (last_or x xs)))
unfolding swap_remove
swap_remove-eq-some {A = A} xs i x rest h = by_element (get_elem? xs i) refl
  where
    by_element :
        (o : Option A)
        → get_elem? xs i ≡ o
        → (get_elem? xs i ≡ some x) × (rest ≡ but_last (set xs i (last_or x xs)))
    by_element none e = absurd (ground (arith, e, h))
    by_element (some z) e = ground (arith, e, h)

-- The element that is removed and those that remain are the elements from before.
pub swap_remove-total :
    {A : Type 0} (f : A → ℕ) (xs : List A) (i : ℕ) (x : A) (rest : List A)
    → swap_remove xs i ≡ some (x, rest)
    → f x + total f rest ≡ total f xs
swap_remove-total f xs i x rest h =
    let (e, q) = swap_remove-eq-some xs i x rest h in rw q (kept_total f xs i x e)
  where
    kept_total :
        {A : Type 0} (f : A → ℕ) (xs : List A) (i : ℕ) (x : A)
        → get_elem? xs i ≡ some x
        → f x + total f (but_last (set xs i (last_or x xs))) ≡ total f xs
    kept_total f [] i x e = cc
    kept_total f (y ∷ ys) zero x e =
        let l = last_or y ys in
        ground
          (arith, total-but_last f l ys, last_or-twice y ys, total-cons f y ys, total-cons f l ys)
    kept_total f (y ∷ ys) (suc i) x e =
        let l = last_or y ys in
        let zs = set ys i l in
        ground (
          arith,
          total-but_last f y zs,
          last-set y x ys i e,
          total-set f ys i x l e,
          total-cons f y ys,
          total-cons f y zs,
        )

pub total-length : {A : Type 0} (xs : List A) → total (λ (x : A). 1) xs ≡ length xs
unfolding total
total-length [] = refl
total-length (x ∷ xs) = omega (arith, total-length xs)

-- An index in range can be removed.
pub swap_remove-some :
    {A : Type 0} (xs : List A) (i : ℕ)
    → i < length xs
    → (x : A) × (rest : List A) × (swap_remove xs i ≡ some (x, rest))
unfolding swap_remove
swap_remove-some {A = A} xs i h = by_element (get_elem? xs i) refl
  where
    in_range : {B : Type 0} (ys : List B) (j : ℕ) → j < length ys → get_elem? ys j ≡ none → ⊥
    in_range [] j l e = omega (arith, l)
    in_range (y ∷ ys) zero l e = cc e
    in_range (y ∷ ys) (suc j) l e = in_range ys j (omega (arith, l)) e

    by_element :
        (o : Option A)
        → get_elem? xs i ≡ o
        → (x : A) × (rest : List A) × (swap_remove xs i ≡ some (x, rest))
    by_element none e = absurd (in_range xs i h e)
    by_element (some x) e = (x, but_last (set xs i (last_or x xs)), rw (swap_remove, e) refl)

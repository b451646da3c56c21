-- ===== src/Lucetc/ModuleInfo/Entries.antt =====
-- Entity maps as lists: what pushing, setting and finding an entry does to the others.
use lucet.Prelude.{
  ℕ, zero, suc, ◌<◌, ◌≡◌, arith, refl, Bool, true, false, Option, none, some, List, [], ◌∷◌, ◌++◌,
  ◌==◌, length, get_elem?, set, if◌then◌else◌, inl, inr, Bool-cases, subst,
}
use lucet.Lucetc.ModuleInfo.{find_index}

module _ {A : Type 0} where
  abbrev pub AllHold : (A → Type 0) → List A → Type 0
  AllHold P xs = (i : ℕ) (a : A) → get_elem? xs i ≡ some a → P a

  pub get_elem?-push :
      (xs : List A) (x : A) (i : ℕ)
      → get_elem? (xs ++ x ∷ []) i ≡ (if i == length xs then some x else get_elem? xs i)
  get_elem?-push [] x zero = ground arith
  get_elem?-push [] x (suc i) = ground arith
  get_elem?-push (y ∷ xs) x zero = ground arith
  get_elem?-push (y ∷ xs) x (suc i) = ground (arith, get_elem?-push xs x i)

  pub get_elem?_lt : (xs : List A) (i : ℕ) (a : A) → get_elem? xs i ≡ some a → i < length xs
  get_elem?_lt [] i a h = cc
  get_elem?_lt (x ∷ xs) zero a h = omega arith
  get_elem?_lt (x ∷ xs) (suc i) a h = omega (arith, get_elem?_lt xs i a h)

  pub get_elem?_within : (xs : List A) (i : ℕ) → i < length xs → (a : A) × (get_elem? xs i ≡ some a)
  get_elem?_within [] i h = absurd (omega arith)
  get_elem?_within (x ∷ xs) zero h = (x, refl)
  get_elem?_within (x ∷ xs) (suc i) h = get_elem?_within xs i (omega arith)

  pub AllHold-push :
      (P Q : A → Type 0) (xs : List A) (x : A)
      → AllHold P xs
      → ((a : A) → P a → Q a)
      → Q x
      → AllHold Q (xs ++ x ∷ [])
  AllHold-push P Q xs x all more this i a h = elim (Bool-cases (i == length xs)) [
    | inl e ↦ let same : x ≡ a = ground (arith, get_elem?-push xs x i) in subst Q same this
    | inr ne ↦ more a (all i a (ground (arith, get_elem?-push xs x i)))
  ]

  pub length-set : (xs : List A) (i : ℕ) (b : A) → length (set xs i b) ≡ length xs
  length-set [] i b = refl
  length-set (x ∷ xs) zero b = refl
  length-set (x ∷ xs) (suc i) b = omega (arith, length-set xs i b)

  pub get_elem?-set :
      (xs : List A) (i : ℕ) (b : A) → i < length xs → get_elem? (set xs i b) i ≡ some b
  get_elem?-set [] i b h = absurd (omega arith)
  get_elem?-set (x ∷ xs) zero b h = refl
  get_elem?-set (x ∷ xs) (suc i) b h = get_elem?-set xs i b (omega arith)

  pub AllHold-set :
      (P : A → Type 0) (xs : List A) (i : ℕ) (b : A) → AllHold P xs → P b → AllHold P (set xs i b)
  AllHold-set P [] i b all this j a h = all j a h
  AllHold-set P (x ∷ xs) zero b all this zero a h = subst P (ground arith) this
  AllHold-set P (x ∷ xs) zero b all this (suc j) a h = all (suc j) a h
  AllHold-set P (x ∷ xs) (suc i) b all this zero a h = all 0 a h
  AllHold-set P (x ∷ xs) (suc i) b all this (suc j) a h =
      AllHold-set P xs i b (λ k. all (suc k)) this j a h

  pub find_index_found :
      (test : A → Bool) (xs : List A) (i : ℕ)
      → find_index test xs ≡ some i
      → (a : A) × (get_elem? xs i ≡ some a) × (test a ≡ true)
  find_index_found test [] i h = cc
  find_index_found test (x ∷ xs) i h = elim (Bool-cases (test x)) [
    | inl yes_ ↦ (x, ground arith, yes_)
    | inr no_ ↦ later test x xs i (find_index test xs) (find_index_found test xs) (ground arith)
  ]
    where
      later :
          (test : A → Bool) (x : A) (xs : List A) (i : ℕ) (rest : Option ℕ)
          → ((j : ℕ) → rest ≡ some j → (a : A) × (get_elem? xs j ≡ some a) × (test a ≡ true))
          → elim rest [ none ↦ none | some j ↦ some (suc j) ] ≡ some i
          → (a : A) × (get_elem? (x ∷ xs) i ≡ some a) × (test a ≡ true)
      later test x xs i none found h = cc
      later test x xs i (some j) found h =
          let (a, at, holds) = found j refl in
          let e : i ≡ suc j = ground arith in (a, rw e at, holds)

  pub find_index_absent :
      (test : A → Bool) (xs : List A) → find_index test xs ≡ none → AllHold (λ a. test a ≡ false) xs
  find_index_absent test [] h i a e = cc
  find_index_absent test (x ∷ xs) h zero a e = ground arith
  find_index_absent test (x ∷ xs) h (suc i) a e = find_index_absent test xs (ground arith) i a e

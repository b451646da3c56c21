-- ===== src/Prelude/Maps.antt =====
-- Hash maps with text keys, as association lists.
use Prim.Native.String.{String}
use mathlib.Core.Path.{◌≡◌, refl}
use mathlib.Core.Logic.{◌≢◌, ◌⊎◌}
use mathlib.Core.Option.{Option, none, some}
use mathlib.Core.List.{List, [], ◌∷◌, ◌++◌}
use native.Mathlib.Omega.{arith}
use text.Mathlib.Text.{◌==◌ as str_eq}
use text.Mathlib.TextEquality.{eq_iff}
use lucet.Prelude.Tests.{if◌then◌else◌}

module _ {V : Type 0} where
  abbrev pub lookup : String → List (String × V) → Option V
  lookup key [] = none
  lookup key (entry ∷ map) = if str_eq entry.0 key then some entry.1 else lookup key map

  -- A value under the same key is replaced.
  abbrev pub insert : String → V → List (String × V) → List (String × V)
  insert key v [] = (key, v) ∷ []
  insert key v (entry ∷ map) =
      if str_eq entry.0 key then (key, v) ∷ map else entry ∷ insert key v map

  -- No key occurs twice.
  abbrev pub Unique : List (String × V) → Type 0
  Unique [] = Unit {0}
  Unique ((k, v) ∷ m) = (lookup k m ≡ none) × Unique m

  -- After an insertion, a key has the new value or the value from before.
  pub lookup-insert :
      (new key : String) (v : V) (map : List (String × V))
      → lookup key (insert new v map) ≡ (if str_eq new key then some v else lookup key map)
  lookup-insert new key v [] = refl
  lookup-insert new key v ((old, w) ∷ map) =
      let later = lookup-insert new key v map in
      ground (arith, later, eq_iff old new, eq_iff old key, eq_iff new key)

  pub insert-append :
      (k : String) (v : V) (m : List (String × V))
      → lookup k m ≡ none
      → insert k v m ≡ m ++ (k, v) ∷ []
  insert-append k v [] h = refl
  insert-append k v ((j, w) ∷ m) h = ground (arith, insert-append k v m)

  pub lookup-append :
      (k : String) (m n : List (String × V)) → lookup k m ≡ none → lookup k (m ++ n) ≡ lookup k n
  lookup-append k [] n h = refl
  lookup-append k ((j, w) ∷ m) n h = ground (arith, lookup-append k m n)

pub String_cases : (a b : String) → (a ≡ b) ⊎ (a ≢ b)
String_cases a b = ground (arith, eq_iff a b)

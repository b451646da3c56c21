-- ===== src/LucetModule/Bindings/Json.antt =====
-- Bindings written as JSON are read back.
use lucet.Prelude.{
  ◌≡◌, ◌≢◌, refl, sym, ap, ◌∙◌, arith, none, List, [], ◌∷◌, ◌++◌, String, ok, Bool-cases, inl, inr,
  subst,
}
use lucet.Prelude.Maps.{lookup, insert, Unique, insert-append}
use text.Mathlib.Text.{◌==◌ as str_eq}
use text.Mathlib.TextEquality.{eq_iff}
use mathlib.Core.List.{append_assoc, append-nil}
use lucet.LucetModule.Bindings.{
  Methods, Bindings, Value, Map, str, object, nil, field, insert_field, parse_methods,
  parse_modules, from_json, serialize_methods, serialize_modules, to_json,
}
use lucet.LucetModule.Bindings.Union.{AllUnique}

module _ {V : Type 0} where
  -- The object with these fields.
  abbrev fields : (V → Value) → List (String × V) → Map
  fields f [] = nil
  fields f ((k, v) ∷ m) = field k (f v) (fields f m)

  abbrev inserts : List (String × V) → List (String × V) → List (String × V)
  inserts [] acc = acc
  inserts ((k, v) ∷ m) acc = inserts m (insert k v acc)

  insert_field-fields :
      (f : V → Value) (k : String) (v : V) (m : List (String × V))
      → insert_field k (f v) (fields f m) ≡ fields f (insert k v m)
  unfolding insert_field
  insert_field-fields f k v [] = refl
  insert_field-fields f k v ((j, w) ∷ m) = elim (Bool-cases (str_eq j k)) [
    | inl e ↦ rw e refl
    | inr ne ↦ rw ne (ap (field j (f w)) (insert_field-fields f k v m))
  ]

  lookup_middle :
      (k : String) (v : V) (acc m : List (String × V)) → lookup k (acc ++ (k, v) ∷ m) ≢ none
  lookup_middle k v [] m = λ h. ground (arith, eq_iff k k)
  lookup_middle k v ((j, w) ∷ acc) m = λ h. ground (arith, lookup_middle k v acc m)

  absent_before :
      (k : String) (v : V) (acc m : List (String × V))
      → Unique (acc ++ (k, v) ∷ m)
      → lookup k acc ≡ none
  absent_before k v [] m u = refl
  absent_before k v ((j, w) ∷ acc) m u =
      ground (arith, eq_iff j k, absent_before k v acc m u.1, lookup_middle k v acc m)

  -- Inserting the entries of a map with unique keys one by one gives the map.
  inserts-append : (m acc : List (String × V)) → Unique (acc ++ m) → inserts m acc ≡ acc ++ m
  inserts-append [] acc u = sym (append-nil acc)
  inserts-append ((k, v) ∷ m) acc u =
      let assoc : (acc ++ (k, v) ∷ []) ++ m ≡ acc ++ (k, v) ∷ m =
        append_assoc acc ((k, v) ∷ []) m in
      rw (insert-append k v acc (absent_before k v acc m u))
        (inserts-append m (acc ++ (k, v) ∷ []) (subst Unique (sym assoc) u) ∙ assoc)

serialize_methods-fields :
    (m acc : Methods) → serialize_methods m (fields str acc) ≡ fields str (inserts m acc)
unfolding serialize_methods
serialize_methods-fields [] acc = refl
serialize_methods-fields ((k, v) ∷ m) acc =
    ap (serialize_methods m) (insert_field-fields str k v acc)
    ∙ serialize_methods-fields m (insert k v acc)

parse_methods-fields : (m res : Methods) → parse_methods (fields str m) res ≡ ok (inserts m res)
unfolding parse_methods
parse_methods-fields [] res = refl
parse_methods-fields ((k, v) ∷ m) res = parse_methods-fields m (insert k v res)

abbrev methods_object : Methods → Value
methods_object m = object (serialize_methods m nil)

serialize_modules-fields :
    (b acc : Bindings)
    → serialize_modules b (fields methods_object acc) ≡ fields methods_object (inserts b acc)
unfolding serialize_modules
serialize_modules-fields [] acc = refl
serialize_modules-fields ((k, v) ∷ b) acc =
    ap (serialize_modules b) (insert_field-fields methods_object k v acc)
    ∙ serialize_modules-fields b (insert k v acc)

parse-serialize_methods :
    (m : Methods) → Unique m → parse_methods (serialize_methods m nil) [] ≡ ok m
parse-serialize_methods m u =
    ap (λ o. parse_methods o []) (serialize_methods-fields m [])
    ∙ parse_methods-fields (inserts m []) []
    ∙ ap (λ l. ok (inserts l [])) (inserts-append m [] u)
    ∙ ap ok (inserts-append m [] u)

parse_modules-fields :
    (b res : Bindings)
    → AllUnique b
    → parse_modules (fields methods_object b) res ≡ ok (inserts b res)
unfolding parse_modules
parse_modules-fields [] res u = refl
parse_modules-fields ((k, v) ∷ b) res (fresh, u, us) =
    rw (parse-serialize_methods v u) (parse_modules-fields b (insert k v res) us)

AllUnique-Unique : (b : Bindings) → AllUnique b → Unique b
AllUnique-Unique [] u = tt
AllUnique-Unique ((k, v) ∷ b) (fresh, u, us) = (fresh, AllUnique-Unique b us)

-- Bindings without a repeated key are read back from the JSON value that they are written to.
from_json-to_json : (b : Bindings) → AllUnique b → from_json (to_json b) ≡ ok b
unfolding from_json to_json
from_json-to_json b us =
    let same = inserts-append b [] (AllUnique-Unique b us) in
    ap (λ o. parse_modules o []) (serialize_modules-fields b [] ∙ ap (fields methods_object) same)
    ∙ parse_modules-fields b [] us
    ∙ ap ok same

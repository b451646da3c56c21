-- ===== src/LucetModule/Bindings.antt =====
-- lucet-module/src/bindings.rs: the symbols that the imports of a module are bound to.
pub mod Union
pub mod Json
use lucet.Prelude.{
  Bool, true, false, not, Option, none, some, List, [], ◌∷◌, String, if◌then◌else◌, Result, ok, err,
  panic, ◌>>=◌,
}
use lucet.Prelude.Maps.{lookup, insert}
use text.Mathlib.Text.{◌==◌ as str_eq}

-- The errors of lucet-module/src/error.rs that bindings have; the text of a refused JSON value is
-- left out.
pub data Error : Type 0 where
  parse_error : String → Error
  parse_json_obj_error : Error
  rebind_error : String → String → String → Error
  unknown_module unknown_symbol : String → String → Error

-- The symbols of one import module, and those of all.
abbrev pub Methods : Type 0
Methods = List (String × String)

abbrev pub Bindings : Type 0
Bindings = List (String × Methods)

unfoldable pub empty : Bindings
empty = []

unfoldable pub env : Methods → Bindings
env methods = ("env", methods) ∷ []

-- The inner loop of `extend`, over the entry of one import module.
unfoldable pub extend_methods : Methods → Methods → Result Error (Unit {0}) × Methods
extend_methods [] existing = (ok tt, existing)
extend_methods ((bindname, binding) ∷ more) existing = elim (lookup bindname existing) [
  | none ↦ extend_methods more (insert bindname binding existing)
  | some e ↦
      let rest = extend_methods more existing in
      if not (str_eq binding e) then (err (rebind_error bindname binding e), existing) else rest
]

abbrev pub continue :
    Result Error (Unit {0})
    → Bindings
    → (Bindings → Result Error (Unit {0}) × Bindings)
    → Result Error (Unit {0}) × Bindings
continue (ok u) self f = f self
continue (err e) self f = (err e, self)
continue panic self f = (panic, self)

-- `other` comes first. The bindings are those that `self` has when the method returns.
unfoldable pub extend : Bindings → Bindings → Result Error (Unit {0}) × Bindings
extend [] self = (ok tt, self)
extend ((modname, othermodbindings) ∷ more) self = elim (lookup modname self) [
  | none ↦ extend more (insert modname othermodbindings self)
  | some existing ↦
      let r = extend_methods othermodbindings existing in
      continue r.0 (insert modname r.1 self) (extend more)
]

abbrev symbol_of : Option String → String → String → Result Error String
symbol_of (some s) module_name symbol = ok s
symbol_of none module_name symbol = err (unknown_symbol module_name symbol)

abbrev translate_in : Option Methods → String → String → Result Error String
translate_in (some m) module_name symbol = symbol_of (lookup symbol m) module_name symbol
translate_in none module_name symbol = err (unknown_module module_name symbol)

unfoldable pub translate : Bindings → String → String → Result Error String
translate self module_name symbol = translate_in (lookup module_name self) module_name symbol

-- A JSON value, as far as bindings read it: text, an object, or anything else.
mutual
  pub data Value : Type 0 where
    str : String → Value
    object : Map → Value
    other : Value

  pub data Map : Type 0 where
    nil : Map
    field : String → Value → Map → Map

-- `Map::insert`
unfoldable pub insert_field : String → Value → Map → Map
insert_field k v nil = field k v nil
insert_field k v (field j w m) = if str_eq j k then field k v m else field j w (insert_field k v m)

-- The loop over the fields, with the map that it fills.
unfoldable pub parse_methods : Map → Methods → Result Error Methods
parse_methods nil res = ok res
parse_methods (field method (str importbinding) m) res =
    parse_methods m (insert method importbinding res)
parse_methods (field method (object o) m) res = err (parse_error method)
parse_methods (field method other m) res = err (parse_error method)

unfoldable pub parse_modules : Map → Bindings → Result Error Bindings
parse_modules nil res = ok res
parse_modules (field modulename (object methods) m) res = do
  methodmap ← parse_methods methods []
  parse_modules m (insert modulename methodmap res)
parse_modules (field modulename (str s) m) res = err (parse_error modulename)
parse_modules (field modulename other m) res = err (parse_error modulename)

unfoldable pub from_json : Value → Result Error Bindings
from_json (object modules) = parse_modules modules []
from_json (str s) = err parse_json_obj_error
from_json other = err parse_json_obj_error

unfoldable pub serialize_methods : Methods → Map → Map
serialize_methods [] m = m
serialize_methods ((methodname, symbol) ∷ methods) m =
    serialize_methods methods (insert_field methodname (str symbol) m)

unfoldable pub serialize_modules : Bindings → Map → Map
serialize_modules [] m = m
serialize_modules ((modulename, values) ∷ modules) m =
    serialize_modules modules (insert_field modulename (object (serialize_methods values nil)) m)

unfoldable pub to_json : Bindings → Value
to_json self = object (serialize_modules self nil)

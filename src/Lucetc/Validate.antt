-- ===== src/Lucetc/Validate.antt =====
-- lucetc/src/validate.rs: the check of a module's imports and exports against witx documents.
pub mod Registered
pub mod Accepted
use lucet.Prelude.{
  ℕ, Bool, true, false, not, ◌&&◌, Option, none, some, List, [], ◌∷◌, ◌++◌, String, ◌==◌,
  if◌then◌else◌, Result, ok, err, panic, ◌>>=◌, map, ok_or,
}
use lucet.Prelude.Maps.{lookup, insert}
use lucet.Lucetc.Wasm.{WasmType, WasmFuncType, ValidatorOps}

pub data Error : Type 0 where
  import_not_found : String → String → Error
  import_type_error : String → String → WasmFuncType → WasmFuncType → Error
  export_type_error : String → WasmFuncType → WasmFuncType → Error
  missing_required_export : String → WasmFuncType → Error

pub data WasiMode : Type 0 where
  command reactor : WasiMode

pub data ExportRequired : Type 0 where
  required optional : ExportRequired

pub record ExportSpec : Type 0 where
  pub name : String
  pub requirement : ExportRequired
  pub type_ : WasmFuncType
  pub result : Option (Result Error (Unit {0}))

unfoldable pub result_of : ExportSpec → Option Error
result_of e = elim e.result [
  | some r ↦ elim r [ err x ↦ some x | ok u ↦ none | panic ↦ none ]
  | none ↦ elim e.requirement [
    | required ↦ some (missing_required_export e.name e.type_)
    | optional ↦ none
  ]
]

-- Equality of function types, as it is derived.
abbrev pub tag : WasmType → ℕ
tag WasmType.i32 = 0
tag WasmType.i64 = 1
tag WasmType.f32 = 2
tag WasmType.f64 = 3
tag WasmType.v128 = 4
tag WasmType.func_ref = 5
tag WasmType.extern_ref = 6

abbrev pub same_types : List WasmType → List WasmType → Bool
same_types [] [] = true
same_types [] (b ∷ bs) = false
same_types (a ∷ as_) [] = false
same_types (a ∷ as_) (b ∷ bs) = tag a == tag b && same_types as_ bs

abbrev pub same_func_type : WasmFuncType → WasmFuncType → Bool
same_func_type s t = same_types s.params t.params && same_types s.returns t.returns

-- The types of witx, and its documents: the module of a name, the function of a name in it, and the
-- WebAssembly signature of the function.
pub data AtomType : Type 0 where
  i32 i64 f32 f64 : AtomType

pub record Witx : Type 1 where
  pub Document : Type 0
  pub WitxModule : Type 0
  pub module_ : Document → String → Option WitxModule
  pub func : WitxModule → String → Option (List AtomType × List AtomType)

abbrev pub atom_to_type : AtomType → WasmType
atom_to_type AtomType.i32 = WasmType.i32
atom_to_type AtomType.i64 = WasmType.i64
atom_to_type AtomType.f32 = WasmType.f32
atom_to_type AtomType.f64 = WasmType.f64

unfoldable pub witx_to_functype : List AtomType × List AtomType → Result Error WasmFuncType
witx_to_functype (params, []) = ok (record { params = map atom_to_type params; returns = [] })
witx_to_functype (params, r ∷ []) =
    ok (record { params = map atom_to_type params; returns = atom_to_type r ∷ [] })
witx_to_functype (params, r ∷ r' ∷ results) = panic

abbrev pub no_params_no_returns : WasmFuncType
no_params_no_returns = record { params = []; returns = [] }

abbrev pub export_spec : String → ExportRequired → List (String × ExportSpec)
export_spec name requirement =
    (
      name,
      record {
        name = name;
        requirement = requirement;
        type_ = no_params_no_returns;
        result = none;
      },
    )
    ∷ []

module _ (x : Witx) where
  pub record Validator : Type 0 where
    pub witx : List x.Document
    pub exports : List (String × ExportSpec)
    pub import_errors : List Error

  -- `ValidatorBuilder::build` with its documents and mode.
  unfoldable pub build : List x.Document → Option WasiMode → Validator
  build witx none = record { witx = witx; exports = []; import_errors = [] }
  build witx (some command) = record {
    witx = witx;
    exports = export_spec "_start" required;
    import_errors = [];
  }
  build witx (some reactor) = record {
    witx = witx;
    exports = export_spec "_initialize" optional;
    import_errors = [];
  }

  -- `witx.iter().find_map(|doc| doc.module(..))`
  abbrev pub find_module : List x.Document → String → Option x.WitxModule
  find_module [] name = none
  find_module (doc ∷ docs) name =
      let rest = find_module docs name in
      elim (x.module_ doc name) [ none ↦ rest | some m ↦ some m ]

  -- The declared type of an import.
  unfoldable pub import_type : List x.Document → String → String → Result Error WasmFuncType
  import_type witx module_name field = do
    m ← ok_or (find_module witx module_name) (import_not_found module_name field)
    func ← ok_or (x.func m field) (import_not_found module_name field)
    witx_to_functype func

  unfoldable pub check_import :
      List x.Document → String → String → WasmFuncType → Result Error (Unit {0})
  check_import witx module_name field type_ = import_type witx module_name field >>= λ spec_type.
      if not (same_func_type spec_type type_)
      then err (import_type_error module_name field spec_type type_)
      else ok tt

  abbrev pub push_error : Result Error (Unit {0}) → Validator → Result Error Validator
  push_error (ok u) v = ok v
  push_error (err e) v = ok (record v { import_errors = v.import_errors ++ e ∷ [] })
  push_error panic v = panic

  unfoldable pub register_import :
      String → String → WasmFuncType → Validator → Result Error Validator
  register_import module_name field type_ v =
      push_error (check_import v.witx module_name field type_) v

  -- The result of an export of the given type.
  abbrev pub export_result : ExportSpec → String → WasmFuncType → Result Error (Unit {0})
  export_result e name type_ =
      if not (same_func_type e.type_ type_)
      then err (export_type_error name e.type_ type_)
      else ok tt

  unfoldable pub register_export : String → WasmFuncType → Validator → Validator
  register_export name type_ v = elim (lookup name v.exports) [
    | none ↦ v
    | some e ↦ record v {
      exports = insert name (record e { result = some (export_result e name type_) }) v.exports;
    }
  ]

  abbrev unless_panic : Result Error Validator → Option Validator
  unless_panic (ok v) = some v
  unless_panic (err e) = none
  unless_panic panic = none

  -- The validator as module.rs calls it. No registration returns an error.
  abbrev pub validator_ops : ValidatorOps
  validator_ops = record {
    Validator = Validator;
    register_import =
        λ module_name field type_ v. unless_panic (register_import module_name field type_ v);
    register_export = λ name type_ v. some (register_export name type_ v);
  }

  unfoldable pub export_errors : List (String × ExportSpec) → List Error
  export_errors [] = []
  export_errors ((n, ex) ∷ exports) =
      let rest = export_errors exports in elim (result_of ex) [ none ↦ rest | some e ↦ e ∷ rest ]

  abbrev pub report_of : List Error → Result (List Error) (Unit {0})
  report_of [] = ok tt
  report_of (e ∷ errs) = err (e ∷ errs)

  unfoldable pub report : Validator → Result (List Error) (Unit {0})
  report v = report_of (v.import_errors ++ export_errors v.exports)

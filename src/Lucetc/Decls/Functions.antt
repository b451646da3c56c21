-- ===== src/Lucetc/Decls/Functions.antt =====
-- The functions of lucetc/src/decls.rs: the symbols under which they are declared to Cranelift, the
-- imports and exports of the module, and what a compiled module says of its functions.
pub mod Round
pub mod Declared
pub mod Metadata
use Prim.Native.String.{◌++◌ as str_append}
use lucet.Prelude.{
  ℕ, zero, suc, ◌+◌, ◌-◌, Bool, true, false, Option, none, some, List, [], ◌∷◌, ◌++◌, String, leb,
  ◌==◌, length, get_elem?, as_u32, sub_usize, if◌then◌else◌, Result, ok, err, panic, expect, ok_or,
}
use lucet.Prelude.Effects.{Eff, ◌>>=◌, ◌>>◌, pure, lift, get, put}
use lucet.LucetModule.Bindings.{Bindings, translate}
use lucet.LucetModule.Bindings
use lucet.LucetModule.LinearMemory.{LinearMemorySpec}
use lucet.LucetModule.Globals.{GlobalSpec}
use lucet.Runtime.Module.{Signature}
use lucet.Lucetc.Error.{Error, lucet_module, signature_error, signature_conversion}
use lucet.Lucetc.Types.{SignatureError, to_lucet_signature}
use lucet.Lucetc.Wasm.{Clif, IrSignature, WasmFuncType, Exportable}
use lucet.Lucetc.ModuleInfo.{ModuleInfo, signature_for_function, declare_func_with_sig}

pub data Linkage : Type 0 where
  imported local exported : Linkage

-- `Name` of a function: its symbol and what Cranelift calls it.
pub record Name : Type 0 where
  pub symbol : String
  pub id : ℕ

pub record ImportFunction : Type 0 where
  pub fn_idx : ℕ
  pub module_ : String
  pub name : String

pub record ExportFunction : Type 0 where
  pub fn_idx : ℕ
  pub names : List String

pub data RuntimeFunc : Type 0 where
  mem_size mem_grow yield_at_bound_expiration : RuntimeFunc

abbrev pub same_func : RuntimeFunc → RuntimeFunc → Bool
same_func mem_size mem_size = true
same_func mem_grow mem_grow = true
same_func yield_at_bound_expiration yield_at_bound_expiration = true
same_func _ _ = false

-- What the compiler calls of Cranelift and of std: the declaration of a symbol in the module that
-- is built, the declaration of data, and the digits of a number.
pub record Declarer (c : Clif) : Type 1 where
  pub Clifs : Type 0
  pub declare_function : String → Linkage → IrSignature c → Clifs → Result Error ℕ × Clifs
  pub declare_data : String → Linkage → Clifs → Result Error ℕ × Clifs
  pub digits : ℕ → String

-- `?` on the errors of lucet-module, and `map_err(Error::SignatureConversion)?`.
abbrev pub lucet_error : {A : Type 0} → Result Bindings.Error A → Result Error A
lucet_error (ok a) = ok a
lucet_error (err e) = err (lucet_module e)
lucet_error panic = panic

abbrev pub conversion : {A : Type 0} → Result SignatureError A → Result Error A
conversion (ok a) = ok a
conversion (err e) = err (signature_conversion e)
conversion panic = panic

module _ (c : Clif) (d : Declarer c) where
  -- `RuntimeFuncType`
  pub record RuntimeFuncType : Type 0 where
    pub name : String
    pub signature : IrSignature c
    pub wasm_func_type : WasmFuncType

  -- `ModuleDecls` with the module that Cranelift builds.
  pub record ModuleDecls : Type 0 where
    pub info : ModuleInfo c
    pub function_names : List Name
    pub imports : List ImportFunction
    pub exports : List ExportFunction
    pub tables_list_name : Name
    pub table_names : List Name
    pub runtime_names : RuntimeFunc → Option ℕ
    pub globals_spec : List GlobalSpec
    pub linear_memory_spec : Option LinearMemorySpec
    pub clifs : d.Clifs

  abbrev pub Act : Type 0 → Type 0
  Act A = Eff ModuleDecls Error A

  abbrev pub guest_func : String → String
  guest_func name = str_append "guest_func_" name

  abbrev pub unwrap_name : Option String → String → String
  unwrap_name none other = other
  unwrap_name (some name) other = name

  unfoldable pub custom_name_for : ℕ → ModuleDecls → Option String
  custom_name_for ix s = elim (get_elem? s.info.function_names ix) [
    | none ↦ none
    | some name ↦ some (str_append (str_append name "_") (d.digits ix))
  ]

  abbrev pub push_export : List String → Act (Option String)
  push_export [] s = (ok none, s)
  push_export (name ∷ names) s = (
    ok (some (guest_func name)),
    record s {
      exports =
          s.exports
          ++ record { fn_idx = as_u32 (length s.function_names); names = name ∷ names } ∷ [];
    },
  )

  unfoldable pub export_name_for : ℕ → Act (Option String)
  export_name_for func_ix = do
    s ← get
    export ← lift (expect (get_elem? s.info.functions func_ix))
    push_export export.export_names

  abbrev pub push_import : Bindings → Option (String × String) → Act (Option String)
  push_import bindings none = pure none
  push_import bindings (some (import_mod, import_field)) = do
    import_symbol ← lift (lucet_error (translate bindings import_mod import_field))
    s ← get
    put (record s {
      imports =
          s.imports
          ++ record {
            fn_idx = as_u32 (length s.function_names);
            module_ = import_mod;
            name = import_field;
          }
            ∷ [];
    })
    pure (some import_symbol)

  unfoldable pub import_name_for : Bindings → ℕ → Act (Option String)
  import_name_for bindings func_ix = do
    s ← get
    push_import bindings (get_elem? s.info.imported_funcs func_ix)

  abbrev pub on_clifs : {A : Type 0} → (d.Clifs → Result Error A × d.Clifs) → Act A
  on_clifs f s = let (r, clifs') = f s.clifs in (r, record s { clifs = clifs' })

  -- The debug assertion is not part of a release build.
  unfoldable pub declare_function : String → Linkage → ℕ → Act ℕ
  declare_function decl_sym decl_linkage func_ix = do
    s ← get
    signature ← lift (signature_for_function c func_ix s.info)
    funcid ← on_clifs (d.declare_function decl_sym decl_linkage signature.0)
    s' ← get
    put (
        if leb (length s'.function_names) func_ix
        then record s' {
          function_names = s'.function_names ++ record { symbol = decl_sym; id = funcid } ∷ [];
        }
        else s')
    s'' ← get
    pure (as_u32 (sub_usize (length s''.function_names) 1))

  -- The `match` on the import and the export of a function.
  abbrev pub symbol_and_linkage : Option String → Option String → String → String × Linkage
  symbol_and_linkage (some import_sym) _ local_sym = (import_sym, imported)
  symbol_and_linkage none (some export_sym) local_sym = (export_sym, exported)
  symbol_and_linkage none none local_sym = (local_sym, local)

  -- One round of the loop of `declare_funcs`.
  unfoldable pub declare_func : Bindings → ℕ → Act ℕ
  declare_func bindings ix = do
    import_info ← import_name_for bindings ix
    export_info ← export_name_for ix
    s ← get
    let local_sym = unwrap_name (custom_name_for ix s) (guest_func (d.digits ix))
    let chosen = symbol_and_linkage import_info export_info local_sym
    declare_function chosen.0 chosen.1 ix

  unfoldable pub declare_from : Bindings → ℕ → ℕ → Act (Unit {0})
  declare_from bindings zero ix = pure tt
  declare_from bindings (suc rounds) ix = do
    _ ← declare_func bindings ix
    declare_from bindings rounds (ix + 1)

  unfoldable pub declare_funcs : Bindings → Act (Unit {0})
  unfolding declare_from
  declare_funcs bindings = do s ← get; declare_from bindings (length s.info.functions) 0

  unfoldable pub declare_new_function : String → Linkage → WasmFuncType → IrSignature c → Act ℕ
  declare_new_function decl_sym decl_linkage wasm_func_type signature = do
    s ← get
    let declared = declare_func_with_sig c wasm_func_type signature s.info
    put (record s { info = declared.0 })
    _ ← declare_function decl_sym decl_linkage declared.1
    pure declared.1

  -- The runtime's functions in the order in which their map is iterated.
  unfoldable pub declare_runtime : List (RuntimeFunc × RuntimeFuncType) → Act (Unit {0})
  declare_runtime [] = pure tt
  declare_runtime ((func, functype) ∷ functions) = do
    func_id ← declare_new_function functype.name imported functype.wasm_func_type functype.signature
    s ← get
    put (record s {
      runtime_names = λ f. if same_func f func then some func_id else s.runtime_names f;
    })
    declare_runtime functions

  -- `FunctionDecl`, less the signature and the names that its users copy.
  pub record FunctionDecl : Type 0 where
    pub import_name : Option (String × String)
    pub export_names : List String
    pub signature_index : ℕ
    pub name : Name

  unfoldable pub get_signature_uid : ℕ → ModuleDecls → Result Error ℕ
  get_signature_uid signature_index s =
      ok_or (get_elem? s.info.signature_mapping signature_index) signature_error

  -- `r.unwrap()`
  abbrev pub unwrap : {A : Type 0} → Result Error A → Result Error A
  unwrap (ok a) = ok a
  unwrap (err e) = panic
  unwrap panic = panic

  unfoldable pub get_func : ℕ → Act FunctionDecl
  unfolding get_signature_uid
  get_func func_index = do
    s ← get
    name ← lift (expect (get_elem? s.function_names func_index))
    exportable_sigix ← lift (expect (get_elem? s.info.functions func_index))
    signature_index ← lift (unwrap (get_signature_uid exportable_sigix.entity s))
    _ ← lift (expect (get_elem? s.info.signatures signature_index))
    pure (record {
      import_name = get_elem? s.info.imported_funcs func_index;
      export_names = exportable_sigix.export_names;
      signature_index = signature_index;
      name = name;
    })

  unfoldable pub get_runtime : RuntimeFunc → Act Name
  get_runtime runtime_func = do
    s ← get
    func_id ← lift (expect (s.runtime_names runtime_func))
    name ← lift (expect (get_elem? s.function_names func_id))
    _ ← lift (signature_for_function c func_id s.info)
    pure name

  pub record FunctionMetadata : Type 0 where
    pub signature : ℕ
    pub name : Option String

  -- `ModuleData`, less the features, which are copied, and the place of the signature.
  pub record ModuleData : Type 0 where
    pub linear_memory : Option LinearMemorySpec
    pub globals_spec : List GlobalSpec
    pub function_info : List FunctionMetadata
    pub import_functions : List ImportFunction
    pub export_functions : List ExportFunction
    pub signatures : List Signature
    pub start_function : Option ℕ

  abbrev pub is_start : Option ℕ → ℕ → Bool
  is_start none fn_index = false
  is_start (some start) fn_index = start == fn_index

  -- The loop over the keys of the names, from `fn_index` on.
  unfoldable pub metadata_from :
      ℕ → ℕ → List FunctionMetadata → Option ℕ → Act (List FunctionMetadata × Option ℕ)
  metadata_from zero fn_index functions start_func = pure (functions, start_func)
  metadata_from (suc rounds) fn_index functions start_func = do
    decl ← get_func fn_index
    s ← get
    metadata_from rounds (fn_index + 1)
        (functions
          ++ record { signature = decl.signature_index; name = some decl.name.symbol } ∷ [])
        (if is_start s.info.start_func fn_index
          then some (as_u32 (length functions))
          else start_func)

  unfoldable pub to_signatures : List (IrSignature c × WasmFuncType) → Result Error (List Signature)
  to_signatures [] = ok []
  to_signatures ((sig, wasm_func_type) ∷ signatures) =
      elim (conversion (to_lucet_signature wasm_func_type)) [
        | ok signature ↦ elim (to_signatures signatures) [
          | ok rest ↦ ok (signature ∷ rest)
          | err e ↦ err e
          | panic ↦ panic
        ]
        | err e ↦ err e
        | panic ↦ panic
      ]

  unfoldable pub get_module_data : Act ModuleData
  unfolding metadata_from to_signatures
  get_module_data = do
    s ← get
    found ← metadata_from (length s.function_names) 0 [] none
    signatures ← lift (to_signatures s.info.signatures)
    pure (record {
      linear_memory = s.linear_memory_spec;
      globals_spec = s.globals_spec;
      function_info = found.0;
      import_functions = s.imports;
      export_functions = s.exports;
      signatures = signatures;
      start_function = found.1;
    })

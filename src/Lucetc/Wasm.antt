-- ===== src/Lucetc/Wasm.antt =====
-- What the WebAssembly reader of Cranelift hands to lucetc/src/module.rs, and the compiler's types
-- for it.
use lucet.Prelude.{ℕ, Bool, Option, List, String, [], ◌∷◌, ◌++◌}

-- The parts of a Cranelift signature that the compiler does not look into: a parameter, the one
-- parameter that it adds, and the rest of the signature; and the comparison of two signatures.
pub record Clif : Type 1 where
  pub AbiParam : Type 0
  pub vmctx_param : AbiParam
  pub Rest : Type 0
  pub same : List AbiParam × Rest → List AbiParam × Rest → Bool
  -- A function body and its validator.
  pub Body : Type 0

-- `ir::Signature`: the parameters and the rest.
abbrev pub IrSignature : Clif → Type 0
IrSignature c = List c.AbiParam × c.Rest

pub data WasmType : Type 0 where
  i32 i64 f32 f64 v128 func_ref extern_ref : WasmType

pub record WasmFuncType : Type 0 where
  pub params : List WasmType
  pub returns : List WasmType

-- The witx validator that a compilation may have, as module.rs calls it; Validate.antt has the
-- implementation. A registration that gives no validator has panicked.
pub record ValidatorOps : Type 1 where
  pub Validator : Type 0
  pub register_import : String → String → WasmFuncType → Validator → Option Validator
  pub register_export : String → WasmFuncType → Validator → Option Validator

pub data TableElementType : Type 0 where
  func val : TableElementType

pub record Table : Type 0 where
  pub ty : TableElementType
  pub minimum : ℕ
  pub maximum : Option ℕ

-- Sizes in pages of 64 KiB.
pub record Memory : Type 0 where
  pub minimum : ℕ
  pub maximum : Option ℕ

-- The initializer of a global; constants are bit patterns.
pub data GlobalInit : Type 0 where
  i32_const i64_const f32_const f64_const v128_const get_global ref_func : ℕ → GlobalInit
  ref_null_const import : GlobalInit

pub record Exportable (T : Type 0) : Type 0 where
  pub entity : T
  pub export_names : List String

unfoldable pub new : {T : Type 0} → T → Exportable T
new entity = record { entity = entity; export_names = [] }

unfoldable pub push_export : {T : Type 0} → String → Exportable T → Exportable T
push_export name e = record e { export_names = e.export_names ++ name ∷ [] }

pub record TableElems : Type 0 where
  pub base : Option ℕ
  pub offset : ℕ
  pub elements : List ℕ

-- ===== src/Lucetc/ModuleInfo.antt =====
-- lucetc/src/module.rs: what the compiler collects about a module while the reader declares its
-- parts one by one.
pub mod Entries
pub mod Declarations
pub mod Valid
pub mod Outcomes
pub mod Kept
pub mod Collected
use lucet.Prelude.{
  ℕ, zero, suc, ◌+◌, Bool, true, false, Option, none, some, List, [], ◌∷◌, ◌++◌, ◌&&◌, String, ◌==◌,
  length, get_elem?, set, as_u32, sub_u32, is_none, if◌then◌else◌, Result, ok, err, panic, ◌>>=◌,
  expect,
}
use text.Mathlib.Text.{◌==◌ as str_eq}
use lucet.Lucetc.Error.{Error, translation, unsupported}
use lucet.Lucetc.SparseData.{DataInitializer}
use lucet.Lucetc.Wasm.{
  Clif, IrSignature, WasmFuncType, ValidatorOps, Table, TableElementType, Memory, GlobalInit,
  Exportable, TableElems,
}
use lucet.Lucetc.Wasm

-- `map.iter().find(|(_, v)| ..).map(|(key, _)| key)`
abbrev pub find_index : {A : Type 0} → (A → Bool) → List A → Option ℕ
find_index test [] = none
find_index test (x ∷ xs) =
    let rest = find_index test xs in
    if test x then some 0 else elim rest [ none ↦ none | some i ↦ some (suc i) ]

abbrev pub unwrap_or : Option ℕ → ℕ → ℕ
unwrap_or none d = d
unwrap_or (some i) d = i

abbrev pub insert : {A : Type 0} → ℕ → A → (ℕ → Option A) → ℕ → Option A
insert key a m k = if k == key then some a else m k

-- `map.get_mut(index).expect(..).push_export(name)`
unfoldable pub export_at :
    {T : Type 0} → ℕ → String → List (Exportable T) → Result Error (List (Exportable T))
export_at index name xs = do
  e ← expect (get_elem? xs index)
  ok (set xs index (Wasm.push_export name e))

abbrev pub same_name : String × String → String × String → Bool
same_name (m, f) (m', f') = str_eq m m' && str_eq f f'

-- `function_names[k] = name` on a `SecondaryMap`, whose entries below the index are filled with the
-- default.
abbrev pub set_name : List String → ℕ → String → List String
set_name [] zero name = name ∷ []
set_name [] (suc k) name = "" ∷ set_name [] k name
set_name (n ∷ names) zero name = name ∷ names
set_name (n ∷ names) (suc k) name = n ∷ set_name names k name

module _ (c : Clif) where
  -- An entity map is a list, a hash map a function of the key.
  pub record ModuleInfo : Type 0 where
    pub signature_mapping : List ℕ
    pub signatures : List (IrSignature c × WasmFuncType)
    pub imported_funcs : List (String × String)
    pub imported_globals : List (String × String)
    pub imported_tables : List (String × String)
    pub imported_memories : List (String × String)
    pub function_mapping : List ℕ
    pub functions : List (Exportable ℕ)
    pub function_names : List String
    pub tables : List (Exportable Table)
    pub memories : List (Exportable Memory)
    pub globals : List (Exportable GlobalInit)
    pub start_func : Option ℕ
    pub table_elems : ℕ → Option (List TableElems)
    pub data_initializers : ℕ → Option (List DataInitializer)

  unfoldable pub new : ModuleInfo
  new = record {
    signature_mapping = [];
    signatures = [];
    imported_funcs = [];
    imported_globals = [];
    imported_tables = [];
    imported_memories = [];
    function_mapping = [];
    functions = [];
    function_names = [];
    tables = [];
    memories = [];
    globals = [];
    start_func = none;
    table_elems = λ k. none;
    data_initializers = λ k. none;
  }

  unfoldable pub signature_by_id : ℕ → ModuleInfo → Result Error (IrSignature c × WasmFuncType)
  signature_by_id sig_idx info = do
    unique_sig_idx ← expect (get_elem? info.signature_mapping sig_idx)
    expect (get_elem? info.signatures unique_sig_idx)

  unfoldable pub signature_for_function :
      ℕ → ModuleInfo → Result Error (IrSignature c × WasmFuncType)
  unfolding signature_by_id
  signature_for_function func_index info = do
    f ← expect (get_elem? info.functions func_index)
    signature_by_id f.entity info

  abbrev pub with_vmctx : IrSignature c → IrSignature c
  with_vmctx sig = (c.vmctx_param ∷ sig.0, sig.1)

  abbrev pub match_of : IrSignature c → List (IrSignature c × WasmFuncType) → Option ℕ
  match_of sig signatures =
      find_index (λ (s : IrSignature c × WasmFuncType). c.same s.0 sig) signatures

  unfoldable pub declare_type_func : WasmFuncType → IrSignature c → ModuleInfo → ModuleInfo
  declare_type_func wasm_func_type sig info =
      let sig' = with_vmctx sig in
      let found = match_of sig' info.signatures in
      record info {
        signatures =
            if is_none found
            then info.signatures ++ (sig', wasm_func_type) ∷ []
            else info.signatures;
        signature_mapping =
            info.signature_mapping ++ unwrap_or found (as_u32 (length info.signatures)) ∷ [];
      }

  unfoldable pub declare_func_type : ℕ → ModuleInfo → ModuleInfo
  declare_func_type sig_index info =
      let functions = info.functions ++ Wasm.new sig_index ∷ [] in
      record info {
        functions = functions;
        function_mapping = info.function_mapping ++ sub_u32 (as_u32 (length functions)) 1 ∷ [];
      }

  unfoldable pub declare_func_with_sig :
      WasmFuncType → IrSignature c → ModuleInfo → ModuleInfo × ℕ × ℕ
  unfolding declare_type_func declare_func_type
  declare_func_with_sig wasm_func_type sig info =
      let new_sigidx = as_u32 (length info.signature_mapping) in
      let info' = declare_type_func wasm_func_type sig info in
      let new_funcidx = as_u32 (length info'.functions) in
      (declare_func_type new_sigidx info', new_funcidx, new_sigidx)

  module _ (w : ValidatorOps) where
    pub record ModuleValidation : Type 0 where
      pub validator : Option w.Validator
      pub info : ModuleInfo
      -- The bodies, each under its key.
      pub function_bodies : List (ℕ × c.Body)

    abbrev or_panic : Option w.Validator → Result Error (Option w.Validator)
    or_panic none = panic
    or_panic (some v) = ok (some v)

    abbrev pub with_validator :
        (w.Validator → Option w.Validator) → Option w.Validator → Result Error (Option w.Validator)
    with_validator f none = ok none
    with_validator f (some v) = or_panic (f v)

    unfoldable pub declare_func_import :
        ℕ → String → Option String → ModuleValidation → Result Error ModuleValidation
    declare_func_import sig_index module_name field_name v =
        let info = v.info in
        do
          field ← expect field_name
          let found = find_index (same_name (module_name, field)) info.imported_funcs
          let is_new = is_none found
          let functions =
              if is_new then info.functions ++ Wasm.new sig_index ∷ [] else info.functions
          let info' = record info {
            functions = functions;
            imported_funcs =
                if is_new
                then info.imported_funcs ++ (module_name, field) ∷ []
                else info.imported_funcs;
            function_mapping =
                info.function_mapping
                ++ unwrap_or found (sub_u32 (as_u32 (length functions)) 1) ∷ [];
          }
          signature ← signature_by_id sig_index info'
          validator ← with_validator (w.register_import module_name field signature.1) v.validator
          ok (record v { info = info'; validator = validator })

    -- The three imports below do not go through the validator.
    unfoldable pub declare_global_import :
        GlobalInit → String → Option String → ModuleValidation → Result Error ModuleValidation
    declare_global_import global module_name field_name v = do
      field ← expect field_name
      ok (record v {
        info = record v.info {
          globals = v.info.globals ++ Wasm.new global ∷ [];
          imported_globals = v.info.imported_globals ++ (module_name, field) ∷ [];
        };
      })

    unfoldable pub declare_table_import :
        Table → String → Option String → ModuleValidation → Result Error ModuleValidation
    declare_table_import table module_name field_name v = do
      field ← expect field_name
      ok (record v {
        info = record v.info {
          tables = v.info.tables ++ Wasm.new table ∷ [];
          imported_tables = v.info.imported_tables ++ (module_name, field) ∷ [];
        };
      })

    unfoldable pub declare_memory_import :
        Memory → String → Option String → ModuleValidation → Result Error ModuleValidation
    declare_memory_import memory module_name field_name v = do
      field ← expect field_name
      ok (record v {
        info = record v.info {
          data_initializers = insert (length v.info.memories) [] v.info.data_initializers;
          memories = v.info.memories ++ Wasm.new memory ∷ [];
          imported_memories = v.info.imported_memories ++ (module_name, field) ∷ [];
        };
      })

    unfoldable pub declare_table : Table → ModuleValidation → ModuleValidation
    declare_table table v = record v {
      info = record v.info {
        table_elems = insert (length v.info.tables) [] v.info.table_elems;
        tables = v.info.tables ++ Wasm.new table ∷ [];
      };
    }

    unfoldable pub declare_memory : Memory → ModuleValidation → ModuleValidation
    declare_memory memory v = record v {
      info = record v.info {
        data_initializers = insert (length v.info.memories) [] v.info.data_initializers;
        memories = v.info.memories ++ Wasm.new memory ∷ [];
      };
    }

    unfoldable pub declare_global : GlobalInit → ModuleValidation → ModuleValidation
    declare_global global v = record v {
      info = record v.info { globals = v.info.globals ++ Wasm.new global ∷ [] };
    }

    unfoldable pub declare_func_export :
        ℕ → String → ModuleValidation → Result Error ModuleValidation
    declare_func_export func_index name v = do
      unique_func_index ← expect (get_elem? v.info.function_mapping func_index)
      functions ← export_at unique_func_index name v.info.functions
      let info = record v.info { functions = functions }
      signature ← signature_for_function unique_func_index info
      validator ← with_validator (w.register_export name signature.1) v.validator
      ok (record v { info = info; validator = validator })

    unfoldable pub declare_table_export :
        ℕ → String → ModuleValidation → Result Error ModuleValidation
    declare_table_export table_index name v = do
      tables ← export_at table_index name v.info.tables
      ok (record v { info = record v.info { tables = tables } })

    unfoldable pub declare_memory_export :
        ℕ → String → ModuleValidation → Result Error ModuleValidation
    declare_memory_export memory_index name v = do
      memories ← export_at memory_index name v.info.memories
      ok (record v { info = record v.info { memories = memories } })

    unfoldable pub declare_global_export :
        ℕ → String → ModuleValidation → Result Error ModuleValidation
    declare_global_export global_index name v = do
      globals ← export_at global_index name v.info.globals
      ok (record v { info = record v.info { globals = globals } })

    unfoldable pub declare_start_func : ℕ → ModuleValidation → Result Error ModuleValidation
    declare_start_func func_index v = do
      unique_func_index ← expect (get_elem? v.info.function_mapping func_index)
      ok (record v { info = record v.info { start_func = some unique_func_index } })

    -- `HashMap::insert`: a body under the same key is replaced.
    abbrev pub insert_body : ℕ → c.Body → List (ℕ × c.Body) → List (ℕ × c.Body)
    insert_body key body [] = (key, body) ∷ []
    insert_body key body ((k, b) ∷ bodies) =
        if k == key then (key, body) ∷ bodies else (k, b) ∷ insert_body key body bodies

    unfoldable pub define_function_body : c.Body → ModuleValidation → ModuleValidation
    define_function_body body v =
        let func_index = length v.info.imported_funcs + length v.function_bodies in
        record v { function_bodies = insert_body func_index body v.function_bodies }

    unfoldable pub uniquified : List ℕ → ModuleInfo → Result Error (List ℕ)
    uniquified [] info = ok []
    uniquified (fn_idx ∷ elements) info = do
      unique ← expect (get_elem? info.function_mapping fn_idx)
      rest ← uniquified elements info
      ok (unique ∷ rest)

    abbrev pub implicit_table : Table
    implicit_table = record { ty = TableElementType.func; minimum = 0; maximum = none }

    abbrev pub is_empty : {A : Type 0} → List A → Bool
    is_empty [] = true
    is_empty (x ∷ xs) = false

    -- Adding the elements to the entry of the table.
    unfoldable pub add_table_elems :
        Option (List TableElems) → ℕ → TableElems → ModuleValidation → Result Error ModuleValidation
    add_table_elems (some occ) table_index table_elems v = ok (record v {
      info = record v.info {
        table_elems = insert table_index (occ ++ table_elems ∷ []) v.info.table_elems;
      };
    })
    add_table_elems none table_index table_elems v =
        if is_empty v.info.tables && table_index == 0
        then ok (record v {
          info = record v.info {
            tables = v.info.tables ++ Wasm.new implicit_table ∷ [];
            table_elems = insert table_index (table_elems ∷ []) v.info.table_elems;
          };
        })
        else err translation

    unfoldable pub declare_table_elements :
        ℕ → Option ℕ → ℕ → List ℕ → ModuleValidation → Result Error ModuleValidation
    declare_table_elements table_index base offset elements v = do
      uniquified_elements ← uniquified elements v.info
      add_table_elems (v.info.table_elems table_index) table_index
          (record { base = base; offset = offset; elements = uniquified_elements }) v

    unfoldable pub declare_data_initialization :
        ℕ → DataInitializer → ModuleValidation → Result Error ModuleValidation
    declare_data_initialization memory_index data_init v = do
      occ ← expect (v.info.data_initializers memory_index)
      ok (record v {
        info = record v.info {
          data_initializers = insert memory_index (occ ++ data_init ∷ []) v.info.data_initializers;
        };
      })

    unfoldable pub declare_func_name : ℕ → String → ModuleValidation → Result Error ModuleValidation
    declare_func_name func_index name v = do
      unique_func_index ← expect (get_elem? v.info.function_mapping func_index)
      ok (record v {
        info = record v.info {
          function_names = set_name v.info.function_names unique_func_index name;
        };
      })

-- ===== src/Tests/Functions.antt =====
-- The declarations of three functions: an import that is exported too, an export, and the start
-- function with a custom name.
use lucet.Prelude.{
  ℕ, ◌+◌, ◌==◌, ◌≡◌, refl, arith, none, some, List, [], ◌∷◌, ◌++◌, ok, if◌then◌else◌,
}
use lucet.LucetModule.Bindings.{Bindings, translate}
use lucet.Runtime.Module.{Signature}
use lucet.Lucetc.Wasm.{Clif, WasmType, TableElementType}
use lucet.Lucetc.Wasm
use lucet.Lucetc.Types.{to_lucet_signature, to_params}
use lucet.Lucetc.ModuleInfo.{
  ModuleInfo, signature_for_function, signature_by_id, declare_func_with_sig, declare_type_func,
  declare_func_type,
}
use lucet.Lucetc.ModuleInfo.Valid.{IsValid}
use lucet.Lucetc.Decls.{
  default_settings, build_globals_spec, globals_from, build_linear_memory_spec, build_heap_spec,
}
use lucet.Lucetc.Decls.Assembly.{declare_tables_from, declare_tables, new}
use lucet.Lucetc.Decls.Assembly.Made.{IsMade, new-IsMade}
use lucet.Lucetc.Decls.Functions.{
  RuntimeFunc, mem_size, same_func, RuntimeFuncType, declare_new_function, declare_runtime,
  Declarer, ModuleDecls, ModuleData, custom_name_for, export_name_for, import_name_for,
  declare_function, declare_func, declare_from, declare_funcs, to_signatures, get_module_data,
}
use lucet.Lucetc.Decls.Functions.Metadata.{IsDescribed, get_module_data-IsDescribed}
use lucet.Tests.Compiler.{clif, typed_info, typed-IsValid}

-- Cranelift as a count of the declarations.
abbrev pub counting : Declarer clif
counting = record {
  Clifs = ℕ;
  declare_function = λ symbol linkage signature n. (ok n, n + 1);
  declare_data = λ symbol linkage n. (ok n, n + 1);
  digits = λ n. if n == 2 then "2" else if n == 1 then "1" else "0";
}

abbrev three_functions : ModuleInfo clif
three_functions = record typed_info {
  functions =
      record { entity = 0; export_names = "g" ∷ [] }
      ∷ record { entity = 0; export_names = "h" ∷ "i" ∷ [] }
      ∷ record { entity = 0; export_names = [] }
      ∷ [];
  imported_funcs = ("env", "f") ∷ [];
  start_func = some 2;
  function_names = "" ∷ "" ∷ "main" ∷ [];
}

abbrev host_bindings : Bindings
host_bindings = ("env", ("f", "host_f") ∷ []) ∷ []

abbrev undeclared : ModuleDecls clif counting
undeclared = record {
  info = three_functions;
  function_names = [];
  imports = [];
  exports = [];
  tables_list_name = record { symbol = "lucet_tables"; id = 0 };
  table_names = [];
  runtime_names = λ f. none;
  globals_spec = [];
  linear_memory_spec = none;
  clifs = 0;
}

abbrev pub declared : ModuleDecls clif counting
declared = record undeclared {
  function_names =
      record { symbol = "host_f"; id = 0 }
      ∷ record { symbol = "guest_func_h"; id = 1 }
      ∷ record { symbol = "main_2"; id = 2 }
      ∷ [];
  imports = record { fn_idx = 0; module_ = "env"; name = "f" } ∷ [];
  exports =
      record { fn_idx = 0; names = "g" ∷ [] } ∷ record { fn_idx = 1; names = "h" ∷ "i" ∷ [] } ∷ [];
  clifs = 3;
}

declares : declare_funcs clif counting host_bindings undeclared ≡ (ok tt, declared)
unfolding declare_funcs declare_from declare_func import_name_for export_name_for custom_name_for
    declare_function signature_for_function signature_by_id translate
declares = refl

abbrev no_params : Signature
no_params = record { params = []; ret_ty = none }

converts : to_signatures clif counting declared.info.signatures ≡ ok (no_params ∷ [])
unfolding to_signatures to_lucet_signature to_params
converts = refl

pub three-IsValid : IsValid clif three_functions
three-IsValid = record {
  code = record {
    types = typed-IsValid.code.types;
    funcs = λ i k h. cc;
    entities = λ i f h. ground arith;
    imports = omega arith;
    merged = typed-IsValid.code.merged;
  };
  inits = typed-IsValid.inits;
  elems = typed-IsValid.elems;
}

module_data_example :
    (data_ : ModuleData clif counting) × (get_module_data clif counting declared
      ≡ (ok data_, declared))
    × IsDescribed clif counting declared data_
    × (data_.signatures ≡ no_params ∷ [])
module_data_example =
    get_module_data-IsDescribed clif counting declared (no_params ∷ []) three-IsValid (omega arith)
      (omega arith) converts

-- A local function without a name and one that is exported as its index have one symbol.
abbrev same_symbols : ModuleDecls clif counting
same_symbols = record undeclared {
  info = record three_functions {
    functions =
        record { entity = 0; export_names = [] }
        ∷ record { entity = 0; export_names = "0" ∷ [] }
        ∷ [];
    imported_funcs = [];
    function_names = [];
  };
}

both_named_the_same :
    (declare_funcs clif counting host_bindings same_symbols).1.function_names
    ≡ record { symbol = "guest_func_0"; id = 0 } ∷ record { symbol = "guest_func_0"; id = 1 } ∷ []
unfolding declare_funcs declare_from declare_func import_name_for export_name_for custom_name_for
    declare_function signature_for_function signature_by_id
both_named_the_same = refl

-- A function without a custom name, below one that has a name, is named after the empty name.
abbrev named_after : ModuleDecls clif counting
named_after = record undeclared {
  info = record three_functions {
    functions =
        record { entity = 0; export_names = [] } ∷ record { entity = 0; export_names = [] } ∷ [];
    imported_funcs = [];
    function_names = "" ∷ "main" ∷ [];
  };
}

unnamed_is_empty :
    (declare_funcs clif counting host_bindings named_after).1.function_names
    ≡ record { symbol = "_0"; id = 0 } ∷ record { symbol = "main_1"; id = 1 } ∷ []
unfolding declare_funcs declare_from declare_func import_name_for export_name_for custom_name_for
    declare_function signature_for_function signature_by_id
unnamed_is_empty = refl

abbrev runtime : List (RuntimeFunc × RuntimeFuncType clif counting)
runtime =
    (
      mem_size,
      record {
        name = "lucet_vmctx_current_memory";
        signature = (7 ∷ [], tt);
        wasm_func_type = record { params = []; returns = WasmType.i32 ∷ [] };
      },
    )
    ∷ []

-- The count starts after the table and the list of tables.
abbrev with_table : ModuleInfo clif
with_table = record three_functions {
  tables = Wasm.new (record { ty = TableElementType.func; minimum = 1; maximum = none }) ∷ [];
}

abbrev made : ModuleDecls clif counting
made = record {
  info = record with_table {
    signature_mapping = 0 ∷ 1 ∷ [];
    signatures =
        ((99 ∷ [], tt), record { params = []; returns = [] })
        ∷ ((99 ∷ 7 ∷ [], tt), record { params = []; returns = WasmType.i32 ∷ [] })
        ∷ [];
    functions = three_functions.functions ++ Wasm.new 1 ∷ [];
    function_mapping = 3 ∷ [];
  };
  function_names =
      record { symbol = "host_f"; id = 2 }
      ∷ record { symbol = "guest_func_h"; id = 3 }
      ∷ record { symbol = "main_2"; id = 4 }
      ∷ record { symbol = "lucet_vmctx_current_memory"; id = 5 }
      ∷ [];
  imports = declared.imports;
  exports = declared.exports;
  tables_list_name = record { symbol = "lucet_tables"; id = 1 };
  table_names = record { symbol = "guest_table_0"; id = 0 } ∷ [];
  runtime_names = λ f. if same_func f mem_size then some 3 else none;
  globals_spec = [];
  linear_memory_spec = none;
  clifs = 6;
}

makes : (new clif counting with_table host_bindings runtime default_settings 0).0 ≡ ok made
unfolding Wasm.new new declare_tables declare_tables_from build_globals_spec globals_from
    build_linear_memory_spec build_heap_spec declare_funcs declare_from declare_func import_name_for
    export_name_for custom_name_for declare_function signature_for_function signature_by_id
    translate declare_runtime declare_new_function declare_func_with_sig declare_type_func
    declare_func_type
makes = refl

assembly_example : IsMade clif counting with_table host_bindings runtime default_settings made
assembly_example =
    new-IsMade clif counting with_table host_bindings runtime default_settings 0 made (omega arith)
      (omega arith) (tt, tt) makes

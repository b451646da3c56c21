-- ===== src/Lucetc/ModuleInfo/Declarations.antt =====
-- The declarations of a module as values: which one the reader makes, and in which states.
use lucet.Prelude.{ℕ, ◌+◌, ◌<◌, ◌≡◌, Option, some, List, [], String, length, u32_mod, Result, ok}
use lucet.Lucetc.Error.{Error}
use lucet.Lucetc.SparseData.{DataInitializer}
use lucet.Lucetc.Wasm.{Clif, IrSignature, WasmFuncType, ValidatorOps, Table, Memory, GlobalInit}
use lucet.Lucetc.ModuleInfo.{ModuleInfo, ModuleValidation}
use lucet.Lucetc.ModuleInfo
use lucet.Lucetc.ModuleInfo.Entries.{AllHold}

module _ (c : Clif) where
  -- The methods of `ModuleEnvironment` with their arguments.
  pub data Declaration : Type 0 where
    type_func : WasmFuncType → IrSignature c → Declaration
    func_import : ℕ → String → Option String → Declaration
    global_import : GlobalInit → String → Option String → Declaration
    table_import : Table → String → Option String → Declaration
    memory_import : Memory → String → Option String → Declaration
    func_type : ℕ → Declaration
    table : Table → Declaration
    memory : Memory → Declaration
    global : GlobalInit → Declaration
    func_export table_export memory_export global_export func_name : ℕ → String → Declaration
    start_func : ℕ → Declaration
    function_body : c.Body → Declaration
    table_elements : ℕ → Option ℕ → ℕ → List ℕ → Declaration
    data_initialization : ℕ → DataInitializer → Declaration

  module _ (w : ValidatorOps) where
    unfoldable pub declare :
        Declaration → ModuleValidation c w → Result Error (ModuleValidation c w)
    declare (type_func ft sig) v =
        ok (record v { info = ModuleInfo.declare_type_func c ft sig v.info })
    declare (func_import sig m f) v = ModuleInfo.declare_func_import c w sig m f v
    declare (global_import g m f) v = ModuleInfo.declare_global_import c w g m f v
    declare (table_import t m f) v = ModuleInfo.declare_table_import c w t m f v
    declare (memory_import mem m f) v = ModuleInfo.declare_memory_import c w mem m f v
    declare (func_type sig) v = ok (record v { info = ModuleInfo.declare_func_type c sig v.info })
    declare (table t) v = ok (ModuleInfo.declare_table c w t v)
    declare (memory mem) v = ok (ModuleInfo.declare_memory c w mem v)
    declare (global g) v = ok (ModuleInfo.declare_global c w g v)
    declare (func_export i name) v = ModuleInfo.declare_func_export c w i name v
    declare (table_export i name) v = ModuleInfo.declare_table_export c w i name v
    declare (memory_export i name) v = ModuleInfo.declare_memory_export c w i name v
    declare (global_export i name) v = ModuleInfo.declare_global_export c w i name v
    declare (func_name i name) v = ModuleInfo.declare_func_name c w i name v
    declare (start_func i) v = ModuleInfo.declare_start_func c w i v
    declare (function_body body) v = ok (ModuleInfo.define_function_body c w body v)
    declare (table_elements t base offset elements) v =
        ModuleInfo.declare_table_elements c w t base offset elements v
    declare (data_initialization m di) v = ModuleInfo.declare_data_initialization c w m di v

    -- What the reader has checked before it makes a declaration: indices are in range, imports have
    -- a field name, and no entity map reaches 2^32 entries.
    abbrev pub Allowed : Declaration → ModuleInfo c → Type 0
    Allowed (type_func ft sig) info = length info.signatures < u32_mod
    Allowed (func_import sig m f) info =
        (sig < length info.signature_mapping)
        × ((field : String) × (f ≡ some field))
        × (length info.functions + 1 < u32_mod)
    Allowed (global_import g m f) info = (field : String) × (f ≡ some field)
    Allowed (table_import t m f) info = (field : String) × (f ≡ some field)
    Allowed (memory_import mem m f) info = (field : String) × (f ≡ some field)
    Allowed (func_type sig) info =
        (sig < length info.signature_mapping) × (length info.functions + 1 < u32_mod)
    Allowed (table t) info = Unit {0}
    Allowed (memory mem) info = Unit {0}
    Allowed (global g) info = Unit {0}
    Allowed (func_export i name) info = i < length info.function_mapping
    Allowed (table_export i name) info = i < length info.tables
    Allowed (memory_export i name) info = i < length info.memories
    Allowed (global_export i name) info = i < length info.globals
    Allowed (func_name i name) info = i < length info.function_mapping
    Allowed (start_func i) info = i < length info.function_mapping
    Allowed (function_body body) info = Unit {0}
    Allowed (table_elements t base offset elements) info =
        AllHold (λ i. i < length info.function_mapping) elements
    Allowed (data_initialization m di) info = m < length info.memories

    abbrev pub start : Option w.Validator → ModuleValidation c w
    start validator = record {
      validator = validator;
      info = ModuleInfo.new c;
      function_bodies = [];
    }

    -- The states that allowed declarations lead to, each of which succeeded.
    pub data Declared (validator : Option w.Validator) : ModuleValidation c w → Type 0 where
      begin : Declared validator (start validator)
      next :
          (d : Declaration) (v v' : ModuleValidation c w)
          → Declared validator v
          → Allowed d v.info
          → declare d v ≡ ok v'
          → Declared validator v'

-- ===== src/Lucetc/Decls.antt =====
-- lucetc/src/decls.rs and heap.rs: the specifications of globals and memory that the compiler writes
-- into a module.
pub mod Heap
pub mod Functions
pub mod Assembly
pub mod Variables
use lucet.Prelude.{
  ℕ, zero, suc, ◌+◌, ◌-◌, ◌*◌, Option, none, some, List, [], ◌∷◌, String, ltb, max, length,
  get_elem?, usize_mod, mul_usize, as_u32, Result, ok, err, panic, ◌>>=◌, ◌>>◌, fail_if, expect,
}
use lucet.LucetModule.LinearMemory.{HeapSpec, LinearMemorySpec}
use lucet.LucetModule.Globals.{GlobalSpec, Global, i32, i64, f32, f64}
use lucet.LucetModule.Globals
use lucet.Lucetc.Error.{
  Error, memory_specs, unsupported, global_declaration_error, global_init_error, global_unsupported,
}
use lucet.Lucetc.Wasm.{
  Clif, Memory, Exportable, GlobalInit, i32_const, i64_const, f32_const, f64_const, v128_const,
  get_global, ref_func, ref_null_const, import,
}
use lucet.Lucetc.SparseData.{DataInitializer, owned_sparse_data_from_initializers}
use lucet.Lucetc.ModuleInfo.{ModuleInfo}

pub record HeapSettings : Type 0 where
  pub min_reserved_size : ℕ
  pub max_reserved_size : ℕ
  pub guard_size : ℕ

abbrev pub default_settings : HeapSettings
default_settings = record {
  min_reserved_size = 4 * 1024 * 1024;
  max_reserved_size = 6 * 1024 * 1024 * 1024;
  guard_size = 4 * 1024 * 1024;
}

abbrev pub wasm_page : ℕ
wasm_page = 64 * 1024

abbrev pub max_size_of : Option ℕ → Option ℕ
max_size_of none = none
max_size_of (some pages) = some (mul_usize pages wasm_page)

-- The arm for one memory.
unfoldable pub heap_spec_of : Memory → HeapSettings → Result Error (Option HeapSpec)
heap_spec_of memory heap_settings =
    let initial_size = mul_usize memory.minimum wasm_page in
    let reserved_size = max initial_size heap_settings.min_reserved_size in
    do
      fail_if (ltb heap_settings.max_reserved_size reserved_size)
          (memory_specs reserved_size heap_settings.max_reserved_size)
      ok (
          some (record {
            reserved_size = reserved_size;
            guard_size = heap_settings.guard_size;
            initial_size = initial_size;
            max_size = max_size_of memory.maximum;
          }))

unfoldable pub build_heap_spec :
    List (Exportable Memory) → HeapSettings → Result Error (Option HeapSpec)
build_heap_spec [] heap_settings = ok none
build_heap_spec (memory ∷ []) heap_settings = heap_spec_of memory.entity heap_settings
build_heap_spec (memory ∷ other ∷ more) heap_settings =
    err (unsupported "lucetc only supports memory 0")

module _ (c : Clif) where
  abbrev pub with_initializers :
      Option (List DataInitializer) → Option HeapSpec → Result Error (Option LinearMemorySpec)
  with_initializers inits none = ok none
  with_initializers inits (some heap_spec) = do
    data_initializers ← expect inits
    sparse_data ← owned_sparse_data_from_initializers data_initializers heap_spec
    ok (some (record { heap = heap_spec; initializer = sparse_data }))

  unfoldable pub build_linear_memory_spec :
      ModuleInfo c → HeapSettings → Result Error (Option LinearMemorySpec)
  build_linear_memory_spec info heap_settings = do
    heap ← build_heap_spec info.memories heap_settings
    with_initializers (info.data_initializers 0) heap

  -- An import with its name, if there is one at the index.
  abbrev pub import_of : Option (String × String) → ℕ → Result Error Global
  import_of (some (m, field)) index = ok (Globals.import m field)
  import_of none index = err (global_declaration_error (as_u32 index))

  -- `GetGlobal`: the global that is referred to must be an import.
  abbrev pub import_ref : GlobalInit → ℕ → ℕ → ModuleInfo c → Result Error Global
  import_ref import ref_ix ix info = import_of (get_elem? info.imported_globals ref_ix) ref_ix
  import_ref other ref_ix ix info = err (global_init_error (as_u32 ix))

  unfoldable pub global_of : GlobalInit → ℕ → ModuleInfo c → Result Error Global
  global_of (i32_const i) ix info = ok (Globals.def (i32 i))
  global_of (i64_const i) ix info = ok (Globals.def (i64 i))
  global_of (f32_const f) ix info = ok (Globals.def (f32 f))
  global_of (f64_const f) ix info = ok (Globals.def (f64 f))
  global_of (get_global ref_ix) ix info = do
    ref_decl ← expect (get_elem? info.globals ref_ix)
    import_ref ref_decl.entity ref_ix ix info
  global_of import ix info = import_of (get_elem? info.imported_globals ix) ix
  global_of (v128_const v) ix info = err (global_unsupported (as_u32 ix))
  global_of ref_null_const ix info = err (global_unsupported (as_u32 ix))
  global_of (ref_func f) ix info = err (global_unsupported (as_u32 ix))

  -- The loop over the globals from index `ix` on.
  unfoldable pub globals_from :
      ℕ → List (Exportable GlobalInit) → ModuleInfo c → Result Error (List GlobalSpec)
  globals_from ix [] info = ok []
  globals_from ix (g ∷ globals) info = do
    global ← global_of g.entity ix info
    rest ← globals_from (ix + 1) globals info
    ok (record { global = global; export_names = g.export_names } ∷ rest)

  unfoldable pub build_globals_spec : ModuleInfo c → Result Error (List GlobalSpec)
  build_globals_spec info = globals_from 0 info.globals info

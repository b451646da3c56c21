-- ===== src/Tests/Compiler.antt =====
-- The compiler on a module with one import, one memory and one data initializer.
use lucet.Prelude.{
  ℕ, zero, suc, ◌+◌, ◌≡◌, ◌<◌, ◌↔◌, ◌⊎◌, refl, arith, Option, none, some, List, [], ◌∷◌, ◌++◌,
  replicate, subst, ok, err, panic, if◌then◌else◌,
}
use lucet.LucetModule.LinearMemory.{LinearMemorySpec, HeapSpec, SparseData, get_page, new}
use lucet.LucetModule.VersionInfo.{same_bytes}
use lucet.LucetModule.VersionInfo.Encoding.{same_bytes_iff}
use lucet.Runtime.Module.{Module}
use lucet.Runtime.Vm.Plain.{plain, plain-laws}
use lucet.Runtime.Mmap.{reset_heap, clear_heap, clear_range, open_heap, copy_pages, copy_page}
use lucet.Tests.Data.{
  small_module, wide_slot, wide-HeapPlaced, one_page_machine, one_page-HeapValid,
}
use lucet.Runtime.Mmap.Copy.{page_byte}
use lucet.Lucetc.Error.{Error}
use lucet.Lucetc.Wasm.{
  Clif, ValidatorOps, Memory, WasmFuncType, IrSignature, GlobalInit, Exportable, i32_const,
  get_global, import,
}
use lucet.Lucetc.Wasm
use lucet.Lucetc.SparseData.{
  DataInitializer, linear_memory_range, split_from, split, place_chunk, place_chunks, place_all,
  pages_from, owned_sparse_data_from_initializers,
}
use lucet.Lucetc.SparseData.Memory.{
  AllFit, initialized, AllWithin, owned_sparse_data-AllWithin, owned_sparse_data-dropped,
}
use lucet.Lucetc.ModuleInfo.{ModuleInfo, ModuleValidation}
use lucet.Lucetc.ModuleInfo
use lucet.Lucetc.ModuleInfo.Declarations.{func_import, declare}
use lucet.Lucetc.ModuleInfo.Valid.{SameIff, IsValid, new-IsValid, declare_type_func-IsValid}
use lucet.Lucetc.ModuleInfo.Outcomes.{Outcome}
use lucet.Lucetc.ModuleInfo.Kept.{declare-IsValid}
use lucet.Lucetc.Validate.{
  AtomType, Witx, build, validator_ops, register_import, check_import, import_type,
  witx_to_functype,
}
use text.Mathlib.Text.{◌==◌ as str_eq}
use lucet.Lucetc.Decls.{default_settings, build_heap_spec, heap_spec_of, build_linear_memory_spec}
use lucet.Lucetc.Decls.Heap.{compiled-reset_heap, build_linear_memory_spec_total, IsMemory}
use lucet.Lucetc.ModuleInfo.Entries.{AllHold}

abbrev pub clif : Clif
clif = record {
  AbiParam = ℕ;
  vmctx_param = 99;
  Rest = Unit {0};
  same = λ a b. same_bytes a.0 b.0;
  Body = ℕ;
}

clif-SameIff : SameIff clif
clif-SameIff a b =
    (λ h. ground (arith, same_bytes_iff a.0 b.0), λ h. ground (arith, same_bytes_iff a.0 b.0))

-- A document with a function that has two results.
abbrev pub pair_witx : Witx
pair_witx = record {
  Document = Unit {0};
  WitxModule = Unit {0};
  module_ = λ doc name. if str_eq name "env" then some tt else none;
  func = λ m field.
      if str_eq field "f"
      then some ([], [])
      else if str_eq field "pair"
      then some ([], AtomType.i32 ∷ AtomType.i32 ∷ [])
      else none;
}

abbrev pub pair_validator : ValidatorOps
pair_validator = validator_ops pair_witx

abbrev no_type : WasmFuncType
no_type = record { params = []; returns = [] }

abbrev pub typed_info : ModuleInfo clif
typed_info = record {
  signature_mapping = 0 ∷ [];
  signatures = ((99 ∷ [], tt), no_type) ∷ [];
  imported_funcs = [];
  imported_globals = [];
  imported_tables = [];
  imported_memories = [];
  function_mapping = [];
  functions = [];
  function_names = [];
  tables = [];
  memories = [];
  globals = [];
  start_func = none;
  table_elems = λ k. none;
  data_initializers = λ k. none;
}

typed_lem : ModuleInfo.declare_type_func clif no_type ([], tt) (ModuleInfo.new clif) ≡ typed_info
unfolding ModuleInfo.declare_type_func ModuleInfo.new
typed_lem = refl

pub typed-IsValid : IsValid clif typed_info
unfolding ModuleInfo.new
typed-IsValid = subst (IsValid clif) typed_lem (
    declare_type_func-IsValid clif clif-SameIff no_type ([], tt) (ModuleInfo.new clif)
      (new-IsValid clif) (omega arith))

abbrev typed : ModuleValidation clif pair_validator
typed = record {
  validator = some (build pair_witx (tt ∷ []) none);
  info = typed_info;
  function_bodies = [];
}

declare_example :
    Outcome clif pair_validator
      (func_import 0 "env" (some "f"))
      typed
      (declare clif pair_validator (func_import 0 "env" (some "f")) typed)
declare_example =
    declare-IsValid clif pair_validator clif-SameIff (func_import 0 "env" (some "f")) typed
      typed-IsValid (omega arith, ("f", refl), omega arith)

abbrev with_import : ModuleValidation clif pair_validator
with_import = record {
  validator = typed.validator;
  info = record typed_info {
    functions = Wasm.new 0 ∷ [];
    imported_funcs = ("env", "f") ∷ [];
    function_mapping = 0 ∷ [];
  };
  function_bodies = [];
}

import_runs :
    ModuleInfo.declare_func_import clif pair_validator 0 "env" (some "f") typed ≡ ok with_import
unfolding ModuleInfo.declare_func_import ModuleInfo.signature_by_id Wasm.new register_import
    check_import import_type witx_to_functype build
import_runs = refl

imported-IsValid : IsValid clif with_import.info
unfolding Wasm.new
imported-IsValid = record {
  code = record {
    types = typed-IsValid.code.types;
    funcs = λ i k h. ground arith;
    entities = λ i f h. ground arith;
    imports = omega arith;
    merged = typed-IsValid.code.merged;
  };
  inits = typed-IsValid.inits;
  elems = typed-IsValid.elems;
}

-- The same import a second time shares the function.
import_twice :
    ModuleInfo.declare_func_import clif pair_validator 0 "env" (some "f") with_import
    ≡ ok (record {
      validator = typed.validator;
      info = record with_import.info { function_mapping = 0 ∷ 0 ∷ [] };
      function_bodies = [];
    })
unfolding ModuleInfo.declare_func_import ModuleInfo.signature_by_id Wasm.new register_import
    check_import import_type witx_to_functype build
import_twice = refl

-- The validator does not implement a function with two results.
pair_panics : ModuleInfo.declare_func_import clif pair_validator 0 "env" (some "pair") typed ≡ panic
unfolding ModuleInfo.declare_func_import ModuleInfo.signature_by_id register_import check_import
    import_type witx_to_functype build
pair_panics = refl

abbrev three_bytes : DataInitializer
three_bytes = record { base = none; offset = 4094; contents = 1 ∷ 2 ∷ 3 ∷ [] }

abbrev one_page : Exportable Memory
one_page = record { entity = record { minimum = 1; maximum = some 2 }; export_names = [] }

abbrev memory_info : ModuleInfo clif
memory_info = record typed_info {
  memories = one_page ∷ [];
  data_initializers = λ k. ModuleInfo.insert 0 (three_bytes ∷ []) (λ j. none) k;
}

memory-IsValid : IsValid clif memory_info
memory-IsValid = record { code = typed-IsValid.code; inits = λ k. ground arith; elems = λ k h. cc }

small_memory : AllHold (λ (e : Exportable Memory). IsMemory e.entity) memory_info.memories
small_memory zero e h =
    let same : one_page ≡ e = ground arith in subst (λ x. IsMemory x.entity) same (omega arith)
small_memory (suc i) e h = cc

fits : AllFit (three_bytes ∷ [])
fits = (omega arith, tt)

behind_fits : AllFit (record three_bytes { offset = 65536 } ∷ [])
behind_fits = (omega arith, tt)

abbrev compiled_heap : HeapSpec
compiled_heap = record {
  reserved_size = 4194304;
  guard_size = 4194304;
  initial_size = 65536;
  max_size = some 131072;
}

abbrev compiled_spec : LinearMemorySpec
compiled_spec = record {
  heap = compiled_heap;
  initializer = record {
    pages =
        some (replicate {A = ℕ} 4094 0 ++ 1 ∷ 2 ∷ [])
        ∷ some (3 ∷ replicate {A = ℕ} 4095 0)
        ∷ replicate {A = Option (List ℕ)} 14 none;
  };
}

compiles : build_linear_memory_spec clif memory_info default_settings ≡ ok (some compiled_spec)
unfolding build_linear_memory_spec build_heap_spec heap_spec_of owned_sparse_data_from_initializers
    split split_from linear_memory_range place_chunk place_chunks place_all pages_from new
compiles = refl

abbrev compiled_module : Module
compiled_module = record small_module {
  heap_spec = some compiled_heap;
  sparse_data = compiled_spec.initializer;
}

compiled_resets : (reset_heap plain compiled_module one_page_machine).0 ≡ ok tt
unfolding reset_heap get_page clear_heap clear_range open_heap copy_pages copy_page
compiled_resets = refl

compiled-reset_heap_example :
    (reset_heap plain compiled_module one_page_machine).1.mem.bytes (wide_slot.heap + 4096)
    ≡ initialized (three_bytes ∷ []) (λ y. 0) 4096
compiled-reset_heap_example =
    compiled-reset_heap clif memory_info default_settings plain plain-laws wide_slot wide-HeapPlaced
      compiled_module compiled_spec (three_bytes ∷ []) one_page_machine small_memory compiles refl
      fits refl refl (omega arith) one_page-HeapValid compiled_resets 4096 (omega arith)

third_byte : initialized (three_bytes ∷ []) (λ y. 0) 4096 ≡ 3
third_byte = refl

memory_spec_total_example :
    ((spec : Option LinearMemorySpec) × (build_linear_memory_spec clif memory_info default_settings
        ≡ ok spec))
    ⊎ ((e : Error) × (build_linear_memory_spec clif memory_info default_settings ≡ err e))
memory_spec_total_example =
    build_linear_memory_spec_total clif memory_info default_settings memory-IsValid small_memory
      (λ dis h. let same : three_bytes ∷ [] ≡ dis = ground arith in subst AllFit same fits)

-- Three bytes that lie just behind a heap of one page.
abbrev behind : DataInitializer
behind = record three_bytes { offset = 65536 }

within_example :
    ((d : SparseData) × (owned_sparse_data_from_initializers (behind ∷ []) compiled_heap ≡ ok d))
    ↔ AllWithin 69632 (behind ∷ [])
within_example =
    owned_sparse_data-AllWithin (behind ∷ []) compiled_heap behind_fits (omega arith) (omega arith)

three_compile :
    owned_sparse_data_from_initializers (three_bytes ∷ []) compiled_heap
    ≡ ok compiled_spec.initializer
unfolding owned_sparse_data_from_initializers split split_from linear_memory_range place_chunk
    place_chunks place_all pages_from new
three_compile = refl

dropped_example :
    (d' : SparseData) × (owned_sparse_data_from_initializers
        (behind ∷ three_bytes ∷ [])
        compiled_heap
      ≡ ok d')
    × ((x : ℕ) → x < 65536 → page_byte d' x 0 ≡ page_byte compiled_spec.initializer x 0)
dropped_example =
    owned_sparse_data-dropped behind (three_bytes ∷ []) compiled_heap compiled_spec.initializer
      (behind_fits.0, fits) (omega arith) (omega arith) refl (omega arith) (omega arith)
      three_compile

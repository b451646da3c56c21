-- ===== src/Runtime/Module.antt =====
-- The `Module` trait of lucet-runtime-internals/src/module.rs: what the runtime asks of a module.
pub mod Spec
use lucet.Prelude.{
  ℕ, ◌+◌, ◌*◌, Bool, ◌||◌, Option, some, none, List, String, ltb, min, length, add_usize, mul_usize,
  u32_mod, Result, ok, err, ◌>>=◌, ◌>>◌, fail_if,
}
use lucet.LucetModule.LinearMemory.{HeapSpec, SparseData}
use lucet.LucetModule.Globals.{GlobalSpec}
use lucet.Runtime.Error.{Error, invalid_argument, incorrect_module, limits_exceeded}
use lucet.Runtime.Limits.{Limits}

-- `FunctionHandle`: the address, the index and whether it is the start function.
pub record FunctionHandle : Type 0 where
  pub ptr : ℕ
  pub id : ℕ
  pub is_start_func : Bool

pub data ValueType : Type 0 where
  i32 i64 f32 f64 : ValueType

pub record Signature : Type 0 where
  pub params : List ValueType
  pub ret_ty : Option ValueType

-- What the trait's methods return for one loaded module.
pub record Module : Type 0 where
  pub heap_spec : Option HeapSpec
  pub globals : List GlobalSpec
  pub sparse_data : SparseData
  pub start_func : Option FunctionHandle
  pub signature_of : ℕ → Signature

unfoldable pub initial_globals_size : Module → ℕ
initial_globals_size m = mul_usize (length m.globals) 8

-- The checks of `validate_runtime_spec` on a heap; a module without one will not access the heap.
unfoldable pub validate_heap : Limits → ℕ → Option HeapSpec → Result Error (Unit {0})
validate_heap limits heap_memory_size none = ok tt
validate_heap limits heap_memory_size (some heap) = do
  fail_if (ltb u32_mod heap.reserved_size || ltb u32_mod heap.guard_size)
      (incorrect_module "heap spec sizes would overflow")
  fail_if (ltb limits.heap_address_space_size (add_usize heap.reserved_size heap.guard_size))
      (limits_exceeded "heap spec reserved and guard size")
  fail_if (ltb heap_memory_size heap.initial_size) (limits_exceeded "heap spec initial size")
  fail_if (ltb heap.reserved_size heap.initial_size)
      (incorrect_module "initial heap size greater than reserved size")
  ok tt

unfoldable pub validate_runtime_spec : Module → Limits → ℕ → Result Error (Unit {0})
unfolding validate_heap initial_globals_size
validate_runtime_spec m limits instance_heap_limit = do
  fail_if (ltb limits.heap_memory_size instance_heap_limit)
      (invalid_argument "heap memory size requested for instance is larger than slot allows")
  let heap_memory_size = min limits.heap_memory_size instance_heap_limit
  validate_heap limits heap_memory_size m.heap_spec
  fail_if (ltb limits.globals_size (initial_globals_size m))
      (limits_exceeded "globals exceed limits")
  ok tt

-- ===== src/Runtime/Limits.antt =====
-- `Limits` of lucet-runtime-internals/src/alloc/mod.rs: how much memory a slot has.
pub mod Valid
use lucet.Prelude.{
  ℕ, ◌+◌, ◌*◌, ◌%◌, Bool, not, Option, some, none, List, [], ◌∷◌, ltb, leb, ◌==◌, checked_add_usize,
  Result, ok, ◌>>=◌, ◌>>◌, fail_if, expect,
}
use lucet.Runtime.Error.{Error, invalid_argument, host_page_size}

pub record Limits : Type 0 where
  pub heap_memory_size : ℕ
  pub heap_address_space_size : ℕ
  pub stack_size : ℕ
  pub hostcall_reservation : ℕ
  pub globals_size : ℕ
  pub signal_stack_size : ℕ

-- `Limits::default()`. `DEFAULT_SIGNAL_STACK_SIZE` depends on the platform and is an argument.
unfoldable pub default : ℕ → Limits
default default_signal_stack_size = record {
  heap_memory_size = 16 * 64 * 1024;
  heap_address_space_size = 0x200000000;
  stack_size = 128 * 1024;
  hostcall_reservation = 32 * 1024;
  globals_size = 4096;
  signal_stack_size = default_signal_stack_size;
}

unfoldable pub instance_heap_offset : ℕ
instance_heap_offset = 1 * host_page_size

-- `try_fold(0, checked_add)`
unfoldable pub checked_sum : ℕ → List ℕ → Option ℕ
checked_sum acc [] = some acc
checked_sum acc (x ∷ xs) = elim (checked_add_usize acc x) [
  | some acc' ↦ checked_sum acc' xs
  | none ↦ none
]

unfoldable pub total_memory_size : Limits → Result Error ℕ
unfolding checked_sum instance_heap_offset
total_memory_size l = expect (
    checked_sum 0 (
      instance_heap_offset ∷ l.heap_address_space_size ∷ host_page_size ∷ l.stack_size
      ∷ l.globals_size ∷ host_page_size ∷ l.signal_stack_size ∷ []))

abbrev pub is_misaligned : ℕ → Bool
is_misaligned size = not (size % host_page_size == 0)

-- The messages that `validate` only logs are left out.
unfoldable pub validate : Limits → Result Error (Unit {0})
validate l = do
  fail_if (is_misaligned l.heap_memory_size)
      (invalid_argument "memory size must be a multiple of host page size")
  fail_if (is_misaligned l.heap_address_space_size)
      (invalid_argument "address space size must be a multiple of host page size")
  fail_if (ltb l.heap_address_space_size l.heap_memory_size)
      (invalid_argument "address space size must be at least as large as memory size")
  fail_if (is_misaligned l.stack_size)
      (invalid_argument "stack size must be a multiple of host page size")
  fail_if (is_misaligned l.globals_size)
      (invalid_argument "globals size must be a multiple of host page size")
  fail_if (leb l.stack_size 0) (invalid_argument "stack size must be greater than 0")
  fail_if (ltb l.stack_size l.hostcall_reservation)
      (invalid_argument "hostcall reserved space must not be greater than stack size")
  fail_if (is_misaligned l.signal_stack_size)
      (invalid_argument "signal stack size must be a multiple of host page size")
  ok tt

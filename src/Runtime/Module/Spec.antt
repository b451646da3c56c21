-- ===== src/Runtime/Module/Spec.antt =====
-- What `validate_runtime_spec` accepts.
use lucet.Prelude.{
  ℕ, ◌+◌, ◌*◌, ◌≤◌, ◌<◌, ◌≡◌, ◌↔◌, refl, arith, Option, some, none, ok, u32_mod, usize_mod, length,
}
use lucet.LucetModule.LinearMemory.{HeapSpec}
use lucet.Runtime.Limits.{Limits}
use lucet.Runtime.Module.{Module, validate_heap, validate_runtime_spec}

-- A heap that fits the limits, with sums taken over the integers.
pub record HeapFits (limits : Limits) (limit : ℕ) (heap : HeapSpec) : Type 0 where
  pub reserved_bound : heap.reserved_size ≤ u32_mod
  pub guard_bound : heap.guard_size ≤ u32_mod
  pub space_fits : heap.reserved_size + heap.guard_size ≤ limits.heap_address_space_size
  pub initial_in_limit : heap.initial_size ≤ limit
  pub initial_reserved : heap.initial_size ≤ heap.reserved_size

abbrev pub OptionFits : Limits → ℕ → Option HeapSpec → Type 0
OptionFits limits limit none = Unit {0}
OptionFits limits limit (some heap) = HeapFits limits limit heap

pub record SpecFits (m : Module) (limits : Limits) (limit : ℕ) : Type 0 where
  pub limit_fits : limit ≤ limits.heap_memory_size
  pub heap_fits : OptionFits limits limit m.heap_spec
  pub globals_fit : length m.globals * 8 ≤ limits.globals_size

validate_heap-OptionFits :
    (limits : Limits) (limit : ℕ) (heap : Option HeapSpec)
    → (validate_heap limits limit heap ≡ ok tt) ↔ OptionFits limits limit heap
unfolding validate_heap
validate_heap-OptionFits limits limit none = (λ h. tt, λ v. refl)
validate_heap-OptionFits limits limit (some heap) = (λ h. ground arith, λ v. ground arith)

-- A module whose globals do not fill the address space passes exactly if the instance's heap limit
-- is within the slot's, the heap fits limit and address space, and the globals fit; in particular
-- the check of the reserved and guard sizes rules out the overflow of their sum.
validate_runtime_spec-SpecFits :
    (m : Module) (limits : Limits) (limit : ℕ)
    → length m.globals * 8 < usize_mod
    → (validate_runtime_spec m limits limit ≡ ok tt) ↔ SpecFits m limits limit
unfolding validate_runtime_spec
validate_runtime_spec-SpecFits m limits limit small = (
  λ h. ground (arith, validate_heap-OptionFits limits limit m.heap_spec),
  λ v. ground (arith, validate_heap-OptionFits limits limit m.heap_spec),
)

-- ===== src/Runtime/Alloc.antt =====
-- `Alloc` and `AllocStrategy` of lucet-runtime-internals/src/alloc/mod.rs: the sizes of a heap, the
-- checks of `expand_heap`, and the choice of a slot.
pub mod Expansion
pub mod Bounds
use lucet.Prelude.{
  ℕ, ◌+◌, ◌-◌, ◌/◌, Bool, ◌&&◌, Option, some, none, String, ltb, leb, ◌==◌, as_u32, u32_mod,
  add_usize, sub_usize, add_u32, sub_u32, mul_u32, if◌then◌else◌, Result, ok, err, ◌>>=◌, ◌>>◌,
  fail_if, expect,
}
use lucet.LucetModule.LinearMemory.{HeapSpec}
use lucet.Runtime.Error.{
  Error, region_full, limits_exceeded, no_linear_memory, internal_error, host_page_size,
}
use lucet.Runtime.Limits.{is_misaligned}
use lucet.Runtime.Slot.{Slot, AddrLocation}
use lucet.Runtime.Slot

-- The reference to the region is left out: the model passes the region itself. `slot` is `none`
-- only while the alloc is dropped.
pub record Alloc : Type 0 where
  pub heap_accessible_size : ℕ
  pub heap_inaccessible_size : ℕ
  pub heap_memory_size_limit : ℕ
  pub slot : Option Slot

-- `Random` and `CustomRandom` draw from a generator, which is an argument: `gen_range(0, n)`.
pub data AllocStrategy : Type 0 where
  linear : AllocStrategy
  random : (ℕ → ℕ) → AllocStrategy

unfoldable pub next_slot : AllocStrategy → ℕ → ℕ → Result Error ℕ
next_slot strategy free_slots capacity =
    if free_slots == 0 then err (region_full capacity) else elim strategy [
      | linear ↦ ok (free_slots - 1)
      | random gen_range ↦ ok (gen_range free_slots)
    ]

unfoldable pub addr_location : Alloc → ℕ → Result Error AddrLocation
addr_location a addr = do
  slot ← expect a.slot
  ok (Slot.addr_location slot a.heap_accessible_size addr)

-- `((expand_bytes + host_page_size - 1) / host_page_size) * host_page_size`, on u32.
abbrev pub page_aligned : ℕ → ℕ
page_aligned expand_bytes =
    mul_u32 (sub_u32 (add_u32 expand_bytes host_page_size) 1 / host_page_size) host_page_size

abbrev pub check_max_size : Alloc → ℕ → Option ℕ → Result Error (Unit {0})
check_max_size a expand none = ok tt
check_max_size a expand (some max_size) =
    fail_if (ltb max_size (add_usize a.heap_accessible_size expand))
      (limits_exceeded "expansion would exceed module-specified heap limit")

abbrev pub check_heap_spec : Alloc → ℕ → ℕ → Option HeapSpec → Result Error (Unit {0})
check_heap_spec a expand guard_remaining none = err (no_linear_memory "cannot expand heap")
check_heap_spec a expand guard_remaining (some spec) = do
  fail_if (ltb guard_remaining spec.guard_size)
      (limits_exceeded "expansion would leave guard memory too small")
  check_max_size a expand spec.max_size

-- `expand_heap` up to the call of the region, for a number of bytes that is not 0: the size of the
-- expansion, or why it is refused.
unfoldable pub expansion : Alloc → ℕ → Option HeapSpec → Result Error ℕ
expansion a expand_bytes heap_spec = do
  fail_if (is_misaligned (as_u32 a.heap_accessible_size))
      (internal_error "heap is not page-aligned; this is a bug")
  fail_if (ltb (u32_mod - 1 - host_page_size - 1) expand_bytes)
      (limits_exceeded "expanded heap would overflow address space")
  let expand = page_aligned expand_bytes
  fail_if (ltb a.heap_inaccessible_size expand)
      (limits_exceeded "expanded heap would overflow addressable memory")
  check_heap_spec a expand (sub_usize a.heap_inaccessible_size expand) heap_spec
  fail_if (ltb a.heap_memory_size_limit (add_usize a.heap_accessible_size expand))
      (limits_exceeded "expansion would exceed runtime-specified heap limit")
  ok expand

unfoldable pub heap_len : Alloc → ℕ
heap_len a = a.heap_accessible_size

unfoldable pub mem_in_heap : Alloc → ℕ → ℕ → Result Error Bool
mem_in_heap a start len = do
  slot ← expect a.slot
  let end_ = add_usize start len
  let heap_end = add_usize slot.heap a.heap_accessible_size
  ok (
      leb start end_
      && leb slot.heap start
      && ltb start heap_end
      && leb slot.heap end_
      && leb end_ heap_end)

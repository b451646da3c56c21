-- ===== src/Runtime/Slot.antt =====
-- `Slot`, its layout by `MmapRegion::create_slot`, and where an address falls in it
-- (lucet-runtime-internals/src/alloc/mod.rs and region/mmap.rs).
pub mod Location
use lucet.Prelude.{
  ℕ, ◌+◌, Bool, true, false, ◌&&◌, ltb, leb, ◌==◌, add_usize, sub_usize, if◌then◌else◌, Result, ok,
  ◌>>=◌, ◌>>◌, assert,
}
use lucet.Runtime.Error.{Error, host_page_size}
use lucet.Runtime.Limits.{Limits, instance_heap_offset, total_memory_size}

-- The pointer to the region is left out: the model passes the region itself.
pub record Slot : Type 0 where
  pub start : ℕ
  pub heap : ℕ
  pub stack : ℕ
  pub globals : ℕ
  pub sigstack : ℕ
  pub limits : Limits

unfoldable pub stack_top : Slot → ℕ
stack_top s = add_usize s.stack s.limits.stack_size

-- The part of `create_slot` below the system calls: the sections of the mapping at `mem`.
unfoldable pub layout : Limits → ℕ → Result Error Slot
layout limits mem =
    let heap = add_usize mem instance_heap_offset in
    let stack_guard = add_usize heap limits.heap_address_space_size in
    let stack = add_usize stack_guard host_page_size in
    let globals = add_usize stack limits.stack_size in
    let sigstack = add_usize (add_usize globals limits.globals_size) host_page_size in
    do
      total ← total_memory_size limits
      assert (sub_usize (add_usize sigstack limits.signal_stack_size) mem == total)
      ok (record {
        start = mem;
        heap = heap;
        stack = stack;
        globals = globals;
        sigstack = sigstack;
        limits = limits;
      })

pub data AddrLocation : Type 0 where
  in_heap inaccessible_heap stack_guard in_stack in_globals sig_stack_guard : AddrLocation
  sig_stack unknown : AddrLocation

unfoldable pub is_fault_fatal : AddrLocation → Bool
is_fault_fatal sig_stack_guard = true
is_fault_fatal unknown = true
is_fault_fatal _ = false

abbrev pub in_range : ℕ → ℕ → ℕ → Bool
in_range addr from to = leb from addr && ltb addr to

-- `Alloc::addr_location` of an alloc with this slot and `heap_accessible_size`.
unfoldable pub addr_location : Slot → ℕ → ℕ → AddrLocation
addr_location s heap_accessible_size addr =
    let heap_inaccessible_start = add_usize s.heap heap_accessible_size in
    let heap_inaccessible_end = add_usize s.heap s.limits.heap_address_space_size in
    let stack_end = add_usize s.stack s.limits.stack_size in
    let stack_guard_start = sub_usize s.stack host_page_size in
    let globals_end = add_usize s.globals s.limits.globals_size in
    let sigstack_end = add_usize s.sigstack s.limits.signal_stack_size in
    let sigstack_guard_start = sub_usize s.sigstack host_page_size in
    if in_range addr s.heap heap_inaccessible_start
    then in_heap
    else if in_range addr heap_inaccessible_start heap_inaccessible_end
    then inaccessible_heap
    else if in_range addr stack_guard_start s.stack
    then stack_guard
    else if in_range addr s.stack stack_end
    then in_stack
    else if in_range addr s.globals globals_end
    then in_globals
    else if in_range addr sigstack_guard_start s.sigstack
    then sig_stack_guard
    else if in_range addr s.sigstack sigstack_end
    then sig_stack
    else unknown

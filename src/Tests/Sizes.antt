-- ===== src/Tests/Sizes.antt =====
-- Limits, specs, layouts, expansions and guest ranges.
use lucet.Prelude.{◌+◌, ◌-◌, ◌<◌, ◌≡◌, ◌↔◌, refl, some, ok, true, u32_mod}
use lucet.Runtime.Limits.{total_memory_size}
use lucet.Runtime.Module.{validate_runtime_spec}
use lucet.Runtime.Slot.{layout, addr_location, stack_guard}
use lucet.Runtime.Alloc.{expansion, mem_in_heap}
use lucet.Runtime.Alloc.Expansion.{Allowed, round_up, expansion-Allowed}
use lucet.Tests.Data.{
  small_limits, slot_at_1m, small_module, one_page_heap, used_alloc, used-SizesValid,
}

validates : validate_runtime_spec small_module small_limits 8192 ≡ ok tt
unfolding validate_runtime_spec
validates = refl

lays_out : layout small_limits 1048576 ≡ ok slot_at_1m
unfolding layout total_memory_size
lays_out = refl

hits_stack_guard : addr_location slot_at_1m 4096 1069056 ≡ stack_guard
unfolding addr_location
hits_stack_guard = refl

expansion_example : (expansion used_alloc 100 (some one_page_heap) ≡ ok 4096) ↔ (
    (100 < u32_mod - 4097)
    × (4096 ≡ round_up 100)
    × Allowed 16384 used_alloc one_page_heap (4096 + round_up 100))
expansion_example = expansion-Allowed 16384 used_alloc used-SizesValid 100 one_page_heap 4096

pub expands : expansion used_alloc 100 (some one_page_heap) ≡ ok 4096
unfolding expansion
expands = refl

is_in_heap : mem_in_heap used_alloc 1052680 8 ≡ ok true
unfolding mem_in_heap
is_in_heap = refl

-- ===== src/Tests/Heaps.antt =====
-- The memory operations on one slot.
use lucet.Prelude.{◌+◌, ◌≡◌, refl, arith, some, none, ok, err, false, as_u32, ◌<◌}
use lucet.Runtime.Error.{limits_exceeded}
use lucet.LucetModule.LinearMemory.{get_page}
use lucet.Runtime.Alloc.{expansion}
use lucet.Runtime.Module.{Module}
use lucet.Runtime.Vm.Plain.{plain, plain-laws}
use lucet.Runtime.Mmap.{
  expand_heap, region_expand_heap, clear_heap, clear_range, open_heap, copy_pages, copy_page,
  reset_heap, drop_alloc,
}
use lucet.Runtime.Mmap.Heap.{HeapValid, Grown, expand_heap-Grown}
use lucet.Runtime.Mmap.Truncation.{expand_heap_truncates}
use lucet.Runtime.Mmap.Image.{IsReset, reset_heap-IsReset}
use lucet.Runtime.Mmap.Drop.{IsFresh, drop_alloc-IsFresh}
use lucet.Tests.Data.{
  slot_at_1m, limits-IsValid, slot-IsLaidOut, slot-HeapPlaced, small_module, one_page_heap,
  module-IsLoadable, used_machine, wide_slot, wide-HeapPlaced, unbounded_heap, unbounded_module,
  wide_machine, wide-HeapValid, used-HeapValid,
}

runs_expand : (expand_heap plain 100 small_module used_machine).0 ≡ ok 4096
unfolding expand_heap expansion region_expand_heap
runs_expand = refl

expand_heap_example :
    Grown plain slot_at_1m used_machine 100 4096 one_page_heap
      (expand_heap plain 100 small_module used_machine).1
expand_heap_example =
    expand_heap-Grown plain plain-laws slot_at_1m slot-HeapPlaced used_machine 100 4096 small_module
      one_page_heap used-HeapValid (omega arith) refl runs_expand

refuses :
    expansion used_machine.alloc 8192 small_module.heap_spec
    ≡ err (limits_exceeded "expansion would exceed module-specified heap limit")
unfolding expansion
refuses = refl

runs_drop : (drop_alloc plain used_machine).0 ≡ ok slot_at_1m
unfolding drop_alloc
runs_drop = refl

drop_alloc_example :
    (slot_at_1m ≡ slot_at_1m)
    × ((drop_alloc plain used_machine).1.alloc.slot ≡ none)
    × IsFresh plain slot_at_1m (drop_alloc plain used_machine).1.mem
drop_alloc_example =
    drop_alloc-IsFresh plain plain-laws slot_at_1m limits-IsValid slot-IsLaidOut (ground arith)
      used_machine used-HeapValid slot_at_1m runs_drop

runs_reset : (reset_heap plain small_module used_machine).0 ≡ ok tt
unfolding reset_heap get_page clear_heap clear_range open_heap copy_pages copy_page
runs_reset = refl

reset_heap_example :
    IsReset plain slot_at_1m small_module (reset_heap plain small_module used_machine).1
reset_heap_example =
    reset_heap-IsReset plain plain-laws slot_at_1m slot-HeapPlaced small_module module-IsLoadable
      used_machine used-HeapValid runs_reset

wide_grants : expansion wide_machine.alloc 100 (some unbounded_heap) ≡ ok 4096
unfolding expansion
wide_grants = refl

expand_truncates_example :
    ((expand_heap plain 100 unbounded_module wide_machine).0 ≡ ok (as_u32 4294967296))
    × (4294967296
        < (expand_heap plain 100 unbounded_module wide_machine).1.alloc.heap_accessible_size)
    × ((expand_heap plain 100 unbounded_module wide_machine).1.mem.rw (1052672 + 4294967296)
        ≡ false)
    × ¬ HeapValid plain wide_slot (expand_heap plain 100 unbounded_module wide_machine).1
expand_truncates_example =
    expand_heap_truncates plain plain-laws wide_slot wide-HeapPlaced wide_machine 100 4096
      unbounded_module unbounded_heap wide-HeapValid (omega arith) (omega arith) refl wide_grants
      refl

-- A reset does not refuse an initial size with a part of a page.
abbrev part_page_module : Module
part_page_module = record small_module {
  heap_spec = some (record one_page_heap { initial_size = 4097 });
}

part_page_resets :
    ((reset_heap plain part_page_module used_machine).0 ≡ ok tt)
    × ((reset_heap plain part_page_module used_machine).1.alloc.heap_accessible_size ≡ 4097)
unfolding reset_heap get_page clear_heap clear_range open_heap copy_pages copy_page
part_page_resets = (refl, refl)

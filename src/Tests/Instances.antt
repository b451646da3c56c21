-- ===== src/Tests/Instances.antt =====
-- Runs of an instance.
use lucet.Prelude.{◌≡◌, arith, refl, true, false, some, none, [], ◌∷◌, ok, err, replicate}
use lucet.LucetModule.Globals.{GlobalSpec, GlobalValue, new_def, i_64, i64}
use lucet.Runtime.Error.{FaultDetails, internal_error, instance_needs_start}
use lucet.Runtime.Module.{Module, FunctionHandle}
use lucet.Runtime.Kill.{new, hostcall}
use lucet.Runtime.Vm.Plain.{Plain, plain, plain-laws}
use lucet.Runtime.Mmap.{
  expand_heap, region_expand_heap, clear_heap, clear_range, open_heap, copy_pages, copy_page,
  reset_heap,
}
use lucet.LucetModule.LinearMemory.{get_page}
use lucet.Runtime.Alloc.{expansion}
use lucet.Runtime.Mmap.Image.{IsLoadable}
use lucet.Runtime.Instance.{
  faults, transitioning, not_started, ready, yielded, Instance, Host, left, swap_and_return,
}
use lucet.Runtime.Instance.Linear.{Linear, Represents, grown, grow_memory-Represents}
use lucet.Runtime.Instance.Run.{check_func, reset, init_globals, write_global, grow_memory}
use lucet.Runtime.Instance.Memory.{IsFreshInstance, reset-IsFreshInstance}
use lucet.Tests.Data.{
  slot_at_1m, slot-HeapPlaced, small_module, module-IsLoadable, used_machine, used-HeapValid,
  wide_slot, wide-HeapPlaced, unbounded_module, unbounded_heap, one_page_machine,
  one_page-HeapValid,
}

abbrev entry : FunctionHandle
entry = record { ptr = 4096; id = 0; is_start_func = false }

abbrev start : FunctionHandle
start = record { ptr = 8192; id = 1; is_start_func = true }

abbrev host : Host
host = record { addr_details = λ a. ok none; init_context = λ vs. ok tt }

-- An instance that waits in a hostcall for a value of type 5.
abbrev waiting_instance : Instance Plain
waiting_instance = record {
  state = yielded 5;
  kill_state = record new { execution_domain = hostcall };
  entrypoint = some entry;
  resumed_val = none;
  instruction_count_adj = 0;
  instruction_count_bound = 7;
  machine = used_machine;
  globals = replicate 4 (i_64 0);
}

abbrev ready_instance : Instance Plain
ready_instance = record waiting_instance { state = ready; kill_state = new }

-- A fault at an address that the dynamic loader does not answer for.
abbrev silent_host : Host
silent_host = record host { addr_details = λ a. err (internal_error "no details") }

abbrev a_fault : FaultDetails
a_fault = record { fatal = false; trapcode = none; rip_addr = 77; rip_addr_details = none }

fault_stays :
    (swap_and_return silent_host false (left (faults a_fault) new none) ready_instance).1.state
    ≡ transitioning
unfolding swap_and_return
fault_stays = refl

refuses_start : check_func not_started entry ≡ err instance_needs_start
unfolding check_func
refuses_start = refl

abbrev unstarted_instance : Instance Plain
unstarted_instance = record ready_instance { state = not_started }

-- A module with one global.
abbrev module_with_global : Module
module_with_global = record small_module {
  globals = (record { global = lucet.LucetModule.Globals.def (i64 42); export_names = [] }) ∷ [];
}

global_module-IsLoadable : IsLoadable slot_at_1m module_with_global
global_module-IsLoadable = record {
  whole = module-IsLoadable.whole;
  fits = module-IsLoadable.fits;
  pages = module-IsLoadable.pages;
}

runs_reset : (reset plain module_with_global waiting_instance).0 ≡ ok tt
unfolding reset reset_heap get_page clear_heap clear_range open_heap copy_pages copy_page
    init_globals write_global
runs_reset = refl

reset_example :
    IsFreshInstance plain slot_at_1m module_with_global
      (reset plain module_with_global waiting_instance).1
reset_example =
    reset-IsFreshInstance plain plain-laws slot_at_1m slot-HeapPlaced module_with_global
      global_module-IsLoadable waiting_instance used-HeapValid runs_reset

abbrev growing_instance : Instance Plain
growing_instance = record ready_instance { machine = one_page_machine }

runs_grow : (grow_memory plain unbounded_module 2 growing_instance).0 ≡ ok 1
unfolding grow_memory expand_heap expansion region_expand_heap
runs_grow = refl

-- A page of zeros.
abbrev zero_page : Linear
zero_page = record { pages = 1; bytes = λ x. 0 }

grow_memory_example :
    (1 ≡ zero_page.pages)
    × Represents plain wide_slot
        (grow_memory plain unbounded_module 2 growing_instance).1.machine
        (grown 2 zero_page)
grow_memory_example =
    grow_memory-Represents plain plain-laws wide_slot wide-HeapPlaced growing_instance
      unbounded_module unbounded_heap 2 1 zero_page one_page-HeapValid (omega arith) refl
      (omega arith) (record { size = refl; bytes = λ x h. refl }) runs_grow

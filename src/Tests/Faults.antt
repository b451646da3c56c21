-- ===== src/Tests/Faults.antt =====
-- Signals in a running instance.
use lucet.Prelude.{arith, true, false, ◌≡◌, refl, none, some, ok, []}
use lucet.Runtime.Error.{heap_out_of_bounds}
use lucet.Runtime.Slot.{is_fault_fatal}
use lucet.Runtime.Slot
use lucet.Runtime.Alloc.{addr_location}
use lucet.Runtime.Kill.{new, guest, on_fatal_signal}
use lucet.Runtime.Vm.Plain.{Plain}
use lucet.Runtime.Instance.{Instance, running, faulted}
use lucet.Runtime.Signals.{sigsegv, by_default, continues, outside_guard, handle_signal}
use lucet.Runtime.Signals.Faults.{IsRecorded, handle_signal-IsRecorded}
use lucet.Tests.Data.{slot_at_1m, slot-IsLaidOut, used_machine}

abbrev running_instance : Instance Plain
running_instance = record {
  state = running false;
  kill_state = record new { execution_domain = guest };
  entrypoint = none;
  resumed_val = none;
  instruction_count_adj = 0;
  instruction_count_bound = 0;
  machine = used_machine;
  globals = [];
}

-- A read in the heap guard.
abbrev faulted_instance : Instance Plain
faulted_instance = record running_instance {
  state = faulted (record {
    fatal = false;
    trapcode = some heap_out_of_bounds;
    rip_addr = 77;
    rip_addr_details = none;
  });
  kill_state = record new { execution_domain = guest; terminable = false };
}

segv_faults :
    handle_signal sigsegv (some heap_out_of_bounds) by_default 77 1060000 running_instance
    ≡ (ok true, faulted_instance)
unfolding handle_signal outside_guard addr_location Slot.addr_location is_fault_fatal
    on_fatal_signal new
segv_faults = refl

handle_fault_example :
    IsRecorded running_instance slot_at_1m refl slot-IsLaidOut
      (omega arith)
      sigsegv
      (some heap_out_of_bounds)
      77
      1060000
      by_default
      faulted_instance
handle_fault_example =
    handle_signal-IsRecorded running_instance slot_at_1m refl slot-IsLaidOut (omega arith) sigsegv
      (some heap_out_of_bounds) by_default 77 1060000 faulted_instance (λ e. cc) segv_faults

continues_fault :
    handle_signal sigsegv none continues 77 1060000 running_instance ≡ (ok false, running_instance)
unfolding handle_signal
continues_fault = refl

-- ===== src/Tests/Data.antt =====
-- A slot, a module and a machine for the tests.
use lucet.Prelude.{◌≡◌, some, none, [], ◌∷◌, replicate, ◌==◌, if◌then◌else◌, refl, arith, ok}
use lucet.LucetModule.LinearMemory.{HeapSpec, SparseData, new}
use lucet.LucetModule.LinearMemory.Pages.{new-AllPages}
use lucet.Runtime.Limits.{Limits}
use lucet.Runtime.Limits.Valid.{IsValid}
use lucet.Runtime.Slot.{Slot}
use lucet.Runtime.Slot.Location.{IsLaidOut}
use lucet.Runtime.Module.{Module}
use lucet.Runtime.Alloc.{Alloc}
use lucet.Runtime.Alloc.Expansion.{SizesValid}
use lucet.Runtime.Vm.{in_range}
use lucet.Runtime.Vm.Plain.{Plain, plain}
use lucet.Runtime.Mmap.{Machine}
use lucet.Runtime.Mmap.Heap.{HeapPlaced, HeapValid}
use lucet.Runtime.Mmap.Image.{IsLoadable}

abbrev pub small_limits : Limits
small_limits = record {
  heap_memory_size = 8192;
  heap_address_space_size = 16384;
  stack_size = 8192;
  hostcall_reservation = 4096;
  globals_size = 4096;
  signal_stack_size = 12288;
}

abbrev pub slot_at_1m : Slot
slot_at_1m = record {
  start = 1048576;
  heap = 1052672;
  stack = 1073152;
  globals = 1081344;
  sigstack = 1089536;
  limits = small_limits;
}

pub slot-IsLaidOut : IsLaidOut slot_at_1m
slot-IsLaidOut = ground arith

pub limits-IsValid : IsValid small_limits
limits-IsValid = ground arith

pub slot-HeapPlaced : HeapPlaced slot_at_1m
slot-HeapPlaced = ground arith

abbrev pub one_page_heap : HeapSpec
one_page_heap = record {
  reserved_size = 8192;
  guard_size = 4096;
  initial_size = 4096;
  max_size = some 8192;
}

abbrev pub page_of_sevens : SparseData
page_of_sevens = record { pages = some (replicate 4096 7) ∷ none ∷ [] }

abbrev pub small_module : Module
small_module = record {
  heap_spec = some one_page_heap;
  globals = [];
  sparse_data = page_of_sevens;
  start_func = none;
  signature_of = λ i. record { params = []; ret_ty = none };
}

pub sevens_new : new page_of_sevens.pages ≡ ok page_of_sevens
unfolding new
sevens_new = refl

pub module-IsLoadable : IsLoadable slot_at_1m small_module
module-IsLoadable = record {
  whole = ground arith;
  fits = omega arith;
  pages = (new-AllPages page_of_sevens.pages page_of_sevens sevens_new).1;
}

abbrev pub used_alloc : Alloc
used_alloc = record {
  heap_accessible_size = 4096;
  heap_inaccessible_size = 12288;
  heap_memory_size_limit = 8192;
  slot = some slot_at_1m;
}

pub used-SizesValid : SizesValid 16384 used_alloc
used-SizesValid = ground arith

-- One accessible page, with a byte that the guest has written.
abbrev pub used_machine : Machine Plain
used_machine = record {
  alloc = used_alloc;
  mem = record { rw = λ x. in_range x 1052672 1056768; bytes = λ x. if x == 1052680 then 5 else 0 };
}

pub used-HeapValid : HeapValid plain slot_at_1m used_machine
used-HeapValid = record {
  has_slot = refl;
  sizes = used-SizesValid;
  exact = λ x h. refl;
  clean = λ x h k. ground arith;
}

abbrev pub wide_slot : Slot
wide_slot = record {
  start = 1048576;
  heap = 1052672;
  stack = 8590991360;
  globals = 8590999552;
  sigstack = 8591007744;
  limits = record small_limits {
    heap_memory_size = 8589934592;
    heap_address_space_size = 8589934592;
  };
}

pub wide-HeapPlaced : HeapPlaced wide_slot
wide-HeapPlaced = ground arith

-- A module without a maximum, in a slot whose limits let the heap pass 4 GiB.
abbrev pub unbounded_heap : HeapSpec
unbounded_heap = record {
  reserved_size = 4294967296;
  guard_size = 4096;
  initial_size = 4096;
  max_size = none;
}

abbrev pub unbounded_module : Module
unbounded_module = record small_module { heap_spec = some unbounded_heap }

-- A heap of 4 GiB.
abbrev pub wide_machine : Machine Plain
wide_machine = record {
  alloc = record {
    heap_accessible_size = 4294967296;
    heap_inaccessible_size = 4294967296;
    heap_memory_size_limit = 8589934592;
    slot = some wide_slot;
  };
  mem = record { rw = λ x. in_range x 1052672 4296019968; bytes = λ x. 0 };
}

pub wide-HeapValid : HeapValid plain wide_slot wide_machine
wide-HeapValid = record {
  has_slot = refl;
  sizes = ground arith;
  exact = λ x h. refl;
  clean = λ x h k. refl;
}

-- A heap of one WebAssembly page in the wide slot.
abbrev pub one_page_machine : Machine Plain
one_page_machine = record {
  alloc = record {
    heap_accessible_size = 65536;
    heap_inaccessible_size = 8589869056;
    heap_memory_size_limit = 4294967296;
    slot = some wide_slot;
  };
  mem = record { rw = λ x. in_range x 1052672 1118208; bytes = λ x. 0 };
}

pub one_page-HeapValid : HeapValid plain wide_slot one_page_machine
one_page-HeapValid = record {
  has_slot = refl;
  sizes = ground arith;
  exact = λ x h. refl;
  clean = λ x h k. refl;
}

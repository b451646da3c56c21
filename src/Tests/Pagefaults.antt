-- ===== src/Tests/Pagefaults.antt =====
-- A lazy region for two instances.
use lucet.Prelude.{
  ℕ, ◌+◌, ◌*◌, ◌<◌, ◌≡◌, ◌⊎◌, refl, arith, true, false, some, none, [], ◌∷◌, ok, max, List, ltb,
  length, usize_mod, if◌then◌else◌,
}
use lucet.Runtime.Limits.{validate, total_memory_size}
use lucet.Runtime.Limits.Valid.{IsValid, sum_of}
use lucet.Runtime.Module.{validate_runtime_spec}
use lucet.Runtime.Slot.{addr_location}
use lucet.Runtime.Alloc.{Alloc, linear, next_slot}
use lucet.Runtime.Alloc
use lucet.Runtime.Region.{Region, take_slot, swap_remove, give_back}
use lucet.Runtime.Userfault.{done, no_entry}
use lucet.Runtime.Userfault.Lazy.{LazyMem, asleep_at, lazy, lazy-laws}
use lucet.Runtime.Uffd.{
  retry, UffdConfig, default_config, eager, Resident, zeropage, copy, serve, fill_pages,
}
use lucet.Runtime.Uffd.Retry.{Retried, zeropage-copy-Retried}
use lucet.Runtime.Uffd.Fill.{heap_image}
use lucet.Runtime.Uffd.Served.{Served}
use lucet.Runtime.Uffd.Located.{Hosted, page_fault_handler-Served}
use lucet.Runtime.Uffd.Handler.{
  page_fault_handler, Poll, timeout, ready, pagefault, no_event, other_event, stopped, poll_round,
  Round, uffd_worker_thread,
}
use lucet.Runtime.Uffd.Guest.{begins}
use lucet.Runtime.Uffd.Reads.{Guest-reads}
use lucet.Runtime.Uffd.Region.{
  Uffds, Setup, prepare, store_pages, new_instance_with, reset_heap, new_heap, drop_alloc,
  map_region, create_slot, create_slots, create,
}
use lucet.Runtime.Uffd.Fresh.{IsFresh, new_heap-IsFresh, drop_alloc-gone}
use lucet.Runtime.Uffd.Created.{IsSlotAt, create-IsSlotAt}
use lucet.LucetModule.LinearMemory.{get_page}
use lucet.Tests.Data.{
  small_limits, limits-IsValid, slot_at_1m, slot-IsLaidOut, small_module, module-IsLoadable,
  used_alloc,
}

-- The slot at 1 MiB is the first one, and holds an instance of the module with a page of sevens.
abbrev residents : ℕ → Resident
residents base = record { valid_magic = true; alloc = used_alloc; module_ = small_module }

first-Hosted : Hosted small_limits 1048576 2 residents 0 slot_at_1m
first-Hosted = record {
  valid = limits-IsValid;
  index = omega arith;
  start_at = refl;
  region_in_space = omega arith;
  mapped = omega arith;
  aligned = refl;
  laid_out = slot-IsLaidOut;
  same_limits = refl;
  magic = refl;
  heap_at = record { has_slot = refl; whole = refl; in_space = omega arith };
  fits = omega arith;
  pages = module-IsLoadable.pages;
}

-- A guest sleeps on a read of the tenth byte of its heap.
abbrev addr : ℕ
addr = 1048576 + 4106

heap_is_served :
    (page_fault_handler lazy default_config small_limits 1048576 2 residents addr
      (asleep_at addr)).0
    ≡ ok tt
unfolding page_fault_handler total_memory_size serve Alloc.addr_location addr_location fill_pages
    get_page copy
heap_is_served = refl

page_fault_example :
    Served lazy
      (record { start = 1052672; len = 4096 })
      (record { start = 1052672; len = 65536 })
      (heap_image small_module 1052672)
      (asleep_at addr)
      (page_fault_handler lazy default_config small_limits 1048576 2 residents addr
        (asleep_at addr)).1
page_fault_example =
    page_fault_handler-Served lazy lazy-laws default_config small_limits 1048576 2 residents 0
      slot_at_1m first-Hosted 4106 (omega arith) (asleep_at addr) heap_is_served

-- An ioctl that answers `ENOENT` twice.
stutters :
    retry {M = ℕ} (λ n. (if ltb n 2 then no_entry else done 1, n + 1)) 4 5 0 0 ≡ (some (done 1), 3)
unfolding retry
stutters = refl

retry_example :
    Retried LazyMem
      (lazy.zeropage 1048576 4096 true)
      (max 1 4)
      (asleep_at addr)
      (zeropage lazy 1048576 4096 true 4 (asleep_at addr))
    × Retried LazyMem
        (lazy.copy (5 ∷ []) 1048576 4096 true)
        (max 1 4)
        (asleep_at addr)
        (copy lazy (5 ∷ []) 1048576 4096 true 4 (asleep_at addr))
retry_example = zeropage-copy-Retried lazy 1048576 4096 4 true (asleep_at addr) (5 ∷ [])

reads_example :
    let m' =
      (page_fault_handler lazy default_config small_limits 1048576 2 residents addr
        (asleep_at addr)).1 in
    (lazy.present m' addr ≡ true) × (lazy.byte m' addr ≡ 7) × (lazy.asleep m' addr ≡ false)
unfolding get_page
reads_example =
    Guest-reads lazy lazy-laws default_config small_limits 1048576 2 residents 0 slot_at_1m
      first-Hosted 4106 refl (asleep_at addr) (heap_image small_module 1052672) (asleep_at addr)
      (λ x s. refl) begins heap_is_served

-- The poll times out, another thread touches the heap, the fault is reported, and the region is
-- dropped.
abbrev round : Poll → Round lazy
round p = record { others = λ m. m; residents = residents; poll = p }

abbrev rounds : List (Round lazy)
rounds =
    round timeout
    ∷ record {
      others = λ m. asleep_at addr;
      residents = residents;
      poll = ready (some (record { pollerr = false; pollin = true })) none (pagefault addr);
    }
    ∷ round (ready none (some (record { pollerr = false; pollin = true })) no_event)
    ∷ []

worker_stops :
    (uffd_worker_thread lazy default_config small_limits 1048576 2 rounds (asleep_at 0)).0
    ≡ ok stopped
unfolding uffd_worker_thread poll_round page_fault_handler total_memory_size serve
    Alloc.addr_location addr_location fill_pages get_page copy
worker_stops = refl

-- The handle reports something that is no fault.
abbrev other_rounds : List (Round lazy)
other_rounds = round (ready none none other_event) ∷ []

abbrev one_free : Region
one_free = record { capacity = 1; freelist = slot_at_1m ∷ []; limits = small_limits }

abbrev none_free : Region
none_free = record one_free { freelist = [] }

-- The heap is set up at once.
abbrev eager_config : UffdConfig
eager_config = record default_config { heap_init = eager }

abbrev at_rest : Uffds LazyMem
at_rest = record { region = one_free; mem = asleep_at 0 }

takes_it : take_slot linear one_free ≡ (ok slot_at_1m, none_free)
unfolding take_slot next_slot swap_remove
takes_it = refl

starts : (new_heap lazy eager_config small_module 8192 linear at_rest).0 ≡ ok used_alloc
unfolding new_heap new_instance_with validate_runtime_spec take_slot next_slot swap_remove prepare
    zeropage store_pages get_page reset_heap
starts = refl

new_heap_example :
    IsFresh lazy slot_at_1m small_module used_alloc
      (new_heap lazy eager_config small_module 8192 linear at_rest).1.mem
    × ((new_heap lazy eager_config small_module 8192 linear at_rest).1.region ≡ none_free)
new_heap_example =
    new_heap-IsFresh lazy lazy-laws slot_at_1m slot-IsLaidOut refl eager_config small_module 8192
      linear at_rest none_free used_alloc takes_it refl module-IsLoadable (λ x l r. refl) starts

abbrev in_use : Uffds LazyMem
in_use = record { region = none_free; mem = record (asleep_at 0) { pages = λ p. true } }

abbrev dropped : Alloc
dropped = record used_alloc { slot = none }

drops : (drop_alloc lazy used_alloc in_use).0 ≡ ok dropped
unfolding drop_alloc total_memory_size
drops = refl

drop_example :
    (dropped ≡ dropped)
    × ((drop_alloc lazy used_alloc in_use).1.region ≡ one_free)
    × (lazy.present (drop_alloc lazy used_alloc in_use).1.mem addr ≡ false)
    × ((true ≡ true) ⊎ (lazy.byte (drop_alloc lazy used_alloc in_use).1.mem addr ≡ 0))
unfolding give_back
drop_example =
    drop_alloc-gone lazy lazy-laws slot_at_1m slot-IsLaidOut refl in_use used_alloc dropped addr
      refl limits-IsValid drops

-- A system that maps everything at 1 MiB.
abbrev helpful : Setup
helpful = record {
  opens = true;
  maps = λ size. if ltb size 1048576 then some 1048576 else none;
  registers = some true;
  pipes = true;
  spawns = true;
}

creates :
    (create lazy helpful 1 small_limits default_config (asleep_at 0)).0 ≡ ok (one_free, 1048576)
unfolding create map_region validate total_memory_size create_slots create_slot zeropage
creates = refl

create_example :
    IsValid small_limits
    × (0 < 1)
    × (one_free.capacity ≡ 1)
    × (length one_free.freelist ≡ 1)
    × (one_free.limits ≡ small_limits)
    × (0 < 1048576)
    × (1048576 + sum_of small_limits * 1 < usize_mod)
    × IsSlotAt small_limits 1048576 0 slot_at_1m
create_example =
    create-IsSlotAt lazy helpful 1 small_limits default_config (asleep_at 0) one_free 1048576 0
      slot_at_1m (λ size a e. ground arith) creates refl

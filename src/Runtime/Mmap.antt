-- ===== src/Runtime/Mmap.antt =====
-- `MmapRegion` of lucet-runtime-internals/src/region/mmap.rs on Linux: what it does to the memory of
-- one slot. The state is the slot's alloc and the memory of the process.
pub mod Heap
pub mod Copy
pub mod Reset
pub mod Image
pub mod Drop
pub mod Grants
pub mod Truncation
use lucet.Prelude.{
  ℕ, zero, suc, ◌+◌, ◌*◌, ◌/◌, Bool, true, false, Option, some, none, List, String, ltb, ◌==◌,
  length, add_usize, sub_usize, mul_usize, as_u32, if◌then◌else◌, Result, ok, err, panic, assert,
  expect, fail_if,
}
use lucet.Prelude.Effects.{Eff, ◌>>=◌, ◌>>◌, pure, lift, get, put}
use lucet.LucetModule.LinearMemory.{HeapSpec, get_page, sparse_page_size}
use lucet.Runtime.Error.{Error, internal_error, incorrect_module, host_page_size}
use lucet.Runtime.Limits.{is_misaligned}
use lucet.Runtime.Module.{Module}
use lucet.Runtime.Slot.{Slot}
use lucet.Runtime.Alloc.{Alloc, expansion}
use lucet.Runtime.Vm.{Vm}

-- `module.heap_spec().map(|h| h.initial_size).unwrap_or(0)`
abbrev pub initial_size_of : Option HeapSpec → ℕ
initial_size_of none = 0
initial_size_of (some h) = h.initial_size

pub record Machine (Mem : Type 0) : Type 0 where
  pub alloc : Alloc
  pub mem : Mem

module _ (vm : Vm) where
  abbrev pub Step : Type 0 → Type 0
  Step A = Eff (Machine vm.Mem) Error A

  -- A system call on the memory, whose failure is an error of kind `InternalError`.
  abbrev pub call : (vm.Mem → Bool × vm.Mem) → Step (Unit {0})
  call f s =
      let (done, mem') = f s.mem in
      (if done then ok tt else err (internal_error "nix error"), record s { mem = mem' })

  -- A system call that is followed by `expect`.
  abbrev pub call_expect : (vm.Mem → Bool × vm.Mem) → Step (Unit {0})
  call_expect f s =
      let (done, mem') = f s.mem in (if done then ok tt else panic, record s { mem = mem' })

  abbrev pub slot_of : Step Slot
  slot_of s = (expect s.alloc.slot, s)

  -- `RegionInternal::expand_heap`
  unfoldable pub region_expand_heap : Slot → ℕ → ℕ → Step (Unit {0})
  region_expand_heap slot start len = call (vm.mprotect (add_usize slot.heap start) len true)

  abbrev pub set_sizes : ℕ → ℕ → Step (Unit {0})
  set_sizes accessible inaccessible s = (
    ok tt,
    record s {
      alloc = record (s.alloc) {
        heap_accessible_size = accessible;
        heap_inaccessible_size = inaccessible;
      };
    },
  )

  -- `Alloc::expand_heap` for a number of bytes that is not 0.
  unfoldable pub grow_heap : Slot → Alloc → ℕ → Option HeapSpec → Step ℕ
  grow_heap slot a expand_bytes heap_spec = do
    expand ← lift (expansion a expand_bytes heap_spec)
    let newly_accessible = a.heap_accessible_size
    region_expand_heap slot (as_u32 newly_accessible) expand
    set_sizes (add_usize newly_accessible expand) (sub_usize a.heap_inaccessible_size expand)
    pure (as_u32 newly_accessible)

  -- `Alloc::expand_heap`
  unfoldable pub expand_heap : ℕ → Module → Step ℕ
  unfolding grow_heap
  expand_heap expand_bytes module_ = do
    slot ← slot_of
    s ← get
    if expand_bytes == 0
        then pure (as_u32 s.alloc.heap_accessible_size)
        else grow_heap slot s.alloc expand_bytes module_.heap_spec

  -- One round of the loop of `reset_heap`, with the bounds check of the slice and the length check
  -- of `copy_from_slice`. The heap slice is as long as the accessible heap.
  unfoldable pub copy_page : Module → ℕ → Step (Unit {0})
  copy_page module_ page_num = do
    slot ← slot_of
    s ← get
    let page_base = mul_usize page_num host_page_size
    lift (
        fail_if (ltb s.alloc.heap_accessible_size page_base)
          (incorrect_module "sparse page data length exceeded initial heap size"))
    elim (get_page module_.sparse_data page_num) [
      | none ↦ pure tt
      | some contents ↦ do
        lift (
            if ltb s.alloc.heap_accessible_size (add_usize page_base host_page_size)
            then panic
            else ok tt)
        lift (assert (length contents == host_page_size))
        put (record s { mem = vm.store (add_usize slot.heap page_base) contents s.mem })
    ]

  -- The loop over `page_num..page_num + rounds`.
  unfoldable pub copy_pages : Module → ℕ → ℕ → Step (Unit {0})
  copy_pages module_ zero page_num = pure tt
  copy_pages module_ (suc rounds) page_num =
      copy_page module_ page_num >> copy_pages module_ rounds (page_num + 1)

  -- `mprotect(PROT_NONE)?; madvise(..)?`
  unfoldable pub clear_range : ℕ → ℕ → Step (Unit {0})
  clear_range ptr len = call (vm.mprotect ptr len false) >> call (vm.madvise ptr len)

  -- `mprotect(PROT_NONE)` and `madvise` over the heap's whole address space, if any of it is
  -- accessible.
  unfoldable pub clear_heap : Slot → Step (Unit {0})
  clear_heap slot = do
    s ← get
    if ltb 0 s.alloc.heap_accessible_size
        then clear_range slot.heap slot.limits.heap_address_space_size
        else pure tt

  unfoldable pub open_heap : Slot → ℕ → Step (Unit {0})
  open_heap slot initial_size =
      if ltb 0 initial_size then call (vm.mprotect slot.heap initial_size true) else pure tt

  -- `RegionInternal::reset_heap`
  unfoldable pub reset_heap : Module → Step (Unit {0})
  reset_heap module_ = do
    slot ← slot_of
    clear_heap slot
    let initial_size = initial_size_of module_.heap_spec
    open_heap slot initial_size
    set_sizes initial_size (sub_usize slot.limits.heap_address_space_size initial_size)
    copy_pages module_ (initial_size / host_page_size) 0

  -- One round of the loop of `drop_alloc`.
  abbrev close_range : ℕ → ℕ → Step (Unit {0})
  close_range ptr len = call_expect (vm.mprotect ptr len false) >> call_expect (vm.madvise ptr len)

  abbrev take_slot : Step (Unit {0})
  take_slot s = (ok tt, record s { alloc = record (s.alloc) { slot = none } })

  -- `RegionInternal::drop_alloc`, up to the push on the free list: the slot that is pushed.
  unfoldable pub drop_alloc : Step Slot
  drop_alloc = do
    slot ← slot_of
    take_slot
    lift (if is_misaligned slot.heap then panic else ok tt)
    s ← get
    close_range slot.heap s.alloc.heap_accessible_size
    close_range slot.stack slot.limits.stack_size
    close_range slot.globals slot.limits.globals_size
    close_range slot.sigstack slot.limits.signal_stack_size
    pure slot

  -- The system calls of `new_instance_with` that open the stack, the globals and the signal stack.
  unfoldable pub open_sections : Slot → Step (Unit {0})
  open_sections slot = do
    lift (if is_misaligned slot.heap then panic else ok tt)
    call_expect (vm.mprotect slot.stack slot.limits.stack_size true)
    call_expect (vm.mprotect slot.globals slot.limits.globals_size true)
    call_expect (vm.mprotect slot.sigstack slot.limits.signal_stack_size true)

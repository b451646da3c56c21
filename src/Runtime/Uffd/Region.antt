-- ===== src/Runtime/Uffd/Region.antt =====
-- The region of region/uffd.rs: `create`, `new_instance_with`, `reset_heap`, `drop_alloc`.
use lucet.Prelude.{
  ℕ, zero, suc, ◌+◌, ◌*◌, ◌/◌, ◌%◌, Bool, true, false, not, Option, some, none, List, [], ◌∷◌, ltb,
  ◌==◌, length, add_usize, sub_usize, mul_usize, usize_mod, if◌then◌else◌, Result, ok, err, panic,
  assert, expect, fail_if,
}
use lucet.Prelude.Effects.{Eff, ◌>>=◌, ◌>>◌, pure, lift, get, put}
use lucet.LucetModule.LinearMemory.{HeapSpec, get_page}
use lucet.Runtime.Error.{Error, invalid_argument, internal_error, host_page_size}
use lucet.Runtime.Limits.{Limits, validate, is_misaligned, instance_heap_offset, total_memory_size}
use lucet.Runtime.Module.{Module, validate_runtime_spec}
use lucet.Runtime.Slot.{Slot}
use lucet.Runtime.Alloc.{Alloc, AllocStrategy}
use lucet.Runtime.Mmap.{initial_size_of}
use lucet.Runtime.Region.{Region, take_slot, give_back}
use lucet.Runtime.Userfault.{Userfault, Reply, done, no_entry, failed}
use lucet.Runtime.Uffd.{UffdConfig, eager, lazy, zeropage, filled}

-- The free slots and the memory. The lock of the free list is held over each operation on it.
pub record Uffds (Mem : Type 0) : Type 0 where
  pub region : Region
  pub mem : Mem

-- What the operating system gives `create`: the handle, the mapping of a size, whether the region
-- could be registered and with the ioctls that are needed, the pipe and the thread.
pub record Setup : Type 0 where
  pub opens : Bool
  pub maps : ℕ → Option ℕ
  pub registers : Option Bool
  pub pipes : Bool
  pub spawns : Bool

-- `a.checked_mul(b)`
abbrev pub checked_mul_usize : ℕ → ℕ → Option ℕ
checked_mul_usize a b = if ltb (a * b) usize_mod then some (a * b) else none

abbrev pub or_error : {A : Type 0} → Option A → Error → Result Error A
or_error none e = err e
or_error (some a) e = ok a

module _ (k : Userfault) where
  abbrev pub Act : Type 0 → Type 0
  Act A = Eff (Uffds k.Mem) Error A

  abbrev pub on_mem : {A : Type 0} → Eff k.Mem Error A → Act A
  on_mem f s = let (r, mem') = f s.mem in (r, record s { mem = mem' })

  -- `zeropage(..).expect("zeropage succeeds")`
  abbrev pub settle_expect : Option Reply × k.Mem → Result Error (Unit {0}) × k.Mem
  settle_expect (none, m) = (panic, m)
  settle_expect (some (done n), m) = (ok tt, m)
  settle_expect (some no_entry, m) = (panic, m)
  settle_expect (some failed, m) = (panic, m)

  -- The loop over `init_list`; the ioctl fails on an empty range.
  unfoldable pub zero_ranges : UffdConfig → List (ℕ × ℕ) → Eff k.Mem Error (Unit {0})
  zero_ranges config [] = pure tt
  zero_ranges config ((ptr, len) ∷ ranges) =
      (if ltb 0 len
        then (λ m. settle_expect (zeropage k ptr len true config.enoent_retry_limit m))
        else pure tt)
      >> zero_ranges config ranges

  abbrev pub init_list : UffdConfig → Limits → Slot → List (ℕ × ℕ)
  init_list config limits slot =
      (slot.globals, limits.globals_size)
      ∷ (slot.sigstack, limits.signal_stack_size)
      ∷ elim config.stack_init [ eager ↦ (slot.stack, limits.stack_size) ∷ [] | lazy ↦ [] ]

  -- The loop over the pages of the initial heap, with the length check of `copy_from_slice`.
  unfoldable pub store_pages : Module → Slot → ℕ → ℕ → Eff k.Mem Error (Unit {0})
  store_pages module_ slot zero pages_into_heap = pure tt
  store_pages module_ slot (suc rounds) pages_into_heap =
      elim (get_page module_.sparse_data pages_into_heap) [
        | none ↦ pure tt
        | some init_contents ↦ do
          lift (assert (length init_contents == host_page_size))
          let page_addr = add_usize slot.heap (mul_usize pages_into_heap host_page_size)
          m ← get
          put (k.store page_addr init_contents m)
      ]
      >> store_pages module_ slot rounds (pages_into_heap + 1)

  abbrev pub eager_heap : UffdConfig → Module → Slot → Option HeapSpec → Eff k.Mem Error (Unit {0})
  eager_heap config module_ slot none = pure tt
  eager_heap config module_ slot (some heap_spec) = do
    lift (assert (heap_spec.initial_size % host_page_size == 0))
    filled k (zeropage k slot.heap heap_spec.initial_size false config.enoent_retry_limit)
    store_pages module_ slot (heap_spec.initial_size / host_page_size) 0

  unfoldable pub init_heap : UffdConfig → Module → Slot → Eff k.Mem Error (Unit {0})
  unfolding store_pages
  init_heap config module_ slot = elim config.heap_init [
    | eager ↦ eager_heap config module_ slot module_.heap_spec
    | lazy ↦ pure tt
  ]

  abbrev pub take : AllocStrategy → Act Slot
  take strategy s =
      let (r, region') = take_slot strategy s.region in (r, record s { region = region' })

  -- What is done to a slot that was taken from the free list: the memory that is set up at once.
  unfoldable pub prepare : UffdConfig → Limits → Module → Slot → Eff k.Mem Error (Unit {0})
  unfolding zero_ranges init_heap
  prepare config limits module_ slot = do
    lift (if is_misaligned slot.heap then panic else ok tt)
    zero_ranges config (init_list config limits slot)
    init_heap config module_ slot

  -- `new_instance_with`, up to the call of `new_instance_handle`: the alloc that the call is given.
  unfoldable pub new_instance_with : UffdConfig → Module → ℕ → AllocStrategy → Act Alloc
  unfolding prepare
  new_instance_with config module_ heap_memory_size_limit strategy = do
    s ← get
    lift (validate_runtime_spec module_ s.region.limits heap_memory_size_limit)
    slot ← take strategy
    on_mem (prepare config s.region.limits module_ slot)
    pure (record {
      heap_accessible_size = initial_size_of module_.heap_spec;
      heap_inaccessible_size = slot.limits.heap_address_space_size;
      heap_memory_size_limit = heap_memory_size_limit;
      slot = some slot;
    })

  abbrev pub advise : ℕ → ℕ → Eff k.Mem Error (Unit {0})
  advise ptr len m =
      let (done_, m') = k.madvise ptr len m in
      (if done_ then ok tt else err (internal_error "nix error"), m')

  abbrev pub advise_expect : ℕ → ℕ → Eff k.Mem Error (Unit {0})
  advise_expect ptr len m =
      let (done_, m') = k.madvise ptr len m in (if done_ then ok tt else panic, m')

  -- `RegionInternal::reset_heap`: the alloc with its new sizes.
  unfoldable pub reset_heap : Alloc → Module → Eff k.Mem Error Alloc
  reset_heap alloc module_ = do
    slot ← lift (expect alloc.slot)
    if ltb 0 alloc.heap_accessible_size
        then advise slot.heap alloc.heap_accessible_size
        else pure tt
    let initial_size = initial_size_of module_.heap_spec
    pure (record alloc {
      heap_accessible_size = initial_size;
      heap_inaccessible_size = sub_usize slot.limits.heap_address_space_size initial_size;
    })

  -- `new_instance_with` up to the heap's reset in `new_instance_handle`, which is given the alloc.
  unfoldable pub new_heap : UffdConfig → Module → ℕ → AllocStrategy → Act Alloc
  new_heap config module_ heap_memory_size_limit strategy = do
    alloc ← new_instance_with config module_ heap_memory_size_limit strategy
    on_mem (reset_heap alloc module_)

  -- `RegionInternal::expand_heap`: the pages come with their faults.
  unfoldable pub region_expand_heap : Slot → ℕ → ℕ → Eff k.Mem Error (Unit {0})
  region_expand_heap slot start len = pure tt

  -- `RegionInternal::drop_alloc`: the alloc without its slot.
  unfoldable pub drop_alloc : Alloc → Act Alloc
  drop_alloc alloc = do
    slot ← lift (expect alloc.slot)
    lift (if is_misaligned slot.heap then panic else ok tt)
    total ← lift (total_memory_size slot.limits)
    let ptr = add_usize slot.start instance_heap_offset
    on_mem (advise_expect ptr (sub_usize total instance_heap_offset))
    s ← get
    put (record s { region = give_back slot s.region })
    pure (record alloc { slot = none })

  -- `UffdRegion::create_slot`
  unfoldable pub create_slot : UffdConfig → ℕ → Limits → ℕ → Eff k.Mem Error Slot
  create_slot config region_start limits index = do
    total ← lift (total_memory_size limits)
    let start = add_usize region_start (mul_usize index total)
    let heap = add_usize start instance_heap_offset
    let stack = add_usize (add_usize heap limits.heap_address_space_size) host_page_size
    let globals = add_usize stack limits.stack_size
    let sigstack = add_usize (add_usize globals limits.globals_size) host_page_size
    filled k (zeropage k start host_page_size true config.enoent_retry_limit)
    pure (record {
      start = start;
      heap = heap;
      stack = stack;
      globals = globals;
      sigstack = sigstack;
      limits = limits;
    })

  unfoldable pub create_slots : UffdConfig → ℕ → Limits → ℕ → ℕ → Eff k.Mem Error (List Slot)
  create_slots config region_start limits zero index = pure []
  create_slots config region_start limits (suc rounds) index = do
    slot ← create_slot config region_start limits index
    slots ← create_slots config region_start limits rounds (index + 1)
    pure (slot ∷ slots)

  abbrev pub check_ioctls : Option Bool → Result Error (Unit {0})
  check_ioctls none = err (internal_error "userfaultfd")
  check_ioctls (some true) = ok tt
  check_ioctls (some false) = panic

  -- The part of `create` that checks its arguments and asks the operating system: where the region
  -- starts.
  unfoldable pub map_region : Setup → ℕ → Limits → Eff k.Mem Error ℕ
  map_region setup instance_capacity limits = do
    lift (
        fail_if (instance_capacity == 0)
          (invalid_argument "region must be able to hold at least one instance"))
    lift (validate limits)
    lift (fail_if (not setup.opens) (internal_error "userfaultfd"))
    total ← lift (total_memory_size limits)
    total_region_size ← lift (
        or_error (checked_mul_usize instance_capacity total)
          (invalid_argument "requested region size too large"))
    start ← lift (or_error (setup.maps total_region_size) (internal_error "nix error"))
    lift (check_ioctls setup.registers)
    lift (fail_if (not setup.pipes) (internal_error "nix error"))
    lift (if setup.spawns then ok tt else panic)
    pure start

  -- `UffdRegion::create`: the region and its address.
  unfoldable pub create : Setup → ℕ → Limits → UffdConfig → Eff k.Mem Error (Region × ℕ)
  unfolding map_region create_slots
  create setup instance_capacity limits config = do
    start ← map_region setup instance_capacity limits
    slots ← create_slots config start limits instance_capacity 0
    pure (record { capacity = instance_capacity; freelist = slots; limits = limits }, start)

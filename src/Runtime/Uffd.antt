-- ===== src/Runtime/Uffd.antt =====
-- `UffdRegion` of lucet-runtime-internals/src/region/uffd.rs: what it does to the memory of one
-- slot, and how its handler serves the page faults of the guests.
pub mod Retry
pub mod Handler
pub mod Fill
pub mod Served
pub mod Located
pub mod Isolation
pub mod Guest
pub mod Reads
pub mod Worker
pub mod Region
pub mod Prepared
pub mod Fresh
pub mod Created
use lucet.Prelude.{
  ℕ, zero, suc, ◌+◌, ◌-◌, ◌*◌, ◌/◌, ◌%◌, Bool, true, false, not, ◌&&◌, Option, some, none, List, [],
  ◌∷◌, ltb, leb, ◌==◌, length, add_usize, sub_usize, mul_usize, if◌then◌else◌, Result, ok, err,
  panic, assert, expect, fail_if, usize_mod,
}
use lucet.Prelude.Effects.{Eff, ◌>>=◌, ◌>>◌, pure, lift, get, put}
use lucet.LucetModule.LinearMemory.{HeapSpec, get_page}
use lucet.Runtime.Error.{Error, internal_error, host_page_size, wasm_page_size}
use lucet.Runtime.Limits.{Limits, is_misaligned, instance_heap_offset, total_memory_size}
use lucet.Runtime.Module.{Module}
use lucet.Runtime.Slot.{
  Slot, AddrLocation, in_heap, inaccessible_heap, stack_guard, in_stack, in_globals,
  sig_stack_guard, sig_stack, unknown,
}
use lucet.Runtime.Alloc.{Alloc, addr_location}
use lucet.Runtime.Vm.{in_range}
use lucet.Runtime.Userfault.{Userfault, Reply, done, no_entry, failed}

pub data Disposition : Type 0 where
  eager lazy : Disposition

pub data HeapPageSize : Type 0 where
  host wasm : HeapPageSize

pub record UffdConfig : Type 0 where
  pub heap_page_size : HeapPageSize
  pub heap_init : Disposition
  pub stack_init : Disposition
  pub abort_on_handler_error : Bool
  pub enoent_retry_limit : ℕ

-- `UffdConfig::default()`
abbrev pub default_config : UffdConfig
default_config = record {
  heap_page_size = wasm;
  heap_init = lazy;
  stack_init = lazy;
  abort_on_handler_error = false;
  enoent_retry_limit = 4;
}

-- The loop of `zeropage` and of `copy`: the call is made again on `ENOENT`, until it was made
-- `retry_limit` times. `none` means that the fuel ran out.
unfoldable pub retry : {M : Type 0} → (M → Reply × M) → ℕ → ℕ → ℕ → M → Option Reply × M
retry ioctl retry_limit zero retries m = (none, m)
retry ioctl retry_limit (suc fuel) retries m =
    let (res, m') = ioctl m in
    elim res [
      | no_entry ↦
          let again = retry ioctl retry_limit fuel (retries + 1) m' in
          if leb retry_limit (retries + 1) then (some no_entry, m') else again
      | done n ↦ (some (done n), m')
      | failed ↦ (some failed, m')
    ]

-- The instance at the start of a slot, as the handler reads it there.
pub record Resident : Type 0 where
  pub valid_magic : Bool
  pub alloc : Alloc
  pub module_ : Module

module _ (k : Userfault) where
  abbrev pub Step : Type 0 → Type 0
  Step A = Eff k.Mem Error A

  unfoldable pub zeropage : ℕ → ℕ → Bool → ℕ → k.Mem → Option Reply × k.Mem
  unfolding retry
  zeropage start len wake retry_limit =
      retry (k.zeropage start len wake) retry_limit (suc retry_limit) 0

  unfoldable pub copy : List ℕ → ℕ → ℕ → Bool → ℕ → k.Mem → Option Reply × k.Mem
  unfolding retry
  copy src dst len wake retry_limit =
      retry (k.copy src dst len wake) retry_limit (suc retry_limit) 0

  -- `.map_err(|e| Error::InternalError(e.into()))?`
  abbrev pub settle : Option Reply × k.Mem → Result Error (Unit {0}) × k.Mem
  settle (none, m) = (panic, m)
  settle (some (done n), m) = (ok tt, m)
  settle (some no_entry, m) = (err (internal_error "userfaultfd"), m)
  settle (some failed, m) = (err (internal_error "userfaultfd"), m)

  abbrev pub filled : (k.Mem → Option Reply × k.Mem) → Step (Unit {0})
  filled call m = settle (call m)

  abbrev pub called : (k.Mem → Bool × k.Mem) → Step (Unit {0})
  called call m =
      let (done_, m') = call m in (if done_ then ok tt else err (internal_error "userfaultfd"), m')

  -- One host page of the heap: the module's page is copied in, or else the page is zeroed.
  unfoldable pub fill_page : UffdConfig → Module → ℕ → ℕ → Bool → Step (Unit {0})
  fill_page config module_ pages_into_heap addr wake =
      elim (get_page module_.sparse_data pages_into_heap) [
        | some page ↦ filled (copy page addr host_page_size wake config.enoent_retry_limit)
        | none ↦ filled (zeropage addr host_page_size wake config.enoent_retry_limit)
      ]

  -- `HostPageSizedUffdStrategy::heap_fault`
  unfoldable pub host_heap_fault : UffdConfig → Module → Alloc → ℕ → Step (Unit {0})
  unfolding fill_page
  host_heap_fault config module_ alloc fault_page = do
    slot ← lift (expect alloc.slot)
    let pages_into_heap = sub_usize fault_page slot.heap / host_page_size
    fill_page config module_ pages_into_heap fault_page true

  -- The loop over the host pages of a WebAssembly page, with `break` where the heap ends.
  unfoldable pub fill_pages : UffdConfig → Module → Alloc → ℕ → ℕ → ℕ → ℕ → Step (Unit {0})
  fill_pages config module_ alloc base_page base zero page_num = pure tt
  fill_pages config module_ alloc base_page base (suc rounds) page_num = do
    let host_page_addr = add_usize base (mul_usize page_num host_page_size)
    loc ← lift (addr_location alloc host_page_addr)
    elim loc [
      | in_heap ↦
          fill_page config module_ (add_usize base_page page_num) host_page_addr false
          >> fill_pages config module_ alloc base_page base rounds (page_num + 1)
      | _ ↦ pure tt
    ]

  -- `WasmPageSizedUffdStrategy::heap_fault`
  unfoldable pub wasm_heap_fault : UffdConfig → Module → Alloc → ℕ → Step (Unit {0})
  wasm_heap_fault config module_ alloc fault_page = do
    slot ← lift (expect alloc.slot)
    let rel_fault_addr = sub_usize fault_page slot.heap
    let rel_wasm_page_base_addr = rel_fault_addr - rel_fault_addr % wasm_page_size
    let wasm_page_base_addr = add_usize slot.heap rel_wasm_page_base_addr
    let base_pages_into_heap = rel_wasm_page_base_addr / host_page_size
    lift (assert (ltb host_page_size wasm_page_size))
    lift (assert (wasm_page_size % host_page_size == 0))
    fill_pages config module_ alloc base_pages_into_heap wasm_page_base_addr
        (wasm_page_size / host_page_size) 0
    called (k.wake wasm_page_base_addr wasm_page_size)

  unfoldable pub heap_fault : UffdConfig → Module → Alloc → ℕ → Step (Unit {0})
  unfolding host_heap_fault wasm_heap_fault
  heap_fault config module_ alloc fault_page = elim config.heap_page_size [
    | host ↦ host_heap_fault config module_ alloc fault_page
    | wasm ↦ wasm_heap_fault config module_ alloc fault_page
  ]

  unfoldable pub stack_fault : UffdConfig → ℕ → Step (Unit {0})
  stack_fault config fault_page = elim config.stack_init [
    | lazy ↦ filled (zeropage fault_page host_page_size true config.enoent_retry_limit)
    | eager ↦ lift (err (internal_error "fault in eagerly initialized stack"))
  ]

  -- The `match` on the location of a fault. A fault outside of the stack and the heap is woken
  -- without a page.
  unfoldable pub serve : UffdConfig → Module → Alloc → ℕ → AddrLocation → Step (Unit {0})
  unfolding heap_fault stack_fault
  serve config module_ alloc fault_page in_heap = heap_fault config module_ alloc fault_page
  serve config module_ alloc fault_page in_stack = stack_fault config fault_page
  serve config module_ alloc fault_page inaccessible_heap =
      called (k.wake fault_page host_page_size)
  serve config module_ alloc fault_page stack_guard = called (k.wake fault_page host_page_size)
  serve config module_ alloc fault_page sig_stack_guard = called (k.wake fault_page host_page_size)
  serve config module_ alloc fault_page unknown = called (k.wake fault_page host_page_size)
  serve config module_ alloc fault_page in_globals = called (k.wake fault_page host_page_size)
  serve config module_ alloc fault_page sig_stack = called (k.wake fault_page host_page_size)

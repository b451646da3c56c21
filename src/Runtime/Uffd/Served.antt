-- ===== src/Runtime/Uffd/Served.antt =====
-- What the handler does to the memory, for a fault at each place of a slot.
use lucet.Prelude.{
  ℕ, ◌+◌, ◌-◌, ◌*◌, ◌/◌, ◌%◌, ◌≤◌, ◌<◌, ◌≡◌, refl, ◌∙◌, arith, Bool, true, false, ok, err,
  add_usize, sub_usize, min, if◌then◌else◌, expect,
}
use lucet.Prelude.Effects.{continue, lift, ◌>>◌, continue-eq-ok}
use lucet.LucetModule.LinearMemory.Pages.{AllPages}
use lucet.Runtime.Error.{internal_error}
use lucet.Runtime.Module.{Module}
use lucet.Runtime.Slot.{
  Slot, AddrLocation, in_heap, inaccessible_heap, stack_guard, in_stack, in_globals,
  sig_stack_guard, sig_stack, unknown,
}
use lucet.Runtime.Alloc.{Alloc}
use lucet.Runtime.Vm.{in_range}
use lucet.Runtime.Userfault.{Userfault, UserfaultLaws, Filled}
use lucet.Runtime.Uffd.{
  UffdConfig, HeapPageSize, host, wasm, Disposition, eager, lazy, Step, filled, zeropage, called,
  fill_pages, fill_page, host_heap_fault, wasm_heap_fault, heap_fault, stack_fault, serve,
}
use lucet.Runtime.Uffd.Retry.{zeropage-Filled}
use lucet.Runtime.Uffd.Fill.{HeapAt, heap_image, Filled-nil, fill_page_at-Filled, fill_pages-Filled}

-- A stretch of addresses: where it starts and how long it is.
pub record Range : Type 0 where
  pub start : ℕ
  pub len : ℕ

abbrev pub within : ℕ → Range → Bool
within x r = in_range x r.start (r.start + r.len)

-- The pages of one range have been filled with the bytes of a source and were absent before, the
-- sleepers in another range have been woken, and all else is as it was.
pub record Served (k : Userfault) (pages woken : Range) (source : ℕ → ℕ) (m m' : k.Mem)
    : Type 0 where
  pub absent : (x : ℕ) → within x pages ≡ true → k.present m x ≡ false
  pub present : (x : ℕ) → k.present m' x ≡ (if within x pages then true else k.present m x)
  pub byte : (x : ℕ) → k.byte m' x ≡ (if within x pages then source x else k.byte m x)
  pub asleep : (x : ℕ) → k.asleep m' x ≡ (if within x woken then false else k.asleep m x)

-- The WebAssembly page of the heap that holds a host page.
abbrev pub wasm_base : ℕ → ℕ → ℕ
wasm_base heap page = heap + (page - heap) / 65536 * 65536

abbrev pub heap_pages : HeapPageSize → ℕ → ℕ → ℕ → Range
heap_pages host heap heap_end page = record { start = page; len = 4096 }
heap_pages wasm heap heap_end page = record {
  start = wasm_base heap page;
  len = min 65536 (heap_end - wasm_base heap page);
}

abbrev pub heap_woken : HeapPageSize → ℕ → ℕ → Range
heap_woken host heap page = record { start = page; len = 4096 }
heap_woken wasm heap page = record { start = wasm_base heap page; len = 65536 }

-- The pages that a fault at a place brings in, the addresses at which it wakes the guest, and the
-- bytes of the new pages: those of the module in the heap, and zero in the stack.
abbrev pub fault_pages : UffdConfig → Slot → ℕ → AddrLocation → ℕ → Range
fault_pages config slot accessible in_heap page =
    heap_pages config.heap_page_size slot.heap (slot.heap + accessible) page
fault_pages config slot accessible in_stack page = record { start = page; len = 4096 }
fault_pages config slot accessible _ page = record { start = page; len = 0 }

abbrev pub fault_woken : UffdConfig → Slot → AddrLocation → ℕ → Range
fault_woken config slot in_heap page = heap_woken config.heap_page_size slot.heap page
fault_woken config slot _ page = record { start = page; len = 4096 }

abbrev pub fault_image : Module → Slot → AddrLocation → ℕ → ℕ
fault_image module_ slot in_heap x = heap_image module_ slot.heap x
fault_image module_ slot _ x = 0

-- What is known of a fault in the heap.
pub record InHeap (slot : Slot) (accessible page : ℕ) : Type 0 where
  pub aligned : (page - slot.heap) % 4096 ≡ 0
  pub low : slot.heap ≤ page
  pub high : page < slot.heap + accessible

module _ (k : Userfault) (laws : UserfaultLaws k) where
  Filled-Served :
      (a n : ℕ) (source : ℕ → ℕ) (m m' : k.Mem)
      → Filled k a n true source m m'
      → Served k (record { start = a; len = n }) (record { start = a; len = n }) source m m'
  Filled-Served a n source m m' f = record {
    absent = f.absent;
    present = f.present;
    byte = f.byte;
    asleep = f.asleep;
  }

  -- Pages filled without a wake-up, and a wake-up of their neighbourhood.
  called-Served :
      (a n b l : ℕ) (source : ℕ → ℕ) (m m' : k.Mem)
      → Filled k a n false source m m'
      → (called k (k.wake b l) m').0 ≡ ok tt
      → Served k
          (record { start = a; len = n })
          (record { start = b; len = l })
          source
          m
          (called k (k.wake b l) m').1
  called-Served a n b l source m m' f h =
      let done_ : (k.wake b l m').0 ≡ true = ground arith in
      record {
        absent = f.absent;
        present = λ x. laws.wake_present b l m' x done_ ∙ f.present x;
        byte = λ x. laws.wake_byte b l m' x done_ ∙ f.byte x;
        asleep = λ x. ground (arith, laws.wake_asleep b l m' x done_, f.asleep x);
      }

  woken-Served :
      (page : ℕ) (source : ℕ → ℕ) (m : k.Mem)
      → (called k (k.wake page 4096) m).0 ≡ ok tt
      → Served k
          (record { start = page; len = 0 })
          (record { start = page; len = 4096 })
          source
          m
          (called k (k.wake page 4096) m).1
  woken-Served page source m =
      called-Served page 0 page 4096 source m m (Filled-nil k page m m false source refl)

  module _ (config : UffdConfig) (module_ : Module) (pages : AllPages module_.sparse_data)
      (alloc : Alloc) (slot : Slot) (at_ : HeapAt alloc slot) (page : ℕ)
      (aligned : (page - slot.heap) % 4096 ≡ 0) (low : slot.heap ≤ page)
      (high : page < slot.heap + alloc.heap_accessible_size) (m : k.Mem) where
    abbrev heap_end : ℕ
    heap_end = slot.heap + alloc.heap_accessible_size

    host_heap_fault_runs :
        host_heap_fault k config module_ alloc page m
        ≡ fill_page k config module_ ((page - slot.heap) / 4096) page true m
    unfolding host_heap_fault
    host_heap_fault_runs =
        let p : sub_usize page slot.heap / 4096 ≡ (page - slot.heap) / 4096 =
          omega (arith, at_.in_space) in
        rw (host_heap_fault, at_.has_slot, expect, continue, p) refl

    host_heap_fault-Served :
        (host_heap_fault k config module_ alloc page m).0 ≡ ok tt
        → Served k
            (heap_pages host slot.heap heap_end page)
            (heap_woken host slot.heap page)
            (heap_image module_ slot.heap)
            m
            (host_heap_fault k config module_ alloc page m).1
    host_heap_fault-Served h = rw host_heap_fault_runs (
        Filled-Served page 4096 (heap_image module_ slot.heap) m _ (
          fill_page_at-Filled k laws config module_ pages slot.heap ((page - slot.heap) / 4096) page
            true m (omega arith) (rw host_heap_fault_runs at h)))

    abbrev base_page : ℕ
    base_page = (page - slot.heap) / 65536 * 16

    wasm_heap_fault_runs :
        wasm_heap_fault k config module_ alloc page m
        ≡ (fill_pages k config module_ alloc base_page (slot.heap + base_page * 4096) 16 0
              >> called k (k.wake (slot.heap + base_page * 4096) 65536))
            m
    unfolding wasm_heap_fault
    wasm_heap_fault_runs =
        let rel : sub_usize page slot.heap ≡ page - slot.heap = omega (arith, at_.in_space) in
        let base : add_usize slot.heap (page - slot.heap - (page - slot.heap) % 65536)
            ≡ slot.heap + base_page * 4096 =
          omega (arith, at_.in_space) in
        let p : (page - slot.heap - (page - slot.heap) % 65536) / 4096 ≡ base_page = omega arith in
        rw (wasm_heap_fault, at_.has_slot, expect, continue, rel, base, p) refl

    wasm_heap_fault-Served :
        (wasm_heap_fault k config module_ alloc page m).0 ≡ ok tt
        → Served k
            (heap_pages wasm slot.heap heap_end page)
            (heap_woken wasm slot.heap page)
            (heap_image module_ slot.heap)
            m
            (wasm_heap_fault k config module_ alloc page m).1
    wasm_heap_fault-Served h =
        let base : ℕ = slot.heap + base_page * 4096 in
        let fill = fill_pages k config module_ alloc base_page base 16 0 in
        let wakes = called k (k.wake base 65536) in
        let (_, first, then_) =
          continue-eq-ok (fill m) (λ _. wakes) (rw wasm_heap_fault_runs at h) in
        let pages_at =
          fill_pages-Filled k laws config module_ pages alloc slot at_ base_page 16 0 m
            (omega arith) first in
        let from : slot.heap + (base_page + 0) * 4096 ≡ wasm_base slot.heap page = omega arith in
        let at_base : slot.heap + base_page * 4096 ≡ wasm_base slot.heap page = omega arith in
        rw (wasm_heap_fault_runs, then_, ← at_base)
          (called-Served base _ base 65536 (heap_image module_ slot.heap) m (fill m).1
            (rw (from, ← at_base) at pages_at) (rw (wasm_heap_fault_runs, then_) at h))

    by_page_size :
        (size : HeapPageSize)
        → let run : Step k (Unit {0}) = elim size [
          | host ↦ host_heap_fault k config module_ alloc page
          | wasm ↦ wasm_heap_fault k config module_ alloc page
        ] in
          (run m).0 ≡ ok tt
          → Served k
              (heap_pages size slot.heap heap_end page)
              (heap_woken size slot.heap page)
              (heap_image module_ slot.heap)
              m
              (run m).1
    by_page_size host = host_heap_fault-Served
    by_page_size wasm = wasm_heap_fault-Served

    heap_fault-Served :
        (heap_fault k config module_ alloc page m).0 ≡ ok tt
        → Served k
            (heap_pages config.heap_page_size slot.heap heap_end page)
            (heap_woken config.heap_page_size slot.heap page)
            (heap_image module_ slot.heap)
            m
            (heap_fault k config module_ alloc page m).1
    unfolding heap_fault
    heap_fault-Served = by_page_size config.heap_page_size

  module _ (config : UffdConfig) (page : ℕ) (m : k.Mem) where
    abbrev in_page : Range
    in_page = record { start = page; len = 4096 }

    by_disposition :
        (init : Disposition)
        → let run : Step k (Unit {0}) = elim init [
          | lazy ↦ filled k (zeropage k page 4096 true config.enoent_retry_limit)
          | eager ↦ lift (err (internal_error "fault in eagerly initialized stack"))
        ] in
          (run m).0 ≡ ok tt → Served k in_page in_page (λ x. 0) m (run m).1
    by_disposition lazy h =
        Filled-Served page 4096 (λ x. 0) m _
          (zeropage-Filled k laws page 4096 config.enoent_retry_limit true m h)
    by_disposition eager h = absurd (ground arith)

    stack_fault-Served :
        (stack_fault k config page m).0 ≡ ok tt
        → Served k in_page in_page (λ x. 0) m (stack_fault k config page m).1
    unfolding stack_fault
    stack_fault-Served = by_disposition config.stack_init

  pub serve-Served :
      (config : UffdConfig) (module_ : Module) (alloc : Alloc) (slot : Slot) (page : ℕ)
      (loc : AddrLocation) (m : k.Mem)
      → AllPages module_.sparse_data
      → HeapAt alloc slot
      → (loc ≡ in_heap → InHeap slot alloc.heap_accessible_size page)
      → (serve k config module_ alloc page loc m).0 ≡ ok tt
      → Served k
          (fault_pages config slot alloc.heap_accessible_size loc page)
          (fault_woken config slot loc page)
          (fault_image module_ slot loc)
          m
          (serve k config module_ alloc page loc m).1
  unfolding serve
  serve-Served config module_ alloc slot page in_heap m pages at_ inside h =
      let i = inside refl in
      heap_fault-Served config module_ pages alloc slot at_ page i.aligned i.low i.high m h
  serve-Served config module_ alloc slot page in_stack m pages at_ inside h =
      stack_fault-Served config page m h
  serve-Served config module_ alloc slot page inaccessible_heap m pages at_ inside h =
      woken-Served page _ m h
  serve-Served config module_ alloc slot page stack_guard m pages at_ inside h =
      woken-Served page _ m h
  serve-Served config module_ alloc slot page in_globals m pages at_ inside h =
      woken-Served page _ m h
  serve-Served config module_ alloc slot page sig_stack_guard m pages at_ inside h =
      woken-Served page _ m h
  serve-Served config module_ alloc slot page sig_stack m pages at_ inside h =
      woken-Served page _ m h
  serve-Served config module_ alloc slot page unknown m pages at_ inside h = woken-Served page _ m h

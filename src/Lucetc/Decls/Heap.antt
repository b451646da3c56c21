-- ===== src/Lucetc/Decls/Heap.antt =====
-- The memory that the compiler specifies, against the checks and the reset of the runtime.
use lucet.Prelude.{
  ℕ, ◌+◌, ◌*◌, ◌%◌, ◌≤◌, ◌<◌, ◌≡◌, ◌⊎◌, ◌↔◌, inl, inr, refl, sym, ◌∙◌, subst, ap, get_elem?, arith,
  Option, none, some, List, [], ◌∷◌, ltb, max, length, Bool-cases, mul_usize, Bool, true, false,
  usize_mod, Result, ok, err, panic, ok-cases, Option-cases,
}
use lucet.LucetModule.LinearMemory.{HeapSpec, LinearMemorySpec}
use lucet.LucetModule.LinearMemory.Pages.{AllPages}
use lucet.Runtime.Limits.{Limits}
use lucet.Runtime.Module.{Module, validate_heap}
use lucet.Runtime.Slot.{Slot}
use lucet.Runtime.Vm.{Vm, VmLaws}
use lucet.Runtime.Mmap.{Machine, reset_heap, initial_size_of}
use lucet.Runtime.Mmap.Heap.{HeapPlaced, HeapValid}
use lucet.Runtime.Mmap.Copy.{page_byte}
use lucet.Runtime.Mmap.Image.{IsLoadable, reset_heap-IsReset}
use lucet.Lucetc.Error.{Error}
use lucet.Lucetc.Wasm.{Clif, Memory, Exportable}
use lucet.Lucetc.ModuleInfo.Entries.{AllHold}
use lucet.Lucetc.ModuleInfo.Valid.{IsValid}
use lucet.Lucetc.SparseData.{DataInitializer, owned_sparse_data_from_initializers}
use lucet.Lucetc.SparseData.Memory.{
  AllFit, owned_sparse_data-IsImage, owned_sparse_data_total, initialized,
}
use lucet.Lucetc.ModuleInfo.{ModuleInfo}
use lucet.Lucetc.Decls.{
  HeapSettings, default_settings, heap_spec_of, build_heap_spec, build_linear_memory_spec,
  max_size_of,
}

-- The specification that a memory gets.
pub record Specifies (memory : Memory) (settings : HeapSettings) (heap : HeapSpec) : Type 0 where
  pub initial : heap.initial_size ≡ memory.minimum * 65536
  pub reserved : heap.reserved_size ≡ max (memory.minimum * 65536) settings.min_reserved_size
  pub bounded : heap.reserved_size ≤ settings.max_reserved_size
  pub guard : heap.guard_size ≡ settings.guard_size
  pub maximum : heap.max_size ≡ max_size_of memory.maximum

-- A WebAssembly memory starts with at most 2^16 pages.
abbrev pub IsMemory : Memory → Type 0
IsMemory memory = memory.minimum ≤ 65536

heap_spec_of-Specifies :
    (memory : Memory) (settings : HeapSettings) (heap : HeapSpec)
    → IsMemory memory
    → heap_spec_of memory settings ≡ ok (some heap)
    → Specifies memory settings heap
unfolding heap_spec_of
heap_spec_of-Specifies memory settings heap small h = ground arith

heap_spec_of_cases :
    (memory : Memory) (settings : HeapSettings)
    → ((e : Error) × (heap_spec_of memory settings ≡ err e))
      ⊎ ((heap : HeapSpec) × (heap_spec_of memory settings ≡ ok (some heap)))
unfolding heap_spec_of
heap_spec_of_cases memory settings =
    elim (Bool-cases (
      ltb settings.max_reserved_size
        (max (mul_usize memory.minimum 65536) settings.min_reserved_size))) [
          | inl over ↦ rw over (inl (_, refl))
          | inr fits ↦ rw fits (inr (_, refl))
        ]

-- A heap specification is none, refused, or a heap of whole pages for a memory.
spec_cases :
    (memories : List (Exportable Memory)) (settings : HeapSettings)
    → AllHold (λ e. IsMemory e.entity) memories
    → ((build_heap_spec memories settings ≡ ok none)
        ⊎ ((e : Error) × (build_heap_spec memories settings ≡ err e)))
      ⊎ ((heap : HeapSpec) × (build_heap_spec memories settings ≡ ok (some heap))
          × (0 < length memories)
          × (heap.initial_size % 4096 ≡ 0)
          × (heap.initial_size < usize_mod))
unfolding build_heap_spec
spec_cases [] settings small = inl (inl refl)
spec_cases (m ∷ m' ∷ ms) settings small = inl (inr (_, refl))
spec_cases (m ∷ []) settings small = elim (heap_spec_of_cases m.entity settings) [
  | inl e ↦ inl (inr e)
  | inr (heap, e) ↦
      let bound = small 0 m refl in
      let p = heap_spec_of-Specifies m.entity settings heap bound e in
      inr (heap, e, omega arith, omega (arith, p.initial), omega (arith, p.initial))
]

module _ (memories : List (Exportable Memory)) (settings : HeapSettings) (heap : HeapSpec)
    (h : build_heap_spec memories settings ≡ ok (some heap)) where
  -- A heap is specified for exactly one memory.
  build_heap_spec-eq-some :
      (memory : Exportable Memory) × (memories ≡ memory ∷ [])
      × (heap_spec_of memory.entity settings ≡ ok (some heap))
  unfolding build_heap_spec
  build_heap_spec-eq-some = the_one memories h
    where
      the_one :
          (ms : List (Exportable Memory))
          → build_heap_spec ms settings ≡ ok (some heap)
          → (memory : Exportable Memory) × (ms ≡ memory ∷ [])
            × (heap_spec_of memory.entity settings ≡ ok (some heap))
      the_one [] e = absurd (ground arith)
      the_one (m ∷ []) e = (m, refl, e)
      the_one (m ∷ m' ∷ ms) e = absurd (ground arith)

-- With the default settings, the runtime accepts the heap that the compiler specifies exactly if
-- its reserved and guard sizes fit the address space of the slot and its initial size fits the
-- limit: the checks of the specification itself never refuse it.
pub validate_heap-compiled :
    (memory : Memory) (heap : HeapSpec) (limits : Limits) (limit : ℕ)
    → IsMemory memory
    → heap_spec_of memory default_settings ≡ ok (some heap)
    → (validate_heap limits limit (some heap) ≡ ok tt) ↔ (
        (heap.reserved_size + heap.guard_size ≤ limits.heap_address_space_size)
        × (heap.initial_size ≤ limit))
unfolding validate_heap
validate_heap-compiled memory heap limits limit small h =
    let s = heap_spec_of-Specifies memory default_settings heap small h in
    (
      λ e. ground (arith, s.initial, s.reserved, s.guard),
      λ fit. ground (arith, s.initial, s.reserved, s.guard),
    )

abbrev is_some_heap : Result Error (Option HeapSpec) → Bool
is_some_heap (ok (some heap)) = true
is_some_heap other = false

module _ (c : Clif) (info : ModuleInfo c) (settings : HeapSettings) where
  -- A memory specification is the heap's with the pages of the initializers of memory 0.
  build_linear_memory_spec-eq-some :
      (spec : LinearMemorySpec)
      → build_linear_memory_spec c info settings ≡ ok (some spec)
      → (build_heap_spec info.memories settings ≡ ok (some spec.heap))
        × (dis : List DataInitializer) × (info.data_initializers 0 ≡ some dis)
        × (owned_sparse_data_from_initializers dis spec.heap ≡ ok spec.initializer)
  unfolding build_linear_memory_spec
  build_linear_memory_spec-eq-some spec h =
      elim (heap_cases (build_heap_spec info.memories settings)) [
        | inl (heap, e) ↦ elim (Option-cases (info.data_initializers 0)) [
          | inl missing ↦ absurd (ground (arith, e, missing, h))
          | inr (dis, found) ↦ elim (ok-cases (owned_sparse_data_from_initializers dis heap)) [
            | inl (pages, made) ↦
                let same : heap ≡ spec.heap = ground (arith, e, found, made, h) in
                let same' : pages ≡ spec.initializer = ground (arith, e, found, made, h) in
                (
                  ground (arith, e, same),
                  dis,
                  found,
                  subst (λ x. owned_sparse_data_from_initializers dis x ≡ ok spec.initializer) same
                      (ground (arith, made, same')),
                )
            | inr bad ↦ absurd (ground (arith, e, found, bad, h))
          ]
        ]
        | inr other ↦ absurd (ground (arith, other, h))
      ]
    where
      heap_cases :
          (r : Result Error (Option HeapSpec))
          → ((heap : HeapSpec) × (r ≡ ok (some heap))) ⊎ (is_some_heap r ≡ false)
      heap_cases (ok none) = inr refl
      heap_cases (ok (some heap)) = inl (heap, refl)
      heap_cases (err e) = inr refl
      heap_cases panic = inr refl

  -- The memory that the guest finds. A module is compiled from one memory of at most 2^16 pages
  -- and data initializers that end well inside the address space, and loaded into a slot whose
  -- address space holds its initial heap. After a successful reset of a valid heap of the slot,
  -- every byte of the initial memory has the value that the data initializers give it, written in
  -- their order over zeros.
  pub compiled-reset_heap :
      (vm : Vm) (laws : VmLaws vm) (slot : Slot) (placed : HeapPlaced slot) (m : Module)
      (spec : LinearMemorySpec) (dis : List DataInitializer) (s : Machine vm.Mem)
      → AllHold (λ e. IsMemory e.entity) info.memories
      → build_linear_memory_spec c info settings ≡ ok (some spec)
      → info.data_initializers 0 ≡ some dis
      → AllFit dis
      → m.heap_spec ≡ some spec.heap
      → m.sparse_data ≡ spec.initializer
      → spec.heap.initial_size ≤ slot.limits.heap_address_space_size
      → HeapValid vm slot s
      → (reset_heap vm m s).0 ≡ ok tt
      → (x : ℕ) → x < spec.heap.initial_size
      → vm.byte (reset_heap vm m s).1.mem (slot.heap + x) ≡ initialized dis (λ y. 0) x
  compiled-reset_heap vm laws slot placed m spec dis s small h has fits same_heap same_data room
        valid done x in_heap =
      let (heap, dis', has', made) = build_linear_memory_spec-eq-some spec h in
      let (memory, one, of_memory) =
        build_heap_spec-eq-some info.memories settings spec.heap heap in
      let small_ : memory.entity.minimum ≤ 65536 =
        small 0 memory (ap (λ (ms : List (Exportable Memory)). get_elem? ms 0) one) in
      let p = heap_spec_of-Specifies memory.entity settings spec.heap small_ of_memory in
      let same_dis : dis' ≡ dis = ground arith in
      let made' : owned_sparse_data_from_initializers dis spec.heap ≡ ok spec.initializer =
        subst (λ d. owned_sparse_data_from_initializers d spec.heap ≡ ok spec.initializer) same_dis
          made in
      let image =
        owned_sparse_data-IsImage dis spec.heap fits (omega (arith, p.initial))
          (omega (arith, p.initial)) spec.initializer made' in
      let size : initial_size_of m.heap_spec ≡ spec.heap.initial_size = rw same_heap refl in
      let good : IsLoadable slot m = record {
        whole = omega (arith, size, p.initial);
        fits = omega (arith, size, room);
        pages = subst AllPages (sym same_data) image.pages;
      } in
      let reset = reset_heap-IsReset vm laws slot placed m good s valid done in
      reset.contents x (omega (arith, size, in_heap))
      ∙ subst (λ d. page_byte d x 0 ≡ initialized dis (λ y. 0) x) (sym same_data)
          (image.contents x in_heap)

  -- For a valid module, whose memories have at most 2^16 pages and whose initializers end well
  -- inside the address space, the specification is built or refused with an error: the list of
  -- initializers that the code expects is there, and no assertion fails.
  pub build_linear_memory_spec_total :
      IsValid c info
      → AllHold (λ e. IsMemory e.entity) info.memories
      → ((dis : List DataInitializer) → info.data_initializers 0 ≡ some dis → AllFit dis)
      → ((spec : Option LinearMemorySpec) × (build_linear_memory_spec c info settings ≡ ok spec))
        ⊎ ((e : Error) × (build_linear_memory_spec c info settings ≡ err e))
  unfolding build_linear_memory_spec
  build_linear_memory_spec_total valid small fits = elim (spec_cases info.memories settings small) [
    | inl (inl e) ↦ inl (none, rw e refl)
    | inl (inr (x, e)) ↦ inr (x, rw e refl)
    | inr (heap, e, some_memory, whole, bound) ↦ elim (Option-cases (info.data_initializers 0)) [
      | inl missing ↦ absurd (ground (arith, missing, valid.inits 0))
      | inr (dis, found) ↦ elim (owned_sparse_data_total dis heap (fits dis found) whole bound) [
        | inl (d, made) ↦
            inl (some (record { heap = heap; initializer = d }), rw (e, found, made) refl)
        | inr (x, refused) ↦ inr (x, rw (e, found, refused) refl)
      ]
    ]
  ]

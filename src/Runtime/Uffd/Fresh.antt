-- ===== src/Runtime/Uffd/Fresh.antt =====
-- A slot from the start of an instance to its end: what `new_instance_with`, the heap's reset and
-- `drop_alloc` leave in its memory.
use lucet.Prelude.{
  ℕ, ◌+◌, ◌-◌, ◌%◌, ◌≤◌, ◌<◌, ◌≡◌, refl, ap, ◌∙◌, arith, true, false, some, [], ◌∷◌, Result, ok,
  ltb, add_usize, sub_usize, none, if◌then◌else◌, Bool-cases, ok-cases, ◌⊎◌, inl, inr,
}
use lucet.Runtime.Error.{Error}
use lucet.Runtime.Limits.{Limits, instance_heap_offset, is_misaligned}
use lucet.Runtime.Limits.Valid.{IsValid, sum_of, total_memory_size_lem}
use lucet.Runtime.Module.{Module, validate_runtime_spec}
use lucet.Runtime.Slot.{Slot}
use lucet.Runtime.Slot.Location.{IsLaidOut}
use lucet.Runtime.Alloc.{Alloc, AllocStrategy}
use lucet.Runtime.Vm.{in_range}
use lucet.Runtime.Mmap.{initial_size_of}
use lucet.Runtime.Mmap.Image.{IsLoadable}
use lucet.Runtime.Region.{Region, take_slot, give_back}
use lucet.Runtime.Userfault.{Userfault, UserfaultLaws}
use lucet.Runtime.Uffd.{UffdConfig, Disposition, eager, lazy}
use lucet.Runtime.Uffd.Guest.{InSpace}
use lucet.Runtime.Uffd.Region.{
  Uffds, init_list, prepare, new_instance_with, reset_heap, new_heap, drop_alloc,
}
use lucet.Runtime.Uffd.Prepared.{covers, IsPrepared, prepare-IsPrepared}

module _ (k : Userfault) where
  -- The memory after the heap of an alloc was given up.
  abbrev reset_mem : Slot → ℕ → k.Mem → k.Mem
  reset_mem slot accessible m = if ltb 0 accessible then (k.madvise slot.heap accessible m).1 else m

  reset_heap-eq-ok :
      (a a' : Alloc) (module_ : Module) (slot : Slot) (m : k.Mem)
      → a.slot ≡ some slot
      → (reset_heap k a module_ m).0 ≡ ok a'
      → let size = initial_size_of module_.heap_spec in
        (a' ≡ record a {
          heap_accessible_size = size;
          heap_inaccessible_size = sub_usize slot.limits.heap_address_space_size size;
        })
        × ((reset_heap k a module_ m).1 ≡ reset_mem slot a.heap_accessible_size m)
        × (ltb 0 a.heap_accessible_size ≡ true
            → (k.madvise slot.heap a.heap_accessible_size m).0 ≡ true)
  unfolding reset_heap
  reset_heap-eq-ok a a' module_ slot m has h = (ground arith, ground arith, λ q. ground arith)

  module _ (config : UffdConfig) (module_ : Module) (limit : ℕ) (strategy : AllocStrategy)
      (s : Uffds k.Mem) (slot : Slot) (region' : Region)
      (took : take_slot strategy s.region ≡ (ok slot, region')) where
    abbrev given : Alloc
    given = record {
      heap_accessible_size = initial_size_of module_.heap_spec;
      heap_inaccessible_size = slot.limits.heap_address_space_size;
      heap_memory_size_limit = limit;
      slot = some slot;
    }

    abbrev prepared : Result Error (Unit {0}) × k.Mem
    prepared = prepare k config s.region.limits module_ slot s.mem

    new_heap-eq-ok :
        (a : Alloc)
        → (new_heap k config module_ limit strategy s).0 ≡ ok a
        → (prepared.0 ≡ ok tt)
          × ((reset_heap k given module_ prepared.1).0 ≡ ok a)
          × ((new_heap k config module_ limit strategy s).1
              ≡ record { region = region'; mem = (reset_heap k given module_ prepared.1).1 })
    unfolding new_heap new_instance_with
    new_heap-eq-ok a h = elim (ok-cases (validate_runtime_spec module_ s.region.limits limit)) [
      | inl (_, valid) ↦ (ground arith, ground arith, ground arith)
      | inr bad ↦ absurd (ground arith)
    ]

  -- What a new instance finds in a slot: no page in the heap's whole address space, a page of zeros
  -- at each global and in the signal stack, and the sizes of the module's initial heap.
  pub record IsFresh (slot : Slot) (module_ : Module) (a : Alloc) (m : k.Mem) : Type 0 where
    pub has_slot : a.slot ≡ some slot
    pub accessible : a.heap_accessible_size ≡ initial_size_of module_.heap_spec
    pub split :
        a.heap_accessible_size + a.heap_inaccessible_size ≡ slot.limits.heap_address_space_size
    pub heap_absent : (x : ℕ) → InSpace slot x → k.present m x ≡ false
    pub globals_zero :
        (x : ℕ)
        → in_range x slot.globals (slot.globals + slot.limits.globals_size) ≡ true
        → (k.present m x ≡ true) × (k.byte m x ≡ 0)
    pub sigstack_zero :
        (x : ℕ)
        → in_range x slot.sigstack (slot.sigstack + slot.limits.signal_stack_size) ≡ true
        → (k.present m x ≡ true) × (k.byte m x ≡ 0)

  -- A slot behind whose first page there is no page.
  abbrev pub IsBlank : Slot → k.Mem → Type 0
  IsBlank slot m =
      (x : ℕ) → slot.heap ≤ x → x < slot.start + sum_of slot.limits → k.present m x ≡ false

  module _ (laws : UserfaultLaws k) (slot : Slot) (placed : IsLaidOut slot)
      (aligned : slot.start % 4096 ≡ 0) where
    -- After the reset, the heap has no page; outside of it nothing has changed.
    reset_mem-present :
        (size : ℕ) (m : k.Mem) (x : ℕ)
        → size % 4096 ≡ 0
        → (ltb 0 size ≡ true → (k.madvise slot.heap size m).0 ≡ true)
        → k.present (reset_mem slot size m) x
          ≡ (if in_range x slot.heap (slot.heap + size) then false else k.present m x)
    reset_mem-present size m x whole h = elim (Bool-cases (ltb 0 size)) [
      | inl some_ ↦ rw some_ (laws.madvise_present slot.heap size m x whole (h some_))
      | inr none_ ↦ rw none_ (ground arith)
    ]

    reset_mem-byte :
        (size : ℕ) (m : k.Mem) (x : ℕ)
        → size % 4096 ≡ 0
        → (ltb 0 size ≡ true → (k.madvise slot.heap size m).0 ≡ true)
        → in_range x slot.heap (slot.heap + size) ≡ false
        → k.byte (reset_mem slot size m) x ≡ k.byte m x
    reset_mem-byte size m x whole h o = elim (Bool-cases (ltb 0 size)) [
      | inl some_ ↦ rw some_ (laws.madvise_byte slot.heap size m x whole (h some_) o)
      | inr none_ ↦ rw none_ refl
    ]

    module _ (config : UffdConfig) (limits : Limits) (same : slot.limits ≡ limits) (m m1 : k.Mem)
        (blank : IsBlank slot m) (size : ℕ) (fits : size ≤ slot.limits.heap_address_space_size)
        (whole : size % 4096 ≡ 0) (p : IsPrepared k config slot size limits m m1)
        (given_up : ltb 0 size ≡ true → (k.madvise slot.heap size m1).0 ≡ true) where
      stack_not_covered :
          (init : Disposition) (x : ℕ)
          → InSpace slot x
          → covers (elim init [ eager ↦ (slot.stack, limits.stack_size) ∷ [] | lazy ↦ [] ]) x
            ≡ false
      stack_not_covered eager x s = ground (arith, placed.heap_at, placed.stack_at)
      stack_not_covered lazy x s = refl

      heap_not_covered :
          (x : ℕ) → InSpace slot x → covers (init_list k config limits slot) x ≡ false
      heap_not_covered x s = ground (
        arith,
        stack_not_covered config.stack_init x s,
        placed.heap_at,
        placed.stack_at,
        placed.globals_at,
        placed.sigstack_at,
      )

      heap_absent : (x : ℕ) → InSpace slot x → k.present (reset_mem slot size m1) x ≡ false
      heap_absent x s = elim (Bool-cases (in_range x slot.heap (slot.heap + size))) [
        | inl inside ↦ reset_mem-present size m1 x whole given_up ∙ rw inside refl
        | inr outside ↦
            reset_mem-present size m1 x whole given_up
            ∙ rw outside (
                p.present x outside
                ∙ rw (heap_not_covered x s) (blank x s.0 (omega (arith, placed.heap_at))))
      ]

      zeroed_outside :
          (x : ℕ)
          → slot.heap + size ≤ x
          → covers (init_list k config limits slot) x ≡ true
          → (k.present (reset_mem slot size m1) x ≡ true) × (k.byte (reset_mem slot size m1) x ≡ 0)
      zeroed_outside x l c =
          let outside : in_range x slot.heap (slot.heap + size) ≡ false = ground arith in
          (
            reset_mem-present size m1 x whole given_up
                ∙ rw outside (p.present x outside ∙ rw c refl),
            reset_mem-byte size m1 x whole given_up outside ∙ p.byte x outside ∙ rw c refl,
          )

    -- A new instance whose slot was blank finds the slot fresh, whether the configuration sets the
    -- heap up at once or with the faults: no page of the heap is there, the globals and the signal
    -- stack are zero, and the alloc has the sizes of the module's initial heap.
    pub new_heap-IsFresh :
        (config : UffdConfig) (module_ : Module) (limit : ℕ) (strategy : AllocStrategy)
        (s : Uffds k.Mem) (region' : Region) (a : Alloc)
        → take_slot strategy s.region ≡ (ok slot, region')
        → slot.limits ≡ s.region.limits
        → IsLoadable slot module_
        → IsBlank slot s.mem
        → (new_heap k config module_ limit strategy s).0 ≡ ok a
        → IsFresh slot module_ a (new_heap k config module_ limit strategy s).1.mem
          × ((new_heap k config module_ limit strategy s).1.region ≡ region')
    new_heap-IsFresh config module_ limit strategy s region' a took same good blank h =
        let size : ℕ = initial_size_of module_.heap_spec in
        let (ready, reset, final) =
          new_heap-eq-ok config module_ limit strategy s slot region' took a h in
        let alloc = given config module_ limit strategy s slot region' took in
        let m1 : k.Mem = (prepare k config s.region.limits module_ slot s.mem).1 in
        let (sizes, mem', given_up) = reset_heap-eq-ok alloc a module_ slot m1 refl reset in
        let p =
          prepare-IsPrepared k laws config module_ good.pages slot size
            (omega (arith, placed.in_space, placed.heap_at, good.fits)) s.region.limits s.mem
            (omega (arith, placed.heap_at)) refl ready in
        let absent =
          heap_absent config s.region.limits same s.mem m1 blank size good.fits good.whole p
            given_up in
        let zeroed =
          zeroed_outside config s.region.limits same s.mem m1 blank size good.fits good.whole p
            given_up in
        let globals = ap (λ (l : Limits). l.globals_size) same in
        let sigstack = ap (λ (l : Limits). l.signal_stack_size) same in
        rw (final, mem', sizes)
          (
            record {
              has_slot = refl;
              accessible = refl;
              split = omega (arith, good.fits, placed.in_space);
              heap_absent = absent;
              globals_zero = λ x i.
                  zeroed x
                    (ground (arith, placed.heap_at, placed.stack_at, placed.globals_at, good.fits))
                    (ground (arith, globals));
              sigstack_zero = λ x i.
                  zeroed x
                    (ground (
                      arith, placed.heap_at, placed.stack_at, placed.globals_at, placed.sigstack_at,
                      good.fits,
                    ))
                    (ground (arith, sigstack));
            },
            refl,
          )

    drop_alloc-eq-ok :
        (s : Uffds k.Mem) (a a' : Alloc)
        → a.slot ≡ some slot
        → (drop_alloc k a s).0 ≡ ok a'
        → let advised = k.madvise slot.heap (sum_of slot.limits - 4096) s.mem in
          (advised.0 ≡ true)
          × (a' ≡ record a { slot = none })
          × ((drop_alloc k a s).1 ≡ record { region = give_back slot s.region; mem = advised.1 })
    unfolding drop_alloc instance_heap_offset
    drop_alloc-eq-ok s a a' has h =
        let n : ℕ = sum_of slot.limits in
        let total = (total_memory_size_lem slot.limits).0 (omega (arith, placed.in_space)) in
        let whole : is_misaligned slot.heap ≡ false = ground (arith, placed.heap_at) in
        let ptr : add_usize slot.start 4096 ≡ slot.heap =
          omega (arith, placed.heap_at, placed.in_space) in
        let len : sub_usize n 4096 ≡ n - 4096 = omega (arith, placed.in_space) in
        ground (arith, total, whole, ptr, len)

    -- An alloc that is dropped with success, from a slot with valid limits, has given up its slot, which
    -- is the last one on the free list now. No address of the slot behind its first page has a page any more, and every other
    -- address has the page and the byte from before.
    pub drop_alloc-gone :
        (s : Uffds k.Mem) (a a' : Alloc) (x : ℕ)
        → a.slot ≡ some slot
        → IsValid slot.limits
        → (drop_alloc k a s).0 ≡ ok a'
        → let s' = (drop_alloc k a s).1 in
          let given_up = in_range x slot.heap (slot.start + sum_of slot.limits) in
          (a' ≡ record a { slot = none })
          × (s'.region ≡ give_back slot s.region)
          × (k.present s'.mem x ≡ (if given_up then false else k.present s.mem x))
          × ((given_up ≡ true) ⊎ (k.byte s'.mem x ≡ k.byte s.mem x))
    drop_alloc-gone s a a' x has valid h =
        let n : ℕ = sum_of slot.limits in
        let (done_, result, final) = drop_alloc-eq-ok s a a' has h in
        let whole : (n - 4096) % 4096 ≡ 0 = omega (arith, valid) in
        let end_ : slot.heap + (n - 4096) ≡ slot.start + n = omega (arith, placed.heap_at) in
        rw (final, ← end_)
          (
            result,
            refl,
            laws.madvise_present slot.heap (n - 4096) s.mem x whole done_,
            elim (Bool-cases (in_range x slot.heap (slot.heap + (n - 4096)))) [
              | inl inside ↦ inl inside
              | inr outside ↦
                  inr (laws.madvise_byte slot.heap (n - 4096) s.mem x whole done_ outside)
            ],
          )

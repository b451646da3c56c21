-- ===== src/Runtime/Mmap/Reset.antt =====
-- `reset_heap`: the heap of a module's instance before it runs.
use lucet.Prelude.{
  ℕ, ◌+◌, ◌/◌, ◌%◌, ◌≡◌, refl, ◌∙◌, Bool, true, false, some, ok, arith, sub_usize, if◌then◌else◌,
  Bool-cases, inl, inr, ltb,
}
use lucet.Runtime.Module.{Module}
use lucet.Runtime.Slot.{Slot}
use lucet.Runtime.Vm.{Vm, VmLaws, in_range}
use lucet.Runtime.Mmap.{
  Machine, initial_size_of, clear_range, clear_heap, open_heap, copy_pages, reset_heap,
}
use lucet.Runtime.Mmap.Heap.{HeapPlaced, HeapValid, with_sizes}

abbrev pub in_heap_space : Slot → ℕ → Bool
in_heap_space slot x = in_range x slot.heap (slot.heap + slot.limits.heap_address_space_size)

-- The heap's address space is closed and zero.
pub record IsClear (vm : Vm) (slot : Slot) (mem : vm.Mem) : Type 0 where
  pub closed : (x : ℕ) → in_heap_space slot x ≡ true → vm.accessible mem x ≡ false
  pub zeroed : (x : ℕ) → in_heap_space slot x ≡ true → vm.byte mem x ≡ 0

-- The first `i` bytes of the heap are open, and all of it is zero.
pub record IsOpen (vm : Vm) (slot : Slot) (i : ℕ) (mem : vm.Mem) : Type 0 where
  pub exact :
      (x : ℕ)
      → in_heap_space slot x ≡ true
      → vm.accessible mem x ≡ in_range x slot.heap (slot.heap + i)
  pub zeroed : (x : ℕ) → in_heap_space slot x ≡ true → vm.byte mem x ≡ 0

-- Opened and sized, but not yet filled.
abbrev pub sized : {M : Type 0} → Slot → ℕ → Machine M → Machine M
sized slot i s = with_sizes s i (sub_usize slot.limits.heap_address_space_size i) s.mem

module _ (vm : Vm) where
  abbrev pub closed_mem : ℕ → ℕ → vm.Mem → vm.Mem
  closed_mem a n mem = (vm.madvise a n (vm.mprotect a n false mem).1).1

  abbrev pub Closes : ℕ → ℕ → vm.Mem → Type 0
  Closes a n mem =
      ((vm.mprotect a n false mem).0 ≡ true)
      × ((vm.madvise a n (vm.mprotect a n false mem).1).0 ≡ true)

  clear_range-eq-ok :
      (a n : ℕ) (s : Machine vm.Mem)
      → (clear_range vm a n s).0 ≡ ok tt
      → Closes a n s.mem × ((clear_range vm a n s).1 ≡ record s { mem = closed_mem a n s.mem })
  unfolding clear_range
  clear_range-eq-ok a n s h = ground arith

  -- After a range of whole pages is closed, it is inaccessible and zero; the rest is as before.
  module _ (laws : VmLaws vm) (a n : ℕ) (mem : vm.Mem) (x : ℕ) (p : a % 4096 ≡ 0) (q : n % 4096 ≡ 0)
      (c : Closes a n mem) where
    pub closed_mem-accessible :
        vm.accessible (closed_mem a n mem) x
        ≡ (if in_range x a (a + n) then false else vm.accessible mem x)
    closed_mem-accessible =
        laws.madvise_accessible a n _ x c.1 ∙ laws.mprotect_accessible a n false mem x p q c.0

    pub closed_mem-byte :
        vm.byte (closed_mem a n mem) x ≡ (if in_range x a (a + n) then 0 else vm.byte mem x)
    closed_mem-byte = ground (
      arith,
      laws.madvise_byte a n (vm.mprotect a n false mem).1 x p q c.1,
      laws.mprotect_byte a n false mem x c.0,
    )

module _ (vm : Vm) (laws : VmLaws vm) (slot : Slot) (placed : HeapPlaced slot) where
  pub clear_heap-IsClear :
      (s : Machine vm.Mem)
      → HeapValid vm slot s
      → (clear_heap vm slot s).0 ≡ ok tt
      → ((clear_heap vm slot s).1.alloc ≡ s.alloc) × IsClear vm slot (clear_heap vm slot s).1.mem
  unfolding clear_heap
  clear_heap-IsClear s v h = elim (Bool-cases (ltb 0 s.alloc.heap_accessible_size)) [
    | inl open_ ↦
        let space : ℕ = slot.limits.heap_address_space_size in
        let (c, final) = clear_range-eq-ok vm slot.heap space s (rw open_ at h) in
        rw (open_, final)
          (
            refl,
            record {
              closed = λ x k. ground (
                arith,
                closed_mem-accessible vm laws slot.heap space s.mem x placed.aligned
                    v.sizes.space_aligned c,
              );
              zeroed = λ x k. ground (
                arith,
                closed_mem-byte vm laws slot.heap space s.mem x placed.aligned v.sizes.space_aligned
                    c,
              );
            },
          )
    | inr shut ↦ rw shut (
      refl,
      record {
        closed = λ x k. ground (arith, v.exact x k);
        zeroed = λ x k. ground (arith, v.clean x);
      },
    )
  ]

  pub open_heap-IsOpen :
      (i : ℕ) (s : Machine vm.Mem)
      → i % 4096 ≡ 0
      → IsClear vm slot s.mem
      → (open_heap vm slot i s).0 ≡ ok tt
      → ((open_heap vm slot i s).1.alloc ≡ s.alloc) × IsOpen vm slot i (open_heap vm slot i s).1.mem
  unfolding open_heap
  open_heap-IsOpen i s whole clear h = elim (Bool-cases (ltb 0 i)) [
    | inl some_ ↦
        let done : (vm.mprotect slot.heap i true s.mem).0 ≡ true = ground arith in
        rw some_ (
          refl,
          record {
            exact = λ x k. ground (
              arith,
              laws.mprotect_accessible slot.heap i true s.mem x placed.aligned whole done,
              clear.closed x k,
            );
            zeroed = λ x k. laws.mprotect_byte slot.heap i true s.mem x done ∙ clear.zeroed x k;
          },
        )
    | inr none_ ↦
        rw none_
          (refl, record { exact = λ x k. ground (arith, clear.closed x k); zeroed = clear.zeroed })
  ]

  -- The system calls of a successful reset succeeded, and the state is the copied one.
  pub reset_heap-eq-ok :
      (m : Module) (s : Machine vm.Mem)
      → s.alloc.slot ≡ some slot
      → (reset_heap vm m s).0 ≡ ok tt
      → let i = initial_size_of m.heap_spec in
        let cleared = (clear_heap vm slot s).1 in
        ((clear_heap vm slot s).0 ≡ ok tt)
        × ((open_heap vm slot i cleared).0 ≡ ok tt)
        × (reset_heap vm m s
            ≡ copy_pages vm m (i / 4096) 0 (sized slot i (open_heap vm slot i cleared).1))
  unfolding reset_heap
  reset_heap-eq-ok m s has h = ground arith

-- ===== src/Runtime/Mmap/Drop.antt =====
-- `drop_alloc`: what a slot holds when it goes back on the free list.
use lucet.Prelude.{ℕ, ◌+◌, ◌%◌, ◌≡◌, Bool, true, false, ok, none, arith, ◌||◌}
use lucet.Runtime.Limits.Valid.{IsValid}
use lucet.Runtime.Slot.{Slot}
use lucet.Runtime.Slot.Location.{IsLaidOut}
use lucet.Runtime.Vm.{Vm, VmLaws, in_range}
use lucet.Runtime.Mmap.{Machine, drop_alloc}
use lucet.Runtime.Mmap.Heap.{HeapValid}
use lucet.Runtime.Mmap.Reset.{
  in_heap_space, closed_mem, Closes, closed_mem-accessible, closed_mem-byte,
}

-- The sections of a slot that an instance uses besides its first page.
abbrev pub in_sections : Slot → ℕ → Bool
in_sections slot x =
    in_heap_space slot x
    || in_range x slot.stack (slot.stack + slot.limits.stack_size)
    || in_range x slot.globals (slot.globals + slot.limits.globals_size)
    || in_range x slot.sigstack (slot.sigstack + slot.limits.signal_stack_size)

-- The state in which a free slot waits: everything closed and zero.
pub record IsFresh (vm : Vm) (slot : Slot) (mem : vm.Mem) : Type 0 where
  pub closed : (x : ℕ) → in_sections slot x ≡ true → vm.accessible mem x ≡ false
  pub zeroed : (x : ℕ) → in_sections slot x ≡ true → vm.byte mem x ≡ 0

module _ (vm : Vm) (laws : VmLaws vm) (slot : Slot) (limits : IsValid slot.limits)
    (laid : IsLaidOut slot) (start : slot.start % 4096 ≡ 0) (s : Machine vm.Mem)
    (v : HeapValid vm slot s) where
  abbrev mem1 : vm.Mem
  mem1 = closed_mem vm slot.heap s.alloc.heap_accessible_size s.mem

  abbrev mem2 : vm.Mem
  mem2 = closed_mem vm slot.stack slot.limits.stack_size mem1

  abbrev mem3 : vm.Mem
  mem3 = closed_mem vm slot.globals slot.limits.globals_size mem2

  abbrev mem4 : vm.Mem
  mem4 = closed_mem vm slot.sigstack slot.limits.signal_stack_size mem3

  record AllClose : Type 0 where
    heap_closes : Closes vm slot.heap s.alloc.heap_accessible_size s.mem
    stack_closes : Closes vm slot.stack slot.limits.stack_size mem1
    globals_close : Closes vm slot.globals slot.limits.globals_size mem2
    sigstack_closes : Closes vm slot.sigstack slot.limits.signal_stack_size mem3

  drop_alloc-eq-ok :
      (r : Slot)
      → (drop_alloc vm s).0 ≡ ok r
      → (r ≡ slot)
        × AllClose
        × ((drop_alloc vm s).1.alloc.slot ≡ none)
        × ((drop_alloc vm s).1.mem ≡ mem4)
  unfolding drop_alloc
  drop_alloc-eq-ok r h = ground (arith, v.has_slot)

  module _ (c : AllClose) (x : ℕ) (inside : in_sections slot x ≡ true) where
    close_accessible : vm.accessible mem4 x ≡ false
    close_accessible = ground (
      arith,
      limits,
      laid,
      v.exact x,
      closed_mem-accessible vm laws slot.heap s.alloc.heap_accessible_size s.mem x
          (omega (arith, laid)) v.sizes.accessible_aligned c.heap_closes,
      closed_mem-accessible vm laws slot.stack slot.limits.stack_size mem1 x
          (omega (arith, laid, limits)) limits.stack_aligned c.stack_closes,
      closed_mem-accessible vm laws slot.globals slot.limits.globals_size mem2 x
          (omega (arith, laid, limits)) limits.globals_aligned c.globals_close,
      closed_mem-accessible vm laws slot.sigstack slot.limits.signal_stack_size mem3 x
          (omega (arith, laid, limits)) limits.sigstack_aligned c.sigstack_closes,
    )

    close_byte : vm.byte mem4 x ≡ 0
    close_byte = ground (
      arith,
      limits,
      laid,
      v.clean x,
      closed_mem-byte vm laws slot.heap s.alloc.heap_accessible_size s.mem x (omega (arith, laid))
          v.sizes.accessible_aligned c.heap_closes,
      closed_mem-byte vm laws slot.stack slot.limits.stack_size mem1 x (omega (arith, laid, limits))
          limits.stack_aligned c.stack_closes,
      closed_mem-byte vm laws slot.globals slot.limits.globals_size mem2 x
          (omega (arith, laid, limits)) limits.globals_aligned c.globals_close,
      closed_mem-byte vm laws slot.sigstack slot.limits.signal_stack_size mem3 x
          (omega (arith, laid, limits)) limits.sigstack_aligned c.sigstack_closes,
    )

  -- Dropping the alloc of a valid heap gives back the slot that it had, once: the alloc keeps none.
  -- The heap's whole address space, the stack, the globals and the signal stack are closed and zero,
  -- though only the accessible part of the heap is cleared.
  pub drop_alloc-IsFresh :
      (r : Slot)
      → (drop_alloc vm s).0 ≡ ok r
      → (r ≡ slot)
        × ((drop_alloc vm s).1.alloc.slot ≡ none)
        × IsFresh vm slot (drop_alloc vm s).1.mem
  drop_alloc-IsFresh r h =
      let (same, c, gone, final) = drop_alloc-eq-ok r h in
      (
        same,
        gone,
        rw final
            (record { closed = λ x k. close_accessible c x k; zeroed = λ x k. close_byte c x k }),
      )

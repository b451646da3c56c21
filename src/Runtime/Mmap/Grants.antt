-- ===== src/Runtime/Mmap/Grants.antt =====
-- When `expand_heap` succeeds.
use lucet.Prelude.{
  ℕ, ◌+◌, ◌-◌, ◌<◌, ◌≡◌, ◌≢◌, arith, some, true, ok, u32_mod, add_usize, sub_usize, as_u32, refl,
}
use lucet.LucetModule.LinearMemory.{HeapSpec}
use lucet.Runtime.Module.{Module}
use lucet.Runtime.Slot.{Slot}
use lucet.Runtime.Alloc.{expansion}
use lucet.Runtime.Alloc.Expansion.{SizesValid, Allowed, round_up, expansion-Allowed}
use lucet.Runtime.Vm.{Vm}
use lucet.Runtime.Mmap.{Machine, grow_heap, region_expand_heap, expand_heap}
use lucet.Runtime.Mmap.Heap.{opened, with_sizes, expand_heap_grows}

module _ (vm : Vm) (slot : Slot) (s : Machine vm.Mem) where
  pub grow_heap_done :
      (n e : ℕ) (spec : HeapSpec)
      → expansion s.alloc n (some spec) ≡ ok e
      → (opened vm slot s e).0 ≡ true
      → grow_heap vm slot s.alloc n (some spec) s ≡ (
        ok (as_u32 s.alloc.heap_accessible_size),
        with_sizes s
            (add_usize s.alloc.heap_accessible_size e)
            (sub_usize s.alloc.heap_inaccessible_size e)
            (opened vm slot s e).1,
      )
  unfolding grow_heap region_expand_heap
  grow_heap_done n e spec granted done = rw granted (ground arith)

  -- A request that is not 0 succeeds if it is at most 2^32 - 4098 bytes, the module and the limits
  -- allow the size that it leads to, and the system call for the new bytes succeeds.
  expand_heap_succeeds :
      (n : ℕ) (m : Module) (spec : HeapSpec)
      → s.alloc.slot ≡ some slot
      → SizesValid slot.limits.heap_address_space_size s.alloc
      → m.heap_spec ≡ some spec
      → n ≢ 0
      → n < u32_mod - 4097
      → Allowed slot.limits.heap_address_space_size s.alloc spec
          (s.alloc.heap_accessible_size + round_up n)
      → (opened vm slot s (round_up n)).0 ≡ true
      → (expand_heap vm n m s).0 ≡ ok (as_u32 s.alloc.heap_accessible_size)
  expand_heap_succeeds n m spec has sizes q nz small allowed done =
      let granted =
        (expansion-Allowed slot.limits.heap_address_space_size s.alloc sizes n spec (round_up n)).1
          (small, refl, allowed) in
      rw
        (expand_heap_grows vm slot s n m has nz, q, grow_heap_done n (round_up n) spec granted done)
        refl

-- ===== src/Runtime/Mmap/Truncation.antt =====
-- `expand_heap` on a heap of 4 GiB or more, whose size does not fit the `u32` that the code casts it
-- to (lucet-runtime-internals/src/alloc/mod.rs).
use lucet.Prelude.{
  ℕ, refl, sub_usize, ◌%◌, ◌+◌, ◌≤◌, ◌<◌, ◌≡◌, ◌≢◌, arith, some, true, false, ok, u32_mod,
  add_usize, as_u32,
}
use lucet.LucetModule.LinearMemory.{HeapSpec}
use lucet.Runtime.Module.{Module}
use lucet.Runtime.Slot.{Slot}
use lucet.Runtime.Alloc.{expansion}
use lucet.Runtime.Alloc.Expansion.{expansion-Allowed}
use lucet.Runtime.Mmap.Grants.{grow_heap_done}
use lucet.Runtime.Vm.{Vm, VmLaws}
use lucet.Runtime.Mmap.{Machine, expand_heap}
use lucet.Runtime.Mmap.Heap.{HeapPlaced, HeapValid, opened, with_sizes, expand_heap_grows}

module _ (vm : Vm) (laws : VmLaws vm) (slot : Slot) (placed : HeapPlaced slot) where
  module _ (s : Machine vm.Mem) (n e : ℕ) (spec : HeapSpec) (v : HeapValid vm slot s) where
    grown_size :
        expansion s.alloc n (some spec) ≡ ok e
        → (e < u32_mod)
          × (s.alloc.heap_accessible_size + e ≤ slot.limits.heap_address_space_size)
          × (e % 4096 ≡ 0)
          × (n ≢ 0 → 0 < e)
    grown_size granted =
        let sizes = v.sizes in
        let a =
          (expansion-Allowed slot.limits.heap_address_space_size s.alloc sizes n spec e).0
            granted in
        (omega (arith, a), omega (arith, a.2), omega (arith, a), λ nz. omega (arith, a, nz))

    first_byte :
        u32_mod ≤ s.alloc.heap_accessible_size
        → e < u32_mod
        → 0 < e
        → s.alloc.heap_accessible_size + e ≤ slot.limits.heap_address_space_size
        → e % 4096 ≡ 0
        → (opened vm slot s e).0 ≡ true
        → vm.accessible (opened vm slot s e).1 (slot.heap + s.alloc.heap_accessible_size) ≡ false
    first_byte big small pos fits whole done =
        let start : ℕ = add_usize slot.heap (as_u32 s.alloc.heap_accessible_size) in
        let x : ℕ = slot.heap + s.alloc.heap_accessible_size in
        ground (
          arith,
          v.exact x,
          laws.mprotect_accessible start e true s.mem x (omega (arith, placed, v.sizes)) whole done,
          placed,
          v.sizes,
        )

  -- A heap of 4 GiB or more that is expanded with success is no longer valid: the recorded size has
  -- grown, but the first byte of the new part cannot be accessed, and the returned size is truncated.
  pub expand_heap_truncates :
      (s : Machine vm.Mem) (n e : ℕ) (m : Module) (spec : HeapSpec)
      → HeapValid vm slot s
      → u32_mod ≤ s.alloc.heap_accessible_size
      → n ≢ 0
      → m.heap_spec ≡ some spec
      → expansion s.alloc n (some spec) ≡ ok e
      → (opened vm slot s e).0 ≡ true
      → ((expand_heap vm n m s).0 ≡ ok (as_u32 s.alloc.heap_accessible_size))
        × (s.alloc.heap_accessible_size < (expand_heap vm n m s).1.alloc.heap_accessible_size)
        × (vm.accessible (expand_heap vm n m s).1.mem (slot.heap + s.alloc.heap_accessible_size)
            ≡ false)
        × ¬ HeapValid vm slot (expand_heap vm n m s).1
  expand_heap_truncates s n e m spec v big nz q granted done =
      let (small, fits, whole, pos) = grown_size s n e spec v granted in
      let closed = first_byte s n e spec v big small (pos nz) fits whole done in
      rw
        (
          expand_heap_grows vm slot s n m v.has_slot nz,
          q,
          grow_heap_done vm slot s n e spec granted done,
        )
        (
          refl,
          omega (arith, v.sizes, placed, fits, pos nz),
          closed,
          λ (bad : HeapValid vm slot (
                with_sizes s (add_usize s.alloc.heap_accessible_size e)
                  (sub_usize s.alloc.heap_inaccessible_size e) (opened vm slot s e).1)).
              ground (
                arith,
                bad.exact (slot.heap + s.alloc.heap_accessible_size),
                closed,
                fits,
                pos nz,
                placed,
                v.sizes,
              ),
        )

-- ===== src/Runtime/Mmap/Heap.antt =====
-- The heap of a slot under `expand_heap`: the bytes that the operating system lets the guest touch
-- are those that the alloc's sizes say, and the rest of the address space is closed and zero.
use lucet.Prelude.{
  ℕ, zero, suc, ◌+◌, ◌%◌, ◌≤◌, ◌<◌, ◌≡◌, ◌≢◌, refl, ◌∙◌, Option, some, true, ok, err, arith,
  u32_mod, usize_mod, Bool, add_usize, sub_usize, ok-cases, false, subst, expect, as_u32, Result,
  inl, inr, ◌==◌,
}
use lucet.Prelude.Effects.{continue}
use lucet.LucetModule.LinearMemory.{HeapSpec}
use lucet.Runtime.Module.{Module}
use lucet.Runtime.Error.{Error}
use lucet.Runtime.Slot.{Slot}
use lucet.Runtime.Alloc.{expansion}
use lucet.Runtime.Alloc.Expansion.{SizesValid, Allowed, round_up, expansion-Allowed}
use lucet.Runtime.Vm.{Vm, VmLaws, in_range}
use lucet.Runtime.Mmap.{Machine, region_expand_heap, grow_heap, expand_heap}

-- A slot whose heap starts on a page and ends inside the address space.
pub record HeapPlaced (slot : Slot) : Type 0 where
  pub aligned : slot.heap % 4096 ≡ 0
  pub in_space : slot.heap + slot.limits.heap_address_space_size < usize_mod

module _ (vm : Vm) where
  pub record HeapValid (slot : Slot) (s : Machine vm.Mem) : Type 0 where
    pub has_slot : s.alloc.slot ≡ some slot
    pub sizes : SizesValid slot.limits.heap_address_space_size s.alloc
    pub exact :
        (x : ℕ)
        → in_range x slot.heap (slot.heap + slot.limits.heap_address_space_size) ≡ true
        → vm.accessible s.mem x ≡ in_range x slot.heap (slot.heap + s.alloc.heap_accessible_size)
    pub clean :
        (x : ℕ)
        → slot.heap + s.alloc.heap_accessible_size ≤ x
        → x < slot.heap + slot.limits.heap_address_space_size
        → vm.byte s.mem x ≡ 0

-- The state after the alloc's sizes and the memory have changed.
abbrev pub with_sizes : {M : Type 0} → Machine M → ℕ → ℕ → M → Machine M
with_sizes s accessible inaccessible mem = record {
  alloc = record (s.alloc) {
    heap_accessible_size = accessible;
    heap_inaccessible_size = inaccessible;
  };
  mem = mem;
}

module _ (vm : Vm) (slot : Slot) (s : Machine vm.Mem) where
  abbrev pub opened : ℕ → Bool × vm.Mem
  opened e = vm.mprotect (add_usize slot.heap (as_u32 s.alloc.heap_accessible_size)) e true s.mem

  -- What a successful `grow_heap` did.
  grow_heap-eq-ok :
      (n : ℕ) (spec : Option HeapSpec) (r : ℕ)
      → (grow_heap vm slot s.alloc n spec s).0 ≡ ok r
      → (e : ℕ) × (expansion s.alloc n spec ≡ ok e)
        × ((opened e).0 ≡ true)
        × (r ≡ as_u32 s.alloc.heap_accessible_size)
        × ((grow_heap vm slot s.alloc n spec s).1
            ≡ with_sizes s
                (add_usize s.alloc.heap_accessible_size e)
                (sub_usize s.alloc.heap_inaccessible_size e)
                (opened e).1)
  unfolding grow_heap region_expand_heap
  grow_heap-eq-ok n spec r h = elim (ok-cases (expansion s.alloc n spec)) [
    | inl (e, q) ↦ (e, q, ground arith, ground arith, ground arith)
    | inr bad ↦ absurd (ground arith)
  ]

  expand_heap_keeps :
      (m : Module)
      → s.alloc.slot ≡ some slot
      → expand_heap vm 0 m s ≡ (ok (as_u32 s.alloc.heap_accessible_size), s)
  unfolding expand_heap
  expand_heap_keeps m e = rw (e, expect, continue)

  pub expand_heap_grows :
      (n : ℕ) (m : Module)
      → s.alloc.slot ≡ some slot
      → n ≢ 0
      → expand_heap vm n m s ≡ grow_heap vm slot s.alloc n m.heap_spec s
  unfolding expand_heap
  expand_heap_grows n m e nz =
      let h : (n == 0) ≡ false = ground arith in rw (e, expect, continue, h)

-- What a successful `expand_heap` by `n` bytes with result `r` makes of a machine.
pub record Grown (vm : Vm) (slot : Slot) (s : Machine vm.Mem) (n r : ℕ) (spec : HeapSpec)
    (s' : Machine vm.Mem) : Type 0 where
  pub result : r ≡ as_u32 s.alloc.heap_accessible_size
  pub size : s'.alloc.heap_accessible_size ≡ s.alloc.heap_accessible_size + round_up n
  pub valid : HeapValid vm slot s'
  pub allowed :
      n ≢ 0 → Allowed slot.limits.heap_address_space_size s.alloc spec s'.alloc.heap_accessible_size
  pub same_bytes : (x : ℕ) → vm.byte s'.mem x ≡ vm.byte s.mem x

module _ (vm : Vm) (laws : VmLaws vm) (slot : Slot) (placed : HeapPlaced slot) where
  open_above :
      (s : Machine vm.Mem) (e : ℕ)
      → HeapValid vm slot s
      → s.alloc.heap_accessible_size < u32_mod
      → s.alloc.heap_accessible_size + e ≤ slot.limits.heap_address_space_size
      → e % 4096 ≡ 0
      → (opened vm slot s e).0 ≡ true
      → HeapValid vm slot (
          with_sizes s
            (add_usize s.alloc.heap_accessible_size e)
            (sub_usize s.alloc.heap_inaccessible_size e)
            (opened vm slot s e).1)
  open_above s e v small fits whole done = record {
    has_slot = v.has_slot;
    sizes = omega (arith, v.sizes, placed);
    exact = λ x h.
        let start : ℕ = add_usize slot.heap (as_u32 s.alloc.heap_accessible_size) in
        ground (
          arith,
          v.exact x h,
          laws.mprotect_accessible start e true s.mem x (omega (arith, placed, v.sizes)) whole done,
          placed,
          v.sizes,
        );
    clean = λ x h k.
        laws.mprotect_byte _ e true s.mem x done ∙ v.clean x (omega (arith, placed, v.sizes)) k;
  }

  grow_heap-Grown :
      (s : Machine vm.Mem) (n r : ℕ) (spec : HeapSpec)
      → HeapValid vm slot s
      → s.alloc.heap_memory_size_limit ≤ u32_mod
      → n ≢ 0
      → (grow_heap vm slot s.alloc n (some spec) s).0 ≡ ok r
      → Grown vm slot s n r spec (grow_heap vm slot s.alloc n (some spec) s).1
  grow_heap-Grown s n r spec v limit nz h =
      let (e, granted, done, result, final) = grow_heap-eq-ok vm slot s n (some spec) r h in
      let (small, size, allowed) =
        (expansion-Allowed slot.limits.heap_address_space_size s.alloc v.sizes n spec e).0
          granted in
      rw final (record {
        result = result;
        size = omega (arith, v.sizes, allowed);
        valid =
            open_above s e v (omega (arith, allowed)) (omega (arith, allowed)) (omega arith) done;
        allowed = λ _.
            subst (Allowed slot.limits.heap_address_space_size s.alloc spec)
              (omega (arith, v.sizes, allowed)) allowed;
        same_bytes = λ x. laws.mprotect_byte _ e true s.mem x done;
      })

  -- A successful `expand_heap` on a valid heap whose runtime limit is at most 4 GiB returns the
  -- accessible size from before, truncated to 32 bits; the heap has grown by the request, rounded
  -- up to whole pages, and is again valid: exactly the bytes up to the new size can be accessed.
  -- A request that is not 0 was allowed by the module and the limits. No byte has changed.
  pub expand_heap-Grown :
      (s : Machine vm.Mem) (n r : ℕ) (m : Module) (spec : HeapSpec)
      → HeapValid vm slot s
      → s.alloc.heap_memory_size_limit ≤ u32_mod
      → m.heap_spec ≡ some spec
      → (expand_heap vm n m s).0 ≡ ok r
      → Grown vm slot s n r spec (expand_heap vm n m s).1
  expand_heap-Grown s zero r m spec v limit e h =
      let q = expand_heap_keeps vm slot s m v.has_slot in
      let h' : ◌≡◌ {A = Result Error ℕ} (ok (as_u32 s.alloc.heap_accessible_size)) (ok r) =
        rw q at h in
      rw q (record {
        result = cc;
        size = omega arith;
        valid = v;
        allowed = λ nz. absurd (nz refl);
        same_bytes = λ x. refl;
      })
  expand_heap-Grown s (suc n) r m spec v limit e h =
      let nz : suc n ≢ 0 = omega arith in
      let q = expand_heap_grows vm slot s (suc n) m v.has_slot nz in
      rw (q, e) (grow_heap-Grown s (suc n) r spec v limit nz (rw (q, e) at h))

  -- Where the checks refuse an expansion, `expand_heap` returns that error and changes nothing.
  expand_heap_refused :
      (s : Machine vm.Mem) (n : ℕ) (m : Module) (why : Error)
      → s.alloc.slot ≡ some slot
      → n ≢ 0
      → expansion s.alloc n m.heap_spec ≡ err why
      → expand_heap vm n m s ≡ (err why, s)
  unfolding grow_heap
  expand_heap_refused s n m why has nz e = rw (expand_heap_grows vm slot s n m has nz, e, continue)

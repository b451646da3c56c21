-- ===== src/Runtime/Mmap/Image.antt =====
-- `reset_heap` as a whole: the initial memory of a module's instance.
use lucet.Prelude.{ℕ, ◌+◌, ◌-◌, ◌/◌, ◌%◌, ◌≤◌, ◌<◌, ◌≡◌, ◌⊎◌, refl, ap, ◌∙◌, some, ok, err, arith}
use lucet.LucetModule.LinearMemory.Pages.{AllPages}
use lucet.Runtime.Error.{internal_error}
use lucet.Runtime.Module.{Module}
use lucet.Runtime.Slot.{Slot}
use lucet.Runtime.Alloc.{Alloc}
use lucet.Runtime.Alloc.Expansion.{SizesValid}
use lucet.Runtime.Vm.{Vm, VmLaws}
use lucet.Runtime.Mmap.{Machine, initial_size_of, clear_range, clear_heap, open_heap, reset_heap}
use lucet.Runtime.Mmap.Heap.{HeapPlaced, HeapValid}
use lucet.Runtime.Mmap.Copy.{
  page_byte, copied_all, copy_pages-copied_all, copied_all-accessible, copied_all-byte,
}
use lucet.Runtime.Mmap.Reset.{IsOpen, sized, clear_heap-IsClear, open_heap-IsOpen, reset_heap-eq-ok}

-- What a successful reset leaves: a valid heap of the module's initial size that holds the module's
-- pages, and zero where the module gives no page.
pub record IsReset (vm : Vm) (slot : Slot) (m : Module) (s : Machine vm.Mem) : Type 0 where
  pub valid : HeapValid vm slot s
  pub size : s.alloc.heap_accessible_size ≡ initial_size_of m.heap_spec
  pub contents :
      (off : ℕ)
      → off < initial_size_of m.heap_spec
      → vm.byte s.mem (slot.heap + off) ≡ page_byte m.sparse_data off 0

-- A module whose heap starts with whole pages that fit the slot, and whose pages have the page size.
pub record IsLoadable (slot : Slot) (m : Module) : Type 0 where
  pub whole : initial_size_of m.heap_spec % 4096 ≡ 0
  pub fits : initial_size_of m.heap_spec ≤ slot.limits.heap_address_space_size
  pub pages : AllPages m.sparse_data

module _ (vm : Vm) (laws : VmLaws vm) (slot : Slot) (placed : HeapPlaced slot) (m : Module)
    (good : IsLoadable slot m) where
  filled : Machine vm.Mem → Machine vm.Mem
  filled s = record s {
    mem = copied_all vm slot m.sparse_data (initial_size_of m.heap_spec / 4096) 0 s.mem;
  }

  filled-IsReset :
      (s : Machine vm.Mem)
      → s.alloc.slot ≡ some slot
      → SizesValid slot.limits.heap_address_space_size s.alloc
      → s.alloc.heap_accessible_size ≡ initial_size_of m.heap_spec
      → IsOpen vm slot (initial_size_of m.heap_spec) s.mem
      → IsReset vm slot m (filled s)
  unfolding filled
  filled-IsReset s has sizes size o =
      let i = initial_size_of m.heap_spec in
      let bytes = copied_all-byte vm laws slot m good.pages (i / 4096) 0 s.mem in
      let same = copied_all-accessible vm laws slot m good.pages (i / 4096) 0 s.mem in
      record {
        valid = record {
          has_slot = has;
          sizes = sizes;
          exact = λ x h. ground (arith, same x, o.exact x h);
          clean = λ x h k. ground (arith, bytes x, o.zeroed x, good, placed);
        };
        size = size;
        contents = λ off h.
            let e : slot.heap + off - slot.heap ≡ off = omega arith in
            ground (
              arith,
              bytes (slot.heap + off),
              o.zeroed (slot.heap + off),
              ap (λ (k : ℕ). page_byte m.sparse_data k 0) e,
              good,
              placed,
            );
      }

  -- For a module whose initial heap is a number of whole pages of 4096 bytes that fit the slot, and
  -- whose page data are pages of that size: a successful `reset_heap` of a valid heap leaves a valid
  -- heap of the module's initial size, in which every byte is the one that the module's page data
  -- gives for its offset, or zero where it gives no page, whatever the heap held before. Of other
  -- modules nothing is said; the code does not refuse an initial size with a part of a page.
  pub reset_heap-IsReset :
      (s : Machine vm.Mem)
      → HeapValid vm slot s
      → (reset_heap vm m s).0 ≡ ok tt
      → IsReset vm slot m (reset_heap vm m s).1
  unfolding filled
  reset_heap-IsReset s v h =
      let i : ℕ = initial_size_of m.heap_spec in
      let (cleared, opened, final) = reset_heap-eq-ok vm laws slot placed m s v.has_slot h in
      let (same, clear) = clear_heap-IsClear vm laws slot placed s v cleared in
      let s1 : Machine vm.Mem = (clear_heap vm slot s).1 in
      let (same', o) = open_heap-IsOpen vm laws slot placed i s1 good.whole clear opened in
      let s2 : Machine vm.Mem = sized slot i (open_heap vm slot i s1).1 in
      let has : s2.alloc.slot ≡ some slot =
        ap (λ (a : Alloc). a.slot) (same' ∙ same) ∙ v.has_slot in
      let copy =
        copy_pages-copied_all vm laws slot m good.pages (i / 4096) 0 s2 has (omega arith)
          (omega (arith, good, placed)) in
      rw (final ∙ copy) (filled-IsReset s2 has (omega (arith, v.sizes, good)) refl o)

  clear_heap_total :
      (s : Machine vm.Mem)
      → (((clear_heap vm slot s).0 ≡ ok tt) × ((clear_heap vm slot s).1.alloc ≡ s.alloc))
        ⊎ ((clear_heap vm slot s).0 ≡ err (internal_error "nix error"))
  unfolding clear_heap clear_range
  clear_heap_total s = ground arith

  open_heap_total :
      (i : ℕ) (s : Machine vm.Mem)
      → (((open_heap vm slot i s).0 ≡ ok tt) × ((open_heap vm slot i s).1.alloc ≡ s.alloc))
        ⊎ ((open_heap vm slot i s).0 ≡ err (internal_error "nix error"))
  unfolding open_heap
  open_heap_total i s = ground arith

  -- A reset panics in no case: it succeeds, or it returns the error of a system call that failed.
  reset_heap_total :
      (s : Machine vm.Mem)
      → s.alloc.slot ≡ some slot
      → ((reset_heap vm m s).0 ≡ ok tt) ⊎ ((reset_heap vm m s).0 ≡ err (internal_error "nix error"))
  unfolding reset_heap
  reset_heap_total s has =
      let i : ℕ = initial_size_of m.heap_spec in
      let s1 : Machine vm.Mem = (clear_heap vm slot s).1 in
      let s2 : Machine vm.Mem = sized slot i (open_heap vm slot i s1).1 in
      ground (
        arith,
        clear_heap_total s,
        open_heap_total i s1,
        copy_pages-copied_all vm laws slot m good.pages (i / 4096) 0 s2,
        good.whole,
        good.fits,
        placed.in_space,
      )

-- ===== src/Runtime/Mmap/Copy.antt =====
-- The loop of `reset_heap` that copies the module's pages into the heap.
use lucet.Prelude.{
  ℕ, zero, suc, ◌+◌, ◌-◌, ◌*◌, ◌/◌, ◌%◌, ◌≤◌, ◌<◌, ◌≡◌, refl, ◌∙◌, some, none, ok, arith, usize_mod,
  add_usize, mul_usize, get_or, if◌then◌else◌, Option-cases, Bool-cases, inl, inr,
}
use lucet.Prelude.Effects.{continue}
use lucet.LucetModule.LinearMemory.{SparseData, get_page}
use lucet.LucetModule.LinearMemory.Pages.{AllPages}
use lucet.Runtime.Module.{Module}
use lucet.Runtime.Slot.{Slot}
use lucet.Runtime.Vm.{Vm, VmLaws, in_range}
use lucet.Runtime.Mmap.{Machine, copy_page, copy_pages}

-- The byte at an offset of the heap once the pages are in place, over what was there before.
abbrev pub page_byte : SparseData → ℕ → ℕ → ℕ
page_byte d off before = elim (get_page d (off / 4096)) [
  | none ↦ before
  | some contents ↦ get_or contents (off % 4096) 0
]

module _ (vm : Vm) (slot : Slot) (d : SparseData) where
  abbrev pub copied : ℕ → vm.Mem → vm.Mem
  copied k mem = elim (get_page d k) [
    | none ↦ mem
    | some contents ↦ vm.store (add_usize slot.heap (mul_usize k 4096)) contents mem
  ]

  abbrev pub copied_all : ℕ → ℕ → vm.Mem → vm.Mem
  copied_all zero k mem = mem
  copied_all (suc n) k mem = copied_all n (k + 1) (copied k mem)

module _ (vm : Vm) (laws : VmLaws vm) (slot : Slot) (m : Module)
    (pages : AllPages m.sparse_data) where
  copy_page-copied :
      (k : ℕ) (s : Machine vm.Mem)
      → s.alloc.slot ≡ some slot
      → (k + 1) * 4096 ≤ s.alloc.heap_accessible_size
      → s.alloc.heap_accessible_size < usize_mod
      → copy_page vm m k s ≡ (ok tt, record s { mem = copied vm slot m.sparse_data k s.mem })
  unfolding copy_page
  copy_page-copied k s has fits small = elim (Option-cases (get_page m.sparse_data k)) [
    | inl e ↦ ground arith
    | inr (c, e) ↦ let len = pages k c e in ground arith
  ]

  -- The loop succeeds, and changes nothing but the memory.
  pub copy_pages-copied_all :
      (n k : ℕ) (s : Machine vm.Mem)
      → s.alloc.slot ≡ some slot
      → (k + n) * 4096 ≤ s.alloc.heap_accessible_size
      → s.alloc.heap_accessible_size < usize_mod
      → copy_pages vm m n k s
        ≡ (ok tt, record s { mem = copied_all vm slot m.sparse_data n k s.mem })
  unfolding copy_pages
  copy_pages-copied_all zero k s has fits small = refl
  copy_pages-copied_all (suc n) k s has fits small =
      rw (copy_page-copied k s has (omega arith) small, continue)
        (copy_pages-copied_all n (k + 1) (record s { mem = copied vm slot m.sparse_data k s.mem })
          has (omega arith) small)

  copied-accessible :
      (k : ℕ) (mem : vm.Mem) (x : ℕ)
      → vm.accessible (copied vm slot m.sparse_data k mem) x ≡ vm.accessible mem x
  copied-accessible k mem x = elim (Option-cases (get_page m.sparse_data k)) [
    | inl e ↦ rw (e, copied)
    | inr (c, e) ↦ rw (e, copied) (laws.store_accessible _ c mem x)
  ]

  copied-byte :
      (k : ℕ) (mem : vm.Mem) (x : ℕ)
      → slot.heap + (k + 1) * 4096 < usize_mod
      → vm.byte (copied vm slot m.sparse_data k mem) x ≡ (
          if in_range x (slot.heap + k * 4096) (slot.heap + (k + 1) * 4096)
          then page_byte m.sparse_data (x - slot.heap) (vm.byte mem x)
          else vm.byte mem x)
  copied-byte k mem x h =
      let at : add_usize slot.heap (mul_usize k 4096) ≡ slot.heap + k * 4096 = omega arith in
      elim (Bool-cases (in_range x (slot.heap + k * 4096) (slot.heap + (k + 1) * 4096))) [
        | inl inside ↦
            let page : (x - slot.heap) / 4096 ≡ k = ground arith in
            let off : (x - slot.heap) % 4096 ≡ x - (slot.heap + k * 4096) = ground arith in
            elim (Option-cases (get_page m.sparse_data k)) [
              | inl e ↦ ground arith
              | inr (c, e) ↦
                  let len = pages k c e in
                  ground (arith, laws.store_byte (slot.heap + k * 4096) c mem x)
            ]
        | inr outside ↦ elim (Option-cases (get_page m.sparse_data k)) [
          | inl e ↦ ground arith
          | inr (c, e) ↦
              let len = pages k c e in
              ground (arith, laws.store_byte (slot.heap + k * 4096) c mem x)
        ]
      ]

  pub copied_all-accessible :
      (n k : ℕ) (mem : vm.Mem) (x : ℕ)
      → vm.accessible (copied_all vm slot m.sparse_data n k mem) x ≡ vm.accessible mem x
  copied_all-accessible zero k mem x = refl
  copied_all-accessible (suc n) k mem x =
      copied_all-accessible n (k + 1) (copied vm slot m.sparse_data k mem) x
      ∙ copied-accessible k mem x

  -- After the loop over the pages from `k` on, exactly the bytes of those pages that the module
  -- gives hold the module's contents.
  pub copied_all-byte :
      (n k : ℕ) (mem : vm.Mem) (x : ℕ)
      → slot.heap + (k + n) * 4096 < usize_mod
      → vm.byte (copied_all vm slot m.sparse_data n k mem) x ≡ (
          if in_range x (slot.heap + k * 4096) (slot.heap + (k + n) * 4096)
          then page_byte m.sparse_data (x - slot.heap) (vm.byte mem x)
          else vm.byte mem x)
  copied_all-byte zero k mem x h = ground arith
  copied_all-byte (suc n) k mem x h =
      ground (
        arith,
        copied_all-byte n (k + 1) (copied vm slot m.sparse_data k mem) x,
        copied-byte k mem x,
      )

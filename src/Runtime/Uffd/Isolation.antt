-- ===== src/Runtime/Uffd/Isolation.antt =====
-- The pages that a fault brings in lie in the section of the fault, and so in one slot.
use lucet.Prelude.{ℕ, ◌+◌, ◌-◌, ◌%◌, ◌≤◌, ◌<◌, ◌≡◌, ap, arith, true}
use lucet.Runtime.Limits.{Limits}
use lucet.Runtime.Limits.Valid.{sum_of}
use lucet.Runtime.Slot.{
  Slot, AddrLocation, in_heap, inaccessible_heap, stack_guard, in_stack, in_globals,
  sig_stack_guard, sig_stack, unknown,
}
use lucet.Runtime.Slot.Location.{section_at}
use lucet.Runtime.Userfault.{Userfault, UserfaultLaws}
use lucet.Runtime.Uffd.{UffdConfig, Resident, HeapPageSize, host, wasm}
use lucet.Runtime.Uffd.Served.{InHeap, within, heap_pages, fault_pages}
use lucet.Runtime.Uffd.Located.{Hosted, in_heap-InHeap}

heap_pages_inside :
    (size : HeapPageSize) (slot : Slot) (accessible page x : ℕ)
    → InHeap slot accessible page
    → accessible % 4096 ≡ 0
    → within x (heap_pages size slot.heap (slot.heap + accessible) page) ≡ true
    → (slot.heap ≤ x) × (x < slot.heap + accessible)
heap_pages_inside host slot accessible page x i whole h = ground (arith, i.aligned, i.low, i.high)
heap_pages_inside wasm slot accessible page x i whole h = ground (arith, i.aligned, i.low, i.high)

-- An address in the section of a location that can be filled.
abbrev pub InSection : Slot → ℕ → AddrLocation → ℕ → Type 0
InSection slot accessible in_heap x = (slot.heap ≤ x) × (x < slot.heap + accessible)
InSection slot accessible in_stack x = (slot.stack ≤ x) × (x < slot.stack + slot.limits.stack_size)
InSection slot accessible _ x = ⊥

module _ (k : Userfault) (laws : UserfaultLaws k) (config : UffdConfig) (limits : Limits)
    (region_start capacity : ℕ) (residents : ℕ → Resident) (i : ℕ) (slot : Slot)
    (w : Hosted limits region_start capacity residents i slot) (off : ℕ)
    (inside : off < sum_of limits) where
  abbrev accessible : ℕ
  accessible = (residents slot.start).alloc.heap_accessible_size

  abbrev page : ℕ
  page = slot.start + off - (slot.start + off) % 4096

  stack_page :
      (x : ℕ)
      → section_at limits accessible off ≡ in_stack
      → within x (record { start = page; len = 4096 }) ≡ true
      → (slot.stack ≤ x) × (x < slot.stack + slot.limits.stack_size)
  stack_page x e h =
      let size : slot.limits.stack_size ≡ limits.stack_size =
        ap (λ (l : Limits). l.stack_size) w.same_limits in
      let space : slot.limits.heap_address_space_size ≡ limits.heap_address_space_size =
        ap (λ (l : Limits). l.heap_address_space_size) w.same_limits in
      let low : limits.heap_address_space_size + 8192 ≤ off = ground arith in
      let high : off < limits.heap_address_space_size + 8192 + limits.stack_size = ground arith in
      ground (
        arith, w.laid_out.heap_at, w.laid_out.stack_at, w.aligned, w.valid.space_aligned,
        w.valid.stack_aligned,
      )

  pub fault_pages-InSection :
      (loc : AddrLocation) (x : ℕ)
      → section_at limits accessible off ≡ loc
      → within x (fault_pages config slot accessible loc page) ≡ true
      → InSection slot accessible loc x
  fault_pages-InSection in_heap x e h =
      heap_pages_inside config.heap_page_size slot accessible page x
        (in_heap-InHeap k laws config limits region_start capacity residents i slot w off inside e)
        w.heap_at.whole h
  fault_pages-InSection in_stack x e h = stack_page x e h
  fault_pages-InSection inaccessible_heap x e h = ground arith
  fault_pages-InSection stack_guard x e h = ground arith
  fault_pages-InSection in_globals x e h = ground arith
  fault_pages-InSection sig_stack_guard x e h = ground arith
  fault_pages-InSection sig_stack x e h = ground arith
  fault_pages-InSection unknown x e h = ground arith

-- ===== src/Runtime/Uffd/Located.antt =====
-- Where the handler looks for the instance of a fault, and what it does there.
use lucet.Prelude.{
  ℕ, ◌+◌, ◌-◌, ◌*◌, ◌%◌, ◌≤◌, ◌<◌, ◌≡◌, refl, ap, ◌∙◌, arith, usize_mod, true, false, ok, expect,
  add_usize, sub_usize, mul_usize, leb, ltb, ◌&&◌, ◌==◌,
}
use lucet.Prelude.Effects.{continue}
use lucet.LucetModule.LinearMemory.Pages.{AllPages}
use lucet.Runtime.Limits.{Limits}
use lucet.Runtime.Limits.Valid.{IsValid, sum_of, total_memory_size_lem}
use lucet.Runtime.Slot.{Slot, addr_location, in_heap}
use lucet.Runtime.Alloc
use lucet.Runtime.Slot.Location.{IsLaidOut, section_at, addr_location_inside}
use lucet.Runtime.Userfault.{Userfault, UserfaultLaws}
use lucet.Runtime.Uffd.{UffdConfig, Resident, serve}
use lucet.Runtime.Uffd.Handler.{page_fault_handler}
use lucet.Runtime.Uffd.Fill.{HeapAt}
use lucet.Runtime.Uffd.Served.{Served, InHeap, fault_pages, fault_woken, fault_image, serve-Served}

offset_mod : (i n off : ℕ) → off < n → (i * n + off) % n ≡ off
offset_mod i n off h = grind arith

-- A slot of the region with an instance in it: the `i`-th of the region, laid out by the limits.
pub record Hosted (limits : Limits) (region_start capacity : ℕ) (residents : ℕ → Resident) (i : ℕ)
    (slot : Slot) : Type 0 where
  pub valid : IsValid limits
  pub index : i < capacity
  pub start_at : slot.start ≡ region_start + i * sum_of limits
  pub region_in_space : region_start + sum_of limits * capacity < usize_mod
  pub mapped : 0 < region_start
  pub aligned : slot.start % 4096 ≡ 0
  pub laid_out : IsLaidOut slot
  pub same_limits : slot.limits ≡ limits
  pub magic : (residents slot.start).valid_magic ≡ true
  pub heap_at : HeapAt (residents slot.start).alloc slot
  pub fits : (residents slot.start).alloc.heap_accessible_size ≤ slot.limits.heap_address_space_size
  pub pages : AllPages (residents slot.start).module_.sparse_data

in_region : (i n capacity off : ℕ) → i < capacity → off < n → i * n + off < n * capacity
in_region i n capacity off h l = grind arith

module _ (k : Userfault) (laws : UserfaultLaws k) (config : UffdConfig) (limits : Limits)
    (region_start capacity : ℕ) (residents : ℕ → Resident) (i : ℕ) (slot : Slot)
    (w : Hosted limits region_start capacity residents i slot) (off : ℕ)
    (inside : off < sum_of limits) where
  abbrev resident : Resident
  resident = residents slot.start

  abbrev fault_addr : ℕ
  fault_addr = slot.start + off

  located :
      Alloc.addr_location resident.alloc fault_addr
      ≡ ok (section_at limits resident.alloc.heap_accessible_size off)
  unfolding Alloc.addr_location
  located =
      let acc : ℕ = resident.alloc.heap_accessible_size in
      let e : addr_location slot acc fault_addr ≡ section_at limits acc off =
        addr_location_inside slot acc w.laid_out w.fits off
        ∙ ap (λ (l : Limits). section_at l acc off) w.same_limits in
      rw (w.heap_at.has_slot, expect, e) refl

  page_fault_handler_runs :
      (m : k.Mem)
      → page_fault_handler k config limits region_start capacity residents fault_addr m
        ≡ serve k config resident.module_ resident.alloc
            (fault_addr - fault_addr % 4096)
            (section_at limits resident.alloc.heap_accessible_size off)
            m
  unfolding page_fault_handler
  page_fault_handler_runs m =
      let n : ℕ = sum_of limits in
      let at_ : fault_addr ≡ region_start + (i * n + off) = omega (arith, w.start_at) in
      let below : i * n + off < n * capacity = in_region i n capacity off w.index inside in
      let small : n < usize_mod =
        omega (arith, w.laid_out.in_space, ap (λ (l : Limits). sum_of l) w.same_limits) in
      let total = (total_memory_size_lem limits).0 small in
      let guard : (leb region_start fault_addr
            && ltb fault_addr (add_usize region_start (mul_usize n capacity)))
          ≡ true =
        ground (arith, at_, below, w.region_in_space) in
      let offs : sub_usize fault_addr region_start ≡ i * n + off =
        omega (arith, at_, below, w.region_in_space) in
      let base : add_usize region_start (i * n + off - (i * n + off) % n) ≡ slot.start =
        omega (arith, offset_mod i n off inside, w.start_at, below, w.region_in_space) in
      let nonnull : (slot.start == 0) ≡ false = ground (arith, w.start_at, w.mapped) in
      rw (total, continue, guard, offs, base, nonnull, w.magic, located) refl

  pub in_heap-InHeap :
      section_at limits resident.alloc.heap_accessible_size off ≡ in_heap
      → InHeap slot resident.alloc.heap_accessible_size (fault_addr - fault_addr % 4096)
  in_heap-InHeap e =
      let low : 4096 ≤ off = ground arith in
      let high : off < 4096 + resident.alloc.heap_accessible_size = ground arith in
      let at_ = w.laid_out.heap_at in
      record {
        aligned = omega (arith, at_, w.aligned);
        low = omega (arith, at_, w.aligned);
        high = omega (arith, at_);
      }

  -- A page fault at an offset of a slot that the handler serves with success has filled the pages
  -- of its section, which were absent before, with the bytes that belong there: in the accessible
  -- heap the host page or the WebAssembly page as configured, with the module's data, and in the
  -- stack one page of zeros. Everywhere else no page is filled. The guest is woken in each case, and
  -- nothing else has changed.
  pub page_fault_handler-Served :
      (m : k.Mem)
      → (page_fault_handler k config limits region_start capacity residents fault_addr m).0 ≡ ok tt
      → let loc = section_at limits resident.alloc.heap_accessible_size off in
        let page = fault_addr - fault_addr % 4096 in
        Served k
          (fault_pages config slot resident.alloc.heap_accessible_size loc page)
          (fault_woken config slot loc page)
          (fault_image resident.module_ slot loc)
          m
          (page_fault_handler k config limits region_start capacity residents fault_addr m).1
  page_fault_handler-Served m h =
      let loc = section_at limits resident.alloc.heap_accessible_size off in
      let page : ℕ = fault_addr - fault_addr % 4096 in
      rw (page_fault_handler_runs m) (
        serve-Served k laws config resident.module_ resident.alloc slot page loc m w.pages w.heap_at
          in_heap-InHeap (rw (page_fault_handler_runs m) at h))

-- ===== src/Runtime/Uffd/Reads.antt =====
-- What a guest reads after a fault in its heap.
use lucet.Prelude.{ℕ, ◌+◌, ◌-◌, ◌%◌, ◌≤◌, ◌<◌, ◌≡◌, refl, ap, ◌∙◌, arith, true, false, ok}
use lucet.Runtime.Limits.{Limits}
use lucet.Runtime.Limits.Valid.{sum_of}
use lucet.Runtime.Slot.{Slot, in_heap}
use lucet.Runtime.Slot.Location.{section_at}
use lucet.Runtime.Userfault.{Userfault, UserfaultLaws}
use lucet.Runtime.Uffd.{UffdConfig, Resident, HeapPageSize, host, wasm}
use lucet.Runtime.Uffd.Handler.{page_fault_handler}
use lucet.Runtime.Uffd.Served.{within, heap_pages, heap_woken, fault_pages, fault_woken}
use lucet.Runtime.Uffd.Located.{Hosted, page_fault_handler-Served}
use lucet.Runtime.Uffd.Guest.{InSpace, Guest, Guest-Backs, faults-Backs}

-- The page of a fault is among those that it brings in and wakes.
fault_in_pages :
    (size : HeapPageSize) (slot : Slot) (accessible x : ℕ)
    → slot.heap % 4096 ≡ 0
    → slot.heap ≤ x
    → x < slot.heap + accessible
    → let page = x - x % 4096 in
      (within x (heap_pages size slot.heap (slot.heap + accessible) page) ≡ true)
      × (within x (heap_woken size slot.heap page) ≡ true)
fault_in_pages host slot accessible x a l h = (ground arith, ground arith)
fault_in_pages wasm slot accessible x a l h = (ground arith, ground arith)

module _ (k : Userfault) (laws : UserfaultLaws k) (config : UffdConfig) (limits : Limits)
    (region_start capacity : ℕ) (residents : ℕ → Resident) (i : ℕ) (slot : Slot)
    (w : Hosted limits region_start capacity residents i slot) (off : ℕ)
    (in_accessible : section_at limits (residents slot.start).alloc.heap_accessible_size off
      ≡ in_heap) where
  abbrev accessible : ℕ
  accessible = (residents slot.start).alloc.heap_accessible_size

  offset_bounds : (4096 ≤ off) × (off < 4096 + accessible)
  offset_bounds = (ground arith, ground arith)

  offset_inside : off < sum_of limits
  offset_inside =
      let space = ap (λ (l : Limits). l.heap_address_space_size) w.same_limits in
      omega (arith, offset_bounds, w.fits, space)

  -- A guest that runs in a slot whose heap had no page at first, while faults in this and other
  -- slots are served and the guest writes to its heap, reads at an accessible address after a fault
  -- there was served what it would read from a heap that was filled with the module's data before
  -- it ran: the last byte written, or the initial one. The thread that met the fault is awake.
  pub Guest-reads :
      (start : k.Mem) (view : ℕ → ℕ) (m : k.Mem)
      → ((x : ℕ) → InSpace slot x → k.present start x ≡ false)
      → Guest k config limits region_start capacity slot
          (residents slot.start).module_
          i
          start
          view
          m
      → (page_fault_handler k config limits region_start capacity residents (slot.start + off) m).0
        ≡ ok tt
      → let m' =
          (page_fault_handler k config limits region_start capacity residents
            (slot.start + off)
            m).1 in
        (k.present m' (slot.start + off) ≡ true)
        × (k.byte m' (slot.start + off) ≡ view (slot.start + off))
        × (k.asleep m' (slot.start + off) ≡ false)
  Guest-reads start view m absent g h =
      let x : ℕ = slot.start + off in
      let page : ℕ = x - x % 4096 in
      let before =
        Guest-Backs k config limits region_start capacity slot (residents slot.start).module_ laws i
          w.laid_out w.start_at w.same_limits start view m absent g in
      let after =
        faults-Backs k config limits region_start capacity slot (residents slot.start).module_ laws
          i w.laid_out w.start_at w.same_limits view m residents i slot off w (λ e. refl)
          offset_inside h before in
      let served =
        page_fault_handler-Served k laws config limits region_start capacity residents i slot w off
          offset_inside m h in
      let (new, awake) =
        fault_in_pages config.heap_page_size slot accessible x
          (omega (arith, w.laid_out.heap_at, w.aligned))
          (omega (arith, w.laid_out.heap_at, offset_bounds))
          (omega (arith, w.laid_out.heap_at, offset_bounds)) in
      let new' : within x
            (fault_pages config slot accessible (section_at limits accessible off) page)
          ≡ true =
        rw in_accessible new in
      let awake' : within x (fault_woken config slot (section_at limits accessible off) page)
          ≡ true =
        rw in_accessible awake in
      let there = served.present x ∙ rw new' refl in
      (
        there,
        after.loaded x
            (
              omega (arith, w.laid_out.heap_at, offset_bounds),
              omega (arith, w.laid_out.heap_at, offset_bounds, w.fits),
            )
            there,
        served.asleep x ∙ rw awake' refl,
      )

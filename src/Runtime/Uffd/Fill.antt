-- ===== src/Runtime/Uffd/Fill.antt =====
-- The pages that the handler fills in the heap.
use lucet.Prelude.{
  ℕ, zero, suc, ◌+◌, ◌-◌, ◌*◌, ◌/◌, ◌%◌, ◌≤◌, ◌<◌, ◌≡◌, ◌≢◌, refl, ◌∙◌, ap, subst, arith, List,
  Bool, true, false, some, none, ok, usize_mod, add_usize, mul_usize, min, ltb, get_or,
  if◌then◌else◌, Option-cases, Bool-cases, inl, inr, expect,
}
use lucet.Prelude.Effects.{◌>>◌, continue-eq-ok}
use lucet.LucetModule.LinearMemory.{get_page}
use lucet.LucetModule.LinearMemory.Pages.{AllPages}
use lucet.Runtime.Module.{Module}
use lucet.Runtime.Slot.{
  Slot, AddrLocation, addr_location, in_heap, inaccessible_heap, stack_guard, in_stack, in_globals,
  sig_stack_guard, sig_stack, unknown,
}
use lucet.Runtime.Alloc.{Alloc}
use lucet.Runtime.Alloc
use lucet.Runtime.Vm.{in_range}
use lucet.Runtime.Mmap.Copy.{page_byte}
use lucet.Runtime.Userfault.{Userfault, UserfaultLaws, Filled}
use lucet.Runtime.Uffd.{UffdConfig, filled, zeropage, copy, fill_page, fill_pages}
use lucet.Runtime.Uffd.Retry.{zeropage-Filled, copy-Filled}

-- The initial byte of the heap at an address: the module's, or zero where it gives no page.
abbrev pub heap_image : Module → ℕ → ℕ → ℕ
heap_image m heap x = page_byte m.sparse_data (x - heap) 0

-- A range may be filled in two parts, and from any source with the same bytes in it.
module _ (k : Userfault) (a : ℕ) (m m' : k.Mem) where
  pub Filled-nil : (w : Bool) (source : ℕ → ℕ) → m ≡ m' → Filled k a 0 w source m m'
  Filled-nil w source e = rw (← e) (record {
    absent = λ x h. absurd (ground arith);
    present = λ x. ground arith;
    byte = λ x. ground arith;
    asleep = λ x. ground arith;
  })

  pub Filled-append :
      (n l : ℕ) (source : ℕ → ℕ) (m'' : k.Mem)
      → Filled k a n false source m m'
      → Filled k (a + n) l false source m' m''
      → Filled k a (n + l) false source m m''
  Filled-append n l source m'' f g = record {
    absent = λ x h. ground (arith, f.absent x, g.absent x, f.present x);
    present = λ x. ground (arith, f.present x, g.present x);
    byte = λ x. ground (arith, f.byte x, g.byte x);
    asleep = λ x. ground (arith, f.asleep x, g.asleep x);
  }

  pub Filled-congr :
      (n : ℕ) (w : Bool) (source source' : ℕ → ℕ)
      → ((x : ℕ) → in_range x a (a + n) ≡ true → source x ≡ source' x)
      → Filled k a n w source m m'
      → Filled k a n w source' m m'
  Filled-congr n w source source' same f = record {
    absent = f.absent;
    present = f.present;
    byte = λ x. ground (arith, f.byte x, same x);
    asleep = f.asleep;
  }

module _ (k : Userfault) (config : UffdConfig) (module_ : Module) (p addr : ℕ) (wake : Bool) where
  fill_page_zero :
      get_page module_.sparse_data p ≡ none
      → fill_page k config module_ p addr wake
        ≡ filled k (zeropage k addr 4096 wake config.enoent_retry_limit)
  unfolding fill_page
  fill_page_zero e = rw (e, fill_page) refl

  fill_page_copy :
      (c : List ℕ)
      → get_page module_.sparse_data p ≡ some c
      → fill_page k config module_ p addr wake
        ≡ filled k (copy k c addr 4096 wake config.enoent_retry_limit)
  unfolding fill_page
  fill_page_copy c e = rw (e, fill_page) refl

module _ (k : Userfault) (laws : UserfaultLaws k) (config : UffdConfig) (module_ : Module)
    (pages : AllPages module_.sparse_data) where
  pub fill_page-Filled :
      (heap p : ℕ) (wake : Bool) (m : k.Mem)
      → (fill_page k config module_ p (heap + p * 4096) wake m).0 ≡ ok tt
      → Filled k
          (heap + p * 4096)
          4096
          wake
          (heap_image module_ heap)
          m
          (fill_page k config module_ p (heap + p * 4096) wake m).1
  fill_page-Filled heap p wake m h =
      let addr : ℕ = heap + p * 4096 in
      let limit : ℕ = config.enoent_retry_limit in
      elim (Option-cases (get_page module_.sparse_data p)) [
        | inl e ↦
            let zeroed = fill_page_zero k config module_ p addr wake e in
            rw zeroed (
              Filled-congr k addr m _ 4096 wake (λ x. 0) (heap_image module_ heap)
                (λ x r.
                  let q : (x - heap) / 4096 ≡ p = ground arith in
                  ground (arith, ap (get_page module_.sparse_data) q ∙ e))
                (zeropage-Filled k laws addr 4096 limit wake m (rw zeroed at h)))
        | inr (c, e) ↦
            let copied = fill_page_copy k config module_ p addr wake c e in
            rw copied (
              Filled-congr k addr m _ 4096 wake (λ x. get_or c (x - addr) 0)
                (heap_image module_ heap)
                (λ x r.
                  let q : (x - heap) / 4096 ≡ p = ground arith in
                  let o : (x - heap) % 4096 ≡ x - addr = ground arith in
                  ground (arith, ap (get_page module_.sparse_data) q ∙ e, o))
                (copy-Filled k laws addr 4096 limit wake m c (pages p c e) (rw copied at h)))
      ]

  pub fill_page_at-Filled :
      (heap p addr : ℕ) (wake : Bool) (m : k.Mem)
      → addr ≡ heap + p * 4096
      → (fill_page k config module_ p addr wake m).0 ≡ ok tt
      → Filled k addr 4096 wake
          (heap_image module_ heap)
          m
          (fill_page k config module_ p addr wake m).1
  fill_page_at-Filled heap p addr wake m e h = rw e (fill_page-Filled heap p wake m (rw e at h))

-- Where the accessible heap of an alloc lies.
pub record HeapAt (alloc : Alloc) (slot : Slot) : Type 0 where
  pub has_slot : alloc.slot ≡ some slot
  pub whole : alloc.heap_accessible_size % 4096 ≡ 0
  pub in_space : slot.heap + alloc.heap_accessible_size < usize_mod

-- The tests behind the first one of `addr_location` never yield the heap.
not_heap :
    (b c d e f g : Bool)
    → (if b
        then inaccessible_heap
        else if c
        then stack_guard
        else if d
        then in_stack
        else if e
        then in_globals
        else if f
        then sig_stack_guard
        else if g
        then sig_stack
        else unknown)
      ≢ in_heap
not_heap b c d e f g = ground arith

module _ (alloc : Alloc) (slot : Slot) (x : ℕ) (at_ : HeapAt alloc slot) where
  addr_location-heap :
      slot.heap ≤ x
      → x < slot.heap + alloc.heap_accessible_size
      → Alloc.addr_location alloc x ≡ ok in_heap
  unfolding Alloc.addr_location addr_location
  addr_location-heap l r =
      let first : in_range x slot.heap (add_usize slot.heap alloc.heap_accessible_size) ≡ true =
        ground (arith, at_.in_space) in
      rw (at_.has_slot, expect, first) refl

  addr_location-outside :
      slot.heap + alloc.heap_accessible_size ≤ x
      → (loc : AddrLocation) × (Alloc.addr_location alloc x ≡ ok loc) × (loc ≢ in_heap)
  unfolding Alloc.addr_location addr_location
  addr_location-outside l =
      let first : in_range x slot.heap (add_usize slot.heap alloc.heap_accessible_size) ≡ false =
        ground (arith, at_.in_space) in
      rw (at_.has_slot, expect) (_, refl, rw first (not_heap _ _ _ _ _ _))

module _ (k : Userfault) (config : UffdConfig) (module_ : Module) (alloc : Alloc)
    (base_page base rounds page_num : ℕ) where
  abbrev page_addr : ℕ
  page_addr = add_usize base (mul_usize page_num 4096)

  fill_pages_step :
      Alloc.addr_location alloc page_addr ≡ ok in_heap
      → fill_pages k config module_ alloc base_page base (suc rounds) page_num ≡ (
          fill_page k config module_ (add_usize base_page page_num) page_addr false
          >> fill_pages k config module_ alloc base_page base rounds (page_num + 1))
  unfolding fill_pages
  fill_pages_step e = rw (fill_pages, e) refl

  fill_pages_next :
      (page addr : ℕ)
      → add_usize base_page page_num ≡ page
      → page_addr ≡ addr
      → Alloc.addr_location alloc addr ≡ ok in_heap
      → fill_pages k config module_ alloc base_page base (suc rounds) page_num ≡ (
          fill_page k config module_ page addr false
          >> fill_pages k config module_ alloc base_page base rounds (page_num + 1))
  fill_pages_next page addr p a e = rw (fill_pages_step (rw a e), p, a) refl

  fill_pages_ends :
      (m : k.Mem) → fill_pages k config module_ alloc base_page base zero page_num m ≡ (ok tt, m)
  unfolding fill_pages
  fill_pages_ends m = refl

  fill_pages_break :
      (addr : ℕ) (loc : AddrLocation) (m : k.Mem)
      → page_addr ≡ addr
      → Alloc.addr_location alloc addr ≡ ok loc
      → loc ≢ in_heap
      → fill_pages k config module_ alloc base_page base (suc rounds) page_num m ≡ (ok tt, m)
  unfolding fill_pages
  fill_pages_break addr loc m a e n = rw (fill_pages, a, e) (ground arith)

module _ (k : Userfault) (laws : UserfaultLaws k) (config : UffdConfig) (module_ : Module)
    (pages : AllPages module_.sparse_data) (alloc : Alloc) (slot : Slot)
    (at_ : HeapAt alloc slot) where
  abbrev heap_end : ℕ
  heap_end = slot.heap + alloc.heap_accessible_size

  -- One page is filled in front of the others.
  page_then_pages :
      (page rest from : ℕ) (m m' m'' : k.Mem)
      → from ≡ slot.heap + (page + 1) * 4096
      → Filled k (slot.heap + page * 4096) 4096 false (heap_image module_ slot.heap) m m'
      → Filled k from rest false (heap_image module_ slot.heap) m' m''
      → Filled k (slot.heap + page * 4096) (4096 + rest) false (heap_image module_ slot.heap) m m''
  page_then_pages page rest from m m' m'' e f g =
      let q : from ≡ slot.heap + page * 4096 + 4096 = omega arith in
      Filled-append k (slot.heap + page * 4096) m m' 4096 rest (heap_image module_ slot.heap) m'' f
        (subst (λ y. Filled k y rest false (heap_image module_ slot.heap) m' m'') q g)

  -- The loop over host pages fills the heap from its page on, up to its number of pages or to the
  -- end of the accessible heap.
  pub fill_pages-Filled :
      (base_page rounds page_num : ℕ) (m : k.Mem)
      → slot.heap + (base_page + page_num) * 4096 ≤ heap_end
      → (fill_pages k config module_ alloc base_page
          (slot.heap + base_page * 4096)
          rounds
          page_num
          m).0
        ≡ ok tt
      → Filled k
          (slot.heap + (base_page + page_num) * 4096)
          (min (rounds * 4096) (heap_end - (slot.heap + (base_page + page_num) * 4096)))
          false
          (heap_image module_ slot.heap)
          m
          (fill_pages k config module_ alloc base_page
            (slot.heap + base_page * 4096)
            rounds
            page_num
            m).1
  fill_pages-Filled base_page zero page_num m l h =
      let e : 0 ≡ min (0 * 4096) (heap_end - (slot.heap + (base_page + page_num) * 4096)) =
        omega arith in
      rw
        (
          fill_pages_ends k config module_ alloc base_page (slot.heap + base_page * 4096) 0 page_num
              m,
          ← e,
        )
        (Filled-nil k (slot.heap + (base_page + page_num) * 4096) m m false
          (heap_image module_ slot.heap) refl)
  fill_pages-Filled base_page (suc rounds) page_num m l h =
      let page : ℕ = base_page + page_num in
      let base : ℕ = slot.heap + base_page * 4096 in
      let addr : ℕ = slot.heap + page * 4096 in
      let addr_at : add_usize base (mul_usize page_num 4096) ≡ addr = omega (arith, at_.in_space) in
      let page_at : add_usize base_page page_num ≡ page = omega (arith, at_.in_space) in
      elim (Bool-cases (ltb addr heap_end)) [
        | inl inside ↦
            let loc = addr_location-heap alloc slot addr at_ (omega arith) (ground arith) in
            let next =
              fill_pages_next k config module_ alloc base_page base rounds page_num page addr
                page_at addr_at loc in
            let (_, first, then_) =
              continue-eq-ok (fill_page k config module_ page addr false m)
                (λ _. fill_pages k config module_ alloc base_page base rounds (page_num + 1))
                (rw next at h) in
            let m' : k.Mem = (fill_page k config module_ page addr false m).1 in
            let rest =
              fill_pages-Filled base_page rounds (page_num + 1) m' (ground (arith, at_.whole))
                (rw (next, then_) at h) in
            let split : 4096
                  + min (rounds * 4096)
                      (heap_end - (slot.heap + (base_page + (page_num + 1)) * 4096))
                ≡ min (suc rounds * 4096) (heap_end - addr) =
              ground (arith, at_.whole) in
            rw (next, then_, ← split)
              (page_then_pages page _ _ m m' _ (omega arith)
                (fill_page-Filled k laws config module_ pages slot.heap page false m first) rest)
        | inr outside ↦
            let (loc, e, n) = addr_location-outside alloc slot addr at_ (ground arith) in
            let stop =
              fill_pages_break k config module_ alloc base_page base rounds page_num addr loc m
                addr_at e n in
            let none_left : 0 ≡ min (suc rounds * 4096) (heap_end - addr) = ground arith in
            rw (stop, ← none_left) (Filled-nil k addr m m false (heap_image module_ slot.heap) refl)
      ]

-- ===== src/Runtime/Uffd/Guest.antt =====
-- The heap as a guest sees it: a lazy heap against one that was filled at the start.
use lucet.Prelude.{
  ℕ, ◌+◌, ◌-◌, ◌*◌, ◌%◌, ◌≤◌, ◌<◌, ◌≡◌, refl, sym, ap, ◌∙◌, arith, true, false, [], ◌∷◌, ok, ◌==◌,
  if◌then◌else◌, Bool-cases, inl, inr,
}
use lucet.Runtime.Limits.{Limits}
use lucet.Runtime.Limits.Valid.{sum_of}
use lucet.Runtime.Module.{Module}
use lucet.Runtime.Slot.{
  Slot, AddrLocation, in_heap, inaccessible_heap, stack_guard, in_stack, in_globals,
  sig_stack_guard, sig_stack, unknown,
}
use lucet.Runtime.Slot.Location.{IsLaidOut, section_at}
use lucet.Runtime.Vm.{in_range}
use lucet.Runtime.Userfault.{Userfault, UserfaultLaws}
use lucet.Runtime.Uffd.{UffdConfig, Resident}
use lucet.Runtime.Uffd.Handler.{page_fault_handler}
use lucet.Runtime.Uffd.Fill.{heap_image}
use lucet.Runtime.Uffd.Served.{Range, Served, within, fault_image}
use lucet.Runtime.Uffd.Located.{Hosted, page_fault_handler-Served}
use lucet.Runtime.Uffd.Isolation.{InSection, fault_pages-InSection}

-- An address in the address space of the heap.
abbrev pub InSpace : Slot → ℕ → Type 0
InSpace slot x = (slot.heap ≤ x) × (x < slot.heap + slot.limits.heap_address_space_size)

-- A number lies in one stretch of `n` numbers only.
same_stretch : (i j n x y : ℕ) → x < n → y < n → i * n + x ≡ j * n + y → i ≡ j
same_stretch i j n x y h l e = grind arith

module _ (k : Userfault) (config : UffdConfig) (limits : Limits) (region_start capacity : ℕ)
    (slot : Slot) (module_ : Module) where
  -- A lazy heap stands for an eager one: a page that is there holds the bytes of the eager heap, and
  -- where there is none, the eager heap has its initial byte.
  pub record Backs (view : ℕ → ℕ) (m : k.Mem) : Type 0 where
    pub loaded : (x : ℕ) → InSpace slot x → k.present m x ≡ true → k.byte m x ≡ view x
    pub untouched :
        (x : ℕ) → InSpace slot x → k.present m x ≡ false → view x ≡ heap_image module_ slot.heap x

  -- What can happen while an instance with this module is in the `i`-th slot: a fault in any slot is
  -- served, or the guest writes a byte to a page that is there. Between the steps the heap may grow.
  pub data GuestStep (i : ℕ) : (ℕ → ℕ) → k.Mem → (ℕ → ℕ) → k.Mem → Type 0 where
    faults :
        {view : ℕ → ℕ} {m : k.Mem} (residents : ℕ → Resident) (j : ℕ) (other : Slot) (off : ℕ)
        → Hosted limits region_start capacity residents j other
        → (j ≡ i → (residents other.start).module_ ≡ module_)
        → off < sum_of limits
        → (page_fault_handler k config limits region_start capacity residents
            (other.start + off)
            m).0
          ≡ ok tt
        → GuestStep i view m view
            (page_fault_handler k config limits region_start capacity residents
              (other.start + off)
              m).1
    writes :
        {view : ℕ → ℕ} {m : k.Mem} (x value : ℕ)
        → k.present m x ≡ true
        → GuestStep i view m (λ y. if y == x then value else view y) (k.store x (value ∷ []) m)

  pub data Guest (i : ℕ) (start : k.Mem) : (ℕ → ℕ) → k.Mem → Type 0 where
    begins : Guest i start (heap_image module_ slot.heap) start
    goes_on :
        {view view' : ℕ → ℕ} {m m' : k.Mem}
        → Guest i start view m
        → GuestStep i view m view' m'
        → Guest i start view' m'

  module _ (laws : UserfaultLaws k) (i : ℕ) (placed : IsLaidOut slot)
      (start_at : slot.start ≡ region_start + i * sum_of limits)
      (same_limits : slot.limits ≡ limits) where
    store_one :
        (m : k.Mem) (x value y : ℕ)
        → k.byte (k.store x (value ∷ []) m) y ≡ (if y == x then value else k.byte m y)
    store_one m x value y = elim (Bool-cases (y == x)) [
      | inl here ↦
          let zero_ : y - x ≡ 0 = ground arith in
          let byte = laws.store_byte x (value ∷ []) m y in
          let hit : in_range y x (x + 1) ≡ true = ground arith in
          rw here (byte ∙ rw (hit, zero_) refl)
      | inr away ↦
          let miss : in_range y x (x + 1) ≡ false = ground arith in
          rw away (laws.store_byte x (value ∷ []) m y ∙ rw miss refl)
    ]

    writes-Backs :
        (view : ℕ → ℕ) (m : k.Mem) (x value : ℕ)
        → k.present m x ≡ true
        → Backs view m
        → Backs (λ y. if y == x then value else view y) (k.store x (value ∷ []) m)
    writes-Backs view m x value h b = record {
      loaded = λ y s p.
          let stays = laws.store_present x (value ∷ []) m y in
          store_one m x value y
          ∙ ap (λ (z : ℕ). if y == x then value else z) (b.loaded y s (sym stays ∙ p));
      untouched = λ y s p.
          let absent : k.present m y ≡ false = sym (laws.store_present x (value ∷ []) m y) ∙ p in
          let away : (y == x) ≡ false = elim (Bool-cases (y == x)) [
            | inl e ↦
                let same : y ≡ x = ground arith in
                absurd (ground (arith, ap (λ z. k.present m z) same))
            | inr n ↦ n
          ] in
          rw away (b.untouched y s absent);
    }

    -- An address of this heap lies in no other slot.
    same_slot :
        (j : ℕ) (start x : ℕ)
        → start ≡ region_start + j * sum_of limits
        → InSpace slot x
        → start ≤ x
        → x < start + sum_of limits
        → (j ≡ i) × (start ≡ slot.start)
    same_slot j start x e s l r =
        let space = ap (λ (l : Limits). l.heap_address_space_size) same_limits in
        let n : ℕ = sum_of limits in
        let same : j ≡ i =
          same_stretch j i n (x - start) (x - slot.start) (omega arith)
            (omega (arith, placed.heap_at, space)) (omega (arith, placed.heap_at)) in
        (same, e ∙ ap (λ (y : ℕ). region_start + y * n) same ∙ sym start_at)

    -- The section of a fault that brought in an address of this heap is this heap.
    same_image :
        (residents : ℕ → Resident) (j : ℕ) (other : Slot) (loc : AddrLocation) (x : ℕ)
        → Hosted limits region_start capacity residents j other
        → (j ≡ i → (residents other.start).module_ ≡ module_)
        → InSpace slot x
        → InSection other (residents other.start).alloc.heap_accessible_size loc x
        → fault_image (residents other.start).module_ other loc x ≡ heap_image module_ slot.heap x
    same_image residents j other in_heap x w same s in_ =
        let (here, start) =
          same_slot j other.start x w.start_at s (omega (arith, w.laid_out.heap_at)) (
            omega (
              arith,
              w.laid_out.heap_at,
              w.fits,
              ap (λ (l : Limits). l.heap_address_space_size) w.same_limits,
            )) in
        let heaps : other.heap ≡ slot.heap = omega (arith, w.laid_out.heap_at, placed.heap_at) in
        ap (λ (mod_ : Module). heap_image mod_ other.heap x) (same here)
        ∙ ap (λ (y : ℕ). heap_image module_ y x) heaps
    same_image residents j other in_stack x w same s in_ =
        let space = ap (λ (l : Limits). l.heap_address_space_size) w.same_limits in
        let size = ap (λ (l : Limits). l.stack_size) w.same_limits in
        let space' = ap (λ (l : Limits). l.heap_address_space_size) same_limits in
        let (here, start) =
          same_slot j other.start x w.start_at s
            (omega (arith, w.laid_out.heap_at, w.laid_out.stack_at))
            (omega (arith, w.laid_out.heap_at, w.laid_out.stack_at, space, size)) in
        absurd
          (omega (arith, w.laid_out.heap_at, w.laid_out.stack_at, placed.heap_at, space, space'))
    same_image residents j other inaccessible_heap x w same s in_ = absurd in_
    same_image residents j other stack_guard x w same s in_ = absurd in_
    same_image residents j other in_globals x w same s in_ = absurd in_
    same_image residents j other sig_stack_guard x w same s in_ = absurd in_
    same_image residents j other sig_stack x w same s in_ = absurd in_
    same_image residents j other unknown x w same s in_ = absurd in_

    Served-Backs :
        (view : ℕ → ℕ) (m m' : k.Mem) (pages woken : Range) (source : ℕ → ℕ)
        → Served k pages woken source m m'
        → ((x : ℕ)
            → InSpace slot x
            → within x pages ≡ true
            → source x ≡ heap_image module_ slot.heap x)
        → Backs view m
        → Backs view m'
    Served-Backs view m m' pages woken source served image b = record {
      loaded = λ x s p. elim (Bool-cases (within x pages)) [
        | inl new ↦
            served.byte x ∙ rw new (image x s new ∙ sym (b.untouched x s (served.absent x new)))
        | inr old ↦
            let there : k.present m x ≡ true = ground (arith, served.present x) in
            served.byte x ∙ rw old (b.loaded x s there)
      ];
      untouched = λ x s p. b.untouched x s (ground (arith, served.present x));
    }

    pub faults-Backs :
        (view : ℕ → ℕ) (m : k.Mem) (residents : ℕ → Resident) (j : ℕ) (other : Slot) (off : ℕ)
        → Hosted limits region_start capacity residents j other
        → (j ≡ i → (residents other.start).module_ ≡ module_)
        → off < sum_of limits
        → (page_fault_handler k config limits region_start capacity residents
            (other.start + off)
            m).0
          ≡ ok tt
        → Backs view m
        → Backs view
            (page_fault_handler k config limits region_start capacity residents
              (other.start + off)
              m).1
    faults-Backs view m residents j other off w same inside h b =
        let acc : ℕ = (residents other.start).alloc.heap_accessible_size in
        let loc = section_at limits acc off in
        let page : ℕ = other.start + off - (other.start + off) % 4096 in
        let served =
          page_fault_handler-Served k laws config limits region_start capacity residents j other w
            off inside m h in
        let section = λ (x : ℕ).
          fault_pages-InSection k laws config limits region_start capacity residents j other w off
            inside loc x refl in
        Served-Backs view m _ _ _ _ served
          (λ x s q. same_image residents j other loc x w same s (section x q)) b

    pub Guest-Backs :
        (start : k.Mem) (view : ℕ → ℕ) (m : k.Mem)
        → ((x : ℕ) → InSpace slot x → k.present start x ≡ false)
        → Guest i start view m
        → Backs view m
    Guest-Backs start view m absent begins = record {
      loaded = λ x s p. absurd (ground (arith, absent x s));
      untouched = λ x s p. refl;
    }
    Guest-Backs start view m absent (goes_on g (faults residents j other off w same inside h)) =
        faults-Backs _ _ residents j other off w same inside h (Guest-Backs start _ _ absent g)
    Guest-Backs start view m absent (goes_on g (writes x value h)) =
        writes-Backs _ _ x value h (Guest-Backs start _ _ absent g)

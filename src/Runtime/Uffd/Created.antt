-- ===== src/Runtime/Uffd/Created.antt =====
-- The slots of a region that `create` has set up.
use lucet.Prelude.{
  ℕ, zero, suc, ◌+◌, ◌*◌, ◌%◌, ◌<◌, ◌≡◌, refl, ap, subst, arith, some, List, [], ◌∷◌, ok, length,
  get_elem?, add_usize, mul_usize, usize_mod, ok-cases, inl, inr, ◌⊎◌, panic, ltb, Bool-cases,
}
use native.Mathlib.Nat.{mul_comm}
use lucet.Prelude.Effects.{continue-eq-ok, ◌>>=◌, pure}
use lucet.Runtime.Limits.{Limits, validate, total_memory_size, instance_heap_offset}
use lucet.Runtime.Limits.Valid.{IsValid, sum_of, validate-IsValid, total_memory_size_lem}
use lucet.Runtime.Slot.{Slot}
use lucet.Runtime.Slot.Location.{IsLaidOut, layout_slot}
use lucet.Runtime.Region.{Region}
use lucet.Runtime.Userfault.{Userfault}
use lucet.Runtime.Uffd.{UffdConfig}
use lucet.Runtime.Uffd.Region.{Setup, map_region, create_slot, create_slots, create}

-- mmap(2): a mapping starts on a page, not at 0, and ends inside the address space.
abbrev pub MapsPages : Setup → Type 0
MapsPages setup =
    (size a : ℕ) → setup.maps size ≡ some a → (a % 4096 ≡ 0) × (0 < a) × (a + size < usize_mod)

-- The slot at an index of a region: laid out by the limits, right behind the slots before it.
pub record IsSlotAt (limits : Limits) (start index : ℕ) (slot : Slot) : Type 0 where
  pub start_at : slot.start ≡ start + index * sum_of limits
  pub aligned : slot.start % 4096 ≡ 0
  pub laid_out : IsLaidOut slot
  pub same_limits : slot.limits ≡ limits

module _ (k : Userfault) (config : UffdConfig) (start : ℕ) (limits : Limits)
    (valid : IsValid limits) (aligned : start % 4096 ≡ 0) where
  multiple_aligned : (i n : ℕ) → n % 4096 ≡ 0 → (i * n) % 4096 ≡ 0
  multiple_aligned zero n h = omega arith
  multiple_aligned (suc i) n h =
      let e : suc i * n ≡ n + i * n = grind arith in omega (arith, e, h, multiple_aligned i n h)

  create_slot-eq-ok :
      (index : ℕ) (m : k.Mem) (slot : Slot)
      → start + (index * sum_of limits + sum_of limits) < usize_mod
      → (create_slot k config start limits index m).0 ≡ ok slot
      → slot ≡ layout_slot limits (start + index * sum_of limits)
  unfolding create_slot instance_heap_offset layout_slot
  create_slot-eq-ok index m slot l h =
      let n : ℕ = sum_of limits in
      let total = (total_memory_size_lem limits).0 (omega arith) in
      let begin_ : add_usize start (mul_usize index n) ≡ start + index * n = omega arith in
      ground (arith, total, begin_)

  layout_slot-IsSlotAt :
      (index : ℕ)
      → start + (index * sum_of limits + sum_of limits) < usize_mod
      → IsSlotAt limits start index (layout_slot limits (start + index * sum_of limits))
  unfolding layout_slot
  layout_slot-IsSlotAt index l = record {
    start_at = refl;
    aligned = omega (arith, aligned, multiple_aligned index (sum_of limits) (omega (arith, valid)));
    laid_out = ground arith;
    same_limits = refl;
  }

  create_slots-IsSlotAt :
      (rounds index : ℕ) (m : k.Mem) (slots : List Slot)
      → start + (index + rounds) * sum_of limits < usize_mod
      → (create_slots k config start limits rounds index m).0 ≡ ok slots
      → (length slots ≡ rounds)
        × ((j : ℕ) (slot : Slot)
            → get_elem? slots j ≡ some slot
            → IsSlotAt limits start (index + j) slot)
  unfolding create_slots
  create_slots-IsSlotAt zero index m slots l h =
      let e : slots ≡ [] = ground arith in rw e (refl, λ j slot g. absurd (ground arith))
  create_slots-IsSlotAt (suc rounds) index m slots l h =
      let n : ℕ = sum_of limits in
      let one = create_slot k config start limits index in
      let rest = create_slots k config start limits rounds (index + 1) in
      let (slot, first, then_) = continue-eq-ok (one m) (λ a. rest >>= λ b. pure (a ∷ b)) h in
      let (others, second, then_') =
        continue-eq-ok (rest (one m).1) (λ b. pure (slot ∷ b)) (rw then_ at h) in
      let e : slots ≡ slot ∷ others = ground (arith, h, then_, then_') in
      let next : (index + suc rounds) * n ≡ index * n + n + rounds * n = grind arith in
      let next' : (index + 1 + rounds) * n ≡ index * n + n + rounds * n = grind arith in
      let here = layout_slot-IsSlotAt index (omega (arith, next)) in
      let at_ = create_slot-eq-ok index m slot (omega (arith, next)) first in
      let (len, each) =
        create_slots-IsSlotAt rounds (index + 1) (one m).1 others (omega (arith, next, next'))
          second in
      rw e (omega (arith, len), λ j s g. by_index slot others (rw at_ here) each j s g)
    where
      by_index :
          (slot : Slot) (others : List Slot)
          → IsSlotAt limits start index slot
          → ((j : ℕ) (s : Slot)
              → get_elem? others j ≡ some s
              → IsSlotAt limits start (index + 1 + j) s)
          → (j : ℕ) (s : Slot) → get_elem? (slot ∷ others) j ≡ some s
          → IsSlotAt limits start (index + j) s
      by_index slot others here each zero s g =
          let e : slot ≡ s = ground arith in
          let i : index + 0 ≡ index = omega arith in
          rw i (subst (IsSlotAt limits start index) e here)
      by_index slot others here each (suc j) s g =
          let i : index + suc j ≡ index + 1 + j = omega arith in rw i (each j s g)

-- What the checks of `create` and the operating system have granted.
record Granted (setup : Setup) (capacity : ℕ) (limits : Limits) (start : ℕ) : Type 0 where
  nonempty : 0 < capacity
  valid : IsValid limits
  total : total_memory_size limits ≡ ok (sum_of limits)
  size : capacity * sum_of limits < usize_mod
  mapped : setup.maps (capacity * sum_of limits) ≡ some start

module _ (k : Userfault) (setup : Setup) (capacity : ℕ) (limits : Limits) (m : k.Mem) where
  total_cases : (total_memory_size limits ≡ ok (sum_of limits)) ⊎ (total_memory_size limits ≡ panic)
  total_cases = elim (Bool-cases (ltb (sum_of limits) usize_mod)) [
    | inl small ↦ inl ((total_memory_size_lem limits).0 (ground arith))
    | inr large ↦ inr ((total_memory_size_lem limits).1 (ground arith))
  ]

  map_region-Granted :
      (start : ℕ)
      → (map_region k setup capacity limits m).0 ≡ ok start
      → Granted setup capacity limits start × ((map_region k setup capacity limits m).1 ≡ m)
  unfolding map_region
  map_region-Granted start h = elim (ok-cases (validate limits)) [
    | inl (_, v) ↦ elim total_cases [
      | inl t ↦ (
        record {
          nonempty = ground (arith, v, t, h);
          valid = (validate-IsValid limits).0 v;
          total = t;
          size = ground (arith, v, t, h);
          mapped = ground (arith, v, t, h);
        },
        ground (arith, v, t, h),
      )
      | inr t ↦ absurd (ground (arith, v, t, h))
    ]
    | inr v ↦ absurd (ground (arith, v, h))
  ]

-- A region that was created with success has as many free slots as its capacity, at least one, and
-- ends inside the address space; each slot lies right behind those before it, laid out by the
-- limits, which are valid.
pub create-IsSlotAt :
    (k : Userfault) (setup : Setup) (capacity : ℕ) (limits : Limits) (config : UffdConfig)
    (m : k.Mem) (region : Region) (start i : ℕ) (slot : Slot)
    → MapsPages setup
    → (create k setup capacity limits config m).0 ≡ ok (region, start)
    → get_elem? region.freelist i ≡ some slot
    → IsValid limits
      × (0 < capacity)
      × (region.capacity ≡ capacity)
      × (length region.freelist ≡ capacity)
      × (region.limits ≡ limits)
      × (0 < start)
      × (start + sum_of limits * capacity < usize_mod)
      × IsSlotAt limits start i slot
unfolding create
create-IsSlotAt k setup capacity limits config m region start i slot law h g =
    let map_ = map_region k setup capacity limits in
    let rest = λ (a : ℕ). create_slots k config a limits capacity 0 >>= λ slots.
    pure (record { capacity = capacity; freelist = slots; limits = limits }, a) in
    let (a, first, then_) = continue-eq-ok (map_ m) rest h in
    let made = create_slots k config a limits capacity 0 in
    let (slots, second, then_') =
      continue-eq-ok (made (map_ m).1)
        (λ slots. pure (record { capacity = capacity; freelist = slots; limits = limits }, a))
        (rw then_ at h) in
    let (granted, _) = map_region-Granted k setup capacity limits m a first in
    let (aligned, pos, small) = law (capacity * sum_of limits) a granted.mapped in
    let comm : (0 + capacity) * sum_of limits ≡ capacity * sum_of limits =
      ap (λ (c : ℕ). c * sum_of limits) (omega arith) in
    let comm' = mul_comm (sum_of limits) capacity in
    let (len, each) =
      create_slots-IsSlotAt k config a limits granted.valid aligned capacity 0 (map_ m).1 slots
        (omega (arith, comm, small)) second in
    let same : region ≡ record { capacity = capacity; freelist = slots; limits = limits } =
      ground (arith, h, then_, then_') in
    let first_at : 0 + i ≡ i = omega arith in
    let at_ : start ≡ a = ground (arith, h, then_, then_') in
    rw (same, at_)
      (
        granted.valid,
        granted.nonempty,
        refl,
        len,
        refl,
        pos,
        omega (arith, comm', small),
        subst (λ j. IsSlotAt limits a j slot) first_at (each i slot (rw same at g)),
      )

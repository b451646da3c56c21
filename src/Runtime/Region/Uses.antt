-- ===== src/Runtime/Region/Uses.antt =====
-- The slots of a region over any sequence of instances.
use lucet.Prelude.{
  ℕ, zero, suc, ◌+◌, ◌≤◌, ◌<◌, ◌≡◌, inl, inr, arith, refl, ◌∙◌, some, List, [], ◌∷◌, length, Result,
  ok, err, ok-cases, usize_mod, if◌then◌else◌, ◌==◌,
}
use lucet.Prelude.Sums.{total}
use lucet.Runtime.Error.{Error, region_full}
use lucet.Runtime.Limits.{Limits}
use lucet.Runtime.Slot.{Slot}
use lucet.Runtime.Alloc.{AllocStrategy, next_slot}
use lucet.Runtime.Alloc.Bounds.{Draws, next_slot_in_range}
use lucet.Runtime.Region.{
  Region, free_slots, used_slots, swap_remove, take_slot, give_back, create, create_slots,
}
use lucet.Runtime.Region.Slots.{
  swap_remove-total, swap_remove-some, total-append, total-nil, total-cons, total-length,
}

-- A region with the slots that allocs have.
pub record Uses : Type 0 where
  pub region : Region
  pub used : List Slot

-- What any sequence of new instances and dropped allocs leads to.
pub data Reach (u : Uses) : Uses → Type 0 where
  start : Reach u u
  takes :
      {r r' : Region} {used : List Slot} {slot : Slot} (strategy : AllocStrategy)
      → Reach u (record { region = r; used = used })
      → take_slot strategy r ≡ (ok slot, r')
      → Reach u (record { region = r'; used = slot ∷ used })
  gives :
      {r : Region} {used rest : List Slot} {slot : Slot} (i : ℕ)
      → Reach u (record { region = r; used = used })
      → swap_remove used i ≡ some (slot, rest)
      → Reach u (record { region = give_back slot r; used = rest })

take_slot-eq-ok :
    (strategy : AllocStrategy) (r r' : Region) (slot : Slot)
    → take_slot strategy r ≡ (ok slot, r')
    → (i : ℕ) × (swap_remove r.freelist i ≡ some (slot, r'.freelist)) × (r'.capacity ≡ r.capacity)
unfolding take_slot
take_slot-eq-ok strategy r r' slot h =
    elim (ok-cases (next_slot strategy (length r.freelist) r.capacity)) [
      | inl (i, q) ↦ (i, ground (arith, q, h), ground (arith, q, h))
      | inr bad ↦ absurd (ground (arith, bad, h))
    ]

-- Any weight of the slots, free and used, is that of the slots at the start, and the capacity stays.
record Conserved (f : Slot → ℕ) (u w : Uses) : Type 0 where
  weight : total f w.region.freelist + total f w.used ≡ total f u.region.freelist + total f u.used
  capacity : w.region.capacity ≡ u.region.capacity

Reach-Conserved : (f : Slot → ℕ) (u w : Uses) → Reach u w → Conserved f u w
unfolding give_back
Reach-Conserved f u w start = record { weight = refl; capacity = refl }
Reach-Conserved f u w (takes {r = r} {r' = r'} {used = used} {slot = slot} strategy before h) =
    let c = Reach-Conserved f u _ before in
    let (i, q, same) = take_slot-eq-ok strategy r r' slot h in
    record {
      weight = omega (
        arith,
        c.weight,
        swap_remove-total f r.freelist i slot r'.freelist q,
        total-cons f slot used,
      );
      capacity = same ∙ c.capacity;
    }
Reach-Conserved f u w (gives {r = r} {used = used} {rest = rest} {slot = slot} i before h) =
    let c = Reach-Conserved f u _ before in
    record {
      weight = omega (
        arith,
        c.weight,
        swap_remove-total f used i slot rest h,
        total-append f r.freelist (slot ∷ []),
        total-cons f slot [],
        total-nil f,
      );
      capacity = c.capacity;
    }

-- A region before its first instance.
abbrev pub unused : Region → Uses
unused r = record { region = r; used = [] }

abbrev pub starts_at : ℕ → Slot → ℕ
starts_at a slot = if slot.start == a then 1 else 0

-- If no two slots of a new region start at the same address, then over any sequence of new instances
-- and dropped allocs no slot is with two allocs, and none that an alloc has is free; and every slot
-- is still free or with an alloc.
pub slots_conserved :
    (r : Region) (w : Uses)
    → Reach (unused r) w
    → (a : ℕ) → total (starts_at a) r.freelist ≤ 1
    → (total (starts_at a) w.region.freelist + total (starts_at a) w.used ≤ 1)
      × (total (starts_at a) w.region.freelist + total (starts_at a) w.used
          ≡ total (starts_at a) r.freelist)
slots_conserved r w reach a once =
    let c = Reach-Conserved (starts_at a) (unused r) w reach in
    (
      omega (arith, c.weight, total-nil (starts_at a), once),
      omega (arith, c.weight, total-nil (starts_at a)),
    )

create_slots-length :
    (maps : ℕ → Result Error ℕ) (limits : Limits) (k n : ℕ) (slots : List Slot)
    → create_slots maps limits k n ≡ ok slots
    → length slots ≡ n
unfolding create_slots
create_slots-length maps limits k zero slots h = ground (arith, h)
create_slots-length maps limits k (suc n) slots h =
    elim (ok-cases (create_slots maps limits (k + 1) n)) [
      | inl (rest, q) ↦ ground (arith, h, q, create_slots-length maps limits (k + 1) n rest q)
      | inr bad ↦ absurd (ground (arith, h, bad))
    ]

create-length :
    (maps : ℕ → Result Error ℕ) (n : ℕ) (limits : Limits) (r : Region)
    → create maps n limits ≡ ok r
    → (length r.freelist ≡ n) × (r.capacity ≡ n)
unfolding create
create-length maps n limits r h = elim (ok-cases (create_slots maps limits 0 n)) [
  | inl (slots, q) ↦ ground (arith, h, q, create_slots-length maps limits 0 n slots q)
  | inr bad ↦ absurd (ground (arith, h, bad))
]

-- After any sequence of new instances and dropped allocs on a region that was created for `n`
-- instances, `free_slots` and `used_slots` add up to `n`, and `used_slots` is the number of allocs.
used_slots_exact :
    (maps : ℕ → Result Error ℕ) (n : ℕ) (limits : Limits) (r : Region) (w : Uses)
    → n < usize_mod
    → create maps n limits ≡ ok r
    → Reach (unused r) w
    → (used_slots w.region ≡ length w.used) × (free_slots w.region + used_slots w.region ≡ n)
unfolding used_slots
used_slots_exact maps n limits r w fits h reach =
    let c = Reach-Conserved (λ (s : Slot). 1) (unused r) w reach in
    let (len, cap) = create-length maps n limits r h in
    ground (
      arith,
      c,
      len,
      cap,
      total-length w.region.freelist,
      total-length w.used,
      total-length r.freelist,
      total-nil (λ (s : Slot). 1),
    )

-- A region with a free slot hands one out, whatever the strategy, as long as the generator draws in
-- range; a full region returns the error with its capacity, and does not change.
take_slot_lem :
    (strategy : AllocStrategy) (r : Region)
    → Draws strategy
    → (0 < length r.freelist
        → (slot : Slot) × (r' : Region) × (take_slot strategy r ≡ (ok slot, r')))
      × (length r.freelist ≡ 0 → take_slot strategy r ≡ (err (region_full r.capacity), r))
unfolding take_slot
take_slot_lem strategy r draws =
    let (free, full) = next_slot_in_range strategy (length r.freelist) r.capacity draws in
    (
      λ h.
          let (i, q, fits) = free h in
          let (slot, rest, s) = swap_remove-some r.freelist i fits in
          (slot, record r { freelist = rest }, rw (q, s) refl),
      λ h. rw (full h) refl,
    )

-- ===== src/Runtime/Alloc/Bounds.antt =====
-- What a caller may rely on: checked guest ranges, and the index of the next slot.
use lucet.Prelude.{ℕ, ◌+◌, ◌-◌, ◌≤◌, ◌<◌, ◌≡◌, ◌↔◌, arith, some, true, ok, err, usize_mod}
use lucet.Runtime.Error.{region_full}
use lucet.Runtime.Slot.{Slot}
use lucet.Runtime.Alloc.{Alloc, AllocStrategy, linear, random, mem_in_heap, next_slot}

-- For a heap inside the address space, a guest range passes exactly if it starts in the accessible
-- heap and ends no later than it, with the end taken over the integers: a range whose end wraps
-- around the address space is refused.
mem_in_heap_exact :
    (a : Alloc) (slot : Slot) (start len : ℕ)
    → a.slot ≡ some slot
    → slot.heap + a.heap_accessible_size < usize_mod
    → start < usize_mod
    → len < usize_mod
    → (mem_in_heap a start len ≡ ok true) ↔ (
        (slot.heap ≤ start)
        × (start < slot.heap + a.heap_accessible_size)
        × (start + len ≤ slot.heap + a.heap_accessible_size))
unfolding mem_in_heap
mem_in_heap_exact a slot start len e fits s l = (λ h. ground arith, λ h. ground arith)

-- `Rng::gen_range(0, n)` returns a number below `n`.
abbrev pub Draws : AllocStrategy → Type 0
Draws linear = Unit {0}
Draws (random gen_range) = (n : ℕ) → 0 < n → gen_range n < n

-- A free region yields the index of a free slot, and a full one the error with its capacity.
pub next_slot_in_range :
    (strategy : AllocStrategy) (free capacity : ℕ)
    → Draws strategy
    → (0 < free → (i : ℕ) × (next_slot strategy free capacity ≡ ok i) × (i < free))
      × (free ≡ 0 → next_slot strategy free capacity ≡ err (region_full capacity))
unfolding next_slot
next_slot_in_range linear free capacity d =
    (λ h. (free - 1, ground arith, omega arith), λ h. ground arith)
next_slot_in_range (random gen) free capacity d =
    (λ h. (gen free, ground arith, d free h), λ h. ground arith)

-- ===== src/Tests/Regions.antt =====
-- A region for two instances.
use lucet.Prelude.{ℕ, ◌+◌, ◌*◌, ◌≤◌, ◌≡◌, refl, arith, [], ◌∷◌, ok, Result}
use lucet.Prelude.Sums.{total}
use lucet.Runtime.Error.{Error}
use lucet.Runtime.Limits.{validate, total_memory_size}
use lucet.Runtime.Slot.{Slot, layout}
use lucet.Runtime.Alloc.{linear, next_slot}
use lucet.Runtime.Region.{Region, swap_remove, create_slot, create_slots, create, take_slot}
use lucet.Runtime.Region.Uses.{Uses, Reach, start, takes, unused, starts_at, slots_conserved}
use lucet.Tests.Data.{small_limits, slot_at_1m}

-- The mappings lie 1 MiB apart.
abbrev maps : ℕ → Result Error ℕ
maps k = ok (1048576 + k * 1048576)

abbrev slot_at_2m : Slot
slot_at_2m = record {
  start = 2097152;
  heap = 2101248;
  stack = 2121728;
  globals = 2129920;
  sigstack = 2138112;
  limits = small_limits;
}

abbrev two_slots : Region
two_slots = record { capacity = 2; freelist = slot_at_1m ∷ slot_at_2m ∷ []; limits = small_limits }

creates : create maps 2 small_limits ≡ ok two_slots
unfolding create create_slots create_slot validate layout total_memory_size
creates = refl

abbrev one_used : Uses
one_used = record {
  region = record two_slots { freelist = slot_at_1m ∷ [] };
  used = slot_at_2m ∷ [];
}

one_used-Reach : Reach (unused two_slots) one_used
unfolding take_slot swap_remove next_slot
one_used-Reach = takes linear start refl

one_such_slot : total (starts_at 2097152) two_slots.freelist ≤ 1
unfolding total
one_such_slot = omega arith

slots_conserved_example :
    (total (starts_at 2097152) one_used.region.freelist + total (starts_at 2097152) one_used.used
      ≤ 1)
    × (total (starts_at 2097152) one_used.region.freelist + total (starts_at 2097152) one_used.used
        ≡ total (starts_at 2097152) two_slots.freelist)
slots_conserved_example = slots_conserved two_slots one_used one_used-Reach 2097152 one_such_slot

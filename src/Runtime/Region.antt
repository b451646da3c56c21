-- ===== src/Runtime/Region.antt =====
-- `MmapRegion` of lucet-runtime-internals/src/region/mmap.rs as a whole: its slots, those that are
-- free and those that an alloc has.
pub mod Slots
pub mod Uses
use lucet.Prelude.{
  ℕ, zero, suc, ◌+◌, ◌-◌, Option, some, none, List, [], ◌∷◌, ◌++◌, length, get_elem?, set,
  sub_usize, Result, ok, err, panic, expect, ◌>>=◌, ◌>>◌,
}
use lucet.Runtime.Error.{Error}
use lucet.Runtime.Limits.{Limits, validate, total_memory_size}
use lucet.Runtime.Slot.{Slot, layout}
use lucet.Runtime.Alloc.{AllocStrategy, next_slot}

-- `min_heap_alignment` is 0, its default; the lock of the free list is held over each operation.
pub record Region : Type 0 where
  pub capacity : ℕ
  pub freelist : List Slot
  pub limits : Limits

unfoldable pub free_slots : Region → ℕ
free_slots r = length r.freelist

unfoldable pub used_slots : Region → ℕ
unfolding free_slots
used_slots r = sub_usize r.capacity (free_slots r)

-- All but the last element, which `Vec::pop` removes.
abbrev pub but_last : {A : Type 0} → List A → List A
but_last [] = []
but_last (x ∷ []) = []
but_last (x ∷ y ∷ ys) = x ∷ but_last (y ∷ ys)

abbrev pub last_or : {A : Type 0} → A → List A → A
last_or a [] = a
last_or a (x ∷ xs) = last_or x xs

-- `Vec::swap_remove`: the last element takes the place of the one that is removed; it panics past the
-- end.
unfoldable pub swap_remove : {A : Type 0} → List A → ℕ → Option (A × List A)
swap_remove xs i = elim (get_elem? xs i) [
  | none ↦ none
  | some x ↦ some (x, but_last (set xs i (last_or x xs)))
]

-- `create_slot`, for what the `k`-th mapping gives: its address, or the error of a system call.
unfoldable pub create_slot : (ℕ → Result Error ℕ) → Limits → ℕ → Result Error Slot
create_slot maps limits k = do total ← total_memory_size limits; mem ← maps k; layout limits mem

unfoldable pub create_slots : (ℕ → Result Error ℕ) → Limits → ℕ → ℕ → Result Error (List Slot)
create_slots maps limits k zero = ok []
create_slots maps limits k (suc n) = do
  slot ← create_slot maps limits k
  slots ← create_slots maps limits (k + 1) n
  ok (slot ∷ slots)

-- `MmapRegion::create`
unfoldable pub create : (ℕ → Result Error ℕ) → ℕ → Limits → Result Error Region
create maps instance_capacity limits = do
  validate limits
  slots ← create_slots maps limits 0 instance_capacity
  ok (record { capacity = instance_capacity; freelist = slots; limits = limits })

abbrev taken : Region → Result Error (Slot × List Slot) → Result Error Slot × Region
taken r (ok (slot, rest)) = (ok slot, record r { freelist = rest })
taken r (err e) = (err e, r)
taken r panic = (panic, r)

-- The part of `new_instance_with` under the lock of the free list.
unfoldable pub take_slot : AllocStrategy → Region → Result Error Slot × Region
take_slot strategy r = taken r do
  slot_index ← next_slot strategy (length r.freelist) r.capacity
  expect (swap_remove r.freelist slot_index)

-- The end of `drop_alloc`: the push on the free list.
unfoldable pub give_back : Slot → Region → Region
give_back slot r = record r { freelist = r.freelist ++ slot ∷ [] }

-- ===== src/Runtime/Slot/Location.antt =====
-- The layout of a slot, and the exact meaning of `addr_location` on it.
use lucet.Prelude.{
  ℕ, ◌+◌, ◌≤◌, ◌<◌, ◌≡◌, arith, ok, ◌∙◌, usize_mod, add_usize, sub_usize, ltb, if◌then◌else◌, refl,
}
use lucet.Runtime.Limits.{Limits, instance_heap_offset}
use lucet.Runtime.Limits.Valid.{sum_of, total_memory_size_lem}
use lucet.Runtime.Slot.{
  Slot, layout, addr_location, in_range, AddrLocation, in_heap, inaccessible_heap, stack_guard,
  in_stack, in_globals, sig_stack_guard, sig_stack, unknown,
}

-- A slot whose sections follow each other without a gap, each where the one before it ends, with
-- one page in front of the heap, the stack and the signal stack.
pub record IsLaidOut (s : Slot) : Type 0 where
  pub heap_at : s.heap ≡ s.start + 4096
  pub stack_at : s.stack ≡ s.heap + s.limits.heap_address_space_size + 4096
  pub globals_at : s.globals ≡ s.stack + s.limits.stack_size
  pub sigstack_at : s.sigstack ≡ s.globals + s.limits.globals_size + 4096
  pub in_space : s.start + sum_of s.limits < usize_mod

unfoldable pub layout_slot : Limits → ℕ → Slot
layout_slot l mem = record {
  start = mem;
  heap = mem + 4096;
  stack = mem + 4096 + l.heap_address_space_size + 4096;
  globals = mem + 4096 + l.heap_address_space_size + 4096 + l.stack_size;
  sigstack = mem + 4096 + l.heap_address_space_size + 4096 + l.stack_size + l.globals_size + 4096;
  limits = l;
}

-- The layout of a mapping that ends inside the address space passes its own assertion, and yields
-- the contiguous slot that starts at the mapping.
layout-IsLaidOut :
    (l : Limits) (mem : ℕ)
    → mem + sum_of l < usize_mod
    → (s : Slot) × (layout l mem ≡ ok s) × IsLaidOut s × (s.start ≡ mem) × (s.limits ≡ l)
unfolding layout layout_slot instance_heap_offset
layout-IsLaidOut l mem h =
    (layout_slot l mem, ground (arith, total_memory_size_lem l), ground arith, refl, refl)

-- The section at an offset from the start of a slot, read off the limits alone.
abbrev pub section_at : Limits → ℕ → ℕ → AddrLocation
section_at l accessible off =
    let space_end = 4096 + l.heap_address_space_size in
    let stack_end = space_end + 4096 + l.stack_size in
    let globals_end = stack_end + l.globals_size in
    if ltb off 4096
    then unknown
    else if ltb off (4096 + accessible)
    then in_heap
    else if ltb off space_end
    then inaccessible_heap
    else if ltb off (space_end + 4096)
    then stack_guard
    else if ltb off stack_end
    then in_stack
    else if ltb off globals_end
    then in_globals
    else if ltb off (globals_end + 4096)
    then sig_stack_guard
    else if ltb off (globals_end + 4096 + l.signal_stack_size)
    then sig_stack
    else unknown

-- The tests of `addr_location` once the bounds of the sections are known.
abbrev locate : Limits → ℕ → ℕ → ℕ → AddrLocation
locate l accessible start addr =
    let h = start + 4096 in
    let st = start + (4096 + l.heap_address_space_size + 4096) in
    let g = start + (4096 + l.heap_address_space_size + 4096 + l.stack_size) in
    let sg =
      start + (4096 + l.heap_address_space_size + 4096 + l.stack_size + l.globals_size + 4096) in
    if in_range addr h (start + (4096 + accessible))
    then in_heap
    else if in_range addr (start + (4096 + accessible)) (start + (4096 + l.heap_address_space_size))
    then inaccessible_heap
    else if in_range addr (start + (4096 + l.heap_address_space_size)) st
    then stack_guard
    else if in_range addr st g
    then in_stack
    else if in_range addr g
        (start + (4096 + l.heap_address_space_size + 4096 + l.stack_size + l.globals_size))
    then in_globals
    else if in_range addr
        (start + (4096 + l.heap_address_space_size + 4096 + l.stack_size + l.globals_size)) sg
    then sig_stack_guard
    else if in_range addr sg (
        start
        + (4096 + l.heap_address_space_size + 4096 + l.stack_size + l.globals_size + 4096
            + l.signal_stack_size))
    then sig_stack
    else unknown

in_range-add : (s off a b : ℕ) → in_range (s + off) (s + a) (s + b) ≡ in_range off a b
in_range-add s off a b = ground arith

locate_inside :
    (l : Limits) (accessible start off : ℕ)
    → accessible ≤ l.heap_address_space_size
    → locate l accessible start (start + off) ≡ section_at l accessible off
locate_inside l accessible start off h = simp in_range-add (ground arith)

locate_below :
    (l : Limits) (accessible start addr : ℕ)
    → addr < start
    → locate l accessible start addr ≡ unknown
locate_below l accessible start addr h = ground arith

module _ (s : Slot) (accessible : ℕ) (w : IsLaidOut s)
    (fits : accessible ≤ s.limits.heap_address_space_size) where
  addr_location-locate :
      (addr : ℕ) → addr_location s accessible addr ≡ locate s.limits accessible s.start addr
  unfolding addr_location
  addr_location-locate addr =
      let l = s.limits in
      let e0 : s.heap ≡ s.start + 4096 = omega arith in
      let e1 : add_usize s.heap accessible ≡ s.start + (4096 + accessible) = omega arith in
      let e2 : add_usize s.heap l.heap_address_space_size
          ≡ s.start + (4096 + l.heap_address_space_size) =
        omega arith in
      let e3 : sub_usize s.stack 4096 ≡ s.start + (4096 + l.heap_address_space_size) =
        omega arith in
      let e4 : s.stack ≡ s.start + (4096 + l.heap_address_space_size + 4096) = omega arith in
      let e5 : add_usize s.stack l.stack_size
          ≡ s.start + (4096 + l.heap_address_space_size + 4096 + l.stack_size) =
        omega arith in
      let e6 : s.globals ≡ s.start + (4096 + l.heap_address_space_size + 4096 + l.stack_size) =
        omega arith in
      let e7 : add_usize s.globals l.globals_size
          ≡ s.start + (4096 + l.heap_address_space_size + 4096 + l.stack_size + l.globals_size) =
        omega arith in
      let e8 : sub_usize s.sigstack 4096
          ≡ s.start + (4096 + l.heap_address_space_size + 4096 + l.stack_size + l.globals_size) =
        omega arith in
      let below : ℕ =
        4096 + l.heap_address_space_size + 4096 + l.stack_size + l.globals_size + 4096 in
      let e9 : s.sigstack ≡ s.start + below = omega arith in
      let e10 : add_usize s.sigstack l.signal_stack_size ≡ s.start + (below + l.signal_stack_size) =
        omega arith in
      cc

  -- An address at an offset from the start of the slot is classified by its section: the sections
  -- cover the slot, do not overlap, and have the sizes that the limits give them.
  pub addr_location_inside :
      (off : ℕ) → addr_location s accessible (s.start + off) ≡ section_at s.limits accessible off
  addr_location_inside off =
      addr_location-locate (s.start + off) ∙ locate_inside s.limits accessible s.start off fits

  -- An address in front of the slot is unknown.
  addr_location_below : (addr : ℕ) → addr < s.start → addr_location s accessible addr ≡ unknown
  addr_location_below addr h =
      addr_location-locate addr ∙ locate_below s.limits accessible s.start addr h

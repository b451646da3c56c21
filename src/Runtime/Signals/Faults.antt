-- ===== src/Runtime/Signals/Faults.antt =====
-- What the signal handler records.
use lucet.Prelude.{
  ℕ, ◌+◌, ◌-◌, ◌≤◌, Bool, true, false, not, ◌≡◌, ◌≢◌, ◌⊎◌, inl, inr, ◌↔◌, ◌||◌, ◌&&◌, refl, arith,
  Option, none, some, ok, add_usize, sub_usize, if◌then◌else◌, ◌∙◌,
}
use lucet.Runtime.Error.{TrapCode, FaultDetails}
use lucet.Runtime.Slot.{
  Slot, AddrLocation, in_heap, inaccessible_heap, stack_guard, in_stack, in_globals,
  sig_stack_guard, sig_stack, unknown, is_fault_fatal, in_range,
}
use lucet.Runtime.Slot.Location.{IsLaidOut}
use lucet.Runtime.Slot
use lucet.Runtime.Alloc.{addr_location}
use lucet.Runtime.Kill.{on_fatal_signal, alarm_active, signal}
use lucet.Runtime.Instance.{Instance, faulted, terminating}
use lucet.Runtime.Signals.{
  Signal, sigalrm, SignalBehavior, by_default, continues, terminates, is_unknown, is_memory_signal,
  outside_guard, handle_signal,
}

-- An address in the heap's address space, the stack or its guard page, the globals, or the signal
-- stack: all sections of a slot but its first page and the guard page of the signal stack.
abbrev pub in_sections : Slot → ℕ → Bool
in_sections s addr =
    in_range addr s.heap (s.heap + s.limits.heap_address_space_size)
    || in_range addr (s.stack - 4096) (s.stack + s.limits.stack_size)
    || in_range addr s.globals (s.globals + s.limits.globals_size)
    || in_range addr s.sigstack (s.sigstack + s.limits.signal_stack_size)

-- The sections of the cascade in `addr_location`, of which the signal stack's do not overlap.
cascade_fatal :
    (b1 b2 b3 b4 b5 b6 b7 : Bool)
    → (b6 ≡ true → b7 ≡ false)
    → is_fault_fatal (
        if b1
        then in_heap
        else if b2
        then inaccessible_heap
        else if b3
        then stack_guard
        else if b4
        then in_stack
        else if b5
        then in_globals
        else if b6
        then sig_stack_guard
        else if b7
        then sig_stack
        else unknown)
      ≡ not ((b1 || b2) || (b3 || b4) || b5 || b7)
unfolding is_fault_fatal
cascade_fatal true b2 b3 b4 b5 b6 b7 h = refl
cascade_fatal false true b3 b4 b5 b6 b7 h = refl
cascade_fatal false false true b4 b5 b6 b7 h = refl
cascade_fatal false false false true b5 b6 b7 h = refl
cascade_fatal false false false false true b6 b7 h = refl
cascade_fatal false false false false false true b7 h = rw (h refl) refl
cascade_fatal false false false false false false true h = refl
cascade_fatal false false false false false false false h = refl

in_range-join : (x a b d : ℕ) → a ≤ b → b ≤ d → (in_range x a b || in_range x b d) ≡ in_range x a d
in_range-join x a b d h k = ground arith

is_fault_fatal-in_sections :
    (s : Slot) (accessible addr : ℕ)
    → IsLaidOut s
    → accessible ≤ s.limits.heap_address_space_size
    → is_fault_fatal (Slot.addr_location s accessible addr) ≡ not (in_sections s addr)
unfolding Slot.addr_location
is_fault_fatal-in_sections s accessible addr w fits =
    let space : ℕ = s.limits.heap_address_space_size in
    let e1 : add_usize s.heap accessible ≡ s.heap + accessible = omega (arith, w) in
    let e2 : add_usize s.heap space ≡ s.heap + space = omega (arith, w) in
    let e3 : add_usize s.stack s.limits.stack_size ≡ s.stack + s.limits.stack_size =
      omega (arith, w) in
    let e4 : sub_usize s.stack 4096 ≡ s.stack - 4096 = omega (arith, w) in
    let e5 : add_usize s.globals s.limits.globals_size ≡ s.globals + s.limits.globals_size =
      omega (arith, w) in
    let e6 : add_usize s.sigstack s.limits.signal_stack_size
        ≡ s.sigstack + s.limits.signal_stack_size =
      omega (arith, w) in
    let e7 : sub_usize s.sigstack 4096 ≡ s.sigstack - 4096 = omega (arith, w) in
    let apart : in_range addr (s.sigstack - 4096) s.sigstack ≡ true
        → in_range addr s.sigstack (s.sigstack + s.limits.signal_stack_size) ≡ false =
      λ h. ground arith in
    rw (e1, e2, e3, e4, e5, e6, e7)
      (cascade_fatal _ _ _ _ _ _ _ apart
        ∙ rw
            (
              in_range-join addr s.heap (s.heap + accessible) (s.heap + space) (omega arith)
                  (omega arith),
              in_range-join addr (s.stack - 4096) s.stack (s.stack + s.limits.stack_size)
                  (omega arith) (omega arith),
            )
            refl)

module _ {Mem : Type 0} (i : Instance Mem) (slot : Slot) (has : i.machine.alloc.slot ≡ some slot)
    (laid : IsLaidOut slot)
    (fits : i.machine.alloc.heap_accessible_size ≤ slot.limits.heap_address_space_size) where
  -- What a signal other than an alarm leaves, when the handler switches to the host.
  pub record IsRecorded (sig : Signal) (trapcode : Option TrapCode) (rip addr : ℕ)
      (behavior : SignalBehavior) (i' : Instance Mem) : Type 0 where
    pub ended :
        ((behavior ≡ terminates) × (i'.state ≡ terminating signal))
        ⊎ ((behavior ≡ by_default)
            × (d : FaultDetails) × (i'.state ≡ faulted d)
            × (d.trapcode ≡ trapcode)
            × (d.rip_addr ≡ rip)
            × ((d.fatal ≡ true) ↔ (
                (trapcode ≡ none)
                ⊎ ((is_memory_signal sig ≡ true) × (in_sections slot addr ≡ false)))))
    pub not_terminable : i'.kill_state.terminable ≡ false
    pub alarm_ignored : i.kill_state.terminable ≡ false → i'.kill_state.ignore_alarm ≡ true
    pub machine_kept : i'.machine ≡ i.machine

  -- Where the handler of a signal other than an alarm switches to the host, on a slot that is laid
  -- out and has the whole heap: if the instance's own handler asked for it, a termination by the
  -- signal is recorded; otherwise it is a fault, with the trap code and the address of the
  -- instruction, which is fatal exactly if the module has no trap code for the instruction, or the
  -- signal is of a memory fault at an address outside the slot, in its first page, or in the guard
  -- page of the signal stack. The instance then cannot be terminated any more, an alarm of a kill
  -- switch that came first is ignored, and its memory has not changed.
  pub handle_signal-IsRecorded :
      (sig : Signal) (trapcode : Option TrapCode) (behavior : SignalBehavior) (rip addr : ℕ)
      (i' : Instance Mem)
      → sig ≢ sigalrm
      → handle_signal sig trapcode behavior rip addr i ≡ (ok true, i')
      → IsRecorded sig trapcode rip addr behavior i'
  unfolding handle_signal outside_guard addr_location on_fatal_signal
  handle_signal-IsRecorded sig trapcode continues rip addr i' hard h = absurd (ground arith)
  handle_signal-IsRecorded sig trapcode terminates rip addr i' hard h = record {
    ended = inl (refl, ground arith);
    not_terminable = ground arith;
    alarm_ignored = λ t. ground arith;
    machine_kept = ground arith;
  }
  handle_signal-IsRecorded sig trapcode by_default rip addr i' hard h =
      let location : AddrLocation =
        Slot.addr_location slot i.machine.alloc.heap_accessible_size addr in
      let where_ =
        is_fault_fatal-in_sections slot i.machine.alloc.heap_accessible_size addr laid fits in
      record {
        ended = inr (
          refl,
          record {
            fatal = is_unknown trapcode || (is_memory_signal sig && is_fault_fatal location);
            trapcode = trapcode;
            rip_addr = rip;
            rip_addr_details = none;
          },
          ground (arith, has),
          refl,
          refl,
          (λ f. ground (arith, where_), λ f. ground (arith, where_)),
        );
        not_terminable = ground (arith, has);
        alarm_ignored = λ t. ground (arith, has);
        machine_kept = ground (arith, has);
      }

-- The handler lets the guest go on in two cases only, and then changes nothing: an alarm that is to
-- be ignored, and a signal that the instance's own handler wants to continue from.
handle_signal-continued :
    {Mem : Type 0} (sig : Signal) (trapcode : Option TrapCode) (behavior : SignalBehavior)
    (rip addr : ℕ) (i i' : Instance Mem)
    → handle_signal sig trapcode behavior rip addr i ≡ (ok false, i')
    → (i' ≡ i) × (((sig ≡ sigalrm) × (i.kill_state.ignore_alarm ≡ true)) ⊎ (behavior ≡ continues))
unfolding handle_signal outside_guard on_fatal_signal alarm_active
handle_signal-continued sig trapcode behavior rip addr i i' h = ground arith

-- ===== src/Runtime/Instance/Settled.antt =====
-- The states in which an operation of `Instance` leaves it.
use lucet.Prelude.{ℕ, ◌≡◌, ◌≢◌, ◌⊎◌, arith, Bool, true, Option, some, none, ok}
use lucet.Runtime.Module.{Module}
use lucet.Runtime.Val.{Val}
use lucet.Runtime.Vm.{Vm}
use lucet.Runtime.Instance.{
  State, not_started, ready, terminated, bound_expired, transitioning, running, faulted,
  terminating, yielding, yielded, returns, terminates, yields, faults, expires, Swap, not_entered,
  left, Instance, Host, swap_and_return, set_instruction_bound_delta,
}
use lucet.Runtime.Instance.Run.{resume_with_val, resume_bounded}

-- A state that an instance can be in between runs.
abbrev pub IsSettled : State → Type 0
IsSettled not_started = Unit {0}
IsSettled ready = Unit {0}
IsSettled terminated = Unit {0}
IsSettled bound_expired = Unit {0}
IsSettled (faulted d) = Unit {0}
IsSettled (yielded t) = Unit {0}
IsSettled transitioning = ⊥
IsSettled (running a) = ⊥
IsSettled (terminating d) = ⊥
IsSettled (yielding v t) = ⊥

-- The runs that leave a transient state: a fault whose address the dynamic loader does not answer
-- for, and a termination or a yield after which the signal handlers could not be restored.
abbrev pub LeftTransient : Host → Swap → State → Type 0
LeftTransient h (left (faults d) k none) s =
    ((o : Option ℕ) → h.addr_details d.rip_addr ≢ ok o) × (s ≡ transitioning)
LeftTransient h (left (terminates d) k (some e)) s = s ≡ terminating d
LeftTransient h (left (yields v t) k (some e)) s = s ≡ yielding v t
LeftTransient h _ s = ⊥

module _ {Mem : Type 0} (h : Host) where
  swap-IsSettled :
      (i : Instance Mem) (a : Bool) (swap : Swap)
      → IsSettled i.state
      → let s = (swap_and_return h a swap i).1.state in IsSettled s ⊎ LeftTransient h swap s
  unfolding swap_and_return
  swap-IsSettled i a (not_entered e) s = ground arith
  swap-IsSettled i a (left (returns v) k none) s = ground arith
  swap-IsSettled i a (left (terminates d) k none) s = ground arith
  swap-IsSettled i a (left (yields v t) k none) s = ground arith
  swap-IsSettled i a (left expires k none) s = ground arith
  swap-IsSettled i a (left (faults d) k none) s = ground arith
  swap-IsSettled i a (left (returns v) k (some e)) s = ground arith
  swap-IsSettled i a (left (terminates d) k (some e)) s = ground arith
  swap-IsSettled i a (left (yields v t) k (some e)) s = ground arith
  swap-IsSettled i a (left expires k (some e)) s = ground arith
  swap-IsSettled i a (left (faults d) k (some e)) s = ground arith

  bound-state :
      (d : Option ℕ) (i : Instance Mem) → (set_instruction_bound_delta d i).1.state ≡ i.state
  unfolding set_instruction_bound_delta
  bound-state d i = ground arith

module _ (vm : Vm) (h : Host) (swap : Swap) (i : Instance vm.Mem)
    (settled : IsSettled i.state) where
  -- The same holds of a resumption with a value.
  resume_with_val-IsSettled :
      (t val : ℕ) (a : Bool) (bound : Option ℕ)
      → let s = (resume_with_val vm h t val a bound swap i).1.state in
        IsSettled s ⊎ LeftTransient h swap s
  unfolding resume_with_val
  resume_with_val-IsSettled t val a bound =
      let i1 : Instance vm.Mem = record i { resumed_val = some (t, val) } in
      let i2 : Instance vm.Mem = (set_instruction_bound_delta bound i1).1 in
      ground (arith, bound-state h bound i1, swap-IsSettled h i2 a swap, settled)

  -- The same holds of a resumption with a new instruction bound.
  resume_bounded-IsSettled :
      (bound : ℕ)
      → let s = (resume_bounded vm h bound swap i).1.state in IsSettled s ⊎ LeftTransient h swap s
  unfolding resume_bounded
  resume_bounded-IsSettled bound =
      let i2 : Instance vm.Mem = (set_instruction_bound_delta (some bound) i).1 in
      ground (arith, bound-state h (some bound) i, swap-IsSettled h i2 true swap, settled)

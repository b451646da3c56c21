-- ===== src/Runtime/Signals.antt =====
-- `handle_signal` of lucet-runtime-internals/src/instance/signals.rs, on a thread that runs an
-- instance: whether the handler switches to the host, and what it records.
pub mod Faults
use lucet.Prelude.{
  ℕ, Bool, true, false, ◌&&◌, ◌||◌, ◌≡◌, ◌⊎◌, ◌↔◌, inl, inr, refl, arith, Option, none, some,
  if◌then◌else◌, Result, ok, err, panic, ◌>>=◌,
}
use lucet.Runtime.Error.{Error, TrapCode, FaultDetails}
use lucet.Runtime.Slot.{AddrLocation, is_fault_fatal}
use lucet.Runtime.Alloc.{Alloc, addr_location}
use lucet.Runtime.Kill.{
  KillState, KillError, TerminationDetails, signal, remote, alarm_active, on_fatal_signal,
}
use lucet.Runtime.Instance.{State, terminating, faulted, Instance, with_state}

-- `other` is any signal that the handler is not installed for.
pub data Signal : Type 0 where
  sigbus sigsegv sigill sigfpe sigalrm other : Signal

pub data SignalBehavior : Type 0 where
  by_default continues terminates : SignalBehavior

abbrev pub is_memory_signal : Signal → Bool
is_memory_signal sigsegv = true
is_memory_signal sigbus = true
is_memory_signal _ = false

abbrev pub is_unknown : Option TrapCode → Bool
is_unknown none = true
is_unknown (some c) = false

-- Whether a memory fault lies in the guard page of the signal stack or outside the slot.
unfoldable pub outside_guard : Signal → Alloc → ℕ → Result Error Bool
outside_guard sig a addr =
    if is_memory_signal sig
    then (addr_location a addr >>= λ location. ok (is_fault_fatal location))
    else ok false

module _ {Mem : Type 0} where
  -- The end of the handler where it switches to the host.
  abbrev to_host : Instance Mem → Result KillError KillState → Result Error Bool × Instance Mem
  to_host i (ok k) = (ok true, record i { kill_state = k })
  to_host i (err e) = (panic, i)
  to_host i panic = (panic, i)

  abbrev fault_at :
      Option TrapCode → ℕ → Result Error Bool → Instance Mem → Result Error Bool × Instance Mem
  fault_at trapcode rip (ok outside_guard) i =
      let i' : Instance Mem = with_state i (
        faulted (record {
          fatal = is_unknown trapcode || outside_guard;
          trapcode = trapcode;
          rip_addr = rip;
          rip_addr_details = none;
        })) in
      to_host i' (on_fatal_signal i.kill_state)
  fault_at trapcode rip (err e) i = (err e, i)
  fault_at trapcode rip panic i = (panic, i)

  behave :
      SignalBehavior
      → Signal
      → Option TrapCode
      → ℕ
      → ℕ
      → Instance Mem
      → Result Error Bool × Instance Mem
  behave continues sig trapcode rip addr i = (ok false, i)
  behave terminates sig trapcode rip addr i =
      to_host (with_state i (terminating signal)) (on_fatal_signal i.kill_state)
  behave by_default sig trapcode rip addr i =
      fault_at trapcode rip (outside_guard sig i.machine.alloc addr) i

  -- The handler's result says whether to switch to the host. `trapcode` is what the module has for
  -- the instruction at `rip`, and `behavior` the answer of the instance's own handler.
  unfoldable pub handle_signal :
      Signal
      → Option TrapCode
      → SignalBehavior
      → ℕ
      → ℕ
      → Instance Mem
      → Result Error Bool × Instance Mem
  unfolding behave
  handle_signal other trapcode behavior rip addr i = (panic, i)
  handle_signal sigalrm trapcode behavior rip addr i =
      if alarm_active i.kill_state
      then (ok true, with_state i (terminating remote))
      else (ok false, i)
  handle_signal sig trapcode behavior rip addr i = behave behavior sig trapcode rip addr i

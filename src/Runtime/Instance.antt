-- ===== src/Runtime/Instance.antt =====
-- `Instance` of lucet-runtime-internals/src/instance.rs with `State` of instance/state.rs: the
-- states that a run goes through. The guest's side of a context switch is an argument, `Swap`.
pub mod Run
pub mod Settled
pub mod Outcomes
pub mod Memory
pub mod Linear
use lucet.Prelude.{
  ℕ, zero, suc, ◌+◌, ◌-◌, ◌/◌, ◌%◌, ◌^◌, Bool, true, false, not, ◌&&◌, ◌||◌, Option, some, none,
  List, [], ◌∷◌, String, ltb, ◌==◌, length, set, checked_mul_u32, if◌then◌else◌, Result, ok, err,
  panic, fail_if,
}
use lucet.Prelude.Effects.{Eff, ◌>>=◌, ◌>>◌, pure, lift, get, put}
use lucet.LucetModule.Globals.{GlobalSpec, GlobalValue, Global, def, import, init_val}
use lucet.Runtime.Error.{
  Error, FaultDetails, invalid_argument, internal_error, unsupported, runtime_fault,
  runtime_terminated, instance_needs_start, start_already_run, wasm_page_size,
}
use lucet.Runtime.Module.{Module, FunctionHandle, Signature}
use lucet.Runtime.Val.{Val, args_match}
use lucet.Runtime.Kill.{KillState, TerminationDetails, new}
use lucet.Runtime.Vm.{Vm}
use lucet.Runtime.Mmap.{Machine, reset_heap, expand_heap}

-- The signal information of a fault is left out. A yielded value is a number, and so is the type
-- that is expected on resumption.
pub data State : Type 0 where
  not_started ready terminated bound_expired transitioning : State
  running : Bool → State
  faulted : FaultDetails → State
  terminating : TerminationDetails → State
  yielding : ℕ → ℕ → State
  yielded : ℕ → State

abbrev pub is_not_started : State → Bool
is_not_started not_started = true
is_not_started _ = false

abbrev pub is_ready : State → Bool
is_ready ready = true
is_ready _ = false

abbrev pub is_faulted : State → Bool
is_faulted (faulted d) = true
is_faulted _ = false

abbrev pub is_fatal : State → Bool
is_fatal (faulted d) = d.fatal
is_fatal _ = false

abbrev pub is_yielding : State → Bool
is_yielding (yielding v t) = true
is_yielding _ = false

abbrev pub is_bound_expired : State → Bool
is_bound_expired bound_expired = true
is_bound_expired _ = false

pub data RunResult : Type 0 where
  returned_val yielded_val : ℕ → RunResult

pub data InternalRunResult : Type 0 where
  normal : RunResult → InternalRunResult
  expired : InternalRunResult

-- `InternalRunResult::unwrap`
abbrev pub unwrap : InternalRunResult → Result Error RunResult
unwrap (normal r) = ok r
unwrap expired = panic

-- How the guest gives control back, as the code that ends a run records it in the state.
pub data GuestExit : Type 0 where
  returns : ℕ → GuestExit
  terminates : TerminationDetails → GuestExit
  yields : ℕ → ℕ → GuestExit
  faults : FaultDetails → GuestExit
  expires : GuestExit

-- What `with_current_instance` does: it fails before the guest runs, or the guest leaves, with a kill
-- state, and the restoration of the signal handlers may then fail.
pub data Swap : Type 0 where
  not_entered : Error → Swap
  left : GuestExit → KillState → Option Error → Swap

-- The fields that the operations below change. The instruction counters are i64, as words.
pub record Instance (Mem : Type 0) : Type 0 where
  pub state : State
  pub kill_state : KillState
  pub entrypoint : Option FunctionHandle
  pub resumed_val : Option (ℕ × ℕ)
  pub instruction_count_adj : ℕ
  pub instruction_count_bound : ℕ
  pub machine : Machine Mem
  pub globals : List GlobalValue

-- What the runtime asks of assembly and of the dynamic loader.
pub record Host : Type 0 where
  pub addr_details : ℕ → Result Error (Option ℕ)
  pub init_context : List Val → Result Error (Unit {0})

unfoldable pub state_after : GuestExit → Bool → State
state_after (returns v) async_context = running async_context
state_after (terminates d) async_context = terminating d
state_after (yields v t) async_context = yielding v t
state_after (faults d) async_context = faulted d
state_after expires async_context = bound_expired

abbrev pub retval : GuestExit → ℕ
retval (returns v) = v
retval _ = 0

abbrev pub i64_max : ℕ
i64_max = 2 ^ 63 - 1

abbrev pub unwrap_or : Option ℕ → ℕ → ℕ
unwrap_or none d = d
unwrap_or (some v) d = v

abbrev pub Task : Type 0 → Type 0 → Type 0
Task Mem A = Eff (Instance Mem) Error A

-- The state after an error, if the guest has not changed it.
abbrev pub not_run : Bool → State → State
not_run is_start_func (running a) = if is_start_func then not_started else ready
not_run is_start_func s = s

module _ {Mem : Type 0} where
  abbrev pub with_state : Instance Mem → State → Instance Mem
  with_state i s = record i { state = s }

  unfoldable pub faulted_result :
      Result Error (Option ℕ) → FaultDetails → Task Mem InternalRunResult
  faulted_result (err e) d i = (err e, i)
  faulted_result panic d i = (panic, i)
  faulted_result (ok details) d i =
      let d' : FaultDetails = record d { rip_addr_details = details } in
      (if d.fatal then panic else err (runtime_fault d'), with_state i (faulted d'))

  -- The final `match` of `swap_and_return`. A fatal handler does not return: it is a panic here.
  unfoldable pub finish : Host → State → ℕ → Task Mem InternalRunResult
  unfolding faulted_result
  finish h (running a) v i = (ok (normal (returned_val v)), with_state i ready)
  finish h (terminating d) v i = (err (runtime_terminated d), with_state i terminated)
  finish h (yielding val t) v i = (ok (normal (yielded_val val)), with_state i (yielded t))
  finish h (faulted d) v i = faulted_result (h.addr_details d.rip_addr) d i
  finish h bound_expired v i = (ok expired, with_state i bound_expired)
  finish h _ v i = (err (internal_error "impossible state found in swap_and_return"), i)

  unfoldable pub swap_from : Host → Bool → Swap → Bool → Task Mem InternalRunResult
  unfolding finish state_after
  swap_from h is_start_func (not_entered e) async_context i =
      (err e, with_state i (not_run is_start_func (running async_context)))
  swap_from h is_start_func (left x k (some e)) async_context i = (
    err e,
    record i { state = not_run is_start_func (state_after x async_context); kill_state = k },
  )
  swap_from h is_start_func (left x k none) async_context i =
      let st = state_after x async_context in
      finish h st (retval x) (record i {
        state = transitioning;
        kill_state = if not (is_yielding st) && not (is_bound_expired st) then new else k;
      })

  swap_at : Host → Option FunctionHandle → Bool → Swap → Task Mem InternalRunResult
  unfolding swap_from
  swap_at h none async_context s i = (panic, i)
  swap_at h (some f) async_context s i = swap_from h f.is_start_func s async_context i

  unfoldable pub swap_and_return : Host → Bool → Swap → Task Mem InternalRunResult
  unfolding swap_at
  swap_and_return h async_context s i = swap_at h i.entrypoint async_context s i

  -- `set_instruction_bound_delta`; `None` is a bound that is never reached.
  unfoldable pub set_instruction_bound_delta : Option ℕ → Task Mem (Unit {0})
  set_instruction_bound_delta delta i =
      let sum = (i.instruction_count_adj + i.instruction_count_bound) % 2 ^ 64 in
      let delta' = unwrap_or delta i64_max in
      if ltb i64_max delta' then (panic, i) else (
        ok tt,
        record i {
          instruction_count_bound = (sum + delta') % 2 ^ 64;
          instruction_count_adj = (2 ^ 64 - delta') % 2 ^ 64;
        },
      )

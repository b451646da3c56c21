-- ===== src/Runtime/Instance/Run.antt =====
-- The operations of `Instance` that run a guest, and `reset` and `grow_memory`
-- (lucet-runtime-internals/src/instance.rs).
use lucet.Prelude.{
  ℕ, ◌+◌, ◌/◌, Bool, true, false, not, ◌&&◌, ◌||◌, Option, some, none, List, [], ◌∷◌, ltb, ◌==◌,
  length, set, checked_mul_u32, if◌then◌else◌, Result, ok, err, panic, fail_if, expect, ok_or,
}
use lucet.Prelude.Effects.{Eff, ◌>>=◌, ◌>>◌, pure, lift, get, put}
use lucet.LucetModule.Globals.{GlobalSpec, Global, def, import, init_val}
use lucet.Runtime.Error.{
  Error, invalid_argument, internal_error, unsupported, instance_needs_start, start_already_run,
  wasm_page_size,
}
use lucet.Runtime.Module.{Module, FunctionHandle, Signature}
use lucet.Runtime.Val.{Val, c_ptr, args_match}
use lucet.Runtime.Kill.{new}
use lucet.Runtime.Vm.{Vm}
use lucet.Runtime.Mmap.{Machine, reset_heap, expand_heap}
use lucet.Runtime.Instance.{
  State, not_started, ready, yielded, is_not_started, is_ready, is_faulted, is_fatal,
  is_bound_expired, Host, Swap, Task, InternalRunResult, swap_and_return,
  set_instruction_bound_delta,
}

-- The checks at the start of `run_func`.
unfoldable pub check_func : State → FunctionHandle → Result Error (Unit {0})
check_func st func =
    if is_not_started st && not func.is_start_func
    then err instance_needs_start
    else if not (
        is_ready st
        || is_not_started st && func.is_start_func
        || is_faulted st && not (is_fatal st))
    then err (invalid_argument "instance must be ready, starting, or non-fatally faulted")
    else if func.ptr == 0
    then err (invalid_argument "entrypoint function cannot be null")
    else ok tt

unfoldable pub check_args : Signature → List Val → Result Error (Unit {0})
check_args sig args =
    if not (length sig.params == length args)
    then err (invalid_argument "number of arguments is incorrect")
    else if not (args_match sig.params args)
    then err (invalid_argument "entrypoint function signature mismatch")
    else ok tt

-- The check of `resume_with_val` for a value of type `t`.
unfoldable pub check_resume : State → ℕ → Result Error (Unit {0})
check_resume (yielded expecting) t =
    if expecting == t
    then ok tt
    else err
        (invalid_argument "type mismatch between yielded instance expected value and resumed value")
check_resume _ t = err (invalid_argument "can only resume a yielded instance")

-- One round of the loop over the globals; past the end of the slice it panics.
unfoldable pub write_global : {Mem : Type 0} → ℕ → Global → Task Mem (Unit {0})
write_global k (import module_name field) i =
    (err (unsupported "global imports are unsupported"), i)
write_global k (def d) i =
    if ltb k (length i.globals)
    then (ok tt, record i { globals = set i.globals k (init_val d) })
    else (panic, i)

unfoldable pub init_globals : {Mem : Type 0} → List GlobalSpec → ℕ → Task Mem (Unit {0})
init_globals [] k = pure tt
init_globals (g ∷ gs) k = write_global k g.global >> init_globals gs (k + 1)

abbrev pub state_of : Option FunctionHandle → State
state_of none = ready
state_of (some start) = not_started

module _ (vm : Vm) where
  -- `install_activator` changes only saved registers.
  unfoldable pub run_func :
      Host
      → Module
      → FunctionHandle
      → List Val
      → Bool
      → Option ℕ
      → Swap
      → Task vm.Mem InternalRunResult
  run_func h m func args async_context bound swap = do
    i ← get
    lift (check_func i.state func)
    lift (check_args (m.signature_of func.id) args)
    put (record i { entrypoint = some func })
    slot ← lift (expect i.machine.alloc.slot)
    set_instruction_bound_delta bound
    lift (h.init_context (c_ptr slot.heap ∷ args))
    swap_and_return h async_context swap

  -- `resume_with_val_impl`, for a value `val` of type `t`.
  unfoldable pub resume_with_val :
      Host → ℕ → ℕ → Bool → Option ℕ → Swap → Task vm.Mem InternalRunResult
  resume_with_val h t val async_context bound swap = do
    i ← get
    lift (check_resume i.state t)
    put (record i { resumed_val = some (t, val) })
    set_instruction_bound_delta bound
    swap_and_return h async_context swap

  unfoldable pub resume_bounded : Host → ℕ → Swap → Task vm.Mem InternalRunResult
  resume_bounded h bound swap = do
    i ← get
    lift (
        fail_if (not (is_bound_expired i.state)) (
          invalid_argument
            "can only call resume_bounded() on an instance that hit an instruction bound"))
    set_instruction_bound_delta (some bound)
    swap_and_return h true swap

  -- `run_start` once the start function is known.
  start_with : Host → Module → Option FunctionHandle → Swap → Task vm.Mem (Unit {0})
  start_with h m none swap = pure tt
  start_with h m (some start) swap = do
    i ← get
    lift (fail_if (not (is_not_started i.state)) start_already_run)
    r ← run_func h m start [] false none swap
    pure tt

  unfoldable pub run_start : Host → Module → Swap → Task vm.Mem (Unit {0})
  unfolding start_with
  run_start h m swap = start_with h m m.start_func swap

  -- A step of the machine of an instance.
  abbrev pub on_machine : {A : Type 0} → Eff (Machine vm.Mem) Error A → Task vm.Mem A
  on_machine f i = let (r, s) = f i.machine in (r, record i { machine = s })

  unfoldable pub reset : Module → Task vm.Mem (Unit {0})
  reset m = do
    on_machine (reset_heap vm m)
    init_globals m.globals 0
    i ← get
    put (record i { state = state_of m.start_func; kill_state = new })

  unfoldable pub grow_memory : Module → ℕ → Task vm.Mem ℕ
  grow_memory m additional_pages = do
    additional_bytes ← lift (
        ok_or (checked_mul_u32 additional_pages wasm_page_size)
          (internal_error "additional pages larger than wasm address space"))
    orig_len ← on_machine (expand_heap vm additional_bytes m)
    pure (orig_len / wasm_page_size)

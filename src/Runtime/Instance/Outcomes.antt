-- ===== src/Runtime/Instance/Outcomes.antt =====
-- What a run returns, with the state and the kill state that it leaves.
use lucet.Prelude.{
  ℕ, ◌+◌, ◌%◌, ◌^◌, ◌<◌, ◌≤◌, ◌≡◌, ◌≢◌, ◌↔◌, ◌⊎◌, inl, inr, arith, refl, Bool, true, false, List,
  Option, ok, err, panic,
}
use lucet.Runtime.Error.{Error}
use lucet.Runtime.Module.{Module, FunctionHandle}
use lucet.Runtime.Val.{Val}
use lucet.Runtime.Vm.{Vm}
use lucet.Runtime.Instance.{
  State, not_started, ready, faulted, Swap, Instance, Host, set_instruction_bound_delta, unwrap_or,
  i64_max,
}
use lucet.Runtime.Instance.Run.{run_func, check_func, check_args}

-- Whether `run_func` may start this function in this state.
abbrev pub Runnable : State → FunctionHandle → Type 0
Runnable ready f = Unit {0}
Runnable not_started f = f.is_start_func ≡ true
Runnable (faulted d) f = d.fatal ≡ false
Runnable _ f = ⊥

-- The first checks of `run_func` pass exactly for a function that is not null, on an instance that is
-- ready or has faulted non-fatally, or that has not started if the function is the start function.
check_func-Runnable :
    (s : State) (f : FunctionHandle) → (check_func s f ≡ ok tt) ↔ (Runnable s f × (f.ptr ≢ 0))
unfolding check_func
check_func-Runnable s f = (λ p. ground arith, λ p. ground arith)

-- A `run_func` whose function or arguments are refused returns the error of the check, and changes
-- nothing.
run_func_refused :
    (vm : Vm) (h : Host) (m : Module) (f : FunctionHandle) (args : List Val) (a : Bool)
    (bound : Option ℕ) (swap : Swap) (i : Instance vm.Mem) (e : Error)
    → (check_func i.state f ≡ err e)
      ⊎ ((check_func i.state f ≡ ok tt) × (check_args (m.signature_of f.id) args ≡ err e))
    → run_func vm h m f args a bound swap i ≡ (err e, i)
unfolding run_func
run_func_refused vm h m f args a bound swap i e (inl q) = rw q refl
run_func_refused vm h m f args a bound swap i e (inr (p, q)) = rw (p, q) refl

-- A new instruction bound of at most 2^63 - 1 keeps the count, which is the sum of the two fields, and
-- lies above it by the given number, or by 2^63 - 1 where none is given; a larger number panics.
set_instruction_bound_delta_lem :
    {Mem : Type 0} (delta : Option ℕ) (i : Instance Mem)
    → let d = unwrap_or delta i64_max in
      let (r, i') = set_instruction_bound_delta delta i in
      (d ≤ i64_max
        → (r ≡ ok tt)
          × ((i'.instruction_count_adj + i'.instruction_count_bound) % 2 ^ 64
              ≡ (i.instruction_count_adj + i.instruction_count_bound) % 2 ^ 64)
          × ((i'.instruction_count_adj + d) % 2 ^ 64 ≡ 0))
      × (i64_max < d → r ≡ panic)
unfolding set_instruction_bound_delta
set_instruction_bound_delta_lem delta i = (λ p. ground arith, λ p. ground arith)

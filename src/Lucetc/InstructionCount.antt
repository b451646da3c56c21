-- ===== src/Lucetc/InstructionCount.antt =====
-- The instruction counting that lucetc/src/function.rs adds to compiled code.
pub mod Conserved
pub mod Body
use lucet.Prelude.{
  ℕ, zero, suc, ◌+◌, Bool, true, false, Option, none, some, List, [], ◌∷◌, ◌++◌, ◌==◌, get_elem?,
  add_u32, if◌then◌else◌, Result, ok, err, panic, ◌>>=◌, ◌>>◌, expect, assert,
}
use lucet.Lucetc.Error.{Error}

-- The operators that the counting tells apart; `br` and `br_if` with the depth of their target.
pub data Operator : Type 0 where
  block loop if_ else_ end_ unreachable return_ call call_indirect br_table nop drop other :
      Operator
  br br_if : ℕ → Operator

pub record ScopeInfo : Type 0 where
  pub cost : ℕ
  pub is_loop : Bool

-- The code that is added: an addition to the cached counter, the cache stored to and loaded from
-- the instance, and the check that yields where the counter is not negative.
pub data Emit : Type 0 where
  add : ℕ → Emit
  save load check : Emit

-- The stack of scopes with its top first, and the code so far with the latest first.
abbrev pub Counting : Type 0
Counting = List ScopeInfo × List Emit

abbrev pub top_of : List ScopeInfo → Option ScopeInfo
top_of [] = none
top_of (info ∷ scopes) = some info

abbrev pub rest_of : List ScopeInfo → List ScopeInfo
rest_of [] = []
rest_of (info ∷ scopes) = scopes

-- `scope_costs.last_mut().map(|info| info.cost += cost)`
abbrev pub charge : ℕ → List ScopeInfo → List ScopeInfo
charge cost [] = []
charge cost (info ∷ scopes) = record info { cost = add_u32 info.cost cost } ∷ scopes

unfoldable pub op_cost : Operator → ℕ
op_cost block = 0
op_cost unreachable = 0
op_cost return_ = 0
op_cost call = 1
op_cost call_indirect = 2
op_cost if_ = 1
op_cost else_ = 0
op_cost loop = 0
op_cost end_ = 0
op_cost (br depth) = 1
op_cost (br_if depth) = 1
op_cost br_table = 2
op_cost nop = 0
op_cost drop = 0
op_cost other = 1

unfoldable pub flush_counter : Counting → Result Error Counting
flush_counter ([], code) = panic
flush_counter (info ∷ scopes, code) =
    if info.cost == 0
    then ok (info ∷ scopes, code)
    else ok (record info { cost = 0 } ∷ scopes, add info.cost ∷ code)

abbrev pub check_and_save : Bool → Counting → Counting
check_and_save false (scopes, code) = (scopes, code)
check_and_save true (scopes, code) = (scopes, check ∷ save ∷ code)

-- Whether the scope at a depth is a loop.
abbrev pub is_backedge : ℕ → Counting → Result Error Bool
is_backedge relative_depth (scopes, code) = do
  info ← expect (get_elem? scopes relative_depth)
  ok info.is_loop

abbrev pub flush_and : Bool → Counting → Result Error Counting
flush_and do_check_and_save st = do
  st' ← flush_counter st
  ok (check_and_save do_check_and_save st')

-- The flushing behaviour of a reachable operator.
unfoldable pub flush_for : Operator → Counting → Result Error Counting
flush_for unreachable st = flush_and false st
flush_for block st = flush_and false st
flush_for loop st = flush_and false st
flush_for if_ st = flush_and false st
flush_for else_ st = flush_and false st
flush_for return_ st = flush_and true st
flush_for call st = flush_and true st
flush_for call_indirect st = flush_and true st
flush_for br_table st = flush_and true st
flush_for (br relative_depth) st = is_backedge relative_depth st >>= λ is_loop. flush_and is_loop st
flush_for (br_if relative_depth) st =
    is_backedge relative_depth st >>= λ is_loop. flush_and is_loop st
flush_for end_ st = flush_counter st
flush_for nop st = ok st
flush_for drop st = ok st
flush_for other st = ok st

unfoldable pub count : Operator → Bool → Counting → Result Error Counting
unfolding op_cost
count op true (scopes, code) = flush_for op (charge (op_cost op) scopes, code)
count op false (scopes, code) = do
  info ← expect (top_of scopes)
  assert (info.cost == 0)
  ok (scopes, code)

-- The scopes after an operator.
unfoldable pub adjust : Operator → Bool → List ScopeInfo → List ScopeInfo
adjust call reachable scopes = if reachable then charge 1 scopes else scopes
adjust call_indirect reachable scopes = if reachable then charge 1 scopes else scopes
adjust block reachable scopes = record { cost = 0; is_loop = false } ∷ scopes
adjust if_ reachable scopes = record { cost = 0; is_loop = false } ∷ scopes
adjust loop reachable scopes = record { cost = 0; is_loop = true } ∷ scopes
adjust end_ reachable scopes = rest_of scopes
adjust (br depth) reachable scopes = scopes
adjust (br_if depth) reachable scopes = scopes
adjust else_ reachable scopes = scopes
adjust unreachable reachable scopes = scopes
adjust return_ reachable scopes = scopes
adjust br_table reachable scopes = scopes
adjust nop reachable scopes = scopes
adjust drop reachable scopes = scopes
adjust other reachable scopes = scopes

unfoldable pub instrumentation_pre : Operator → Bool → Counting → Result Error Counting
instrumentation_pre op reachable st = do
  (scopes, code) ← count op reachable st
  ok (adjust op reachable scopes, code)

abbrev is_call : Operator → Bool
is_call call = true
is_call call_indirect = true
is_call op = false

unfoldable pub instrumentation_post : Operator → Bool → Counting → Counting
instrumentation_post op true (scopes, code) =
    if is_call op then (scopes, load ∷ code) else (scopes, code)
instrumentation_post op false st = st

unfoldable pub instrumentation_before_func : Bool → Counting
instrumentation_before_func false = (record { cost = 0; is_loop = false } ∷ [], [])
instrumentation_before_func true = (record { cost = 0; is_loop = false } ∷ [], load ∷ [])

unfoldable pub instrumentation_after_func : Bool → Counting → Counting
instrumentation_after_func false st = st
instrumentation_after_func true (scopes, code) = (scopes, save ∷ code)

-- ===== src/Lucetc/InstructionCount/Conserved.antt =====
-- The added code counts every reachable operator, and has counted all where control may leave.
use lucet.Prelude.{
  ℕ, ◌+◌, ◌≤◌, ◌<◌, ◌≡◌, ◌⊎◌, inl, inr, refl, arith, Bool, true, false, ◌&&◌, List, [], ◌∷◌, ◌==◌,
  add_u32, u32_mod, length, if◌then◌else◌, Result, ok, ◌>>=◌, Bool-cases,
}
use lucet.Lucetc.Error.{Error}
use lucet.Lucetc.ModuleInfo.Entries.{get_elem?_within}
use lucet.Lucetc.InstructionCount.{
  Operator, block, loop, if_, else_, end_, unreachable, return_, call, call_indirect, br_table, nop,
  drop, other, br, br_if, ScopeInfo, Emit, add, save, load, check, Counting, rest_of, op_cost,
  flush_counter, flush_and, flush_for, count, adjust, instrumentation_pre, instrumentation_post,
  is_call,
}

-- What is counted and not yet in the counter.
abbrev pub pending : List ScopeInfo → ℕ
pending [] = 0
pending (info ∷ scopes) = info.cost + pending scopes

-- What the code adds to the counter.
abbrev pub emitted : List Emit → ℕ
emitted [] = 0
emitted (add n ∷ code) = n + emitted code
emitted (save ∷ code) = emitted code
emitted (load ∷ code) = emitted code
emitted (check ∷ code) = emitted code

abbrev pub returns : Operator → ℕ
returns op = if is_call op then 1 else 0

-- The cost of an operator, and of the return from it where it is a call.
abbrev pub weight : Operator → Bool → ℕ
weight op true = op_cost op + returns op
weight op false = 0

-- An operator that passes control on to the next one.
abbrev pub is_plain : Operator → Bool
is_plain nop = true
is_plain drop = true
is_plain other = true
is_plain op = false

abbrev pub opened : Operator → ℕ
opened block = 1
opened loop = 1
opened if_ = 1
opened op = 0

abbrev pub closed : Operator → ℕ
closed end_ = 1
closed op = 0

abbrev pub TargetBelow : Operator → ℕ → Type 0
TargetBelow (br depth) n = depth < n
TargetBelow (br_if depth) n = depth < n
TargetBelow op n = Unit {0}

pub record Ready (op : Operator) (reachable : Bool) (st : Counting) : Type 0 where
  pub open_ : 0 < length st.0
  pub inner : pending (rest_of st.0) ≡ 0
  pub idle : reachable ≡ false → pending st.0 ≡ 0
  pub target : TargetBelow op (length st.0)
  pub small : pending st.0 + weight op reachable < u32_mod

pub record Counted (op : Operator) (reachable : Bool) (st st' : Counting) : Type 0 where
  pub conserved : emitted st'.1 + pending st'.0 ≡ emitted st.1 + pending st.0 + weight op reachable
  pub grows : emitted st.1 ≤ emitted st'.1
  pub inner' : pending (rest_of st'.0) ≡ 0
  pub settled :
      (is_plain op ≡ false) ⊎ (reachable ≡ false)
      → pending st'.0 ≡ (if reachable && is_call op then 1 else 0)
  pub depth : length st'.0 + closed op ≡ length st.0 + opened op

abbrev pub step : Operator → Bool → Counting → Result Error Counting
step op reachable st =
    instrumentation_pre op reachable st >>= λ st'. ok (instrumentation_post op reachable st')

abbrev flushed : ScopeInfo → ScopeInfo
flushed info = record info { cost = 0 }

flush_counter-flushed :
    (info : ScopeInfo) (scopes : List ScopeInfo) (code : List Emit)
    → (code' : List Emit) × (flush_counter (info ∷ scopes, code)
        ≡ ok (flushed info ∷ scopes, code'))
      × (emitted code' ≡ emitted code + info.cost)
unfolding flush_counter
flush_counter-flushed info scopes code = elim (Bool-cases (info.cost == 0)) [
  | inl zero_ ↦ (code, ground arith, ground arith)
  | inr more ↦ (add info.cost ∷ code, ground arith, omega arith)
]

flush_and-flushed :
    (b : Bool) (info : ScopeInfo) (scopes : List ScopeInfo) (code : List Emit)
    → (code' : List Emit) × (flush_and b (info ∷ scopes, code) ≡ ok (flushed info ∷ scopes, code'))
      × (emitted code' ≡ emitted code + info.cost)
flush_and-flushed false info scopes code =
    let (code', run, sum) = flush_counter-flushed info scopes code in (code', rw run refl, sum)
flush_and-flushed true info scopes code =
    let (code', run, sum) = flush_counter-flushed info scopes code in
    (check ∷ save ∷ code', rw run refl, sum)

-- Every operator that is not plain is flushed, whatever the check that follows it.
flush_for-flushed :
    (op : Operator) (info : ScopeInfo) (scopes : List ScopeInfo) (code : List Emit)
    → is_plain op ≡ false
    → TargetBelow op (length (info ∷ scopes))
    → (code' : List Emit) × (flush_for op (info ∷ scopes, code) ≡ ok (flushed info ∷ scopes, code'))
      × (emitted code' ≡ emitted code + info.cost)
unfolding flush_for
flush_for-flushed block info scopes code p t = flush_and-flushed false info scopes code
flush_for-flushed loop info scopes code p t = flush_and-flushed false info scopes code
flush_for-flushed if_ info scopes code p t = flush_and-flushed false info scopes code
flush_for-flushed else_ info scopes code p t = flush_and-flushed false info scopes code
flush_for-flushed unreachable info scopes code p t = flush_and-flushed false info scopes code
flush_for-flushed return_ info scopes code p t = flush_and-flushed true info scopes code
flush_for-flushed call info scopes code p t = flush_and-flushed true info scopes code
flush_for-flushed call_indirect info scopes code p t = flush_and-flushed true info scopes code
flush_for-flushed br_table info scopes code p t = flush_and-flushed true info scopes code
flush_for-flushed end_ info scopes code p t = flush_counter-flushed info scopes code
flush_for-flushed (br depth) info scopes code p t =
    let (target, at) = get_elem?_within (info ∷ scopes) depth t in
    rw at (flush_and-flushed target.is_loop info scopes code)
flush_for-flushed (br_if depth) info scopes code p t =
    let (target, at) = get_elem?_within (info ∷ scopes) depth t in
    rw at (flush_and-flushed target.is_loop info scopes code)
flush_for-flushed nop info scopes code p t = absurd (ground arith)
flush_for-flushed drop info scopes code p t = absurd (ground arith)
flush_for-flushed other info scopes code p t = absurd (ground arith)

-- After the flush of a reachable operator, and after the check of an unreachable one.
instrumentation_pre-flushed :
    (op : Operator) (info : ScopeInfo) (scopes : List ScopeInfo) (code : List Emit)
    → is_plain op ≡ false
    → Ready op true (info ∷ scopes, code)
    → (code' : List Emit) × (instrumentation_pre op true (info ∷ scopes, code)
        ≡ ok (adjust op true (flushed info ∷ scopes), code'))
      × (emitted code' ≡ emitted code + info.cost + op_cost op)
unfolding instrumentation_pre count
instrumentation_pre-flushed op info scopes code p r =
    let (code', run, sum) =
      flush_for-flushed op (record info { cost = add_u32 info.cost (op_cost op) }) scopes code p
        r.target in
    (code', rw run refl, omega (arith, sum, r.small, r.inner))

post_emitted :
    (op : Operator) (reachable : Bool) (st : Counting)
    → ((instrumentation_post op reachable st).0 ≡ st.0)
      × (emitted (instrumentation_post op reachable st).1 ≡ emitted st.1)
unfolding instrumentation_post
post_emitted op true (scopes, code) = ground arith
post_emitted op false st = (refl, refl)

-- The scopes that an operator leaves after its flush.
record Adjusted (op : Operator) (info : ScopeInfo) (scopes : List ScopeInfo) : Type 0 where
  sum : pending (adjust op true (flushed info ∷ scopes)) ≡ returns op
  inner' : pending (rest_of (adjust op true (flushed info ∷ scopes))) ≡ 0
  depth :
      length (adjust op true (flushed info ∷ scopes)) + closed op
      ≡ length (info ∷ scopes) + opened op

rest_of_idle : (scopes : List ScopeInfo) → pending scopes ≡ 0 → pending (rest_of scopes) ≡ 0
rest_of_idle [] h = refl
rest_of_idle (info ∷ scopes) h = omega arith

adjust-Adjusted :
    (op : Operator) (info : ScopeInfo) (scopes : List ScopeInfo)
    → is_plain op ≡ false
    → pending scopes ≡ 0
    → Adjusted op info scopes
unfolding adjust
adjust-Adjusted block info scopes p h = record {
  sum = omega arith;
  inner' = omega arith;
  depth = omega arith;
}
adjust-Adjusted loop info scopes p h = record {
  sum = omega arith;
  inner' = omega arith;
  depth = omega arith;
}
adjust-Adjusted if_ info scopes p h = record {
  sum = omega arith;
  inner' = omega arith;
  depth = omega arith;
}
adjust-Adjusted else_ info scopes p h = record {
  sum = omega arith;
  inner' = omega arith;
  depth = omega arith;
}
adjust-Adjusted unreachable info scopes p h = record {
  sum = omega arith;
  inner' = omega arith;
  depth = omega arith;
}
adjust-Adjusted return_ info scopes p h = record {
  sum = omega arith;
  inner' = omega arith;
  depth = omega arith;
}
adjust-Adjusted br_table info scopes p h = record {
  sum = omega arith;
  inner' = omega arith;
  depth = omega arith;
}
adjust-Adjusted (br d) info scopes p h = record {
  sum = omega arith;
  inner' = omega arith;
  depth = omega arith;
}
adjust-Adjusted (br_if d) info scopes p h = record {
  sum = omega arith;
  inner' = omega arith;
  depth = omega arith;
}
adjust-Adjusted call info scopes p h = record {
  sum = omega arith;
  inner' = omega arith;
  depth = omega arith;
}
adjust-Adjusted call_indirect info scopes p h = record {
  sum = omega arith;
  inner' = omega arith;
  depth = omega arith;
}
adjust-Adjusted end_ info scopes p h = record {
  sum = omega arith;
  inner' = rest_of_idle scopes h;
  depth = omega arith;
}
adjust-Adjusted nop info scopes p h = absurd (ground arith)
adjust-Adjusted drop info scopes p h = absurd (ground arith)
adjust-Adjusted other info scopes p h = absurd (ground arith)

step_reachable :
    (op : Operator) (info : ScopeInfo) (scopes : List ScopeInfo) (code : List Emit)
    → is_plain op ≡ false
    → Ready op true (info ∷ scopes, code)
    → (st' : Counting) × (step op true (info ∷ scopes, code) ≡ ok st')
      × Counted op true (info ∷ scopes, code) st'
step_reachable op info scopes code p r =
    let (code', run, sum) = instrumentation_pre-flushed op info scopes code p r in
    let mid : Counting = (adjust op true (flushed info ∷ scopes), code') in
    let a = adjust-Adjusted op info scopes p r.inner in
    let (same, same') = post_emitted op true mid in
    (
      instrumentation_post op true mid,
      rw run refl,
      record {
        conserved = rw (same, same') (omega (arith, sum, a.sum, r.inner));
        grows = rw same' (omega (arith, sum));
        inner' = rw same a.inner';
        settled = λ h. rw same (ground (arith, a.sum));
        depth = rw same a.depth;
      },
    )

step_plain :
    (op : Operator) (info : ScopeInfo) (scopes : List ScopeInfo) (code : List Emit)
    → is_plain op ≡ true
    → Ready op true (info ∷ scopes, code)
    → (st' : Counting) × (step op true (info ∷ scopes, code) ≡ ok st')
      × Counted op true (info ∷ scopes, code) st'
unfolding instrumentation_pre instrumentation_post count flush_for adjust op_cost
step_plain nop info scopes code p r = (
  _,
  refl,
  record {
    conserved = omega (arith, r.small);
    grows = omega arith;
    inner' = r.inner;
    settled = λ h. absurd (ground arith);
    depth = omega arith;
  },
)
step_plain drop info scopes code p r = (
  _,
  refl,
  record {
    conserved = omega (arith, r.small);
    grows = omega arith;
    inner' = r.inner;
    settled = λ h. absurd (ground arith);
    depth = omega arith;
  },
)
step_plain other info scopes code p r = (
  _,
  refl,
  record {
    conserved = omega (arith, r.small);
    grows = omega arith;
    inner' = r.inner;
    settled = λ h. absurd (ground arith);
    depth = omega arith;
  },
)
step_plain block info scopes code p r = absurd (ground arith)
step_plain loop info scopes code p r = absurd (ground arith)
step_plain if_ info scopes code p r = absurd (ground arith)
step_plain else_ info scopes code p r = absurd (ground arith)
step_plain end_ info scopes code p r = absurd (ground arith)
step_plain unreachable info scopes code p r = absurd (ground arith)
step_plain return_ info scopes code p r = absurd (ground arith)
step_plain call info scopes code p r = absurd (ground arith)
step_plain call_indirect info scopes code p r = absurd (ground arith)
step_plain br_table info scopes code p r = absurd (ground arith)
step_plain (br d) info scopes code p r = absurd (ground arith)
step_plain (br_if d) info scopes code p r = absurd (ground arith)

-- What an unreachable operator does to the scopes.
adjust_idle :
    (op : Operator) (info : ScopeInfo) (scopes : List ScopeInfo)
    → pending (info ∷ scopes) ≡ 0
    → (pending (adjust op false (info ∷ scopes)) ≡ 0)
      × (pending (rest_of (adjust op false (info ∷ scopes))) ≡ 0)
      × (length (adjust op false (info ∷ scopes)) + closed op ≡ length (info ∷ scopes) + opened op)
unfolding adjust
adjust_idle block info scopes h = (omega arith, omega arith, omega arith)
adjust_idle loop info scopes h = (omega arith, omega arith, omega arith)
adjust_idle if_ info scopes h = (omega arith, omega arith, omega arith)
adjust_idle else_ info scopes h = (omega arith, omega arith, omega arith)
adjust_idle end_ info scopes h = (omega arith, rest_of_idle scopes (omega arith), omega arith)
adjust_idle unreachable info scopes h = (omega arith, omega arith, omega arith)
adjust_idle return_ info scopes h = (omega arith, omega arith, omega arith)
adjust_idle call info scopes h = (omega arith, omega arith, omega arith)
adjust_idle call_indirect info scopes h = (omega arith, omega arith, omega arith)
adjust_idle br_table info scopes h = (omega arith, omega arith, omega arith)
adjust_idle (br d) info scopes h = (omega arith, omega arith, omega arith)
adjust_idle (br_if d) info scopes h = (omega arith, omega arith, omega arith)
adjust_idle nop info scopes h = (omega arith, omega arith, omega arith)
adjust_idle drop info scopes h = (omega arith, omega arith, omega arith)
adjust_idle other info scopes h = (omega arith, omega arith, omega arith)

step_unreachable :
    (op : Operator) (info : ScopeInfo) (scopes : List ScopeInfo) (code : List Emit)
    → Ready op false (info ∷ scopes, code)
    → (st' : Counting) × (step op false (info ∷ scopes, code) ≡ ok st')
      × Counted op false (info ∷ scopes, code) st'
unfolding instrumentation_pre instrumentation_post count
step_unreachable op info scopes code r =
    let zero_ : (info.cost == 0) ≡ true = ground (arith, r.idle refl) in
    let (sum, inner', depth) = adjust_idle op info scopes (r.idle refl) in
    (
      (adjust op false (info ∷ scopes), code),
      rw zero_ refl,
      record {
        conserved = omega (arith, sum, r.idle refl);
        grows = omega arith;
        inner' = inner';
        settled = λ h. sum;
        depth = depth;
      },
    )

-- The instrumentation of an operator never panics where the scope is open, its branch target exists
-- and nothing is pending in unreachable code. It counts the operator, and the return of a call,
-- exactly once: what the code adds and what is pending grow together by its cost. Only the
-- innermost scope has pending cost, and after an operator that moves control nothing is pending
-- but the return of a call.
pub step-Counted :
    (op : Operator) (reachable : Bool) (st : Counting)
    → Ready op reachable st
    → (st' : Counting) × (step op reachable st ≡ ok st') × Counted op reachable st st'
step-Counted op reachable ([], code) r = absurd (omega (arith, r.open_))
step-Counted op false (info ∷ scopes, code) r = step_unreachable op info scopes code r
step-Counted op true (info ∷ scopes, code) r = elim (Bool-cases (is_plain op)) [
  | inl p ↦ step_plain op info scopes code p r
  | inr p ↦ step_reachable op info scopes code p r
]

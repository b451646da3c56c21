-- ===== src/Lucetc/InstructionCount/Body.antt =====
-- The added code of a whole function body.
use lucet.Prelude.{
  ℕ, ◌+◌, ◌-◌, ◌<◌, ◌≡◌, refl, subst, arith, Bool, true, false, List, [], ◌∷◌, u32_mod, length,
  Result, ok, ◌>>=◌,
}
use lucet.Lucetc.Error.{Error}
use lucet.Lucetc.InstructionCount.{
  Operator, block, loop, if_, else_, end_, unreachable, return_, call, call_indirect, br_table, nop,
  drop, other, br, br_if, Counting, rest_of, instrumentation_before_func,
}
use lucet.Lucetc.InstructionCount.Conserved.{
  pending, emitted, weight, opened, closed, TargetBelow, Counted, step, step-Counted,
}

-- Whether the code behind an operator can be reachable: Cranelift decides it at `else` and `end`.
abbrev pub MayFollow : Operator → Bool → Bool → Type 0
MayFollow else_ r r' = Unit {0}
MayFollow end_ r r' = Unit {0}
MayFollow unreachable r r' = r' ≡ false
MayFollow return_ r r' = r' ≡ false
MayFollow (br depth) r r' = r' ≡ false
MayFollow br_table r r' = r' ≡ false
MayFollow op r r' = r' ≡ r

-- The operators of a body, each with whether the code behind it is reachable.
abbrev pub Body : Type 0
Body = List (Operator × Bool)

-- A body closes the scopes that it opens, and `depth` more, and branches to open ones.
abbrev pub WellNested : ℕ → Bool → Body → Type 0
WellNested depth r [] = depth ≡ 0
WellNested depth r ((op, r') ∷ body) =
    (0 < depth)
    × TargetBelow op depth
    × MayFollow op r r'
    × WellNested (depth + opened op - closed op) r' body

-- The cost of the reachable operators.
abbrev pub total : Bool → Body → ℕ
total r [] = 0
total r ((op, r') ∷ body) = weight op r + total r' body

abbrev pub instrumented : Bool → Body → Counting → Result Error Counting
instrumented r [] st = ok st
instrumented r ((op, r') ∷ body) st = step op r st >>= instrumented r' body

next_idle :
    (op : Operator) (r r' : Bool) (st st' : Counting)
    → MayFollow op r r'
    → Counted op r st st'
    → r' ≡ false
    → pending st'.0 ≡ 0
next_idle block r r' st st' m c h = ground (arith, c.settled)
next_idle loop r r' st st' m c h = ground (arith, c.settled)
next_idle if_ r r' st st' m c h = ground (arith, c.settled)
next_idle else_ r r' st st' m c h = ground (arith, c.settled)
next_idle end_ r r' st st' m c h = ground (arith, c.settled)
next_idle unreachable r r' st st' m c h = ground (arith, c.settled)
next_idle return_ r r' st st' m c h = ground (arith, c.settled)
next_idle call r r' st st' m c h = ground (arith, c.settled)
next_idle call_indirect r r' st st' m c h = ground (arith, c.settled)
next_idle br_table r r' st st' m c h = ground (arith, c.settled)
next_idle (br d) r r' st st' m c h = ground (arith, c.settled)
next_idle (br_if d) r r' st st' m c h = ground (arith, c.settled)
next_idle nop r r' st st' m c h = ground (arith, c.settled)
next_idle drop r r' st st' m c h = ground (arith, c.settled)
next_idle other r r' st st' m c h = ground (arith, c.settled)

body-counted :
    (body : Body) (r : Bool) (st : Counting)
    → WellNested (length st.0) r body
    → pending (rest_of st.0) ≡ 0
    → (r ≡ false → pending st.0 ≡ 0)
    → pending st.0 + total r body < u32_mod
    → (st' : Counting) × (instrumented r body st ≡ ok st')
      × (st'.0 ≡ [])
      × (emitted st'.1 ≡ emitted st.1 + pending st.0 + total r body)
body-counted [] r ([], code) nested inner idle small = (([], code), refl, refl, omega arith)
body-counted [] r (info ∷ scopes, code) nested inner idle small = absurd (omega arith)
body-counted ((op, r') ∷ body) r st (open_, target, follow, nested) inner idle small =
    let (mid, run, c) = step-Counted op r st (record {
      open_ = open_;
      inner = inner;
      idle = idle;
      target = target;
      small = omega arith;
    }) in
    let depth : length st.0 + opened op - closed op ≡ length mid.0 = omega (arith, c.depth) in
    let (st', rest, empty, sum) =
      body-counted body r' mid (subst (λ d. WellNested d r' body) depth nested) c.inner'
        (next_idle op r r' st mid follow c) (omega (arith, c.conserved, c.grows)) in
    (st', rw run rest, empty, omega (arith, sum, c.conserved))

-- The body of a function that closes its scopes, branches to open ones and costs less than 2^32
-- is instrumented without a panic, and its code adds the cost of every reachable operator, and of
-- the return from every reachable call, exactly once.
pub body-total :
    (body : Body)
    → WellNested 1 true body
    → total true body < u32_mod
    → (st' : Counting) × (instrumented true body (instrumentation_before_func true) ≡ ok st')
      × (st'.0 ≡ [])
      × (emitted st'.1 ≡ total true body)
unfolding instrumentation_before_func
body-total body nested small =
    let (st', run, empty, sum) =
      body-counted body true (instrumentation_before_func true) nested (omega arith)
        (λ h. omega arith) (omega arith) in
    (st', run, empty, omega (arith, sum))

-- ===== src/Runtime/Kill/World/Switches.antt =====
-- The moves of a kill switch keep the invariant.
use lucet.Prelude.{
  ℕ, ◌+◌, ◌≤◌, ◌≡◌, ◌⊎◌, inl, inr, arith, Option, some, none, List, get_elem?, set, ok, err, refl,
}
use lucet.Runtime.Kill.{
  KillResult, invalid, not_terminable, was_pending, was_cancelled, signalled, disable_termination,
  decide_termination, after_alarm,
}
use lucet.Runtime.Kill.World.{
  World, Switch, ready, upgraded, owner, waiting, panicked, done, returned, step, switch,
}
use lucet.Prelude.Sums.{total, total-set}
use lucet.Runtime.Kill.World.Invariant.{Inv, pends, waits, wins, waits-le-pends}

-- The sums after one switch has gone from `s` to `t`.
record Sums (xs ys : List Switch) (s t : Switch) : Type 0 where
  sum_wins : total wins ys + wins s ≡ total wins xs + wins t
  sum_pends : total pends ys + pends s ≡ total pends xs + pends t
  sum_waits : total waits ys + waits s ≡ total waits xs + waits t
  old_waits : total waits xs ≤ total pends xs
  new_waits : total waits ys ≤ total pends ys

sums :
    (xs : List Switch) (i : ℕ) (s t : Switch) → get_elem? xs i ≡ some s → Sums xs (set xs i t) s t
sums xs i s t e = record {
  sum_wins = total-set wins xs i s t e;
  sum_pends = total-set pends xs i s t e;
  sum_waits = total-set waits xs i s t e;
  old_waits = waits-le-pends xs;
  new_waits = waits-le-pends (set xs i t);
}

module _ (w w' : World) (i : ℕ) (h : step w (switch i) ≡ some w') (v : Inv w) where
  ready-Inv : get_elem? w.switches i ≡ some ready → Inv w'
  unfolding step
  ready-Inv e = ground (
    arith,
    sums w.switches i ready upgraded e,
    sums w.switches i ready (returned (err invalid)) e,
  )

  upgraded-Inv : get_elem? w.switches i ≡ some upgraded → Inv w'
  unfolding step disable_termination
  upgraded-Inv e = ground (
    arith,
    sums w.switches i upgraded owner e,
    sums w.switches i upgraded (done (err not_terminable)) e,
  )

  owner-Inv : get_elem? w.switches i ≡ some owner → Inv w'
  unfolding step decide_termination
  owner-Inv e = ground (
    arith,
    sums w.switches i owner waiting e,
    sums w.switches i owner panicked e,
    sums w.switches i owner (done (ok was_pending)) e,
    sums w.switches i owner (done (ok was_cancelled)) e,
    sums w.switches i owner (done (err not_terminable)) e,
  )

  waiting-Inv : get_elem? w.switches i ≡ some waiting → Inv w'
  unfolding step after_alarm
  waiting-Inv e = ground (arith, sums w.switches i waiting (done (ok signalled)) e)

  done-Inv : (r : KillResult) → get_elem? w.switches i ≡ some (done r) → Inv w'
  unfolding step
  done-Inv r e = ground (arith, sums w.switches i (done r) (returned r) e)

switch_none : (w : World) (i : ℕ) → get_elem? w.switches i ≡ none → step w (switch i) ≡ none
unfolding step
switch_none w i e = rw e

switch_stuck :
    (w : World) (i : ℕ) (s : Switch)
    → get_elem? w.switches i ≡ some s
    → (s ≡ panicked) ⊎ ((r : KillResult) × (s ≡ returned r))
    → step w (switch i) ≡ none
unfolding step
switch_stuck w i s e (inl p) = rw (e, p)
switch_stuck w i s e (inr (r, p)) = rw (e, p)

pub switch-Inv : (w w' : World) (i : ℕ) (h : step w (switch i) ≡ some w') (v : Inv w) → Inv w'
switch-Inv w w' i h v = by_state (get_elem? w.switches i) refl
  where
    by_state : (o : Option Switch) → get_elem? w.switches i ≡ o → Inv w'
    by_state none e = cc (switch_none w i e)
    by_state (some ready) e = ready-Inv w w' i h v e
    by_state (some upgraded) e = upgraded-Inv w w' i h v e
    by_state (some owner) e = owner-Inv w w' i h v e
    by_state (some waiting) e = waiting-Inv w w' i h v e
    by_state (some panicked) e = cc (switch_stuck w i panicked e (inl refl))
    by_state (some (done r)) e = done-Inv w w' i h v r e
    by_state (some (returned r)) e = cc (switch_stuck w i (returned r) e (inr (r, refl)))

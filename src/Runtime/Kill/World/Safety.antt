-- ===== src/Runtime/Kill/World/Safety.antt =====
-- What no interleaving can do, and what every interleaving can finish.
use lucet.Prelude.{
  ℕ, zero, suc, ◌≤◌, ◌≡◌, ◌≢◌, ◌⊎◌, inl, arith, true, false, some, none, List, [], ◌∷◌, get_elem?,
  replicate, ok, err, refl,
}
use lucet.Runtime.Kill.{
  not_terminable, was_pending, was_cancelled, guest, new, disable_termination, schedule,
  alarm_active, decide_termination, after_alarm, enter_guest_region, exit_guest_region,
  begin_hostcall, end_hostcall, close_domain, on_fatal_signal,
}
use lucet.Runtime.Kill.World.{
  World, idle, in_guest, in_hostcall, exiting, spinning, crashed, locking, Switch, ready, upgraded,
  owner, waiting, panicked, done, returned, Move, step, run, check, fault, alarm_arrives, close,
  switch, strong_count, enter, call, return, yields, terminate, exit, clear, replace,
}
use lucet.Prelude.Sums.{total, get_elem?-set}
use lucet.Runtime.Kill.World.Steps.{step-Inv}
use lucet.Runtime.Kill.World.Invariant.{Inv, wins, pends, waits}

-- A fresh kill state, an instance that has not run, and `n` calls of `terminate` to come.
unfoldable pub start : ℕ → World
start n = record {
  kill = new;
  thread = idle;
  switches = replicate n ready;
  locked = false;
  poisoned = false;
  alarm = false;
}

-- The worlds that any sequence of steps leads to.
pub data Reach (w : World) : World → Type 0 where
  here : Reach w w
  next : {u t : World} (m : Move) → Reach w u → step u m ≡ some t → Reach w t

total-replicate : (f : Switch → ℕ) (n : ℕ) → f ready ≡ 0 → total f (replicate n ready) ≡ 0
unfolding total
total-replicate f zero h = refl
total-replicate f (suc n) h = omega (arith, total-replicate f n h)

pub start-Inv : (n : ℕ) → Inv (start n)
unfolding start new
start-Inv n =
    ground (
      arith,
      total-replicate wins n refl,
      total-replicate pends n refl,
      total-replicate waits n refl,
    )

pub Reach-Inv : {w u : World} → Inv w → Reach w u → Inv u
Reach-Inv v here = v
Reach-Inv v (next m r e) = step-Inv _ _ m e (Reach-Inv v r)

-- A call of `terminate` that has returned success, or is about to.
abbrev pub succeeds : Switch → ℕ
succeeds (done (ok r)) = 1
succeeds (returned (ok r)) = 1
succeeds ready = 0
succeeds upgraded = 0
succeeds owner = 0
succeeds waiting = 0
succeeds panicked = 0
succeeds (done _) = 0
succeeds (returned _) = 0

succeeds-le-wins : (xs : List Switch) → total succeeds xs ≤ total wins xs
unfolding total
succeeds-le-wins [] = omega arith
succeeds-le-wins (x ∷ xs) = ground (arith, succeeds-le-wins xs)

module _ (w w' : World) where
  enter_crash :
      step w enter ≡ some w' → Inv w → w.thread ≢ crashed → w'.thread ≡ crashed → w.poisoned ≡ true
  unfolding step enter_guest_region
  enter_crash h v c d = ground arith

  call_crash :
      step w call ≡ some w' → Inv w → w.thread ≢ crashed → w'.thread ≡ crashed → w.poisoned ≡ true
  unfolding step begin_hostcall
  call_crash h v c d = ground arith

  return_crash :
      step w return ≡ some w' → Inv w → w.thread ≢ crashed → w'.thread ≡ crashed → w.poisoned ≡ true
  unfolding step end_hostcall
  return_crash h v c d = ground arith

  exit_crash :
      step w exit ≡ some w' → Inv w → w.thread ≢ crashed → w'.thread ≡ crashed → w.poisoned ≡ true
  unfolding step disable_termination
  exit_crash h v c d = ground arith

  fault_crash :
      step w fault ≡ some w' → Inv w → w.thread ≢ crashed → w'.thread ≡ crashed → w.poisoned ≡ true
  unfolding step on_fatal_signal
  fault_crash h v c d = ground arith

  alarm_crash :
      step w alarm_arrives ≡ some w'
      → Inv w
      → w.thread ≢ crashed
      → w'.thread ≡ crashed
      → w.poisoned ≡ true
  unfolding step alarm_active
  alarm_crash h v c d = ground arith

  close_crash :
      step w close ≡ some w' → Inv w → w.thread ≢ crashed → w'.thread ≡ crashed → w.poisoned ≡ true
  unfolding step close_domain
  close_crash h v c d = ground arith

  check_crash :
      step w check ≡ some w'
      → Inv w
      → w.thread ≢ crashed
      → w'.thread ≡ crashed
      → (w.poisoned ≡ true) ⊎ ((w.thread ≡ exiting) × (check ≡ check) × (strong_count w ≢ 1))
  unfolding step exit_guest_region
  check_crash h v c d = ground arith

  switch_keeps_thread : (i : ℕ) → step w (switch i) ≡ some w' → w'.thread ≡ w.thread
  unfolding step decide_termination disable_termination after_alarm
  switch_keeps_thread i h = ground arith

module _ (n : ℕ) (w : World) (r : Reach (start n) w) where
  inv : Inv w
  inv = Reach-Inv (start-Inv n) r

  -- Of any number of kill switches on one kill state, at most one ever succeeds.
  pub at_most_one_success : total succeeds w.switches ≤ 1
  at_most_one_success = ground (arith, inv, succeeds-le-wins w.switches)

  -- An alarm that the handler would act on reaches the thread only in guest code or in the loop that
  -- waits for it: never in a hostcall, on entry, or once the host has control again.
  pub alarm_only_in_guest :
      w.alarm ≡ true
      → w.kill.ignore_alarm ≡ false
      → w.thread ≢ crashed
      → (w.thread ≡ in_guest) ⊎ (w.thread ≡ spinning)
  alarm_only_in_guest a i c = ground (arith, inv)

  -- While a kill switch waits for its alarm, the instance is marked as in guest code and no hostcall
  -- can begin or be running.
  pub no_hostcall_while_waiting :
      w.locked ≡ true
      → w.thread ≢ crashed
      → (w.kill.execution_domain ≡ guest) × (w.thread ≢ in_hostcall) × (step w call ≡ none)
  unfolding step
  no_hostcall_while_waiting l c = ground (arith, inv)

  -- The thread panics for two reasons only: a kill switch has panicked under the lock, or, on a
  -- normal exit, another reference to the kill state is alive.
  pub crash_causes :
      (w' : World) (m : Move)
      → step w m ≡ some w'
      → w.thread ≢ crashed
      → w'.thread ≡ crashed
      → (w.poisoned ≡ true) ⊎ ((w.thread ≡ exiting) × (m ≡ check) × (strong_count w ≢ 1))
  unfolding step schedule
  crash_causes w' (run tid) h c d = ground (arith, inv)
  crash_causes w' enter h c d = inl (enter_crash w w' h inv c d)
  crash_causes w' call h c d = inl (call_crash w w' h inv c d)
  crash_causes w' return h c d = inl (return_crash w w' h inv c d)
  crash_causes w' yields h c d = ground (arith, inv)
  crash_causes w' terminate h c d = ground (arith, inv)
  crash_causes w' exit h c d = inl (exit_crash w w' h inv c d)
  crash_causes w' check h c d = check_crash w w' h inv c d
  crash_causes w' fault h c d = inl (fault_crash w w' h inv c d)
  crash_causes w' alarm_arrives h c d = inl (alarm_crash w w' h inv c d)
  crash_causes w' clear h c d = ground (arith, inv)
  crash_causes w' close h c d = inl (close_crash w w' h inv c d)
  crash_causes w' replace h c d = ground (arith, inv)
  crash_causes w' (switch i) h c d = inl (ground (arith, switch_keeps_thread w w' i h))

  -- A kill switch panics under the lock only because the lock is already poisoned, or because the
  -- instance stopped in guest code after the switch took the flag, and its thread has cleared
  -- `thread_id` and not yet closed the domain.
  switch_panic_causes :
      (w' : World) (i : ℕ)
      → w.thread ≢ crashed
      → get_elem? w.switches i ≡ some owner
      → step w (switch i) ≡ some w'
      → get_elem? w'.switches i ≡ some panicked
      → (w.poisoned ≡ true)
        ⊎ ((w.thread ≡ locking false)
            × (w.kill.execution_domain ≡ guest)
            × (w.kill.thread_id ≡ none))
  unfolding step decide_termination
  switch_panic_causes w' i c e h p = ground (
    arith,
    inv,
    get_elem?-set w.switches i owner waiting e,
    get_elem?-set w.switches i owner (done (ok was_pending)) e,
    get_elem?-set w.switches i owner (done (ok was_cancelled)) e,
    get_elem?-set w.switches i owner (done (err not_terminable)) e,
  )

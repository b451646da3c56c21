-- ===== src/Runtime/Kill/World/Races.antt =====
-- Two interleavings that end in a panic, for any number of switches and any thread.
use lucet.Prelude.{
  ℕ, suc, ◌≡◌, subst, arith, get_elem?, true, none, some, Option, replicate, List, [], ◌∷◌, false,
  refl,
}
use lucet.Runtime.Kill.{
  guest, new, schedule, enter_guest_region, exit_guest_region, disable_termination, on_fatal_signal,
  clear_thread, decide_termination,
}
use lucet.Runtime.Kill.World.{
  World, crashed, locking, ready, upgraded, panicked, step, run, enter, exit, check, fault, clear,
  switch, Move,
}
use lucet.Prelude.Sums.{total}
use lucet.Runtime.Kill.World.Safety.{Reach, here, next, start}

unfoldable pub play : List Move → Option World → Option World
play [] o = o
play (m ∷ ms) none = none
play (m ∷ ms) (some w) = play ms (step w m)

play-Reach :
    (ms : List Move) (w : World) (o : Option World) (t : World)
    → ((u : World) → o ≡ some u → Reach w u)
    → play ms o ≡ some t
    → Reach w t
unfolding play
play-Reach [] w o t r e = r t e
play-Reach (m ∷ ms) w none t r e = cc e
play-Reach (m ∷ ms) w (some u) t r e = play-Reach ms w (step u m) t (λ x h. next m (r u refl) h) e

some_eq : {u w : World} → some u ≡ some w → u ≡ w
some_eq h = cc h

pub reached : (w : World) (ms : List Move) (t : World) → play ms (some w) ≡ some t → Reach w t
reached w ms t e = play-Reach ms w (some w) t (λ u h. subst (Reach w) (some_eq h) here) e

abbrev after_fault : ℕ → World
after_fault n = record {
  kill = record {
    terminable = false;
    execution_domain = guest;
    thread_id = none;
    ignore_alarm = true;
  };
  thread = locking false;
  switches = panicked ∷ replicate n ready;
  locked = false;
  poisoned = true;
  alarm = false;
}

abbrev fault_moves : ℕ → List Move
fault_moves tid = run tid ∷ enter ∷ switch 0 ∷ switch 0 ∷ fault ∷ clear ∷ switch 0 ∷ []

fault_plays : (n tid : ℕ) → play (fault_moves tid) (some (start (suc n))) ≡ some (after_fault n)
unfolding play total step start new schedule enter_guest_region disable_termination on_fatal_signal
    clear_thread decide_termination
fault_plays n tid = ground arith

-- A kill switch can panic: it takes the flag in guest code, the instance faults and clears
-- `thread_id`, and the switch gets the lock of `execution_domain` before the thread closes the domain.
pub kill_switch_race :
    (n tid : ℕ)
    → (w : World) × Reach (start (suc n)) w
      × (get_elem? w.switches 0 ≡ some panicked)
      × (w.thread ≡ locking false)
      × (w.poisoned ≡ true)
kill_switch_race n tid = (
  after_fault n,
  reached (start (suc n)) (fault_moves tid) (after_fault n) (fault_plays n tid),
  refl,
  refl,
  refl,
)

abbrev after_exit : ℕ → ℕ → World
after_exit n tid = record {
  kill = record {
    terminable = false;
    execution_domain = guest;
    thread_id = some tid;
    ignore_alarm = false;
  };
  thread = crashed;
  switches = upgraded ∷ replicate n ready;
  locked = false;
  poisoned = true;
  alarm = false;
}

abbrev exit_moves : ℕ → List Move
exit_moves tid = run tid ∷ enter ∷ switch 0 ∷ exit ∷ check ∷ []

exit_plays : (n tid : ℕ) → play (exit_moves tid) (some (start (suc n))) ≡ some (after_exit n tid)
unfolding play total step start new schedule enter_guest_region disable_termination
    exit_guest_region
exit_plays n tid = ground arith

-- An instance that returns from guest code can panic without any termination: a kill switch that has
-- upgraded its reference and not yet tried the flag makes the strong count 2. The panic is in the
-- section under the lock of `execution_domain`, which it leaves poisoned.
pub strong_count_race :
    (n tid : ℕ)
    → (w : World) × Reach (start (suc n)) w
      × (w.thread ≡ crashed)
      × (get_elem? w.switches 0 ≡ some upgraded)
      × (w.poisoned ≡ true)
strong_count_race n tid = (
  after_exit n tid,
  reached (start (suc n)) (exit_moves tid) (after_exit n tid) (exit_plays n tid),
  refl,
  refl,
  refl,
)

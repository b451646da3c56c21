-- ===== src/Runtime/Kill/World/Waits.antt =====
-- A switch that waits for its alarm is never left waiting.
use lucet.Prelude.{
  ℕ, ◌≡◌, ◌≢◌, ◌⊎◌, inl, inr, arith, Bool, true, false, some, get_elem?, set, ok, refl,
}
use lucet.Runtime.Kill.{signalled, terminated, clear_thread, alarm_active, after_alarm}
use lucet.Runtime.Kill.World.{
  World, in_guest, spinning, crashed, leaving, locking, waiting, done, Move, step, alarm_arrives,
  clear, switch,
}
use lucet.Prelude.Sums.{total-get_elem?, get_elem?-set}
use lucet.Runtime.Kill.World.Steps.{step-Inv}
use lucet.Runtime.Kill.World.Invariant.{Inv, waits}
use lucet.Runtime.Kill.World.Safety.{Reach, here, next, start, start-Inv, Reach-Inv}

-- Some steps lead from `w` to a world in which the `i`-th switch has its success.
pub record Signalled (w : World) (i : ℕ) : Type 0 where
  pub after : World
  pub reached : Reach w after
  pub success : get_elem? after.switches i ≡ some (done (ok signalled))

first : {w u t : World} (m : Move) → step w m ≡ some u → Reach u t → Reach w t
first m e here = next m here e
first m e (next m' r e') = next m' (first m e r) e'

after_step : {w u : World} {i : ℕ} (m : Move) → step w m ≡ some u → Signalled u i → Signalled w i
after_step m e s = record { after = s.after; reached = first m e s.reached; success = s.success }

module _ (w : World) (i : ℕ) (v : Inv w) (e : get_elem? w.switches i ≡ some waiting) where
  is_locked : w.locked ≡ true
  is_locked = ground (arith, v, total-get_elem? waits w.switches i waiting e)

  at_locking : (y : Bool) → w.thread ≡ locking y → Signalled w i
  unfolding step after_alarm
  at_locking y t = record {
    after = u;
    reached = next (switch i) here (ground (arith, v));
    success = get_elem?-set w.switches i waiting (done (ok signalled)) e;
  }
    where
      u : World
      u = record w {
        kill = record w.kill { execution_domain = terminated };
        switches = set w.switches i (done (ok signalled));
        locked = false;
      }

at_leaving :
    (w : World) (i : ℕ)
    → Inv w
    → get_elem? w.switches i ≡ some waiting
    → (y : Bool) → w.thread ≡ leaving y
    → Signalled w i
unfolding step
at_leaving w i v e y t = after_step clear s (at_locking u i (step-Inv w u clear s v) e y refl)
  where
    u : World
    u = record w { kill = clear_thread w.kill; thread = locking y }

    s : step w clear ≡ some u
    s = ground (arith, t)

at_guest :
    (w : World) (i : ℕ)
    → Inv w
    → get_elem? w.switches i ≡ some waiting
    → (w.thread ≡ in_guest) ⊎ (w.thread ≡ spinning)
    → Signalled w i
unfolding step alarm_active
at_guest w i v e t =
    after_step alarm_arrives s (at_leaving u i (step-Inv w u alarm_arrives s v) e false refl)
  where
    u : World
    u = record w { thread = leaving false; alarm = false }

    s : step w alarm_arrives ≡ some u
    s = ground (arith, t, v, is_locked w i v e)

place :
    (w : World) (i : ℕ)
    → Inv w
    → get_elem? w.switches i ≡ some waiting
    → w.thread ≢ crashed
    → ((w.thread ≡ in_guest) ⊎ (w.thread ≡ spinning))
      ⊎ ((w.thread ≡ leaving false) ⊎ (w.thread ≡ locking false))
place w i v e c = ground (arith, v, is_locked w i v e)

finish :
    (w : World) (i : ℕ) (v : Inv w) (e : get_elem? w.switches i ≡ some waiting)
    → ((w.thread ≡ in_guest) ⊎ (w.thread ≡ spinning))
      ⊎ ((w.thread ≡ leaving false) ⊎ (w.thread ≡ locking false))
    → Signalled w i
finish w i v e (inl t) = at_guest w i v e t
finish w i v e (inr (inl t)) = at_leaving w i v e false t
finish w i v e (inr (inr t)) = at_locking w i v e false t

-- In every reachable world where a kill switch waits for its alarm and the thread has not panicked,
-- some further steps end the wait, and the call of `terminate` succeeds with `signalled`.
pub wait_can_end :
    (n : ℕ) (w : World) (i : ℕ)
    → Reach (start n) w
    → w.thread ≢ crashed
    → get_elem? w.switches i ≡ some waiting
    → Signalled w i
wait_can_end n w i r c e = finish w i v e (place w i v e c)
  where
    v : Inv w
    v = Reach-Inv (start-Inv n) r

-- ===== src/Tests/Kills.antt =====
-- Runs of an instance and its kill switches.
use lucet.Prelude.{◌≤◌, ◌≡◌, ◌≢◌, ◌⊎◌, refl, some, none, true, false, [], ◌∷◌, get_elem?}
use lucet.Runtime.Kill.{
  new, guest, schedule, enter_guest_region, disable_termination, on_fatal_signal, clear_thread,
  exit_guest_region, decide_termination,
}
use lucet.Runtime.Kill.World.{
  World, in_guest, in_hostcall, exiting, spinning, crashed, locking, ready, upgraded, owner,
  waiting, panicked, step, run, enter, call, exit, check, fault, clear, switch, strong_count,
}
use lucet.Prelude.Sums.{total}
use lucet.Runtime.Kill.World.Safety.{
  Reach, start, succeeds, at_most_one_success, alarm_only_in_guest, no_hostcall_while_waiting,
  crash_causes,
}
use lucet.Runtime.Kill.World.Waits.{Signalled, wait_can_end}
use lucet.Runtime.Kill.World.Races.{play, reached, kill_switch_race, strong_count_race}

-- A guest that a kill switch has sent the alarm to.
abbrev alarmed : World
alarmed = record {
  kill = record {
    terminable = false;
    execution_domain = guest;
    thread_id = some 7;
    ignore_alarm = false;
  };
  thread = in_guest;
  switches = waiting ∷ ready ∷ [];
  locked = true;
  poisoned = false;
  alarm = true;
}

alarmed-Reach : Reach (start 2) alarmed
unfolding play total start new step schedule enter_guest_region disable_termination
    decide_termination
alarmed-Reach = reached (start 2) (run 7 ∷ enter ∷ switch 0 ∷ switch 0 ∷ switch 0 ∷ []) alarmed refl

at_most_one_success_example : total succeeds alarmed.switches ≤ 1
at_most_one_success_example = at_most_one_success 2 alarmed alarmed-Reach

alarm_only_in_guest_example : (alarmed.thread ≡ in_guest) ⊎ (alarmed.thread ≡ spinning)
alarm_only_in_guest_example = alarm_only_in_guest 2 alarmed alarmed-Reach refl refl (λ e. cc)

no_hostcall_example :
    (alarmed.kill.execution_domain ≡ guest)
    × (alarmed.thread ≢ in_hostcall)
    × (step alarmed call ≡ none)
no_hostcall_example = no_hostcall_while_waiting 2 alarmed alarmed-Reach refl (λ e. cc)

wait_can_end_example : Signalled alarmed 0
wait_can_end_example = wait_can_end 2 alarmed 0 alarmed-Reach (λ e. cc) refl

-- A guest that returns while a kill switch has upgraded its reference.
abbrev returning : World
returning = record {
  kill = record {
    terminable = false;
    execution_domain = guest;
    thread_id = some 7;
    ignore_alarm = false;
  };
  thread = exiting;
  switches = upgraded ∷ [];
  locked = false;
  poisoned = false;
  alarm = false;
}

returning-Reach : Reach (start 1) returning
unfolding play total start new step schedule enter_guest_region disable_termination
returning-Reach = reached (start 1) (run 7 ∷ enter ∷ switch 0 ∷ exit ∷ []) returning refl

check_crashes : step returning check ≡ some (record returning { thread = crashed; poisoned = true })
unfolding step exit_guest_region total
check_crashes = refl

crash_causes_example :
    (returning.poisoned ≡ true)
    ⊎ ((returning.thread ≡ exiting) × (check ≡ check) × (strong_count returning ≢ 1))
crash_causes_example =
    crash_causes 1 returning returning-Reach
      (record returning { thread = crashed; poisoned = true }) check check_crashes (λ e. cc) refl

-- A guest that has faulted, with a kill switch that has the flag and not yet the lock.
abbrev faulted : World
faulted = record {
  kill = record {
    terminable = false;
    execution_domain = guest;
    thread_id = none;
    ignore_alarm = true;
  };
  thread = locking false;
  switches = owner ∷ [];
  locked = false;
  poisoned = false;
  alarm = false;
}

faulted-Reach : Reach (start 1) faulted
unfolding play total start new step schedule enter_guest_region disable_termination on_fatal_signal
    clear_thread
faulted-Reach =
    reached (start 1) (run 7 ∷ enter ∷ switch 0 ∷ switch 0 ∷ fault ∷ clear ∷ []) faulted refl

abbrev switch_panicked : World
switch_panicked = record faulted { switches = panicked ∷ []; poisoned = true }

switch_panics : step faulted (switch 0) ≡ some switch_panicked
unfolding step decide_termination
switch_panics = refl

kill_switch_race_example :
    (w : World) × Reach (start 1) w
    × (get_elem? w.switches 0 ≡ some panicked)
    × (w.thread ≡ locking false)
    × (w.poisoned ≡ true)
kill_switch_race_example = kill_switch_race 0 7

strong_count_race_example :
    (w : World) × Reach (start 1) w
    × (w.thread ≡ crashed)
    × (get_elem? w.switches 0 ≡ some upgraded)
    × (w.poisoned ≡ true)
strong_count_race_example = strong_count_race 0 7

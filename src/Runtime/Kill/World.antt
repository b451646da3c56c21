-- ===== src/Runtime/Kill/World.antt =====
-- Every interleaving of one thread that runs an instance and any number of kill switches, over the
-- life of one `KillState`. A step is one atomic access, or one section under a lock.
pub mod Invariant
pub mod Threads
pub mod Switches
pub mod Steps
pub mod Safety
pub mod Waits
pub mod Races
use lucet.Prelude.{
  ℕ, ◌+◌, Bool, true, false, Option, some, none, List, get_elem?, set, ltb, if◌then◌else◌, Result,
  ok, err, panic,
}
use lucet.Runtime.Kill.{
  KillState, KillError, KillResult, invalid, not_terminable, Entry, enters, terminates, Decision,
  returns, alarms, panics, TerminationDetails, disable_termination, alarm_active,
  enter_guest_region, exit_guest_region, begin_hostcall, end_hostcall, schedule, clear_thread,
  close_domain, on_fatal_signal, decide_termination, after_alarm,
}
use lucet.Prelude.Sums.{total}

-- Where the instance's thread is. `exiting` has taken the flag in `exit_guest_region`, `spinning` has
-- not. `leaving`, `locking` and `stopped` are the host's side of `deschedule`, and carry whether the
-- instance has yielded. `crashed` has panicked, or was sent to the host by an alarm outside the guest.
pub data Thread : Type 0 where
  idle entering in_guest in_hostcall exiting spinning finished crashed : Thread
  leaving locking stopped : Bool → Thread

-- Where a call of `KillSwitch::terminate` is: `owner` has taken the flag, `waiting` has sent the alarm
-- and holds the lock of `execution_domain`, `done` has its result but not yet dropped its reference.
pub data Switch : Type 0 where
  ready upgraded owner waiting panicked : Switch
  done returned : KillResult → Switch

pub record World : Type 0 where
  pub kill : KillState
  pub thread : Thread
  pub switches : List Switch
  -- a waiting switch holds the lock; a panic under the lock poisons it
  pub locked : Bool
  pub poisoned : Bool
  -- SIGALRM has been sent and not been handled
  pub alarm : Bool

pub data Move : Type 0 where
  run : ℕ → Move
  enter call return yields terminate exit check fault alarm_arrives clear close replace : Move
  switch : ℕ → Move

-- Whether a switch holds a strong reference to the kill state.
abbrev pub holds : Switch → ℕ
holds ready = 0
holds upgraded = 1
holds owner = 1
holds waiting = 1
holds panicked = 0
holds (done r) = 1
holds (returned r) = 0

abbrev pub instance_holds : Thread → ℕ
instance_holds finished = 0
instance_holds _ = 1

-- `Arc::strong_count(&kill_state)`
abbrev pub strong_count : World → ℕ
strong_count w = instance_holds w.thread + total holds w.switches

abbrev goes : World → KillState → Thread → Option World
goes w k t = some (record w { kill = k; thread = t })

-- A section under the lock of `execution_domain`: it waits for the lock, and panics if it is poisoned.
abbrev under_lock : World → Option World → Option World
under_lock w next =
    if w.locked then none else if w.poisoned then some (record w { thread = crashed }) else next

-- A panic of the thread while it holds the lock, which poisons it.
abbrev crashes : World → Option World
crashes w = some (record w { thread = crashed; poisoned = true })

entered : World → Result KillError (KillState × Entry) → Option World
entered w (ok (k, enters)) = goes w k in_guest
entered w (ok (k, terminates d)) = goes w k (leaving false)
entered w (err e) = crashes w
entered w panic = crashes w

moved : World → Thread → Result KillError KillState → Option World
moved w t (ok k) = goes w k t
moved w t (err e) = crashes w
moved w t panic = crashes w

-- The same outside the lock.
interrupted : World → Result KillError KillState → Option World
interrupted w (ok k) = goes w k (leaving false)
interrupted w (err e) = goes w w.kill crashed
interrupted w panic = goes w w.kill crashed

returned_to : World → Result KillError (KillState × Option TerminationDetails) → Option World
returned_to w (ok (k, none)) = goes w k in_guest
returned_to w (ok (k, some d)) = goes w k (leaving false)
returned_to w (err e) = crashes w
returned_to w panic = crashes w

-- The handler of SIGALRM, when it interrupts the thread at `t`.
handled : World → Thread → Option World
handled w t =
    if w.alarm
    then some (record w { alarm = false; thread = if alarm_active w.kill then t else w.thread })
    else none

thread_step : World → Thread → Move → Option World
unfolding entered moved interrupted returned_to handled
thread_step w idle (run tid) = goes w (schedule tid w.kill) entering
thread_step w (stopped true) (run tid) = goes w (schedule tid w.kill) in_hostcall
thread_step w entering enter = under_lock w (entered w (enter_guest_region w.kill))
thread_step w in_guest call = under_lock w (moved w in_hostcall (begin_hostcall w.kill))
thread_step w in_hostcall return = under_lock w (returned_to w (end_hostcall w.kill))
thread_step w in_hostcall yields = goes w w.kill (leaving true)
thread_step w in_hostcall terminate = goes w w.kill (leaving false)
thread_step w in_guest exit =
    let (k, terminable) = disable_termination w.kill in
    goes w k (if terminable then exiting else spinning)
thread_step w exiting check =
    under_lock w (moved w (leaving false) (exit_guest_region (strong_count w) w.kill))
thread_step w in_guest fault = interrupted w (on_fatal_signal w.kill)
thread_step w in_hostcall fault = interrupted w (on_fatal_signal w.kill)
thread_step w in_guest alarm_arrives = handled w (leaving false)
thread_step w spinning alarm_arrives = handled w (leaving false)
thread_step w t alarm_arrives = handled w crashed
thread_step w (leaving yielded) clear = goes w (clear_thread w.kill) (locking yielded)
thread_step w (locking yielded) close =
    under_lock w (goes w (close_domain w.kill) (stopped yielded))
thread_step w (stopped yielded) replace = goes w w.kill finished
thread_step w _ _ = none

abbrev becomes : World → ℕ → Switch → World
becomes w i s = record w { switches = set w.switches i s }

decided : World → ℕ → Decision → World
decided w i (returns k r) = record w { kill = k; switches = set w.switches i (done r) }
decided w i (alarms tid) = record w {
  switches = set w.switches i waiting;
  locked = true;
  alarm = true;
}
decided w i panics = record w { switches = set w.switches i panicked; poisoned = true }

woken : World → ℕ → Option ℕ → Option World
woken w i (some tid) = none
woken w i none =
    let (k, r) = after_alarm w.kill in
    some (record w { kill = k; switches = set w.switches i (done r); locked = false })

-- The next step of the `i`-th call of `terminate`.
switch_step : World → ℕ → Switch → Option World
unfolding decided woken
switch_step w i ready =
    some (becomes w i (if ltb 0 (strong_count w) then upgraded else returned (err invalid)))
switch_step w i upgraded =
    let (k, terminable) = disable_termination w.kill in
    some (record w {
      kill = k;
      switches = set w.switches i (if terminable then owner else done (err not_terminable));
    })
switch_step w i owner =
    if w.locked
    then none
    else some (if w.poisoned then becomes w i panicked else decided w i (decide_termination w.kill))
switch_step w i waiting = woken w i w.kill.thread_id
switch_step w i panicked = none
switch_step w i (done r) = some (becomes w i (returned r))
switch_step w i (returned r) = none

pick : World → ℕ → Option Switch → Option World
pick w i none = none
pick w i (some s) = switch_step w i s

-- One step, or `none` where the move is not possible or has to wait.
unfoldable pub step : World → Move → Option World
unfolding thread_step switch_step pick
step w (switch i) = pick w i (get_elem? w.switches i)
step w m = thread_step w w.thread m

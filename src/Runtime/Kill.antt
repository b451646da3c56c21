-- ===== src/Runtime/Kill.antt =====
-- `KillState` and `KillSwitch` of lucet-runtime-internals/src/instance/execution.rs, and the part of
-- `handle_signal` (instance/signals.rs) that works on a `KillState`. Each function here is one
-- atomic access or one section under the lock of `execution_domain`; `World` interleaves them.
pub mod World
use lucet.Prelude.{
  ℕ, Bool, true, false, not, Option, some, none, String, ◌==◌, if◌then◌else◌, Result, ok, err,
  panic,
}

pub data Domain : Type 0 where
  pending guest hostcall terminated cancelled : Domain

-- `lock_testpoints` exist in tests only; the condition variable is the step that waits on it.
pub record KillState : Type 0 where
  pub terminable : Bool
  pub execution_domain : Domain
  pub thread_id : Option ℕ
  pub ignore_alarm : Bool

pub data TerminationDetails : Type 0 where
  signal ctx_not_found yield_type_mismatch remote block_on_needs_async : TerminationDetails
  heap_out_of_memory provided other_panic : TerminationDetails
  borrow_error : String → TerminationDetails

pub data KillSuccess : Type 0 where
  signalled was_pending was_cancelled : KillSuccess

pub data KillError : Type 0 where
  not_terminable invalid : KillError

abbrev pub KillResult : Type 0
KillResult = Result KillError KillSuccess

unfoldable pub new : KillState
new = record {
  terminable = true;
  execution_domain = pending;
  thread_id = none;
  ignore_alarm = false;
}

unfoldable pub is_terminable : KillState → Bool
is_terminable k = k.terminable

unfoldable pub enable_termination : KillState → KillState
enable_termination k = record k { terminable = true }

-- `terminable.swap(false)`, with the old value.
unfoldable pub disable_termination : KillState → KillState × Bool
disable_termination k = (record k { terminable = false }, k.terminable)

-- `ignore_alarm.swap(true)`, with the old value.
unfoldable pub silence_alarm : KillState → KillState × Bool
silence_alarm k = (record k { ignore_alarm = true }, k.ignore_alarm)

unfoldable pub alarm_active : KillState → Bool
alarm_active k = not k.ignore_alarm

-- What the callback before guest code does: run the guest, or terminate the instance.
pub data Entry : Type 0 where
  enters : Entry
  terminates : TerminationDetails → Entry

enter_at : Domain → KillState → Result KillError (KillState × Entry)
enter_at pending k = ok (record k { execution_domain = guest }, enters)
enter_at guest k = panic
enter_at hostcall k = panic
enter_at terminated k = panic
enter_at cancelled k = ok (k, terminates remote)

-- `enter_guest_region`
unfoldable pub enter_guest_region : KillState → Result KillError (KillState × Entry)
unfolding enter_at
enter_guest_region k = enter_at k.execution_domain k

-- The part of `exit_guest_region` under the lock, for the strong count of the kill state; it is
-- reached if `disable_termination` gave `true`, and else the callback loops until the alarm arrives.
exit_at : Domain → ℕ → KillState → Result KillError KillState
exit_at guest strong_count k = if strong_count == 1 then ok k else panic
exit_at pending strong_count k = panic
exit_at cancelled strong_count k = panic
exit_at terminated strong_count k = panic
exit_at hostcall strong_count k = panic

unfoldable pub exit_guest_region : ℕ → KillState → Result KillError KillState
unfolding exit_at
exit_guest_region strong_count k = exit_at k.execution_domain strong_count k

begin_at : Domain → KillState → Result KillError KillState
begin_at guest k = ok (record k { execution_domain = hostcall })
begin_at pending k = panic
begin_at hostcall k = panic
begin_at terminated k = panic
begin_at cancelled k = panic

unfoldable pub begin_hostcall : KillState → Result KillError KillState
unfolding begin_at
begin_hostcall k = begin_at k.execution_domain k

end_at : Domain → KillState → Result KillError (KillState × Option TerminationDetails)
end_at hostcall k = ok (record k { execution_domain = guest }, none)
end_at terminated k = if k.terminable then panic else ok (k, some remote)
end_at pending k = panic
end_at guest k = panic
end_at cancelled k = panic

-- `end_hostcall`, with its `debug_assert!`.
unfoldable pub end_hostcall : KillState → Result KillError (KillState × Option TerminationDetails)
unfolding end_at
end_hostcall k = end_at k.execution_domain k

unfoldable pub schedule : ℕ → KillState → KillState
schedule tid k = record k { thread_id = some tid }

-- The first half of `deschedule`, under the lock of `thread_id`.
unfoldable pub clear_thread : KillState → KillState
clear_thread k = record k { thread_id = none }

abbrev pub after_run : Domain → Domain
after_run guest = terminated
after_run pending = pending
after_run hostcall = hostcall
after_run terminated = terminated
after_run cancelled = cancelled

-- The second half of `deschedule`, under the lock of `execution_domain`.
unfoldable pub close_domain : KillState → KillState
close_domain k = record k { execution_domain = after_run k.execution_domain }

-- `handle_signal` when it switches to the host for a reason other than an alarm.
unfoldable pub on_fatal_signal : KillState → Result KillError KillState
unfolding disable_termination silence_alarm
on_fatal_signal k =
    let (k', can_terminate) = disable_termination k in
    let (k'', ignored) = silence_alarm k' in
    if can_terminate then ok k' else if ignored then panic else ok k''

-- What `KillSwitch::terminate` does once it has the flag and the lock of `execution_domain`: it
-- returns, or it has sent SIGALRM to a thread and waits, still under the lock, until no thread runs
-- the instance.
pub data Decision : Type 0 where
  returns : KillState → KillResult → Decision
  alarms : ℕ → Decision
  panics : Decision

decide_at : Domain → Option ℕ → KillState → Decision
decide_at guest (some tid) k = alarms tid
decide_at guest none k = panics
decide_at hostcall tid k = returns (record k { execution_domain = terminated }) (ok was_pending)
decide_at pending tid k = returns (record k { execution_domain = cancelled }) (ok was_cancelled)
decide_at cancelled tid k = returns k (err not_terminable)
decide_at terminated tid k = returns k (err not_terminable)

unfoldable pub decide_termination : KillState → Decision
unfolding decide_at
decide_termination k = decide_at k.execution_domain k.thread_id k

-- The end of the wait for the alarm's handler.
unfoldable pub after_alarm : KillState → KillState × KillResult
after_alarm k = (record k { execution_domain = terminated }, ok signalled)

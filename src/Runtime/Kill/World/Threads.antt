-- ===== src/Runtime/Kill/World/Threads.antt =====
-- The moves of the instance's thread keep the invariant.
use lucet.Prelude.{ℕ, ◌≡◌, arith, some}
use lucet.Runtime.Kill.{
  disable_termination, alarm_active, enter_guest_region, exit_guest_region, begin_hostcall,
  end_hostcall, schedule, clear_thread, close_domain, on_fatal_signal,
}
use lucet.Runtime.Kill.World.{
  World, step, run, enter, call, return, yields, terminate, exit, check, fault, alarm_arrives,
  clear, close, replace,
}
use lucet.Runtime.Kill.World.Invariant.{Inv, waits-le-pends}

pub run-Inv : (w w' : World) (tid : ℕ) → step w (run tid) ≡ some w' → Inv w → Inv w'
unfolding step schedule
run-Inv w w' tid h v = ground arith

pub enter-Inv : (w w' : World) → step w enter ≡ some w' → Inv w → Inv w'
unfolding step enter_guest_region
enter-Inv w w' h v = ground arith

pub call-Inv : (w w' : World) → step w call ≡ some w' → Inv w → Inv w'
unfolding step begin_hostcall
call-Inv w w' h v = ground arith

pub return-Inv : (w w' : World) → step w return ≡ some w' → Inv w → Inv w'
unfolding step end_hostcall
return-Inv w w' h v = ground arith

pub yields-Inv : (w w' : World) → step w yields ≡ some w' → Inv w → Inv w'
unfolding step
yields-Inv w w' h v = ground arith

pub terminate-Inv : (w w' : World) → step w terminate ≡ some w' → Inv w → Inv w'
unfolding step
terminate-Inv w w' h v = ground arith

pub exit-Inv : (w w' : World) → step w exit ≡ some w' → Inv w → Inv w'
unfolding step disable_termination
exit-Inv w w' h v = ground (arith, waits-le-pends w.switches)

pub check-Inv : (w w' : World) → step w check ≡ some w' → Inv w → Inv w'
unfolding step exit_guest_region
check-Inv w w' h v = ground arith

pub fault-Inv : (w w' : World) → step w fault ≡ some w' → Inv w → Inv w'
unfolding step on_fatal_signal
fault-Inv w w' h v = ground (arith, waits-le-pends w.switches)

pub alarm_arrives-Inv : (w w' : World) → step w alarm_arrives ≡ some w' → Inv w → Inv w'
unfolding step alarm_active
alarm_arrives-Inv w w' h v = ground (arith, waits-le-pends w.switches)

pub clear-Inv : (w w' : World) → step w clear ≡ some w' → Inv w → Inv w'
unfolding step clear_thread
clear-Inv w w' h v = ground arith

pub close-Inv : (w w' : World) → step w close ≡ some w' → Inv w → Inv w'
unfolding step close_domain
close-Inv w w' h v = ground arith

pub replace-Inv : (w w' : World) → step w replace ≡ some w' → Inv w → Inv w'
unfolding step
replace-Inv w w' h v = ground arith

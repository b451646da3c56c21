-- ===== src/Runtime/Kill/World/Steps.antt =====
-- Every move keeps the invariant.
use lucet.Prelude.{◌≡◌, some}
use lucet.Runtime.Kill.World.{
  World, Move, step, run, enter, call, return, yields, terminate, exit, check, fault, alarm_arrives,
  clear, close, replace, switch,
}
use lucet.Runtime.Kill.World.Invariant.{Inv}
use lucet.Runtime.Kill.World.Threads.{
  run-Inv, enter-Inv, call-Inv, return-Inv, yields-Inv, terminate-Inv, exit-Inv, check-Inv,
  fault-Inv, alarm_arrives-Inv, clear-Inv, close-Inv, replace-Inv,
}
use lucet.Runtime.Kill.World.Switches.{switch-Inv}

-- Every step keeps the invariant.
pub step-Inv : (w w' : World) (m : Move) → step w m ≡ some w' → Inv w → Inv w'
step-Inv w w' (run tid) h v = run-Inv w w' tid h v
step-Inv w w' enter h v = enter-Inv w w' h v
step-Inv w w' call h v = call-Inv w w' h v
step-Inv w w' return h v = return-Inv w w' h v
step-Inv w w' yields h v = yields-Inv w w' h v
step-Inv w w' terminate h v = terminate-Inv w w' h v
step-Inv w w' exit h v = exit-Inv w w' h v
step-Inv w w' check h v = check-Inv w w' h v
step-Inv w w' fault h v = fault-Inv w w' h v
step-Inv w w' alarm_arrives h v = alarm_arrives-Inv w w' h v
step-Inv w w' clear h v = clear-Inv w w' h v
step-Inv w w' close h v = close-Inv w w' h v
step-Inv w w' replace h v = replace-Inv w w' h v
step-Inv w w' (switch i) h v = switch-Inv w w' i h v

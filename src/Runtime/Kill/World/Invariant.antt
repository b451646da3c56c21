-- ===== src/Runtime/Kill/World/Invariant.antt =====
-- What holds in every interleaving.
use lucet.Prelude.{ℕ, ◌≤◌, ◌≡◌, ◌≢◌, arith, Bool, true, false, not, none, List, [], ◌∷◌, ok}
use lucet.Runtime.Kill.{Domain, pending, guest, hostcall, terminated, cancelled}
use lucet.Runtime.Kill.World.{
  World, Thread, idle, entering, in_guest, in_hostcall, exiting, spinning, finished, crashed,
  leaving, locking, stopped, Switch, ready, upgraded, owner, waiting, panicked, done, returned,
}
use lucet.Prelude.Sums.{total}

-- A switch that has the flag and has not finished with it.
abbrev pub pends : Switch → ℕ
pends owner = 1
pends waiting = 1
pends ready = 0
pends upgraded = 0
pends panicked = 0
pends (done r) = 0
pends (returned r) = 0

abbrev pub waits : Switch → ℕ
waits waiting = 1
waits owner = 0
waits ready = 0
waits upgraded = 0
waits panicked = 0
waits (done r) = 0
waits (returned r) = 0

-- A switch that has the flag, panicked with it, or succeeded.
abbrev pub wins : Switch → ℕ
wins owner = 1
wins waiting = 1
wins panicked = 1
wins (done (ok r)) = 1
wins (returned (ok r)) = 1
wins ready = 0
wins upgraded = 0
wins (done _) = 0
wins (returned _) = 0

abbrev flag : Bool → ℕ
flag true = 1
flag false = 0

-- The flag is free or some switch is at work with it.
abbrev Claimed : World → Type 0
Claimed w = total pends w.switches ≡ flag (not w.kill.terminable)

abbrev Quiet : World → Type 0
Quiet w = (w.alarm ≡ false) × (w.locked ≡ false) × (w.kill.ignore_alarm ≡ false)

abbrev HostcallFits : World → Domain → Type 0
HostcallFits w hostcall = Claimed w
HostcallFits w terminated = w.kill.terminable ≡ false
HostcallFits w pending = ⊥
HostcallFits w guest = ⊥
HostcallFits w cancelled = ⊥

abbrev EntryFits : World → Domain → Type 0
EntryFits w pending = Claimed w
EntryFits w cancelled = w.kill.terminable ≡ false
EntryFits w hostcall = ⊥
EntryFits w terminated = ⊥
EntryFits w guest = ⊥

-- The host's side: a yielded instance is still in its hostcall, and no alarm can act.
abbrev HostFits : World → Bool → Type 0
HostFits w true = Quiet w × HostcallFits w w.kill.execution_domain
HostFits w false =
    (w.kill.execution_domain ≢ pending)
    × (w.locked ≡ true → w.kill.execution_domain ≡ guest)
    × (w.kill.execution_domain ≡ guest → w.kill.terminable ≡ false)
    × (w.kill.execution_domain ≡ guest
        → w.kill.ignore_alarm ≡ false
        → total pends w.switches ≡ flag w.locked)

abbrev ThreadFits : World → Thread → Type 0
ThreadFits w idle = Quiet w × EntryFits w w.kill.execution_domain × (w.kill.thread_id ≡ none)
ThreadFits w entering = Quiet w × EntryFits w w.kill.execution_domain × (w.kill.thread_id ≢ none)
ThreadFits w in_guest =
    (w.alarm ≡ w.locked)
    × (w.kill.ignore_alarm ≡ false)
    × Claimed w
    × (w.kill.execution_domain ≡ guest)
    × (w.kill.thread_id ≢ none)
ThreadFits w in_hostcall =
    Quiet w × HostcallFits w w.kill.execution_domain × (w.kill.thread_id ≢ none)
ThreadFits w exiting =
    Quiet w
    × (w.kill.terminable ≡ false)
    × (total pends w.switches ≡ 0)
    × (w.kill.execution_domain ≡ guest)
    × (w.kill.thread_id ≢ none)
ThreadFits w spinning =
    (w.alarm ≡ w.locked)
    × (w.kill.ignore_alarm ≡ false)
    × (w.kill.terminable ≡ false)
    × (total pends w.switches ≡ 1)
    × (w.kill.execution_domain ≡ guest)
    × (w.kill.thread_id ≢ none)
ThreadFits w (leaving yielded) = HostFits w yielded × (w.kill.thread_id ≢ none)
ThreadFits w (locking yielded) = HostFits w yielded × (w.kill.thread_id ≡ none)
ThreadFits w (stopped yielded) =
    HostFits w yielded × (w.kill.execution_domain ≢ guest) × (w.kill.thread_id ≡ none)
ThreadFits w finished = (w.kill.execution_domain ≢ guest) × (w.locked ≡ false)
ThreadFits w crashed = Unit {0}

abbrev AlarmFits : World → Thread → Type 0
AlarmFits w in_guest = Unit {0}
AlarmFits w spinning = Unit {0}
AlarmFits w crashed = Unit {0}
AlarmFits w _ = w.alarm ≡ true → w.kill.ignore_alarm ≡ true

abbrev PoisonFits : World → Thread → Type 0
PoisonFits w crashed = Unit {0}
PoisonFits w (locking yielded) =
    w.poisoned ≡ true → (w.kill.execution_domain ≡ guest) × (w.locked ≡ false)
PoisonFits w _ = w.poisoned ≡ false

pub record Inv (w : World) : Type 0 where
  pub one_winner : total wins w.switches ≤ flag (not w.kill.terminable)
  pub lock_held : total waits w.switches ≡ flag w.locked
  pub thread_fits : ThreadFits w w.thread
  pub alarm_fits : AlarmFits w w.thread
  pub poison_fits : PoisonFits w w.thread

pub waits-le-pends : (xs : List Switch) → total waits xs ≤ total pends xs
unfolding total
waits-le-pends [] = omega arith
waits-le-pends (x ∷ xs) = ground (arith, waits-le-pends xs)

-- ===== src/Runtime/Uffd/Handler.antt =====
-- The handler of page faults in region/uffd.rs: `page_fault_handler`, the loop of
-- `uffd_worker_thread` over what `poll` and the handle report, and the thread around it.
use lucet.Prelude.{
  ℕ, ◌-◌, ◌%◌, Bool, true, false, not, ◌&&◌, Option, some, none, List, [], ◌∷◌, ltb, leb, ◌==◌,
  add_usize, sub_usize, mul_usize, if◌then◌else◌, Result, ok, err, panic, fail_if,
}
use lucet.Prelude.Effects.{◌>>=◌, ◌>>◌, pure, lift, get, put}
use lucet.Runtime.Error.{Error, internal_error, host_page_size}
use lucet.Runtime.Limits.{Limits, total_memory_size}
use lucet.Runtime.Alloc.{addr_location}
use lucet.Runtime.Userfault.{Userfault}
use lucet.Runtime.Uffd.{UffdConfig, Resident, Step, serve}

-- `revents` of a descriptor, of which the code tests two flags.
pub record Revents : Type 0 where
  pub pollerr : Bool
  pub pollin : Bool

-- `Uffd::read_event`
pub data ReadEvent : Type 0 where
  read_error no_event : ReadEvent
  pagefault : ℕ → ReadEvent
  other_event : ReadEvent

-- One round of polling: the call fails, times out, or reports the flags of the handle and the pipe,
-- and an event is there to be read.
pub data Poll : Type 0 where
  poll_error timeout : Poll
  ready : (uffd pipe : Option Revents) → ReadEvent → Poll

-- What a round leads to, and how far the loop has come.
pub data Next : Type 0 where
  continues breaks : Next

pub data Progress : Type 0 where
  polling stopped : Progress

-- The guard on the handle's flags, and the test of the pipe's that ends the loop.
abbrev pub check_pipe : Option Revents → Result Error Bool
check_pipe none = ok false
check_pipe (some ev) = if ev.pollerr then err (internal_error "pipe event error") else ok ev.pollin

abbrev pub check_uffd : Option Revents → Result Error (Unit {0})
check_uffd none = ok tt
check_uffd (some ev) =
    fail_if (not (not ev.pollerr && ev.pollin)) (internal_error "unexpected uffd event flags")

module _ (k : Userfault) (config : UffdConfig) (limits : Limits)
    (region_start instance_capacity : ℕ) (residents : ℕ → Resident) where
  unfoldable pub page_fault_handler : ℕ → Step k (Unit {0})
  page_fault_handler fault_addr = do
    let fault_page = fault_addr - fault_addr % host_page_size
    instance_size ← lift (total_memory_size limits)
    let region_end = add_usize region_start (mul_usize instance_size instance_capacity)
    lift (
        fail_if (not (leb region_start fault_addr && ltb fault_addr region_end))
          (internal_error "fault addr outside uffd region"))
    let fault_offs = sub_usize fault_addr region_start
    let fault_base = fault_offs - fault_offs % instance_size
    let inst_base = add_usize region_start fault_base
    lift (fail_if (inst_base == 0) (internal_error "instance pointer is non-null"))
    let inst = residents inst_base
    lift (fail_if (not inst.valid_magic) (internal_error "instance magic incorrect"))
    loc ← lift (addr_location inst.alloc fault_addr)
    serve k config inst.module_ inst.alloc fault_page loc

  abbrev pub read_round : ReadEvent → Step k Next
  read_round read_error = lift (err (internal_error "error reading event from uffd"))
  read_round no_event = lift (err (internal_error "uffd had POLLIN set, but could not be read"))
  read_round (pagefault addr) = page_fault_handler addr >> pure continues
  read_round other_event = lift (err (internal_error "unexpected uffd event"))

  -- One round of the loop.
  unfoldable pub poll_round : Poll → Step k Next
  poll_round poll_error = lift (err (internal_error "nix error"))
  poll_round timeout = pure continues
  poll_round (ready uffd pipe event) = do
    stop ← lift (check_pipe pipe)
    elim stop [ true ↦ pure breaks | false ↦ lift (check_uffd uffd) >> read_round event ]

-- A round of the loop among the other threads: what they have done to the memory since the last
-- round, what is at the start of each slot by then, and what the poll reports.
pub record Round (k : Userfault) : Type 0 where
  pub others : k.Mem → k.Mem
  pub residents : ℕ → Resident
  pub poll : Poll

module _ (k : Userfault) (config : UffdConfig) (limits : Limits)
    (region_start instance_capacity : ℕ) where
  unfoldable pub uffd_worker_thread : List (Round k) → Step k Progress
  uffd_worker_thread [] = pure polling
  uffd_worker_thread (r ∷ rounds) = do
    m ← get
    put (r.others m)
    next ← poll_round k config limits region_start instance_capacity r.residents r.poll
    elim next [ continues ↦ uffd_worker_thread rounds | breaks ↦ pure stopped ]

  -- The end of the spawned thread. An abort of the process is a panic; a failure of the last two
  -- calls is only logged.
  abbrev pub close_thread : ℕ → Result Error Progress × k.Mem → Result Error Progress × k.Mem
  close_thread size (ok done_, m) = (ok done_, m)
  close_thread size (panic, m) = (panic, m)
  close_thread size (err e, m) =
      if config.abort_on_handler_error
      then (panic, m)
      else (err e, (k.wake region_start size (k.unregister region_start size m).1).1)

  unfoldable pub handler_thread : ℕ → List (Round k) → Step k Progress
  handler_thread total_region_size rounds m =
      close_thread total_region_size (uffd_worker_thread rounds m)

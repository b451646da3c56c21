-- ===== src/Runtime/Instance/Memory.antt =====
-- `reset` and `grow_memory` of an instance, over the heap of its slot.
use lucet.Prelude.{
  ℕ, zero, suc, ◌+◌, ◌*◌, ◌/◌, ◌<◌, ◌≤◌, ◌≡◌, inl, inr, subst, ◌∙◌, arith, refl, some, ok, List, [],
  ◌∷◌, u32_mod, as_u32, ok-cases, get_elem?, set, length,
}
use lucet.LucetModule.LinearMemory.{HeapSpec}
use lucet.LucetModule.Globals.{GlobalSpec, GlobalDef, GlobalValue, Global, def, import, init_val}
use lucet.Runtime.Module.{Module}
use lucet.Runtime.Slot.{Slot}
use lucet.Runtime.Kill.{new}
use lucet.Runtime.Vm.{Vm, VmLaws}
use lucet.Runtime.Mmap.{reset_heap, expand_heap}
use lucet.Runtime.Mmap.Heap.{HeapPlaced, HeapValid, Grown, expand_heap-Grown}
use lucet.Runtime.Mmap.Image.{IsReset, IsLoadable, reset_heap-IsReset}
use lucet.Runtime.Instance.{Instance}
use lucet.Runtime.Instance.Run.{write_global, init_globals, state_of, reset, grow_memory}

grow_memory-eq-ok :
    (vm : Vm) (i : Instance vm.Mem) (m : Module) (pages r : ℕ)
    → (grow_memory vm m pages i).0 ≡ ok r
    → (pages * 65536 < u32_mod)
      × (x : ℕ) × ((expand_heap vm (pages * 65536) m i.machine).0 ≡ ok x)
      × (r ≡ x / 65536)
      × ((grow_memory vm m pages i).1.machine ≡ (expand_heap vm (pages * 65536) m i.machine).1)
unfolding grow_memory
grow_memory-eq-ok vm i m pages r h =
    elim (ok-cases (expand_heap vm (pages * 65536) m i.machine).0) [
      | inl (x, q) ↦ (ground arith, x, q, ground arith, ground arith)
      | inr bad ↦ absurd (ground arith)
    ]

module _ (vm : Vm) (laws : VmLaws vm) (slot : Slot) (placed : HeapPlaced slot) where
  -- A successful `grow_memory` by a number of 64 KiB pages returns the number of pages that there
  -- were, if there were less than 4 GiB, and has grown the heap by exactly that many bytes, to a
  -- valid heap that the module and the limits allow.
  pub grow_memory-Grown :
      (i : Instance vm.Mem) (m : Module) (spec : HeapSpec) (pages r : ℕ)
      → HeapValid vm slot i.machine
      → i.machine.alloc.heap_memory_size_limit ≤ u32_mod
      → m.heap_spec ≡ some spec
      → (grow_memory vm m pages i).0 ≡ ok r
      → (pages * 65536 < u32_mod)
        × (r ≡ as_u32 i.machine.alloc.heap_accessible_size / 65536)
        × ((grow_memory vm m pages i).1.machine.alloc.heap_accessible_size
            ≡ i.machine.alloc.heap_accessible_size + pages * 65536)
        × Grown vm slot i.machine
            (pages * 65536)
            (as_u32 i.machine.alloc.heap_accessible_size)
            spec
            (grow_memory vm m pages i).1.machine
  grow_memory-Grown i m spec pages r v limit q h =
      let (small, x, grown, result, final) = grow_memory-eq-ok vm i m pages r h in
      let g =
        expand_heap-Grown vm laws slot placed i.machine (pages * 65536) x m spec v limit q grown in
      rw final (
        small,
        omega (arith, result, g),
        omega (arith, g),
        subst
            (λ y.
              Grown vm slot i.machine (pages * 65536) y spec
                (expand_heap vm (pages * 65536) m i.machine).1)
            g.result g,
      )

-- Each global of the module is defined, and the instance holds its initial value.
abbrev pub Initialized : List GlobalSpec → List GlobalValue → Type 0
Initialized gs vs =
    (k : ℕ) (g : GlobalSpec)
    → get_elem? gs k ≡ some g
    → (d : GlobalDef) × (g.global ≡ def d) × (get_elem? vs k ≡ some (init_val d))

get-set-same :
    {A : Type 0} (xs : List A) (k : ℕ) (a : A) → k < length xs → get_elem? (set xs k a) k ≡ some a
get-set-same [] k a h = absurd (omega (arith, h))
get-set-same (x ∷ xs) zero a h = refl
get-set-same (x ∷ xs) (suc k) a h = get-set-same xs k a (omega (arith, h))

get-set-other :
    {A : Type 0} (xs : List A) (k j : ℕ) (a : A) → j < k → get_elem? (set xs k a) j ≡ get_elem? xs j
get-set-other [] k j a h = refl
get-set-other (x ∷ xs) zero j a h = absurd (omega (arith, h))
get-set-other (x ∷ xs) (suc k) zero a h = refl
get-set-other (x ∷ xs) (suc k) (suc j) a h = get-set-other xs k j a (omega (arith, h))

write_global-eq-ok :
    {Mem : Type 0} (k : ℕ) (g : Global) (i : Instance Mem)
    → (write_global k g i).0 ≡ ok tt
    → (d : GlobalDef) × (g ≡ def d)
      × (k < length i.globals)
      × ((write_global k g i).1 ≡ record i { globals = set i.globals k (init_val d) })
unfolding write_global
write_global-eq-ok k (import a b) i h = cc
write_global-eq-ok k (def d) i h = (d, refl, ground arith, ground arith)

-- What a successful loop over the globals from index `k` on has done.
record Wrote {Mem : Type 0} (gs : List GlobalSpec) (k : ℕ) (i i' : Instance Mem) : Type 0 where
  same_machine : i'.machine ≡ i.machine
  kept : (j : ℕ) → j < k → get_elem? i'.globals j ≡ get_elem? i.globals j
  written :
      (j x : ℕ) (g : GlobalSpec)
      → x ≡ k + j
      → get_elem? gs j ≡ some g
      → (d : GlobalDef) × (g.global ≡ def d) × (get_elem? i'.globals x ≡ some (init_val d))

init_globals-cons :
    {Mem : Type 0} (g : GlobalSpec) (gs : List GlobalSpec) (k : ℕ) (i : Instance Mem)
    → (init_globals (g ∷ gs) k i).0 ≡ ok tt
    → ((write_global k g.global i).0 ≡ ok tt)
      × (init_globals (g ∷ gs) k i ≡ init_globals gs (k + 1) (write_global k g.global i).1)
unfolding init_globals
init_globals-cons g gs k i h = ground arith

Wrote-cons :
    {Mem : Type 0} (g : GlobalSpec) (gs : List GlobalSpec) (k : ℕ) (i i' : Instance Mem)
    (d : GlobalDef)
    → g.global ≡ def d
    → k < length i.globals
    → Wrote gs (k + 1) (record i { globals = set i.globals k (init_val d) }) i'
    → Wrote (g ∷ gs) k i i'
Wrote-cons g gs k i i' d is_def fits w = record {
  same_machine = w.same_machine;
  kept = λ j l. w.kept j (omega (arith, l)) ∙ get-set-other i.globals k j (init_val d) l;
  written = at;
}
  where
    at :
        (j x : ℕ) (g' : GlobalSpec)
        → x ≡ k + j
        → get_elem? (g ∷ gs) j ≡ some g'
        → (e : GlobalDef) × (g'.global ≡ def e) × (get_elem? i'.globals x ≡ some (init_val e))
    at zero x g' h q =
        let here : x ≡ k = omega (arith, h) in
        rw here (d, cc, w.kept k (omega arith) ∙ get-set-same i.globals k (init_val d) fits)
    at (suc j) x g' h q = w.written j x g' (omega (arith, h)) q

init_globals-nil : {Mem : Type 0} (k : ℕ) (i : Instance Mem) → init_globals [] k i ≡ (ok tt, i)
unfolding init_globals
init_globals-nil k i = refl

init_globals-Wrote :
    {Mem : Type 0} (gs : List GlobalSpec) (k : ℕ) (i : Instance Mem)
    → (init_globals gs k i).0 ≡ ok tt
    → Wrote gs k i (init_globals gs k i).1
init_globals-Wrote [] k i h =
    rw (init_globals-nil k i)
      (record { same_machine = refl; kept = λ j l. refl; written = λ j x g n e. cc })
init_globals-Wrote (g ∷ gs) k i h =
    let (done, rest) = init_globals-cons g gs k i h in
    let (d, is_def, fits, final) = write_global-eq-ok k g.global i done in
    let w = init_globals-Wrote gs (k + 1) (write_global k g.global i).1 (rw rest at h) in
    rw rest (
      Wrote-cons g gs k i _ d is_def fits (
        subst (λ y. Wrote gs (k + 1) y (init_globals gs (k + 1) (write_global k g.global i).1).1)
          final w))

-- What a successful reset makes of an instance.
pub record IsFreshInstance (vm : Vm) (slot : Slot) (m : Module) (i : Instance vm.Mem) : Type 0 where
  pub heap : IsReset vm slot m i.machine
  pub globals_set : Initialized m.globals i.globals
  pub state_set : i.state ≡ state_of m.start_func
  pub kill_state_set : i.kill_state ≡ new

reset-eq-ok :
    (vm : Vm) (m : Module) (i : Instance vm.Mem)
    → (reset vm m i).0 ≡ ok tt
    → let i1 : Instance vm.Mem = record i { machine = (reset_heap vm m i.machine).1 } in
      ((reset_heap vm m i.machine).0 ≡ ok tt)
      × ((init_globals m.globals 0 i1).0 ≡ ok tt)
      × ((reset vm m i).1 ≡ record ((init_globals m.globals 0 i1).1) {
        state = state_of m.start_func;
        kill_state = new;
      })
unfolding reset
reset-eq-ok vm m i h = ground arith

module _ (vm : Vm) (laws : VmLaws vm) (slot : Slot) (placed : HeapPlaced slot) (m : Module)
    (good : IsLoadable slot m) where
  -- For a module whose initial heap is a number of whole pages of 4096 bytes that fit the slot, and
  -- whose page data are pages of that size: a successful `reset` makes an instance with a valid heap
  -- new. The heap has the module's initial size and contents, every global of the module its initial
  -- value, the state says whether the start function is still to run, and the kill state is new.
  -- Of other modules nothing is said; the code does not refuse an initial size with a part of a page.
  pub reset-IsFreshInstance :
      (i : Instance vm.Mem)
      → HeapValid vm slot i.machine
      → (reset vm m i).0 ≡ ok tt
      → IsFreshInstance vm slot m (reset vm m i).1
  reset-IsFreshInstance i v h =
      let (cleared, wrote, final) = reset-eq-ok vm m i h in
      let i1 : Instance vm.Mem = record i { machine = (reset_heap vm m i.machine).1 } in
      let w = init_globals-Wrote m.globals 0 i1 wrote in
      rw (final, w.same_machine)
        (record {
          heap = reset_heap-IsReset vm laws slot placed m good i.machine v cleared;
          globals_set = λ k g q. w.written k k g (omega arith) q;
          state_set = refl;
          kill_state_set = refl;
        })

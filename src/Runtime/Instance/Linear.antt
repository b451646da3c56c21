-- ===== src/Runtime/Instance/Linear.antt =====
-- The memory of an instance as WebAssembly specifies it: pages of bytes that grow by zeros.
use lucet.Prelude.{
  ℕ, ◌+◌, ◌*◌, ◌≤◌, ◌<◌, ◌≡◌, ◌⊎◌, ◌∙◌, inl, inr, arith, some, ok, ltb, u32_mod, if◌then◌else◌,
}
use lucet.LucetModule.LinearMemory.{HeapSpec}
use lucet.Runtime.Module.{Module}
use lucet.Runtime.Slot.{Slot}
use lucet.Runtime.Vm.{Vm, VmLaws}
use lucet.Runtime.Mmap.{Machine}
use lucet.Runtime.Mmap.Heap.{HeapPlaced, HeapValid}
use lucet.Runtime.Instance.{Instance}
use lucet.Runtime.Instance.Run.{grow_memory}
use lucet.Runtime.Instance.Memory.{grow_memory-Grown}

-- A memory of pages of 64 KiB.
pub record Linear : Type 0 where
  pub pages : ℕ
  pub bytes : ℕ → ℕ

-- `memory.grow`: the bytes stay, and the new pages are zero.
abbrev pub grown : ℕ → Linear → Linear
grown pages m = record {
  pages = m.pages + pages;
  bytes = λ x. if ltb x (m.pages * 65536) then m.bytes x else 0;
}

-- The slot holds the memory: its size, and each of its bytes.
pub record Represents (vm : Vm) (slot : Slot) (s : Machine vm.Mem) (m : Linear) : Type 0 where
  pub size : s.alloc.heap_accessible_size ≡ m.pages * 65536
  pub bytes : (x : ℕ) → x < m.pages * 65536 → vm.byte s.mem (slot.heap + x) ≡ m.bytes x

below_cases : (x n : ℕ) → (x < n) ⊎ (n ≤ x)
below_cases x n = ground arith

module _ (vm : Vm) (laws : VmLaws vm) (slot : Slot) (placed : HeapPlaced slot) where
  -- A successful `grow_memory` of a valid heap with less than 2^16 pages and a limit of at most 4
  -- GiB is `memory.grow`: it returns the number of pages before, and the slot then holds the
  -- memory with that many pages of zeros more as were asked for.
  pub grow_memory-Represents :
      (i : Instance vm.Mem) (m : Module) (spec : HeapSpec) (pages r : ℕ) (linear : Linear)
      → HeapValid vm slot i.machine
      → i.machine.alloc.heap_memory_size_limit ≤ u32_mod
      → m.heap_spec ≡ some spec
      → linear.pages < 65536
      → Represents vm slot i.machine linear
      → (grow_memory vm m pages i).0 ≡ ok r
      → (r ≡ linear.pages)
        × Represents vm slot (grow_memory vm m pages i).1.machine (grown pages linear)
  grow_memory-Represents i m spec pages r linear v limit q few rep h =
      let (small, result, size, g) =
        grow_memory-Grown vm laws slot placed i m spec pages r v limit q h in
      (
        omega (arith, result, rep.size),
        record {
          size = omega (arith, size, rep.size);
          bytes = λ x k.
              g.same_bytes (slot.heap + x) ∙ (elim (below_cases x (linear.pages * 65536)) [
                | inl old ↦ rep.bytes x old ∙ ground (arith, old)
                | inr new_ ↦
                    v.clean (slot.heap + x) (omega (arith, rep.size))
                      (omega (arith, g.valid.sizes, size, rep.size))
                    ∙ ground (arith, new_)
              ]);
        },
      )

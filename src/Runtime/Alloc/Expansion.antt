-- ===== src/Runtime/Alloc/Expansion.antt =====
-- Which expansions of a heap are granted, and of what size.
use lucet.Prelude.{
  ℕ, ◌+◌, ◌-◌, ◌≢◌, ◌*◌, ◌/◌, ◌%◌, ◌≤◌, ◌<◌, ◌≡◌, ◌↔◌, arith, Option, some, none, ok, u32_mod,
  usize_mod,
}
use lucet.LucetModule.LinearMemory.{HeapSpec}
use lucet.Runtime.Alloc.{Alloc, expansion, page_aligned}

-- What every alloc satisfies: the two sizes make up the heap's address space, in whole pages.
pub record SizesValid (space : ℕ) (a : Alloc) : Type 0 where
  pub split : a.heap_accessible_size + a.heap_inaccessible_size ≡ space
  pub accessible_aligned : a.heap_accessible_size % 4096 ≡ 0
  pub space_aligned : space % 4096 ≡ 0
  pub space_bound : space < usize_mod

abbrev pub MaxAllows : Option ℕ → ℕ → Type 0
MaxAllows none size = Unit {0}
MaxAllows (some max_size) size = size ≤ max_size

-- An expansion to `new_size` accessible bytes that the module and the runtime allow.
pub record Allowed (space : ℕ) (a : Alloc) (spec : HeapSpec) (new_size : ℕ) : Type 0 where
  pub guard_left : new_size + spec.guard_size ≤ space
  pub max_allows : MaxAllows spec.max_size new_size
  pub limit_allows : new_size ≤ a.heap_memory_size_limit

-- The least multiple of the page size that is not below `n`.
abbrev pub round_up : ℕ → ℕ
round_up n = (n + 4095) / 4096 * 4096

pub page_aligned-round_up : (n : ℕ) → n < u32_mod - 4097 → page_aligned n ≡ round_up n
page_aligned-round_up n h = omega arith

module _ (space : ℕ) (a : Alloc) (w : SizesValid space a) (n : ℕ) (spec : HeapSpec) where
  -- A request on a module with a heap is granted exactly if it is at most 2^32 - 4098 bytes and the
  -- heap, grown by the request rounded up to whole pages, keeps the guard that the compiler relied
  -- on and stays within the module's and the runtime's limits; the size granted is the rounded one.
  pub expansion-Allowed :
      (e : ℕ)
      → (expansion a n (some spec) ≡ ok e) ↔ (
          (n < u32_mod - 4097)
          × (e ≡ round_up n)
          × Allowed space a spec (a.heap_accessible_size + round_up n))
  unfolding expansion
  expansion-Allowed e = (λ h. ground arith, λ h. ground arith)

-- Without a heap no expansion is granted.
pub expansion_no_heap : (a : Alloc) (n e : ℕ) → expansion a n none ≢ ok e
unfolding expansion
expansion_no_heap a n e h = ground arith

-- ===== src/Runtime/Vm.antt =====
-- The virtual memory that the operating system and the processor provide. The runtime only calls
-- these operations (`libc::mprotect`, `nix`'s `madvise`, stores through slices), so they are a
-- parameter of the model; `VmLaws` states their documented behaviour, and `plain` satisfies it.
pub mod Plain
use lucet.Prelude.{
  ℕ, ◌+◌, ◌-◌, ◌%◌, ◌≡◌, Bool, true, false, List, ◌&&◌, ltb, leb, length, get_or, if◌then◌else◌,
}

abbrev pub in_range : ℕ → ℕ → ℕ → Bool
in_range x from to = leb from x && ltb x to

pub record Vm : Type 1 where
  pub Mem : Type 0
  -- whether a byte can be read and written, and what it holds
  pub accessible : Mem → ℕ → Bool
  pub byte : Mem → ℕ → ℕ
  -- `mprotect(addr, len, PROT_READ | PROT_WRITE)` if the flag is set, else `PROT_NONE`; the result
  -- says whether the call succeeded
  pub mprotect : ℕ → ℕ → Bool → Mem → Bool × Mem
  -- `madvise(addr, len, MADV_DONTNEED)`
  pub madvise : ℕ → ℕ → Mem → Bool × Mem
  -- a copy of bytes to an address
  pub store : ℕ → List ℕ → Mem → Mem

-- mprotect(2), and madvise(2) on a private anonymous mapping: on success a call acts on exactly the
-- whole pages that it is given. Nothing is known of the memory after a call that fails.
pub record VmLaws (vm : Vm) : Type 0 where
  pub mprotect_accessible :
      (a n : ℕ) (rw : Bool) (m : vm.Mem) (x : ℕ)
      → a % 4096 ≡ 0
      → n % 4096 ≡ 0
      → (vm.mprotect a n rw m).0 ≡ true
      → vm.accessible (vm.mprotect a n rw m).1 x
        ≡ (if in_range x a (a + n) then rw else vm.accessible m x)
  pub mprotect_byte :
      (a n : ℕ) (rw : Bool) (m : vm.Mem) (x : ℕ)
      → (vm.mprotect a n rw m).0 ≡ true
      → vm.byte (vm.mprotect a n rw m).1 x ≡ vm.byte m x
  pub madvise_accessible :
      (a n : ℕ) (m : vm.Mem) (x : ℕ)
      → (vm.madvise a n m).0 ≡ true
      → vm.accessible (vm.madvise a n m).1 x ≡ vm.accessible m x
  pub madvise_byte :
      (a n : ℕ) (m : vm.Mem) (x : ℕ)
      → a % 4096 ≡ 0
      → n % 4096 ≡ 0
      → (vm.madvise a n m).0 ≡ true
      → vm.byte (vm.madvise a n m).1 x ≡ (if in_range x a (a + n) then 0 else vm.byte m x)
  pub store_accessible :
      (a : ℕ) (bs : List ℕ) (m : vm.Mem) (x : ℕ)
      → vm.accessible (vm.store a bs m) x ≡ vm.accessible m x
  pub store_byte :
      (a : ℕ) (bs : List ℕ) (m : vm.Mem) (x : ℕ)
      → vm.byte (vm.store a bs m) x
        ≡ (if in_range x a (a + length bs) then get_or bs (x - a) 0 else vm.byte m x)

-- ===== src/Runtime/Userfault.antt =====
-- The memory behind a userfaultfd handle. The runtime only calls these operations (the crate
-- `userfaultfd`, `nix`'s `madvise`, stores through slices), so they are a parameter of the model;
-- `UserfaultLaws` states their documented behaviour, and `lazy` satisfies it.
pub mod Lazy
use lucet.Prelude.{
  ℕ, ◌+◌, ◌-◌, ◌%◌, ◌≡◌, Bool, true, false, List, ◌&&◌, length, get_or, if◌then◌else◌,
}
use lucet.Runtime.Vm.{in_range}

-- What an ioctl that fills pages answers: the bytes filled, `ENOENT`, or another error.
pub data Reply : Type 0 where
  done : ℕ → Reply
  no_entry : Reply
  failed : Reply

pub record Userfault : Type 1 where
  pub Mem : Type 0
  -- whether the page of an address has physical memory, what the byte there is, and whether a
  -- thread sleeps on a fault there
  pub present : Mem → ℕ → Bool
  pub byte : Mem → ℕ → ℕ
  pub asleep : Mem → ℕ → Bool
  -- `Uffd::zeropage(start, len, wake)`
  pub zeropage : ℕ → ℕ → Bool → Mem → Reply × Mem
  -- `Uffd::copy(src, dst, len, wake)`, with the bytes at `src`
  pub copy : List ℕ → ℕ → ℕ → Bool → Mem → Reply × Mem
  -- `Uffd::wake(start, len)` and `madvise(start, len, MADV_DONTNEED)`; the result says whether the
  -- call succeeded
  pub wake : ℕ → ℕ → Mem → Bool × Mem
  pub madvise : ℕ → ℕ → Mem → Bool × Mem
  -- `Uffd::unregister(start, len)`
  pub unregister : ℕ → ℕ → Mem → Bool × Mem
  -- a copy of bytes to an address
  pub store : ℕ → List ℕ → Mem → Mem

-- Two memories with the same pages, bytes and sleepers.
abbrev pub SameMem : (k : Userfault) → k.Mem → k.Mem → Type 0
SameMem k m m' =
    (x : ℕ)
    → (k.present m' x ≡ k.present m x) × (k.byte m' x ≡ k.byte m x) × (k.asleep m' x ≡ k.asleep m x)

-- What filling a range with the bytes of `source` makes of a memory: the range had no page before,
-- and the sleepers in it are woken if `wake` is set.
pub record Filled (k : Userfault) (start len : ℕ) (wake : Bool) (source : ℕ → ℕ) (m m' : k.Mem)
    : Type 0 where
  pub absent : (x : ℕ) → in_range x start (start + len) ≡ true → k.present m x ≡ false
  pub present :
      (x : ℕ) → k.present m' x ≡ (if in_range x start (start + len) then true else k.present m x)
  pub byte :
      (x : ℕ) → k.byte m' x ≡ (if in_range x start (start + len) then source x else k.byte m x)
  pub asleep :
      (x : ℕ)
      → k.asleep m' x ≡ (if wake && in_range x start (start + len) then false else k.asleep m x)

-- ioctl_userfaultfd(2) and madvise(2): a call that succeeds has filled exactly its range, and one
-- that answers `ENOENT` has filled nothing; madvise(2) rounds a length up to whole pages, so its laws
-- are of whole pages. Nothing is known of the memory after another failure.
pub record UserfaultLaws (k : Userfault) : Type 0 where
  pub zeropage_fills :
      (a n l : ℕ) (w : Bool) (m : k.Mem)
      → (k.zeropage a n w m).0 ≡ done l
      → Filled k a n w (λ x. 0) m (k.zeropage a n w m).1
  pub zeropage_retry :
      (a n : ℕ) (w : Bool) (m : k.Mem)
      → (k.zeropage a n w m).0 ≡ no_entry
      → SameMem k m (k.zeropage a n w m).1
  pub copy_fills :
      (bs : List ℕ) (a n l : ℕ) (w : Bool) (m : k.Mem)
      → length bs ≡ n
      → (k.copy bs a n w m).0 ≡ done l
      → Filled k a n w (λ x. get_or bs (x - a) 0) m (k.copy bs a n w m).1
  pub copy_retry :
      (bs : List ℕ) (a n : ℕ) (w : Bool) (m : k.Mem)
      → (k.copy bs a n w m).0 ≡ no_entry
      → SameMem k m (k.copy bs a n w m).1
  pub wake_present :
      (a n : ℕ) (m : k.Mem) (x : ℕ)
      → (k.wake a n m).0 ≡ true
      → k.present (k.wake a n m).1 x ≡ k.present m x
  pub wake_byte :
      (a n : ℕ) (m : k.Mem) (x : ℕ)
      → (k.wake a n m).0 ≡ true
      → k.byte (k.wake a n m).1 x ≡ k.byte m x
  pub wake_asleep :
      (a n : ℕ) (m : k.Mem) (x : ℕ)
      → (k.wake a n m).0 ≡ true
      → k.asleep (k.wake a n m).1 x ≡ (if in_range x a (a + n) then false else k.asleep m x)
  pub madvise_present :
      (a n : ℕ) (m : k.Mem) (x : ℕ)
      → n % 4096 ≡ 0
      → (k.madvise a n m).0 ≡ true
      → k.present (k.madvise a n m).1 x ≡ (if in_range x a (a + n) then false else k.present m x)
  pub madvise_byte :
      (a n : ℕ) (m : k.Mem) (x : ℕ)
      → n % 4096 ≡ 0
      → (k.madvise a n m).0 ≡ true
      → in_range x a (a + n) ≡ false
      → k.byte (k.madvise a n m).1 x ≡ k.byte m x
  pub store_present :
      (a : ℕ) (bs : List ℕ) (m : k.Mem) (x : ℕ) → k.present (k.store a bs m) x ≡ k.present m x
  pub store_byte :
      (a : ℕ) (bs : List ℕ) (m : k.Mem) (x : ℕ)
      → k.byte (k.store a bs m) x
        ≡ (if in_range x a (a + length bs) then get_or bs (x - a) 0 else k.byte m x)

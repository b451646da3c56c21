-- ===== src/Runtime/Limits/Valid.antt =====
-- What `Limits::validate` accepts, and what `total_memory_size` sums.
use lucet.Prelude.{ℕ, ◌+◌, ◌*◌, ◌%◌, ◌≤◌, ◌<◌, ◌≡◌, ◌↔◌, arith, ok, usize_mod, panic}
use lucet.Runtime.Limits.{Limits, validate, total_memory_size}

-- Limits that the runtime can lay out: page-aligned sizes, and a stack with room in it.
pub record IsValid (l : Limits) : Type 0 where
  pub memory_aligned : l.heap_memory_size % 4096 ≡ 0
  pub space_aligned : l.heap_address_space_size % 4096 ≡ 0
  pub memory_fits : l.heap_memory_size ≤ l.heap_address_space_size
  pub stack_aligned : l.stack_size % 4096 ≡ 0
  pub globals_aligned : l.globals_size % 4096 ≡ 0
  pub stack_nonempty : 0 < l.stack_size
  pub reservation_fits : l.hostcall_reservation ≤ l.stack_size
  pub sigstack_aligned : l.signal_stack_size % 4096 ≡ 0

-- `validate` succeeds exactly on limits whose sizes are page-aligned, whose heap fits its address
-- space, and whose stack is nonempty and holds the hostcall reservation.
pub validate-IsValid : (l : Limits) → (validate l ≡ ok tt) ↔ IsValid l
unfolding validate
validate-IsValid l = (λ h. ground arith, λ v. ground arith)

abbrev pub sum_of : Limits → ℕ
sum_of l =
    3 * 4096 + l.heap_address_space_size + l.stack_size + l.globals_size + l.signal_stack_size

-- The total is the sum of the parts with three pages, or a panic where that leaves 64 bits.
pub total_memory_size_lem :
    (l : Limits)
    → (sum_of l < usize_mod → total_memory_size l ≡ ok (sum_of l))
      × (usize_mod ≤ sum_of l → total_memory_size l ≡ panic)
unfolding total_memory_size
total_memory_size_lem l = (λ h. ground arith, λ h. ground arith)

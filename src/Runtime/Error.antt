-- ===== src/Runtime/Error.antt =====
-- lucet-runtime-internals/src/error.rs and sysdeps/unix.rs. An error keeps its kind and its fixed
-- text; arguments that are formatted into the text are left out.
use lucet.Prelude.{ℕ, Bool, Option, String}
use lucet.Runtime.Kill.{TerminationDetails}

pub data TrapCode : Type 0 where
  stack_overflow heap_out_of_bounds indirect_call_to_null bad_signature : TrapCode
  integer_overflow integer_div_by_zero bad_conversion_to_integer interrupt : TrapCode
  table_out_of_bounds unreachable heap_misaligned : TrapCode

-- `FaultDetails` of instance.rs. What the module says of an address stands for its number.
pub record FaultDetails : Type 0 where
  pub fatal : Bool
  pub trapcode : Option TrapCode
  pub rip_addr : ℕ
  pub rip_addr_details : Option ℕ

pub data Error : Type 0 where
  invalid_argument : String → Error
  region_full : ℕ → Error
  incorrect_module : String → Error
  limits_exceeded : String → Error
  no_linear_memory : String → Error
  internal_error : String → Error
  unsupported : String → Error
  runtime_fault : FaultDetails → Error
  runtime_terminated : TerminationDetails → Error
  instance_not_returned instance_not_yielded instance_needs_start start_already_run : Error

-- `HOST_PAGE_SIZE_EXPECTED`: `host_page_size()` returns this or panics.
abbrev pub host_page_size : ℕ
host_page_size = 4096

-- `WASM_PAGE_SIZE`, in lucet-runtime-internals/src/lib.rs.
abbrev pub wasm_page_size : ℕ
wasm_page_size = 65536
